-- ===== src/Live/Runs.antt =====
-- A connection at concrete inputs, and small libraries for it.
use asrcpp_gigam.Realtime.Settings.{Served, default-Served}
use asrcpp_gigam.Live.Tally.{emit_transcription_events_lem, commit_closes}
use asrcpp_gigam.Live.Rebuilt.{Willing, Replied}
use asrcpp_gigam.Live.Built.{update_answered}
use asrcpp_gigam.Live.Reached.{Step, steps, reached-Inv, arrives, runs, refuses, meanwhile}
use asrcpp_gigam.Live.Counts.{Inv}
use asrcpp_gigam.Live.Dispatch.{text_frame, binary_task, event_task}
use asrcpp_gigam.Live.Commit.{
  emitted, flush_resampler, recognize_turn, commit_turn, handle_audio_commit,
}
use asrcpp_gigam.Live.Handlers.{with_session, emit}
use asrcpp_gigam.Realtime.Runs.{to_opus}
use asrcpp_gigam.Base.{
  length, ℕ, ◌+◌, ◌-◌, ◌≤◌, max, ◌≡◌, refl, false, none, some, List, [], ◌∷◌, arith,
}
use asrcpp_gigam.Base.Int.{ℤ, pos_part}
use asrcpp_gigam.Base.Bytes.{codes}
use asrcpp_gigam.Base.Result.{ok}
use asrcpp_gigam.Base.Floats.{milli}
use asrcpp_gigam.Config.Runs.{given, repaired, validated, milli-Literals}
use asrcpp_gigam.Audio.Resampler.{SrcLibrary}
use asrcpp_gigam.Audio.Runs.{three_samples}
use asrcpp_gigam.Session.Runs.{engines}
use asrcpp_gigam.Json.Sample.{Sample, sample_json, fields, field}
use asrcpp_gigam.Realtime.{
  make_default_realtime_session_config, apply_turn_detection, make_realtime_vad_config, new_session,
  next_event_id,
}
use asrcpp_gigam.Session.Handlers.{
  process_live_chunk_fallback, flush_vad, flush_pending, after_segments, drain, finalize,
  on_recognize,
}
use asrcpp_gigam.Session.{
  OutMessage, and_then, create_session, process_segments, process_vad_segments, final, done,
}
use asrcpp_gigam.Vad.Detector.{
  initial, create as create_detector, flush as vad_flush, reset as vad_reset,
}
use asrcpp_gigam.Realtime.Events.{event_session_created}
use asrcpp_gigam.Live.{Outside}
use asrcpp_gigam.Live.Events.{
  C, send, emit_transcription_events, emit_transitions, emit_speech_transition_events,
}
use asrcpp_gigam.Live.Pipeline.{
  live_config, handle_session_update, context_of, greet, new_connection,
}

-- It gives back what it is given, at any rate.
abbrev copying : SrcLibrary ℕ
copying = record {
  State = ℕ;
  Ratio = ℤ;
  ratio = λ a b. a;
  scaled = λ n r. n;
  create = some 0;
  process = λ s r input room last. (ok (length input, input), s);
  reset = λ s. 0;
}

abbrev outside : Outside
outside = record {
  floats = milli;
  engines = engines;
  json = sample_json;
  opus = three_samples;
  src = copying;
  audio_what = λ e. codes "audio";
  session_what = λ e. codes "session";
  pcm_sample = λ s. pos_part s;
}

abbrev connected : C outside
unfolding context_of create_session send new_session make_default_realtime_session_config
    make_realtime_vad_config apply_turn_detection
connected = record {
  runtime_config = live_config outside repaired;
  realtime =
      record (new_session milli 3
        (make_default_realtime_session_config milli (live_config outside repaired))) {
          event_seq = 1;
        };
  session =
      create_session milli engines
        (initial milli 0 (
          make_realtime_vad_config milli (live_config outside repaired)
            (make_default_realtime_session_config milli (live_config outside repaired))))
        (live_config outside repaired) 0;
  resampler = none;
  opus_decoder = none;
  close_reason = codes "normal";
  last_client_event_type = [];
  last_error = [];
  connection_id = 3;
  raw_input_samples = 0;
  input_samples = 0;
  append_events = 0;
  ping_events = 0;
  invalid_events = 0;
  decode_errors = 0;
  committed_events = 0;
  completed_events = 0;
  interim_events = 0;
  speech_started_events = 0;
  speech_stopped_events = 0;
  speech_active = false;
  sent = [] ∷ [];
}

accepted : new_connection outside repaired 3 0 ≡ ok connected
unfolding connected new_connection greet make_default_realtime_session_config
    make_realtime_vad_config apply_turn_detection context_of create_detector event_session_created
    next_event_id
accepted = refl

abbrev history : List (Step Sample)
history =
    arrives (text_frame (codes "ping"))
    ∷ runs (event_task (field (codes "session") to_opus fields) (codes "session.update") [])
    ∷ runs (event_task fields (codes "input_audio_buffer.commit") [])
    ∷ runs (binary_task (1 ∷ 2 ∷ []))
    ∷ meanwhile 3 1 ([] ∷ []) (codes "bad")
    ∷ refuses (codes "last")
    ∷ []

reached-Inv_example : Inv outside (steps outside 9 repaired history connected)
reached-Inv_example = reached-Inv outside 9 3 given repaired 0 connected history validated accepted

willing : Willing outside
willing = record { resamples = refl; decodes = λ rate h. refl }

served : Served milli connected.realtime.config
unfolding connected
served = default-Served milli (live_config outside repaired) (omega arith) (omega arith)

abbrev asked : Sample
asked = field (codes "session") to_opus fields

update_answered_example :
    let h = handle_session_update outside repaired asked (codes "a") connected in
    (h.1 ≡ ok tt)
    × Replied outside repaired (codes "a") connected h.0 (outside.json.find asked (codes "session"))
update_answered_example =
    update_answered outside given repaired asked (codes "a") connected willing milli-Literals
      validated served

abbrev heard : List (OutMessage ℕ)
heard = final (codes "yes") 5 ∷ done ∷ final [] 5 ∷ []

emit_transcription_events_lem_example :
    let (finals, d) = emit_transcription_events outside heard connected in
    (finals ≡ 1)
    × (d.committed_events ≡ connected.committed_events + 1)
    × (d.completed_events ≡ connected.completed_events + 1)
    × (length d.sent ≡ length connected.sent + 2)
emit_transcription_events_lem_example = emit_transcription_events_lem outside heard connected

commit_closes_example :
    let d = (handle_audio_commit outside 9 connected).0 in
    (d.speech_active ≡ false)
    × (connected.completed_events ≤ d.completed_events)
    × (d.committed_events
        ≡ connected.committed_events + max 1 (d.completed_events - connected.completed_events))
unfolding connected handle_audio_commit flush_resampler recognize_turn with_session commit_turn
    on_recognize drain and_then flush_pending after_segments process_live_chunk_fallback finalize
    emitted emit vad_flush vad_reset process_vad_segments process_segments flush_vad
    emit_speech_transition_events emit_transcription_events emit_transitions
commit_closes_example = commit_closes outside 9 connected refl
