-- ===== src/Live/Kept.antt =====
-- That every message to a connection (src/server.cpp) keeps its counters sound.

use asrcpp_gigam.Base.{
  if◌then◌else◌, is_some, if_cases, length, is_empty, ℕ, ◌+◌, inl, inr, ◌||◌, Option, none, some,
  List, [], ◌∷◌, arith,
}
use asrcpp_gigam.Base.Bytes.{Bytes, codes, bytes_eq}
use asrcpp_gigam.Base.Result.{Result, ok, err}
use asrcpp_gigam.Vad.{kinds, SpeechTransition}
use asrcpp_gigam.Audio.{AudioError}
use asrcpp_gigam.Audio.Opus.{OpusDecoder}
use asrcpp_gigam.Audio.Resampler.{StreamResampler, process as process_samples}
use asrcpp_gigam.Session.{OutMessage, Outcome, interim, final, done}
use asrcpp_gigam.Realtime.{S, next_event_id, ensure_current_item_id}
use asrcpp_gigam.Realtime.Events.{
  event_speech_started, event_speech_stopped, event_transcription_completed,
}
use asrcpp_gigam.Session.Handlers.{on_audio, pop_speech_transition}
use asrcpp_gigam.Audio.Base64.{base64_decode}
use asrcpp_gigam.Live.{Outside, Failure}
use asrcpp_gigam.Live.Events.{
  C, send, send_commit, send_final, emit_transcription_events, send_transition, emit_transitions,
  emit_speech_transition_events,
}
use asrcpp_gigam.Live.Handlers.{
  is_realtime_opus_format, count_interim, F, Handled, then_do, session_decoder, decode_with,
  decode_append_samples, with_session, hear, hear_resampled, hear_at_rate, emit, count_and_emit,
  process_audio_append_samples, append_audio, handle_audio_append_binary, append_base64, string_at,
  append_event_text, handle_audio_append,
}
use asrcpp_gigam.Live.Counts.{Sound, Inv, send_error-Inv, ensure-Sound, send_commit-Sound}

module _ (o : Outside) where
  send_final-Inv : (text : Bytes) (c : C o) → Inv o c → Inv o (send_final o text c)
  unfolding send_final send event_transcription_completed next_event_id
  send_final-Inv text c v =
      let k = send_commit-Sound o c 1 (omega arith) v in
      let (item, d) = send_commit o c in
      record { finished = k.finished; named = omega (arith, k.named); served = k.served }

  emit_transcription_events-Inv :
      (out : List (OutMessage (o.floats.Float))) (c : C o)
      → Inv o c
      → Inv o (emit_transcription_events o out c).1
  unfolding emit_transcription_events
  emit_transcription_events-Inv [] c v = v
  emit_transcription_events-Inv (final text duration ∷ out) c v =
      emit_transcription_events-Inv out (if is_empty text then c else send_final o text c)
        (if_cases (Inv o) (is_empty text) (λ _. v) λ _. send_final-Inv text c v)
  emit_transcription_events-Inv (interim time rms speech ∷ out) c v =
      emit_transcription_events-Inv out c v
  emit_transcription_events-Inv (done ∷ out) c v = emit_transcription_events-Inv out c v

  -- The number of an event is taken.
  numbered-Sound :
      (s : S o.floats) (completed committed : ℕ)
      → Sound o.floats s completed committed
      → Sound o.floats (next_event_id o.floats s).1 completed committed
  unfolding next_event_id
  numbered-Sound s completed committed v = record {
    finished = v.finished;
    named = v.named;
    served = v.served;
  }

  send_transition-Inv : (t : SpeechTransition) (c : C o) → Inv o c → Inv o (send_transition o t c)
  unfolding send_transition send event_speech_started event_speech_stopped
  send_transition-Inv t c v =
      let w = (ensure-Sound o c.realtime c.completed_events c.committed_events v).0 in
      let s = (ensure_current_item_id o.floats c.realtime).1 in
      let event : Sound o.floats (ensure_current_item_id o.floats (next_event_id o.floats s).1).1
          c.completed_events c.committed_events =
        (ensure-Sound o _ _ _ (numbered-Sound s c.completed_events c.committed_events w)).0 in
      elim (kinds t.kind) [ inl e ↦ rw e event | inr e ↦ rw e event ]

  emit_transitions-Inv :
      (ts : List SpeechTransition) (c : C o) → Inv o c → Inv o (emit_transitions o ts c)
  unfolding emit_transitions
  emit_transitions-Inv [] c v = v
  emit_transitions-Inv (t ∷ ts) c v =
      emit_transitions-Inv ts
        (let d = send_transition o t c in
          record d { session = pop_speech_transition o.floats o.engines d.session })
        (send_transition-Inv t c v)

  emit_speech_transition_events-Inv :
      (c : C o) → Inv o c → Inv o (emit_speech_transition_events o c)
  unfolding emit_speech_transition_events
  emit_speech_transition_events-Inv c v =
      if_cases (Inv o) (is_some c.realtime.config.turn_detection)
        (λ _. emit_transitions-Inv c.session.vad.transitions c v) (λ _. v)

  pub emit-Inv : (c : C o) → Inv o c → Inv o (emit o c).1
  unfolding emit
  emit-Inv c v =
      let d = emit_speech_transition_events o c in
      emit_transcription_events-Inv d.session.out_messages d (emit_speech_transition_events-Inv c v)

  pub then_do-Inv :
      (h : Handled o) (f : C o → Handled o)
      → Inv o h.0
      → ((c : C o) → Inv o c → Inv o (f c).0)
      → Inv o (then_do o h f).0
  unfolding then_do
  then_do-Inv (c, ok u) f v k = k c v
  then_do-Inv (c, err e) f v k = v

  pub with_session-Inv :
      (c : C o) (r : Outcome o.floats o.engines) → Inv o c → Inv o (with_session o c r).0
  unfolding with_session
  with_session-Inv c (s, ok u) v = v
  with_session-Inv c (s, err e) v = v

  pub hear-Inv : (samples : List (F o)) (c : C o) → Inv o c → Inv o (hear o samples c).0
  unfolding hear
  hear-Inv samples c v =
      let d = record c { input_samples = c.input_samples + length samples } in
      with_session-Inv d (on_audio o.floats o.engines samples d.session) v

  hear_resampled-Inv :
      (c : C o) (r : StreamResampler o.src × Result AudioError (List (F o)))
      → Inv o c
      → Inv o (hear_resampled o c r).0
  unfolding hear_resampled
  hear_resampled-Inv c (r, ok samples) v = hear-Inv samples (record c { resampler = some r }) v
  hear_resampled-Inv c (r, err e) v = v

  hear_at_rate-Inv :
      (fuel : ℕ) (r : Option (StreamResampler o.src)) (samples : List (F o)) (c : C o)
      → Inv o c
      → Inv o (hear_at_rate o fuel r samples c).0
  unfolding hear_at_rate
  hear_at_rate-Inv fuel none samples c v = hear-Inv samples c v
  hear_at_rate-Inv fuel (some r) samples c v =
      hear_resampled-Inv c (process_samples o.src fuel samples r) v

  append_audio-Inv :
      (fuel : ℕ) (d : C o × Result Failure (List (F o)))
      → Inv o d.0
      → Inv o (append_audio o fuel d).0
  unfolding append_audio process_audio_append_samples count_and_emit
  append_audio-Inv fuel (c, err e) v = v
  append_audio-Inv fuel (c, ok samples) v =
      let d = record c {
        append_events = c.append_events + 1;
        raw_input_samples = c.raw_input_samples + length samples;
      } in
      then_do-Inv (hear_at_rate o fuel d.resampler samples d) (count_and_emit o)
        (hear_at_rate-Inv fuel d.resampler samples d v)
        λ e w.
          emit-Inv
            (record e { interim_events = e.interim_events + count_interim e.session.out_messages })
            w

  decode_with-Inv :
      (bytes : Bytes) (c : C o) (r : Result AudioError (OpusDecoder o.opus))
      → Inv o c
      → Inv o (decode_with o bytes c r).0
  unfolding decode_with
  decode_with-Inv bytes c (err e) v = v
  decode_with-Inv bytes c (ok d) v = v

  decode_append_samples-Inv :
      (bytes : Bytes) (c : C o) → Inv o c → Inv o (decode_append_samples o bytes c).0
  unfolding decode_append_samples
  decode_append_samples-Inv bytes c v =
      let format = c.realtime.config.input_audio_format in
      if_cases (λ (r : C o × Result Failure (List (F o))). Inv o r.0)
        (is_empty format || bytes_eq format (codes "pcm16")) (λ _. v)
        λ _.
          if_cases (λ (r : C o × Result Failure (List (F o))). Inv o r.0)
            (is_realtime_opus_format format) (λ _. decode_with-Inv bytes c (session_decoder o c) v)
            λ _. v

  pub handle_audio_append_binary-Inv :
      (fuel : ℕ) (payload : Bytes) (c : C o)
      → Inv o c
      → Inv o (handle_audio_append_binary o fuel payload c).0
  unfolding handle_audio_append_binary
  handle_audio_append_binary-Inv fuel payload c v =
      append_audio-Inv fuel (decode_append_samples o payload c)
        (decode_append_samples-Inv payload c v)

  append_base64-Inv :
      (fuel : ℕ) (r : Result AudioError Bytes) (c : C o)
      → Inv o c
      → Inv o (append_base64 o fuel r c).0
  unfolding append_base64
  append_base64-Inv fuel (err e) c v = v
  append_base64-Inv fuel (ok bytes) c v =
      append_audio-Inv fuel (decode_append_samples o bytes c) (decode_append_samples-Inv bytes c v)

  append_event_text-Inv :
      (fuel : ℕ) (audio : Option Bytes) (id : Bytes) (c : C o)
      → Inv o c
      → Inv o (append_event_text o fuel audio id c).0
  unfolding append_event_text
  append_event_text-Inv fuel none id c v =
      send_error-Inv o [] (codes "Event must include base64 string field 'audio'") (codes "audio")
        id c v
  append_event_text-Inv fuel (some audio) id c v = append_base64-Inv fuel (base64_decode audio) c v

  pub handle_audio_append-Inv :
      (fuel : ℕ) (event : o.json.Value) (id : Bytes) (c : C o)
      → Inv o c
      → Inv o (handle_audio_append o fuel event id c).0
  unfolding handle_audio_append
  handle_audio_append-Inv fuel event id c v =
      append_event_text-Inv fuel (string_at o event (codes "audio")) id c v
