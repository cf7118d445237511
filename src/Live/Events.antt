-- ===== src/Live/Events.antt =====
-- The events that src/server.cpp sends for the results of a session.
use asrcpp_gigam.Base.{
  ◌==◌, if◌then◌else◌, is_some, is_empty, ℕ, suc, ◌+◌, ◌*◌, ◌/◌, true, false, ◌||◌, List, [], ◌∷◌,
  ◌++◌,
}
use asrcpp_gigam.Base.Int.{ℤ, pos_part, leb_ℤ, pos}
use asrcpp_gigam.Base.Bytes.{Bytes}
use asrcpp_gigam.Vad.{SpeechTransition, started, stopped}
use asrcpp_gigam.Session.{OutMessage, final}
use asrcpp_gigam.Session.Handlers.{pop_speech_transition}
use asrcpp_gigam.Realtime.{
  RealtimeCommittedItem, RealtimeSession, ensure_current_item_id, commit_current_item,
}
use asrcpp_gigam.Realtime.Events.{
  event_speech_started, event_speech_stopped, event_buffer_committed, event_transcription_completed,
  event_error,
}
use asrcpp_gigam.Live.{Outside, Context}

-- A position is 0 or more. `rate` is `runtime_config->sample_rate`.
unfoldable pub sample_position_ms : ℤ → ℕ → ℕ
sample_position_ms rate sample_position =
    if leb_ℤ rate (pos 0) || sample_position == 0 then 0 else sample_position * 1000 / pos_part rate

module _ (o : Outside) where
  abbrev pub C : Type 0
  C = Context o

  -- `conn->send(ctx.realtime.event_...)`
  unfoldable pub send : Bytes × RealtimeSession o.floats → C → C
  send (text, realtime) c = record c { realtime = realtime; sent = c.sent ++ (text ∷ []) }

  unfoldable pub send_error : Bytes → Bytes → Bytes → Bytes → C → C
  unfolding send event_error
  send_error code message param client_event_id c =
      send (event_error o.floats o.json code message param client_event_id c.realtime)
        (record c { last_error = code ++ (b':' ∷ message) })

  -- A commit and its event.
  unfoldable pub send_commit : C → RealtimeCommittedItem × C
  unfolding send event_buffer_committed commit_current_item
  send_commit c =
      let (item, realtime) = commit_current_item o.floats c.realtime in
      (
        item,
        send (event_buffer_committed o.floats item realtime) (record c { realtime = realtime }),
      )

  unfoldable pub send_final : Bytes → C → C
  unfolding send send_commit event_transcription_completed
  send_final text c =
      let (item, d) = send_commit c in
      let e = send (event_transcription_completed o.floats item.item_id text d.realtime) d in
      record e {
        committed_events = e.committed_events + 1;
        completed_events = e.completed_events + 1;
      }

  -- The number of final texts that were sent, and the connection after it.
  unfoldable pub emit_transcription_events : List (OutMessage (o.floats.Float)) → C → ℕ × C
  unfolding send_final
  emit_transcription_events [] c = (0, c)
  emit_transcription_events (final text duration ∷ out) c =
      let skip = is_empty text in
      let (finals, d) = emit_transcription_events out (if skip then c else send_final text c) in
      (if skip then finals else suc finals, d)
  emit_transcription_events (_ ∷ out) c = emit_transcription_events out c

  unfoldable pub send_transition : SpeechTransition → C → C
  unfolding send event_speech_started event_speech_stopped ensure_current_item_id sample_position_ms
  send_transition transition c =
      let pos_ms = sample_position_ms c.runtime_config.sample_rate transition.sample in
      let named = (ensure_current_item_id o.floats c.realtime).1 in
      elim transition.kind [
        | started ↦
            let d = send (event_speech_started o.floats pos_ms named) c in
            record d { speech_active = true; speech_started_events = d.speech_started_events + 1 }
        | stopped ↦
            let d = send (event_speech_stopped o.floats pos_ms named) c in
            record d { speech_active = false; speech_stopped_events = d.speech_stopped_events + 1 }
      ]

  -- The loop over the queue of the session's transitions, which it pops.
  unfoldable pub emit_transitions : List SpeechTransition → C → C
  unfolding send_transition pop_speech_transition
  emit_transitions [] c = c
  emit_transitions (t ∷ ts) c =
      let d = send_transition t c in
      emit_transitions ts
        (record d { session = pop_speech_transition o.floats o.engines d.session })

  unfoldable pub emit_speech_transition_events : C → C
  unfolding emit_transitions
  emit_speech_transition_events c =
      if is_some c.realtime.config.turn_detection
      then emit_transitions c.session.vad.transitions c
      else c
