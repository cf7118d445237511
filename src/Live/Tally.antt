-- ===== src/Live/Tally.antt =====
-- How many items a turn commits (src/server.cpp).
use asrcpp_gigam.Live.Commit.{
  Counted, emitted, hear_tail, flush_resampler, recognize_turn, commit_without_final, commit_turn,
  handle_audio_commit,
}
use asrcpp_gigam.Session.Handlers.{on_audio, on_recognize, pop_speech_transition}
use asrcpp_gigam.Audio.{AudioError}
use asrcpp_gigam.Vad.{kinds, SpeechTransition}
use asrcpp_gigam.Base.Result.{Result, ok, err}
use asrcpp_gigam.Base.{
  if◌then◌else◌, Bool-cases, is_some, if_cases, length, length-append, is_empty, ℕ, zero, suc, ◌+◌,
  ◌-◌, ◌*◌, ◌≤◌, max, ◌≡◌, refl, ap, ◌∙◌, inl, inr, false, Option, none, some, List, [], ◌∷◌, ◌++◌,
  arith,
}
use asrcpp_gigam.Base.Bytes.{Bytes}
use asrcpp_gigam.Audio.Resampler.{StreamResampler, flush as flush_samples}
use asrcpp_gigam.Session.{OutMessage, Outcome, interim, final, done}
use asrcpp_gigam.Realtime.{next_event_id, commit_current_item}
use asrcpp_gigam.Realtime.Events.{event_buffer_committed, event_transcription_completed}
use asrcpp_gigam.Live.{Outside}
use asrcpp_gigam.Live.Events.{
  C, send, send_commit, send_final, emit_transcription_events, send_transition, emit_transitions,
  emit_speech_transition_events,
}
use asrcpp_gigam.Live.Handlers.{F, Handled, with_session, hear, emit}

-- The final messages that have a text.
abbrev pub texts {ℓ} : {F : Type ℓ} → List (OutMessage F) → ℕ
texts [] = 0
texts (final text duration ∷ out) = if is_empty text then texts out else suc (texts out)
texts (_ ∷ out) = texts out

module _ (o : Outside) where
  -- `d` has committed and completed `n` items more than `c`, and sent `e` events more.
  record More (n e : ℕ) (c d : C o) : Type 0 where
    committed : d.committed_events ≡ c.committed_events + n
    completed : d.completed_events ≡ c.completed_events + n
    events : length d.sent ≡ length c.sent + e

  send_final-More : (text : Bytes) (c : C o) → More 1 2 c (send_final o text c)
  unfolding send_final send_commit send event_transcription_completed event_buffer_committed
      next_event_id commit_current_item
  send_final-More text c = record {
    committed = omega arith;
    completed = omega arith;
    events =
        omega (arith, length-append c.sent (_ ∷ []), length-append (c.sent ++ (_ ∷ [])) (_ ∷ []));
  }

  -- Every final message with a text commits one item and completes it, with two events; the messages
  -- without one, and those of other kinds, send nothing. The result is their number.
  pub emit_transcription_events_lem :
      (out : List (OutMessage (o.floats.Float))) (c : C o)
      → let (finals, d) = emit_transcription_events o out c in
        (finals ≡ texts out)
        × (d.committed_events ≡ c.committed_events + texts out)
        × (d.completed_events ≡ c.completed_events + texts out)
        × (length d.sent ≡ length c.sent + 2 * texts out)
  unfolding emit_transcription_events
  emit_transcription_events_lem [] c = (refl, omega arith, omega arith, omega arith)
  emit_transcription_events_lem (final text duration ∷ out) c = elim (Bool-cases (is_empty text)) [
    | inl e ↦ rw e (emit_transcription_events_lem out c)
    | inr e ↦ rw e (
        let k = send_final-More text c in
        let (finals, committed, completed, events) =
          emit_transcription_events_lem out (send_final o text c) in
        (
          ap suc finals,
          omega (arith, committed, k.committed),
          omega (arith, completed, k.completed),
          omega (arith, events, k.events),
        ))
  ]
  emit_transcription_events_lem (interim time rms speech ∷ out) c =
      emit_transcription_events_lem out c
  emit_transcription_events_lem (done ∷ out) c = emit_transcription_events_lem out c

  -- What a part of a turn has committed and completed, by its own count.
  Tally : C o → Counted o → Type 0
  Tally c ((n, d), r) =
      (d.committed_events ≡ c.committed_events + n) × (d.completed_events ≡ c.completed_events + n)

  send_transition-same :
      (t : SpeechTransition) (c : C o)
      → ((send_transition o t c).committed_events ≡ c.committed_events)
        × ((send_transition o t c).completed_events ≡ c.completed_events)
  unfolding send_transition send
  send_transition-same t c = elim (kinds t.kind) [
    | inl e ↦ rw e (refl, refl)
    | inr e ↦ rw e (refl, refl)
  ]

  emit_transitions-same :
      (ts : List SpeechTransition) (c : C o)
      → ((emit_transitions o ts c).committed_events ≡ c.committed_events)
        × ((emit_transitions o ts c).completed_events ≡ c.completed_events)
  unfolding emit_transitions
  emit_transitions-same [] c = (refl, refl)
  emit_transitions-same (t ∷ ts) c =
      let d = send_transition o t c in
      let h =
        emit_transitions-same ts
          (record d { session = pop_speech_transition o.floats o.engines d.session }) in
      let k = send_transition-same t c in (h.0 ∙ k.0, h.1 ∙ k.1)

  emit_speech_transition_events-same :
      (c : C o)
      → ((emit_speech_transition_events o c).committed_events ≡ c.committed_events)
        × ((emit_speech_transition_events o c).completed_events ≡ c.completed_events)
  unfolding emit_speech_transition_events
  emit_speech_transition_events-same c =
      if_cases
        (λ (d : C o).
          (d.committed_events ≡ c.committed_events) × (d.completed_events ≡ c.completed_events))
        (is_some c.realtime.config.turn_detection)
        (λ _. emit_transitions-same c.session.vad.transitions c) λ _. (refl, refl)

  emitted-Tally :
      (c : C o) (n : ℕ) (h : Handled o) → Tally c ((n, h.0), h.1) → Tally c (emitted o n h)
  unfolding Tally emitted emit
  emitted-Tally c n (d, err e) t = t
  emitted-Tally c n (d, ok u) t =
      let e = emit_speech_transition_events o d in
      let s = emit_speech_transition_events-same d in
      let (finals, committed, completed, events) =
        emit_transcription_events_lem e.session.out_messages e in
      (omega (arith, t.0, s.0, finals, committed), omega (arith, t.1, s.1, finals, completed))

  with_session-Tally :
      (c d : C o) (n : ℕ) (r : Outcome o.floats o.engines)
      → Tally c ((n, d), ok tt)
      → Tally c ((n, (with_session o d r).0), (with_session o d r).1)
  unfolding Tally with_session
  with_session-Tally c d n (s, ok u) t = t
  with_session-Tally c d n (s, err e) t = t

  hear_tail-Tally :
      (c : C o) (r : StreamResampler o.src × Result AudioError (List (F o)))
      → Tally c (hear_tail o c r)
  unfolding hear_tail hear Tally
  hear_tail-Tally c (r, err e) = (omega arith, omega arith)
  hear_tail-Tally c (r, ok []) = (omega arith, omega arith)
  hear_tail-Tally c (r, ok (x ∷ xs)) =
      let d = record c { resampler = some r; input_samples = c.input_samples + length (x ∷ xs) } in
      let s = on_audio o.floats o.engines (x ∷ xs) d.session in
      emitted-Tally c 0 (with_session o d s) (with_session-Tally c d 0 s (omega arith, omega arith))

  flush_resampler-Tally :
      (fuel : ℕ) (r : Option (StreamResampler o.src)) (c : C o)
      → Tally c (flush_resampler o fuel r c)
  unfolding flush_resampler Tally
  flush_resampler-Tally fuel none c = (omega arith, omega arith)
  flush_resampler-Tally fuel (some r) c = hear_tail-Tally c (flush_samples o.src fuel r)

  recognize_turn-Tally : (c : C o) (k : Counted o) → Tally c k → Tally c (recognize_turn o k)
  unfolding recognize_turn Tally
  recognize_turn-Tally c ((n, d), err e) t = t
  recognize_turn-Tally c ((n, d), ok u) t =
      let s = on_recognize o.floats o.engines d.session in
      emitted-Tally c n (with_session o d s) (with_session-Tally c d n s t)

  Closed : C o → Handled o → Type 0
  Closed c (d, err e) = Unit
  Closed c (d, ok u) =
      (d.speech_active ≡ false)
      × (c.completed_events ≤ d.completed_events)
      × (d.committed_events ≡ c.committed_events + max 1 (d.completed_events - c.completed_events))

  commit_turn-Closed : (c : C o) (k : Counted o) → Tally c k → Closed c (commit_turn o k)
  unfolding commit_turn commit_without_final send_commit send Tally Closed
  commit_turn-Closed c ((zero, d), ok u) t = (refl, omega (arith, t.1), omega (arith, t.0, t.1))
  commit_turn-Closed c ((suc n, d), ok u) t = (refl, omega (arith, t.1), omega (arith, t.0, t.1))
  commit_turn-Closed c ((zero, d), err e) t = tt
  commit_turn-Closed c ((suc n, d), err e) t = tt

  -- When the commit of a turn succeeds, no speech is active, and the items that it commits are those
  -- that it completes, or one without a text if it completes none.
  pub commit_closes :
      (fuel : ℕ) (c : C o)
      → (handle_audio_commit o fuel c).1 ≡ ok tt
      → let d = (handle_audio_commit o fuel c).0 in
        (d.speech_active ≡ false)
        × (c.completed_events ≤ d.completed_events)
        × (d.committed_events
            ≡ c.committed_events + max 1 (d.completed_events - c.completed_events))
  unfolding handle_audio_commit Closed
  commit_closes fuel c e =
      let k = flush_resampler o fuel c.resampler c in
      closed (commit_turn o (recognize_turn o k)) e (
        commit_turn-Closed c (recognize_turn o k)
          (recognize_turn-Tally c k (flush_resampler-Tally fuel c.resampler c)))
    where
      closed :
          (h : Handled o)
          → h.1 ≡ ok tt
          → Closed c h
          → (h.0.speech_active ≡ false)
            × (c.completed_events ≤ h.0.completed_events)
            × (h.0.committed_events
                ≡ c.committed_events + max 1 (h.0.completed_events - c.completed_events))
      closed (d, ok u) e k = k
      closed (d, err x) e k = absurd (cc)
