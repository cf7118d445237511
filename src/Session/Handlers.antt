-- ===== src/Session/Handlers.antt =====
-- The methods of `ASRSession` that the server calls (src/handler.cpp).
use asrcpp_gigam.Base.{
  ltb, leb, ◌==◌, if◌then◌else◌, length, is_empty, take, drop, replicate, ℕ, zero, suc, ◌+◌, ◌-◌,
  ◌*◌, min, Bool, true, false, ◌&&◌, ◌||◌, List, [], ◌∷◌, ◌++◌,
}
use asrcpp_gigam.Base.Result.{Result, ok, err}
use asrcpp_gigam.Base.Floats.{Floats}
use asrcpp_gigam.Vad.{VadError}
use asrcpp_gigam.Vad.Detector.{
  Detector, accept_waveform, flush as vad_flush, reset as vad_reset,
  pop_transition as vad_pop_transition,
}
use asrcpp_gigam.Session.{
  interim, done, vad_error, any_final, Engines, Session, Outcome, and_then, session_rate,
  session_window, seconds, reset_session, decoded, process_vad_segments, out_of_fuel,
}

module _ (fl : Floats) (en : Engines fl) where
  open fl use {Float, lt, le, lit, of_nat, to_nat, mul, div}

  unfoldable pub clear_live : Session fl en → Outcome fl en
  clear_live s = (record s { live_chunk = [] }, ok tt)

  abbrev pub min_samples : Session fl en → ℕ
  min_samples s =
      let min_audio =
        if lt (lit 0 1) s.config.min_audio_sec then s.config.min_audio_sec else lit 0 1 in
      to_nat (mul min_audio (of_nat (session_rate fl en s)))

  unfoldable pub process_live_chunk_fallback : Session fl en → Outcome fl en
  unfolding clear_live and_then decoded
  process_live_chunk_fallback s =
      if ltb (length s.live_chunk) (min_samples s) || is_empty s.live_chunk
      then (s, ok tt)
      else if lt (en.compute_rms s.live_chunk) s.config.silence_threshold
      then clear_live s
      else and_then fl en
          (decoded fl en s.live_chunk s (en.recognize s.live_chunk (session_rate fl en s) s.world))
          clear_live

  unfoldable pub accepted : Session fl en → Result VadError (Detector fl en.M) → Outcome fl en
  accepted s (ok d) = (record s { vad = d; pending = [] }, ok tt)
  accepted s (err e) = (s, err (vad_error e))

  -- `vad_.accept_waveform(pending_); pending_.clear();`
  unfoldable pub accept_pending : Session fl en → Outcome fl en
  unfolding accepted
  accept_pending s = accepted s (accept_waveform fl en.network s.vad s.pending)

  unfoldable pub flush_vad : Session fl en → Outcome fl en
  flush_vad s = (record s { vad = vad_flush fl s.vad }, ok tt)

  -- `pending_.resize` fills up with zeros, or cuts off.
  abbrev pub padded : Session fl en → Session fl en
  padded s =
      let n = session_window fl en s in
      record s { pending = take n s.pending ++ replicate (n - length s.pending) (lit 0 1) }

  unfoldable pub flush_pending : Session fl en → Outcome fl en
  unfolding accept_pending flush_vad and_then
  flush_pending s =
      if is_empty s.pending
      then flush_vad s
      else and_then fl en (accept_pending (padded s)) flush_vad

  -- One round of the loop: `pending_` takes what fits into the window.
  unfoldable pub fill : Session fl en → ℕ → List Float → Outcome fl en
  unfolding accept_pending
  fill s to_copy samples =
      let t = record s { pending = s.pending ++ take to_copy samples } in
      if length t.pending == session_window fl en t then accept_pending t else (t, ok tt)

  -- The loop over the samples of a chunk; it ends when none are left.
  unfoldable pub feed : ℕ → List Float → Session fl en → Outcome fl en
  unfolding fill and_then
  feed fuel [] s = (s, ok tt)
  feed zero (x ∷ xs) s = (s, err out_of_fuel)
  feed (suc fuel) (x ∷ xs) s =
      let to_copy = min (session_window fl en s - length s.pending) (length (x ∷ xs)) in
      and_then fl en (fill s to_copy (x ∷ xs)) (feed fuel (drop to_copy (x ∷ xs)))

  unfoldable pub finalize_session : Session fl en → Session fl en
  unfolding reset_session
  finalize_session s = reset_session fl en (record s {
    out_messages = s.out_messages ++ (done ∷ []);
    sessions_ended = if s.session_active then s.sessions_ended + 1 else s.sessions_ended;
    session_active = false;
    vad = vad_reset fl en.silent s.vad;
    pending = [];
    live_chunk = [];
  })

  -- The fallback, if there is no final message.
  unfoldable pub after_segments : Session fl en → Outcome fl en
  unfolding process_live_chunk_fallback
  after_segments s =
      if any_final s.out_messages
      then (record s { live_chunk = [] }, ok tt)
      else process_live_chunk_fallback s

  -- The pending samples and what the detector holds become messages.
  unfoldable pub drain : Session fl en → Outcome fl en
  unfolding flush_pending and_then
  drain s = and_then fl en (flush_pending s) (process_vad_segments fl en)

  unfoldable pub flushed_live : Session fl en → Outcome fl en
  flushed_live s = (record s { last_live_flush_samples = s.total_samples_received }, ok tt)

  abbrev pub interval_samples : Session fl en → ℕ
  interval_samples s = to_nat (mul s.config.live_flush_interval_sec (of_nat (session_rate fl en s)))

  abbrev pub flush_due : Session fl en → Bool
  flush_due s =
      lt (lit 0 1) s.config.live_flush_interval_sec
      && ltb 0 (interval_samples s)
      && leb (interval_samples s) (s.total_samples_received - s.last_live_flush_samples)

  unfoldable pub live_flush : Session fl en → Outcome fl en
  unfolding drain after_segments flushed_live and_then
  live_flush s =
      if flush_due s
      then and_then fl en (and_then fl en (drain s) after_segments) flushed_live
      else (s, ok tt)

  unfoldable pub write_interim : Float → Session fl en → Session fl en
  write_interim rms s =
      if is_empty s.out_messages
      then record s {
        out_messages = interim (seconds fl en s s.total_samples_received) rms s.vad.in_speech ∷ [];
      }
      else s

  unfoldable pub force_finalize : Session fl en → Outcome fl en
  unfolding finalize_session
  force_finalize s = (record (finalize_session s) { max_duration_exceeded = true }, ok tt)

  abbrev pub too_long : Session fl en → Bool
  too_long s =
      lt (lit 0 1) s.config.max_audio_sec
      && lt s.config.max_audio_sec (seconds fl en s s.total_samples_received)

  unfoldable pub limit : Session fl en → Outcome fl en
  unfolding drain force_finalize and_then
  limit s = if too_long s then and_then fl en (drain s) force_finalize else (s, ok tt)

  -- The start of `on_audio`, up to the loop.
  unfoldable pub begin_audio : List Float → Session fl en → Session fl en
  begin_audio samples s = record s {
    out_messages = [];
    max_duration_exceeded = false;
    session_active = true;
    sessions_started = if s.session_active then s.sessions_started else s.sessions_started + 1;
    chunks = s.chunks + 1;
    total_samples_received = s.total_samples_received + length samples;
    bytes = s.bytes + length samples * 4;
    live_chunk = s.live_chunk ++ samples;
  }

  unfoldable pub drop_heard : Session fl en → Session fl en
  drop_heard s = if any_final s.out_messages then record s { live_chunk = [] } else s

  -- The messages are `out_messages` of the resulting session.
  unfoldable pub on_audio : List Float → Session fl en → Outcome fl en
  unfolding begin_audio feed live_flush limit drop_heard write_interim and_then
  on_audio samples s = and_then fl en (feed (length samples) samples (begin_audio samples s)) λ t.
      and_then fl en (process_vad_segments fl en t) λ u.
        and_then fl en (live_flush (drop_heard u))
          λ v. limit (write_interim (en.compute_rms samples) v)

  unfoldable pub finalize : Session fl en → Outcome fl en
  unfolding finalize_session
  finalize s = (finalize_session s, ok tt)

  unfoldable pub on_recognize : Session fl en → Outcome fl en
  unfolding drain after_segments finalize and_then
  on_recognize s =
      let t = record s { out_messages = [] } in
      if s.max_duration_exceeded
      then (record t { max_duration_exceeded = false }, ok tt)
      else and_then fl en (and_then fl en (drain t) after_segments) finalize

  unfoldable pub on_reset : Session fl en → Session fl en
  unfolding reset_session
  on_reset s = reset_session fl en (record s {
    max_duration_exceeded = false;
    sessions_ended = if s.session_active then s.sessions_ended + 1 else s.sessions_ended;
    session_active = false;
    vad = vad_reset fl en.silent s.vad;
    pending = [];
    live_chunk = [];
  })

  unfoldable pub on_close : Session fl en → Session fl en
  on_close s = record s {
    sessions_ended = if s.session_active then s.sessions_ended + 1 else s.sessions_ended;
    session_active = false;
  }

  unfoldable pub pop_speech_transition : Session fl en → Session fl en
  pop_speech_transition s = record s { vad = vad_pop_transition fl s.vad }
