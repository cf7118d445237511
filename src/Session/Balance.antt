-- ===== src/Session/Balance.antt =====
-- What `on_audio` and `on_recognize` keep: the windows, and the count of the active sessions.
use asrcpp_gigam.Base.{
  if◌then◌else◌, if_cases, length, is_empty, ℕ, ◌+◌, ◌≡◌, refl, ◌∙◌, inl, Bool, true, false, List,
  [], arith,
}
use asrcpp_gigam.Base.Result.{ok, err}
use asrcpp_gigam.Base.Floats.{Floats}
use asrcpp_gigam.Vad.Detector.{Detector, window, reset as vad_reset}
use asrcpp_gigam.Session.{
  any_final, Engines, Outcome, and_then, reset_session, process_vad_segments,
}
use asrcpp_gigam.Session.Handlers.{
  flush_pending, feed, finalize_session, after_segments, drain, flushed_live, flush_due, live_flush,
  write_interim, force_finalize, too_long, limit, begin_audio, drop_heard, on_audio, finalize,
  on_recognize,
}
use asrcpp_gigam.Session.Steps.{
  Expected, S, Live, Kept-refl, Sound, Sound-and_then, Sound-ok, Sound-same,
  process_vad_segments-Sound, after_segments-Sound, feed-Sound, flush_pending-Sound,
}

module _ (fl : Floats) (en : Engines fl) where
  open fl use {Float, lt, le, lit, of_nat, to_nat, mul, div}

  -- The metrics have seen as many sessions start as end, and the active one.
  abbrev pub Balanced : S fl en → Type 0
  Balanced s = s.sessions_started ≡ s.sessions_ended + (if s.session_active then 1 else 0)

  pub record Safe (s : S fl en) (r : Outcome fl en) : Type 0 where
    pub live : Live fl en s → Live fl en r.0
    pub expected : Live fl en s → Expected r.1
    pub balanced : Live fl en s → Balanced s → Balanced r.0

  Sound-Safe : {s : S fl en} {r : Outcome fl en} → Sound fl en s r → Safe s r
  Sound-Safe {s} {r} g = record {
    live = g.live;
    expected = g.expected;
    balanced = λ v b. let (c, a, p, q) = g.kept v in cc;
  }

  Safe-and_then :
      {s : S fl en} (r : Outcome fl en) (f : S fl en → Outcome fl en)
      → Safe s r
      → ((t : S fl en) → Safe t (f t))
      → Safe s (and_then fl en r f)
  unfolding and_then
  Safe-and_then (t, err e) f g h = g
  Safe-and_then (t, ok u) f g h = record {
    live = λ v. (h t).live (g.live v);
    expected = λ v. (h t).expected (g.live v);
    balanced = λ v b. (h t).balanced (g.live v) (g.balanced v b);
  }

  pub ended_balanced :
      (a : Bool) (m n : ℕ) → m ≡ n + (if a then 1 else 0) → m ≡ (if a then n + 1 else n) + 0
  ended_balanced true m n h = omega arith
  ended_balanced false m n h = omega arith

  begun_balanced :
      (a : Bool) (m n : ℕ) → m ≡ n + (if a then 1 else 0) → (if a then m else m + 1) ≡ n + 1
  begun_balanced true m n h = omega arith
  begun_balanced false m n h = omega arith

  pub reset_vad-window : (d : Detector fl en.M) → window fl (vad_reset fl en.silent d) ≡ window fl d
  unfolding vad_reset
  reset_vad-window d = refl

  finalize_session-Live : (s : S fl en) → Live fl en s → Live fl en (finalize_session fl en s)
  unfolding finalize_session reset_session
  finalize_session-Live s v = record {
    agree = reset_vad-window s.vad ∙ v.agree;
    positive = v.positive;
    room = v.positive;
  }

  finalize_session-Balanced : (s : S fl en) → Balanced s → Balanced (finalize_session fl en s)
  unfolding finalize_session reset_session
  finalize_session-Balanced s b =
      ended_balanced s.session_active s.sessions_started s.sessions_ended b

  drain-Sound : (s : S fl en) → Sound fl en s (drain fl en s)
  unfolding drain
  drain-Sound s =
      Sound-and_then fl en (flush_pending fl en s) (process_vad_segments fl en)
        (flush_pending-Sound fl en s) (process_vad_segments-Sound fl en)

  flushed_live-Sound : (s : S fl en) → Sound fl en s (flushed_live fl en s)
  unfolding flushed_live
  flushed_live-Sound s = Sound-same fl en (ok tt) (Kept-refl fl en s) refl (inl refl) tt

  live_flush-Sound : (s : S fl en) → Sound fl en s (live_flush fl en s)
  unfolding live_flush
  live_flush-Sound s =
      if_cases (Sound fl en s) (flush_due fl en s)
        (λ _.
          Sound-and_then fl en (and_then fl en (drain fl en s) (after_segments fl en))
            (flushed_live fl en)
            (Sound-and_then fl en (drain fl en s) (after_segments fl en) (drain-Sound s)
              (after_segments-Sound fl en))
            flushed_live-Sound)
        (λ _. Sound-ok fl en s)

  force_finalize-Safe : (s : S fl en) → Safe s (force_finalize fl en s)
  unfolding force_finalize
  force_finalize-Safe s = record {
    live = λ v.
        let w = finalize_session-Live s v in
        record { agree = w.agree; positive = w.positive; room = w.room };
    expected = λ v. tt;
    balanced = λ v b. finalize_session-Balanced s b;
  }

  limit-Safe : (s : S fl en) → Safe s (limit fl en s)
  unfolding limit
  limit-Safe s =
      if_cases (Safe s) (too_long fl en s)
        (λ _.
          Safe-and_then (drain fl en s) (force_finalize fl en) (Sound-Safe (drain-Sound s))
            force_finalize-Safe)
        (λ _. Sound-Safe (Sound-ok fl en s))

  -- A method that continues from `t`.
  Safe-from :
      {s t : S fl en} {r : Outcome fl en}
      → (Live fl en s → Live fl en t)
      → (Balanced s → Balanced t)
      → Safe t r
      → Safe s r
  Safe-from f g h = record {
    live = λ v. h.live (f v);
    expected = λ v. h.expected (f v);
    balanced = λ v b. h.balanced (f v) (g b);
  }

  drop_heard-Safe : (s : S fl en) {r : Outcome fl en} → Safe (drop_heard fl en s) r → Safe s r
  unfolding drop_heard
  drop_heard-Safe s h =
      Safe-from
        (λ v.
          if_cases (Live fl en) (any_final s.out_messages)
            (λ _. record { agree = v.agree; positive = v.positive; room = v.room }) (λ _. v))
        (λ b. if_cases Balanced (any_final s.out_messages) (λ _. b) (λ _. b)) h

  write_interim-Safe :
      (rms : Float) (s : S fl en) {r : Outcome fl en}
      → Safe (write_interim fl en rms s) r
      → Safe s r
  unfolding write_interim
  write_interim-Safe rms s h =
      Safe-from
        (λ v.
          if_cases (Live fl en) (is_empty s.out_messages)
            (λ _. record { agree = v.agree; positive = v.positive; room = v.room }) (λ _. v))
        (λ b. if_cases Balanced (is_empty s.out_messages) (λ _. b) (λ _. b)) h

  begin_audio-Safe :
      (samples : List Float) (s : S fl en) {r : Outcome fl en}
      → Safe (begin_audio fl en samples s) r
      → Safe s r
  unfolding begin_audio
  begin_audio-Safe samples s h =
      Safe-from (λ v. record { agree = v.agree; positive = v.positive; room = v.room })
        (λ b. begun_balanced s.session_active s.sessions_started s.sessions_ended b) h

  pub on_audio-Safe : (samples : List Float) (s : S fl en) → Safe s (on_audio fl en samples s)
  unfolding on_audio
  on_audio-Safe samples s = begin_audio-Safe samples s (
      Safe-and_then (feed fl en (length samples) samples (begin_audio fl en samples s)) _
        (Sound-Safe
          (feed-Sound fl en (length samples) samples (begin_audio fl en samples s) (omega arith)))
        λ t.
          Safe-and_then (process_vad_segments fl en t) _
            (Sound-Safe (process_vad_segments-Sound fl en t))
            λ u. drop_heard-Safe u (
              Safe-and_then (live_flush fl en (drop_heard fl en u)) _
                (Sound-Safe (live_flush-Sound (drop_heard fl en u)))
                λ v.
                  write_interim-Safe (en.compute_rms samples) v
                    (limit-Safe (write_interim fl en (en.compute_rms samples) v))))

  finalize-Safe : (s : S fl en) → Safe s (finalize fl en s)
  unfolding finalize
  finalize-Safe s = record {
    live = λ v. finalize_session-Live s v;
    expected = λ v. tt;
    balanced = λ v b. finalize_session-Balanced s b;
  }

  pub on_recognize-Safe : (s : S fl en) → Safe s (on_recognize fl en s)
  unfolding on_recognize
  on_recognize-Safe s =
      Safe-from {t = record s { out_messages = [] }}
        (λ v. record { agree = v.agree; positive = v.positive; room = v.room }) (λ b. b)
        (if_cases (Safe (record s { out_messages = [] })) s.max_duration_exceeded
          (λ _. Sound-Safe (Sound-same fl en (ok tt) (Kept-refl fl en s) refl (inl refl) tt))
          (λ _.
            Safe-and_then
              (and_then fl en (drain fl en (record s { out_messages = [] })) (after_segments fl en))
              (finalize fl en)
              (Sound-Safe (
                Sound-and_then fl en (drain fl en (record s { out_messages = [] }))
                  (after_segments fl en) (drain-Sound (record s { out_messages = [] }))
                  (after_segments-Sound fl en)))
              finalize-Safe))
