-- ===== src/Session/Steps.antt =====
-- What every method of the session keeps, and that the detector is never given a wrong window.
use asrcpp_gigam.Session.Handlers.{
  clear_live, min_samples, process_live_chunk_fallback, accepted, accept_pending, flush_vad, padded,
  flush_pending, fill, feed, after_segments,
}
use asrcpp_gigam.Vad.{SpeechSegment, VadConfig}
use asrcpp_gigam.Config.{Config}
use asrcpp_gigam.Base.Int.{pos_part}
use asrcpp_gigam.Base.Bytes.{Bytes}
use asrcpp_gigam.Base.{
  ltb, ◌==◌, if_cases, length, length-append, is_empty, take, drop, replicate, length-take,
  length-drop, length-replicate, ℕ, zero, suc, ◌+◌, ◌-◌, ◌≤◌, ◌<◌, min, ◌≡◌, refl, sym, ap, ◌∙◌,
  subst, ◌⊎◌, inl, inr, not, ◌&&◌, ◌||◌, Option, none, some, List, [], ◌∷◌, ◌++◌, arith,
}
use asrcpp_gigam.Base.Result.{Result, ok, err}
use asrcpp_gigam.Base.Floats.{Floats}
use asrcpp_gigam.Vad.PreRoll.{finalize-Frame, classify-Frame}
use asrcpp_gigam.Vad.Stream.{append_pre_roll-only}
use asrcpp_gigam.Vad.Detector.{
  Detector, window, infer, append_pre_roll, close_window, classify, hear, accept_waveform, pop,
  flush as vad_flush,
}
use asrcpp_gigam.Session.{
  SessionError, vad_error, any_final, Engines, Session, Outcome, and_then, session_rate,
  session_window, seconds, note_text, decoded, pop_segment, process_segment, process_segments,
  process_vad_segments, recognizer_failed, out_of_fuel,
}

-- A method returns, or the recognizer has thrown: no window of a wrong size, no fuel that ran out.
abbrev pub Expected : Result SessionError (Unit {0}) → Type 0
Expected (ok u) = Unit
Expected (err recognizer_failed) = Unit
Expected (err (vad_error e)) = ◌≡◌ {A = ℕ} 0 1
Expected (err out_of_fuel) = ◌≡◌ {A = ℕ} 0 1

module _ (fl : Floats) {M : Type 0} where
  open fl use {Float, lt, le, of_nat, div}

  infer-config :
      (network : List Float → M → Float × M) (d : Detector fl M) (samples : List Float)
      → (infer fl network d samples).1.config ≡ d.config
  unfolding infer
  infer-config network d samples = refl

  close-config :
      (d : Detector fl M) (samples : List Float) → (close_window fl d samples).config ≡ d.config
  unfolding close_window append_pre_roll
  close-config d samples =
      if_cases (λ (r : Detector fl M). r.config ≡ d.config) d.in_speech (λ _. refl)
        (λ _. ap (λ (r : Detector fl M). r.config) (append_pre_roll-only fl d samples))

  pub hear-config :
      (network : List Float → M → Float × M) (d : Detector fl M) (samples : List Float)
      → (hear fl (infer fl network d samples) samples).config ≡ d.config
  hear-config network d samples =
      let (p, e) = infer fl network d samples in
      close-config (classify fl e p samples) samples
      ∙ (classify-Frame fl e p samples).setup
      ∙ infer-config network d samples

  pub accept-ok :
      (network : List Float → M → Float × M) (d : Detector fl M) (samples : List Float)
      → length samples ≡ window fl d
      → accept_waveform fl network d samples ≡ ok (hear fl (infer fl network d samples) samples)
  unfolding accept_waveform
  accept-ok network d samples h = ground arith

  pub flush-config : (d : Detector fl M) → (vad_flush fl d).config ≡ d.config
  unfolding vad_flush
  flush-config d =
      if_cases (λ (r : Detector fl M). r.config ≡ d.config)
        (d.in_speech && not (is_empty d.speech_buf)) (λ _. (finalize-Frame fl d).setup) (λ _. refl)

module _ (fl : Floats) (en : Engines fl) where
  open fl use {Float, lt, le, lit, of_nat, to_nat, mul, div}

  abbrev pub S : Type 0
  S = Session fl en

  -- The windows of the session and of its detector agree, and the pending samples are fewer.
  pub record Live (s : S) : Type 0 where
    pub agree : window fl s.vad ≡ session_window fl en s
    pub positive : 0 < session_window fl en s
    pub room : length s.pending < session_window fl en s

  -- What the inner steps of a method keep.
  abbrev pub Kept : S → S → Type 0
  Kept s t =
      (t.config ≡ s.config)
      × (t.session_active ≡ s.session_active)
      × (t.sessions_started ≡ s.sessions_started)
      × (t.sessions_ended ≡ s.sessions_ended)

  pub Kept-refl : (s : S) → Kept s s
  Kept-refl s = (refl, refl, refl, refl)

  Kept-trans : (s t u : S) → Kept s t → Kept t u → Kept s u
  Kept-trans s t u g h = (h.0 ∙ g.0, h.1 ∙ g.1, h.2 ∙ g.2, h.3 ∙ g.3)

  pub record Sound (s : S) (r : Outcome fl en) : Type 0 where
    pub kept : Live s → Kept s r.0
    pub live : Live s → Live r.0
    pub expected : Live s → Expected r.1

  pub Sound-and_then :
      {s : S} (r : Outcome fl en) (f : S → Outcome fl en)
      → Sound s r
      → ((t : S) → Sound t (f t))
      → Sound s (and_then fl en r f)
  unfolding and_then
  Sound-and_then (t, err e) f g h = g
  Sound-and_then {s} (t, ok u) f g h = record {
    kept = λ v. Kept-trans s t ((f t).0) (g.kept v) ((h t).kept (g.live v));
    live = λ v. (h t).live (g.live v);
    expected = λ v. (h t).expected (g.live v);
  }

  pub Sound-ok : (s : S) → Sound s (s, ok tt)
  Sound-ok s = record { kept = λ v. Kept-refl s; live = λ v. v; expected = λ v. tt }

  -- A step that keeps the pending samples too.
  pub Sound-same :
      {s t : S} (e : Result SessionError (Unit {0}))
      → Kept s t
      → t.vad.config ≡ s.vad.config
      → (length s.pending ≡ length t.pending) ⊎ (length t.pending ≡ 0)
      → Expected e
      → Sound s (t, e)
  Sound-same {s} {t} e k c p x = record { kept = λ v. k; live = alive p; expected = λ v. x }
    where
      wide : session_window fl en t ≡ session_window fl en s
      wide = ap (λ (q : Config fl). pos_part q.vad_window_size) k.0

      same : window fl t.vad ≡ window fl s.vad
      same = ap (λ (q : VadConfig fl). pos_part q.window_size) c

      alive : (length s.pending ≡ length t.pending) ⊎ (length t.pending ≡ 0) → Live s → Live t
      alive (inl q) v = record {
        agree = same ∙ v.agree ∙ sym wide;
        positive = omega (arith, v.positive, wide);
        room = omega (arith, v.room, wide, q);
      }
      alive (inr q) v = record {
        agree = same ∙ v.agree ∙ sym wide;
        positive = omega (arith, v.positive, wide);
        room = omega (arith, v.positive, wide, q);
      }

  decoded-Sound :
      (samples : List Float) (s : S) (r : Option Bytes × en.W) → Sound s (decoded fl en samples s r)
  unfolding decoded note_text
  decoded-Sound samples s (none, w) =
      Sound-same (err recognizer_failed) (Kept-refl s) refl (inl refl) tt
  decoded-Sound samples s (some text, w) =
      if_cases (λ t. Sound s (t, ok tt)) (is_empty text)
        (λ _. Sound-same (ok tt) (Kept-refl s) refl (inl refl) tt)
        (λ _. Sound-same (ok tt) (Kept-refl s) refl (inl refl) tt)

  pop_segment-Sound : (s : S) → Sound s (pop_segment fl en s)
  unfolding pop_segment pop
  pop_segment-Sound s = Sound-same (ok tt) (Kept-refl s) refl (inl refl) tt

  counted-Sound :
      (s : S) (r : Outcome fl en) (n : ℕ) → Sound (record s { silence_segments = n }) r → Sound s r
  counted-Sound s r n g = record {
    kept = λ v. g.kept (record { agree = v.agree; positive = v.positive; room = v.room });
    live = λ v. g.live (record { agree = v.agree; positive = v.positive; room = v.room });
    expected = λ v. g.expected (record { agree = v.agree; positive = v.positive; room = v.room });
  }

  process_segment-Sound :
      (segment : SpeechSegment Float) (s : S) → Sound s (process_segment fl en segment s)
  unfolding process_segment
  process_segment-Sound segment s =
      if_cases (Sound s) (lt (seconds fl en s (length segment.samples)) s.config.min_audio_sec)
        (λ _. counted-Sound s _ (s.silence_segments + 1) (pop_segment-Sound _))
        (λ _.
          Sound-and_then _ (pop_segment fl en)
            (decoded-Sound segment.samples s
              (en.recognize segment.samples (session_rate fl en s) s.world))
            pop_segment-Sound)

  process_segments-Sound :
      (gs : List (SpeechSegment Float)) (s : S) → Sound s (process_segments fl en gs s)
  unfolding process_segments
  process_segments-Sound [] s = Sound-ok s
  process_segments-Sound (g ∷ gs) s =
      Sound-and_then _ (process_segments fl en gs) (process_segment-Sound g s)
        (process_segments-Sound gs)

  pub process_vad_segments-Sound : (s : S) → Sound s (process_vad_segments fl en s)
  unfolding process_vad_segments
  process_vad_segments-Sound s = process_segments-Sound s.vad.segments s

  clear_live-Sound : (s : S) → Sound s (clear_live fl en s)
  unfolding clear_live
  clear_live-Sound s = Sound-same (ok tt) (Kept-refl s) refl (inl refl) tt

  fallback-Sound : (s : S) → Sound s (process_live_chunk_fallback fl en s)
  unfolding process_live_chunk_fallback
  fallback-Sound s =
      if_cases (Sound s) (ltb (length s.live_chunk) (min_samples fl en s) || is_empty s.live_chunk)
        (λ _. Sound-ok s)
        λ _.
          if_cases (Sound s) (lt (en.compute_rms s.live_chunk) s.config.silence_threshold)
            (λ _. clear_live-Sound s)
            λ _.
              Sound-and_then _ (clear_live fl en)
                (decoded-Sound s.live_chunk s
                  (en.recognize s.live_chunk (session_rate fl en s) s.world))
                clear_live-Sound

  pub after_segments-Sound : (s : S) → Sound s (after_segments fl en s)
  unfolding after_segments
  after_segments-Sound s =
      if_cases (Sound s) (any_final s.out_messages)
        (λ _. Sound-same (ok tt) (Kept-refl s) refl (inl refl) tt) (λ _. fallback-Sound s)

  pub Sound-Live : {s : S} {r : Outcome fl en} → (Live s → Sound s r) → Sound s r
  Sound-Live f = record {
    kept = λ v. (f v).kept v;
    live = λ v. (f v).live v;
    expected = λ v. (f v).expected v;
  }

  -- The session after its full window is given to the detector.
  abbrev pub heard_window : S → S
  heard_window t = record t {
    vad = hear fl (infer fl en.network t.vad t.pending) t.pending;
    pending = [];
  }

  pub accept_full :
      (t : S)
      → length t.pending ≡ window fl t.vad
      → accept_pending fl en t ≡ (heard_window t, ok tt)
  unfolding accept_pending accepted
  accept_full t l = ap (accepted fl en t) (accept-ok fl en.network t.vad t.pending l)

  accept_full-Sound :
      (s t : S)
      → Kept s t
      → t.vad ≡ s.vad
      → length t.pending ≡ session_window fl en s
      → Sound s (accept_pending fl en t)
  accept_full-Sound s t k e l = Sound-Live λ v.
      subst (Sound s) (sym (accept_full t (l ∙ sym v.agree ∙ ap (window fl) (sym e)))) (
        Sound-same (ok tt) k
          (hear-config fl en.network t.vad t.pending ∙ ap (λ (d : Detector fl en.M). d.config) e)
          (inr refl) tt)

  pub fill-Sound :
      (s : S) (n : ℕ) (samples : List Float)
      → n ≤ session_window fl en s - length s.pending
      → Sound s (fill fl en s n samples)
  unfolding fill
  fill-Sound s n samples h =
      if_cases (Sound s) (length (s.pending ++ take n samples) == session_window fl en s)
        (λ e.
          accept_full-Sound s (record s { pending = s.pending ++ take n samples }) (Kept-refl s)
            refl (ground arith))
        (λ e. Sound-Live λ v. record {
          kept = λ w. Kept-refl s;
          live = λ w. record {
            agree = w.agree;
            positive = w.positive;
            room =
                ground
                  (arith, length-append s.pending (take n samples), length-take n samples, v.room);
          };
          expected = λ w. tt;
        })

  pub feed-Sound :
      (fuel : ℕ) (samples : List Float) (s : S)
      → length samples ≤ fuel
      → Sound s (feed fl en fuel samples s)
  unfolding feed
  feed-Sound fuel [] s h = Sound-ok s
  feed-Sound zero (x ∷ xs) s h = ground arith
  feed-Sound (suc fuel) (x ∷ xs) s h =
      let n = min (session_window fl en s - length s.pending) (length (x ∷ xs)) in
      Sound-Live λ v.
        Sound-and_then (fill fl en s n (x ∷ xs)) (feed fl en fuel (drop n (x ∷ xs)))
          (fill-Sound s n (x ∷ xs) (omega arith))
          (λ t.
            feed-Sound fuel (drop n (x ∷ xs)) t (omega (arith, length-drop n (x ∷ xs), v.room, h)))

  flush_vad-Sound : (s : S) → Sound s (flush_vad fl en s)
  unfolding flush_vad
  flush_vad-Sound s = Sound-same (ok tt) (Kept-refl s) (flush-config fl s.vad) (inl refl) tt

  pub length-padded :
      (s : S)
      → length s.pending < session_window fl en s
      → length (padded fl en s).pending ≡ session_window fl en s
  length-padded s h =
      let n = session_window fl en s in
      omega (
        arith,
        length-append (take n s.pending) (replicate (n - length s.pending) (lit 0 1)),
        length-take n s.pending,
        length-replicate {A = Float} (n - length s.pending) (lit 0 1),
      )

  pub flush_pending-Sound : (s : S) → Sound s (flush_pending fl en s)
  unfolding flush_pending
  flush_pending-Sound s =
      if_cases (Sound s) (is_empty s.pending) (λ _. flush_vad-Sound s)
        λ _. Sound-Live λ v.
          Sound-and_then _ (flush_vad fl en)
            (accept_full-Sound s (padded fl en s) (Kept-refl s) refl (length-padded s v.room))
            flush_vad-Sound
