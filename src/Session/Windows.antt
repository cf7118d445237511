-- ===== src/Session/Windows.antt =====
-- The session loses no audio, and no method of it fails for a reason of its own.
use asrcpp_gigam.Base.{
  ◌==◌, if_cases, length, take, drop, take-append-drop, length-drop, ℕ, zero, suc, ◌-◌, ◌≤◌, min,
  ◌≡◌, refl, sym, ap, ◌∙◌, subst, List, [], ◌∷◌, ◌++◌, append_assoc, append-nil, arith,
}
use asrcpp_gigam.Base.Result.{ok, err}
use asrcpp_gigam.Base.Floats.{Floats}
use asrcpp_gigam.Vad.Stream.{Run, accepts}
use asrcpp_gigam.Vad.Detector.{Detector, window}
use asrcpp_gigam.Session.{Engines, Outcome, and_then, session_window}
use asrcpp_gigam.Session.Handlers.{accept_pending, fill, feed}
use asrcpp_gigam.Session.Steps.{accept-ok, S, Live, accept_full, fill-Sound, feed-Sound}

module _ (fl : Floats) (en : Engines fl) where
  open fl use {Float, lt, le, lit, of_nat, to_nat, mul, div}

  -- The detector has heard all of `audio` but the samples that are pending.
  pub record Hears (start : Detector fl en.M) (audio : List Float) (s : S fl en) : Type 0 where
    pub heard : List Float
    pub run : Run fl en.network start s.vad heard
    pub whole : heard ++ s.pending ≡ audio

  -- A method has returned, and nothing is lost.
  abbrev pub Fed : Detector fl en.M → List Float → Outcome fl en → Type 0
  Fed start audio r = (r.1 ≡ ok tt) × Hears start audio r.0

  Hears-full :
      (start : Detector fl en.M) (audio : List Float) (t : S fl en)
      → length t.pending ≡ window fl t.vad
      → Hears start audio t
      → Fed start audio (accept_pending fl en t)
  Hears-full start audio t l k = subst (Fed start audio) (sym (accept_full fl en t l)) (
    refl,
    record {
      heard = k.heard ++ t.pending;
      run = accepts t.pending _ k.run (accept-ok fl en.network t.vad t.pending l);
      whole = append-nil (k.heard ++ t.pending) ∙ k.whole;
    },
  )

  fill-Fed :
      (start : Detector fl en.M) (audio : List Float) (s : S fl en) (n : ℕ) (samples : List Float)
      → Live fl en s
      → Hears start audio s
      → Fed start (audio ++ take n samples) (fill fl en s n samples)
  unfolding fill
  fill-Fed start audio s n samples v k =
      if_cases (Fed start (audio ++ take n samples))
        (length (s.pending ++ take n samples) == session_window fl en s)
        (λ e. Hears-full start (audio ++ take n samples) t (ground (arith, v.agree)) more)
        (λ e. (refl, more))
    where
      t : S fl en
      t = record s { pending = s.pending ++ take n samples }

      more : Hears start (audio ++ take n samples) t
      more = record {
        heard = k.heard;
        run = k.run;
        whole =
            sym (append_assoc k.heard s.pending (take n samples))
            ∙ ap (λ a. a ++ take n samples) k.whole;
      }

  and_then-Fed :
      (start : Detector fl en.M) (audio audio' : List Float) (r : Outcome fl en)
      (f : S fl en → Outcome fl en)
      → Fed start audio r
      → (Hears start audio r.0 → Fed start audio' (f r.0))
      → Fed start audio' (and_then fl en r f)
  unfolding and_then
  and_then-Fed start audio audio' (s, ok u) f (e, k) h = h k
  and_then-Fed start audio audio' (s, err x) f (e, k) h = cc

  feed-Fed :
      (start : Detector fl en.M) (fuel : ℕ) (samples audio : List Float) (s : S fl en)
      → length samples ≤ fuel
      → Live fl en s
      → Hears start audio s
      → Fed start (audio ++ samples) (feed fl en fuel samples s)
  unfolding feed
  feed-Fed start fuel [] audio s h v k =
      (refl, subst (λ a. Hears start a s) (sym (append-nil audio)) k)
  feed-Fed start zero (x ∷ xs) audio s h v k = ground arith
  feed-Fed start (suc fuel) (x ∷ xs) audio s h v k =
      let n = min (session_window fl en s - length s.pending) (length (x ∷ xs)) in
      let g = fill-Sound fl en s n (x ∷ xs) (omega arith) in
      and_then-Fed start (audio ++ take n (x ∷ xs)) (audio ++ (x ∷ xs)) (fill fl en s n (x ∷ xs))
        (feed fl en fuel (drop n (x ∷ xs))) (fill-Fed start audio s n (x ∷ xs) v k)
        (λ k'.
          subst (λ a. Fed start a (feed fl en fuel (drop n (x ∷ xs)) ((fill fl en s n (x ∷ xs)).0)))
            (append_assoc audio (take n (x ∷ xs)) (drop n (x ∷ xs))
              ∙ ap (λ a. audio ++ a) (take-append-drop n (x ∷ xs)))
            (feed-Fed start fuel (drop n (x ∷ xs)) (audio ++ take n (x ∷ xs))
              ((fill fl en s n (x ∷ xs)).0) (omega (arith, length-drop n (x ∷ xs), v.room, h))
              (g.live v) k'))

  -- The loop of `on_audio` returns, for a chunk of any size, with as much fuel as the chunk has
  -- samples, and loses nothing: if what the detector has heard and what is pending are the audio
  -- received so far, then afterwards they are that audio and the chunk, and less than a window of
  -- it is pending.
  pub feed_lossless :
      (start : Detector fl en.M) (samples audio : List Float) (s : S fl en)
      → Live fl en s
      → Hears start audio s
      → ((feed fl en (length samples) samples s).1 ≡ ok tt)
        × Hears start (audio ++ samples) (feed fl en (length samples) samples s).0
        × Live fl en (feed fl en (length samples) samples s).0
  feed_lossless start samples audio s v k =
      let (e, h) = feed-Fed start (length samples) samples audio s (omega arith) v k in
      (e, h, (feed-Sound fl en (length samples) samples s (omega arith)).live v)
