-- ===== src/Vad/Stream.antt =====
-- The detector cuts the audio stream: what it buffers and what it hands out are exact pieces of
-- what it heard, over any sequence of calls.
use asrcpp_gigam.Base.{
  leb, ◌==◌, Bool-cases, if_cases, length, length-append, is_empty, drop, All, ◌+◌, ◌-◌, ◌≤◌, ◌<◌,
  ◌≡◌, refl, sym, ap, ◌∙◌, subst, ◌⊎◌, inl, inr, true, false, not, ◌&&◌, ◌||◌, List, [], ◌∷◌, ◌++◌,
  arith,
}
use asrcpp_gigam.Base.Int.{pos_part}
use asrcpp_gigam.Base.Result.{ok}
use asrcpp_gigam.Base.Floats.{Floats}
use asrcpp_gigam.Vad.{SpeechSegment, VadConfig}
use asrcpp_gigam.Base.Slices.{Suffix, Suffix-nil, Suffix-any}
use asrcpp_gigam.Vad.Detector.{
  Detector, window, initial, create, infer, finalize_segment, append_pre_roll, close_window,
  classify, hear, accept_waveform, flush, pop, pop_transition,
}
use asrcpp_gigam.Vad.Segments.{
  Cuts, Talking, Tracks, Between, finalize-Between, on_speech-Between, on_silence-Between,
}
use asrcpp_gigam.Vad.PreRoll.{Rolled, Frame, finalize-Frame, classify-Frame, roll_up}

drop_cut {ℓ} :
    {F : Type ℓ} (heard : List F) (gs : List (SpeechSegment F))
    → All (Cuts heard) gs
    → All (Cuts heard) (drop 1 gs)
drop_cut heard [] h = tt
drop_cut heard (g ∷ gs) h = h.1

module _ (fl : Floats) {M : Type 0} where
  open fl use {Float, le}

  pub append_pre_roll-only :
      (d : Detector fl M) (samples : List Float)
      → append_pre_roll fl d samples
        ≡ record d { pre_roll = (append_pre_roll fl d samples).pre_roll }
  unfolding append_pre_roll
  append_pre_roll-only d samples =
      if_cases (λ (r : Detector fl M). r ≡ record d { pre_roll = r.pre_roll })
        (d.prefix_padding_samples == 0 || is_empty samples) (λ _. refl)
        λ _.
          if_cases (λ (r : Detector fl M). r ≡ record d { pre_roll = r.pre_roll })
            (leb d.prefix_padding_samples (length samples)) (λ _. refl) (λ _. refl)

  abbrev pub advance : Detector fl M → Detector fl M
  advance e = record e { total_samples_seen = e.total_samples_seen + window fl e }

  close-Tracks :
      (d e : Detector fl M) (heard samples : List Float)
      → Tracks fl d heard
      → length samples ≡ window fl d
      → Frame fl d e
      → Between fl e (heard ++ samples)
      → Tracks fl (close_window fl e samples) (heard ++ samples)
  unfolding close_window
  close-Tracks d e heard samples v len f b =
      if_cases (λ (r : Detector fl M). Tracks fl (advance r) all) e.in_speech
        (λ q. record {
          total = grown;
          positive = wide;
          before = Suffix-any (Suffix-nil all);
          fits = omega arith;
          talking = λ _. again (b.talks q);
          silent = b.rests;
          cuts = b.shown;
        })
        (λ q.
          subst (λ (r : Detector fl M). Tracks fl (advance r) all)
            (sym (append_pre_roll-only e samples))
            (record {
              total = grown;
              positive = wide;
              before = rolled.1;
              fits = rolled.0;
              talking = λ p. cc;
              silent = b.rests;
              cuts = b.shown;
            }))
    where
      all : List Float
      all = heard ++ samples

      wide : 0 < window fl e
      wide = subst (λ (c : VadConfig fl). 0 < pos_part c.window_size) (sym f.setup) v.positive

      same : window fl e ≡ window fl d
      same = ap (λ (c : VadConfig fl). pos_part c.window_size) f.setup

      grown : e.total_samples_seen + window fl e ≡ length all
      grown = omega (arith, same, f.total, v.total, length-append heard samples)

      rolled : Rolled e.prefix_padding_samples all (append_pre_roll fl e samples).pre_roll
      rolled =
          roll_up fl e heard samples
            (subst (λ n. Rolled n heard e.pre_roll) (sym f.padding)
              (subst (Rolled d.prefix_padding_samples heard) (sym f.roll) (v.fits, v.before)))
            (omega (arith, v.positive))

      again : Talking fl e all → Talking fl (advance (record e { pre_roll = [] })) all
      again t = record { buffer = t.buffer; reaches = t.reaches; speaks = t.speaks }

  infer-Tracks :
      (network : List Float → M → Float × M) (d : Detector fl M) (heard samples : List Float)
      → Tracks fl d heard
      → Tracks fl (infer fl network d samples).1 heard
  unfolding infer
  infer-Tracks network d heard samples v = record {
    total = v.total;
    positive = v.positive;
    before = v.before;
    fits = v.fits;
    talking = λ e.
        let t = v.talking e in record { buffer = t.buffer; reaches = t.reaches; speaks = t.speaks };
    silent = v.silent;
    cuts = v.cuts;
  }

  pub infer-window :
      (network : List Float → M → Float × M) (d : Detector fl M) (samples : List Float)
      → window fl (infer fl network d samples).1 ≡ window fl d
  unfolding infer
  infer-window network d samples = refl

  hear-Tracks :
      (r : Float × Detector fl M) (heard samples : List Float)
      → Tracks fl r.1 heard
      → length samples ≡ window fl r.1
      → Tracks fl (hear fl r samples) (heard ++ samples)
  hear-Tracks (p, d) heard samples v len =
      close-Tracks d (classify fl d p samples) heard samples v len (classify-Frame fl d p samples) (
        if_cases (λ (e : Detector fl M). Between fl e (heard ++ samples)) (le d.config.threshold p)
          (λ _. on_speech-Between fl d heard samples v len)
          (λ _. on_silence-Between fl d heard samples v len))

  pub accept-hear :
      (network : List Float → M → Float × M) (d d' : Detector fl M) (samples : List Float)
      → accept_waveform fl network d samples ≡ ok d'
      → (length samples ≡ window fl d) × (hear fl (infer fl network d samples) samples ≡ d')
  unfolding accept_waveform
  accept-hear network d d' samples h = ground arith

  accept-Tracks :
      (network : List Float → M → Float × M) (d d' : Detector fl M) (heard samples : List Float)
      → accept_waveform fl network d samples ≡ ok d'
      → Tracks fl d heard
      → Tracks fl d' (heard ++ samples)
  accept-Tracks network d d' heard samples h v =
      let (len, e) = accept-hear network d d' samples h in
      subst (λ r. Tracks fl r (heard ++ samples)) e
        (hear-Tracks (infer fl network d samples) heard samples
          (infer-Tracks network d heard samples v) (len ∙ sym (infer-window network d samples)))

  flush-Tracks :
      (d : Detector fl M) (heard : List Float) → Tracks fl d heard → Tracks fl (flush fl d) heard
  unfolding flush
  flush-Tracks d heard v =
      if_cases (λ (r : Detector fl M). Tracks fl r heard)
        (d.in_speech && not (is_empty d.speech_buf))
        (λ e.
          flushed (finalize-Frame fl d)
            (finalize-Between fl d heard (v.talking (ground arith)) v.cuts))
        (λ _. v)
    where
      flushed :
          Frame fl d (finalize_segment fl d)
          → Between fl (finalize_segment fl d) heard
          → Tracks fl (finalize_segment fl d) heard
      flushed f b = record {
        total = f.total ∙ v.total;
        positive =
            subst (λ (c : VadConfig fl). 0 < pos_part c.window_size) (sym f.setup) v.positive;
        before = subst (λ p. Suffix heard p (length heard - length p)) (sym f.roll) v.before;
        fits =
            subst (λ n. length (finalize_segment fl d).pre_roll ≤ n) (sym f.padding)
              (subst (λ p. length p ≤ d.prefix_padding_samples) (sym f.roll) v.fits);
        talking = b.talks;
        silent = b.rests;
        cuts = b.shown;
      }

  -- A detector and what it heard since it was built: the calls that its owners make.
  pub data Run (network : List Float → M → Float × M) (start : Detector fl M)
      : Detector fl M → List Float → Type 0 where
    fresh : Run network start start []
    accepts :
        {d : Detector fl M} {heard : List Float} (samples : List Float) (d' : Detector fl M)
        → Run network start d heard
        → accept_waveform fl network d samples ≡ ok d'
        → Run network start d' (heard ++ samples)
    flushes :
        {d : Detector fl M} {heard : List Float}
        → Run network start d heard
        → Run network start (flush fl d) heard
    pops :
        {d : Detector fl M} {heard : List Float}
        → Run network start d heard
        → Run network start (pop fl d) heard
    pops_transition :
        {d : Detector fl M} {heard : List Float}
        → Run network start d heard
        → Run network start (pop_transition fl d) heard

  pub create-initial :
      (zero_state : M) (config : VadConfig fl) (d : Detector fl M)
      → create fl zero_state config ≡ ok d
      → (d ≡ initial fl zero_state config)
        × (0 < pos_part config.window_size)
        × (pos_part config.context_size ≤ pos_part config.window_size)
  unfolding create
  create-initial zero_state config d h = ground arith

  create-Tracks :
      (zero_state : M) (config : VadConfig fl) (d : Detector fl M)
      → create fl zero_state config ≡ ok d
      → Tracks fl d []
  create-Tracks zero_state config d h =
      let (e, wide, _) = create-initial zero_state config d h in
      subst (λ r. Tracks fl r []) (sym e)
        (record {
          total = refl;
          positive = wide;
          before = Suffix-any (Suffix-nil []);
          fits = omega arith;
          talking = λ q. cc;
          silent = λ _. refl;
          cuts = tt;
        })

  pop-Tracks :
      (d : Detector fl M) (heard : List Float) → Tracks fl d heard → Tracks fl (pop fl d) heard
  unfolding pop
  pop-Tracks d heard v = record {
    total = v.total;
    positive = v.positive;
    before = v.before;
    fits = v.fits;
    talking = λ e.
        let t = v.talking e in record { buffer = t.buffer; reaches = t.reaches; speaks = t.speaks };
    silent = v.silent;
    cuts = drop_cut heard d.segments v.cuts;
  }

  pop_transition-Tracks :
      (d : Detector fl M) (heard : List Float)
      → Tracks fl d heard
      → Tracks fl (pop_transition fl d) heard
  unfolding pop_transition
  pop_transition-Tracks d heard v = record {
    total = v.total;
    positive = v.positive;
    before = v.before;
    fits = v.fits;
    talking = λ e.
        let t = v.talking e in record { buffer = t.buffer; reaches = t.reaches; speaks = t.speaks };
    silent = v.silent;
    cuts = v.cuts;
  }

  Run-Tracks :
      (network : List Float → M → Float × M) {start d : Detector fl M} {heard : List Float}
      → Tracks fl start []
      → Run network start d heard
      → Tracks fl d heard
  Run-Tracks network v fresh = v
  Run-Tracks network v (accepts {d = d} {heard = heard} samples d' r h) =
      accept-Tracks network d d' heard samples h (Run-Tracks network v r)
  Run-Tracks network v (flushes {d = d} {heard = heard} r) =
      flush-Tracks d heard (Run-Tracks network v r)
  Run-Tracks network v (pops {d = d} {heard = heard} r) =
      pop-Tracks d heard (Run-Tracks network v r)
  Run-Tracks network v (pops_transition {d = d} {heard = heard} r) =
      pop_transition-Tracks d heard (Run-Tracks network v r)

  buffered :
      {d : Detector fl M} {heard : List Float}
      → (d.in_speech ≡ true) ⊎ (d.in_speech ≡ false)
      → Tracks fl d heard
      → (d.in_speech ≡ false) ⊎ Suffix heard d.speech_buf d.current_start_sample
  buffered (inl e) v = inr (v.talking e).buffer
  buffered (inr e) v = inl e

  -- Whatever windows a new detector accepts and whenever it is flushed or its queues are popped,
  -- each segment that it holds is the stream from `start_sample` up to `end_sample`, sample for
  -- sample; during speech the buffer is the stream from `current_start_sample` on; and
  -- `total_samples_seen` is the length of the stream.
  pub segments_exact :
      (network : List Float → M → Float × M) (zero_state : M) (config : VadConfig fl)
      → {start d : Detector fl M} {heard : List Float} → create fl zero_state config ≡ ok start
      → Run network start d heard
      → All (Cuts heard) d.segments
        × ((d.in_speech ≡ false) ⊎ Suffix heard d.speech_buf d.current_start_sample)
        × (d.total_samples_seen ≡ length heard)
  segments_exact network zero_state config {start} {d} {heard} c r =
      let v = Run-Tracks network (create-Tracks zero_state config start c) r in
      (v.cuts, buffered (Bool-cases d.in_speech) v, v.total)
