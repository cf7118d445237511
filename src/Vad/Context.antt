-- ===== src/Vad/Context.antt =====
-- What `infer` gives the network: the stream without gaps or overlaps.
use asrcpp_gigam.Base.{
  ℕ, ◌∷◌, length, length-append, drop, replicate, length-replicate, ◌+◌, ◌-◌, ◌≤◌, ◌≡◌, refl, sym,
  ap, ◌∙◌, subst, List, [], ◌++◌, append_assoc, append-nil, arith,
}
use asrcpp_gigam.Base.Int.{pos_part}
use asrcpp_gigam.Base.Floats.{Floats}
use asrcpp_gigam.Vad.{VadConfig}
use asrcpp_gigam.Base.Slices.{Suffix, Suffix-append, Suffix-drop, Suffix-last}
use asrcpp_gigam.Base.Result.{ok}
use asrcpp_gigam.Vad.Stream.{
  accept-hear, Run, create-initial, fresh, accepts, flushes, pops, pops_transition,
}
use asrcpp_gigam.Vad.Detector.{
  Detector, window, create, infer, finalize_segment, append_pre_roll, on_speech, on_silence,
  close_window, classify, accept_waveform, flush, pop, pop_transition,
}

drop_before {ℓ} : {A : Type ℓ} (xs ys : List A) → drop (length xs) (xs ++ ys) ≡ ys
drop_before [] ys = refl
drop_before (x ∷ xs) ys = drop_before xs ys

abbrev pub zeros : (fl : Floats) → VadConfig fl → List fl.Float
zeros fl config = replicate (pos_part config.context_size) (fl.lit 0 1)

module _ (fl : Floats) {M : Type 0} where
  open fl use {Float, le}

  -- The context is what was heard last, after zeros in place of what came before the stream.
  record Follows (start d : Detector fl M) (heard : List Float) : Type 0 where
    kept : d.config ≡ start.config
    last : Suffix (zeros fl start.config ++ heard) d.context (length heard)

  record Same (d e : Detector fl M) : Type 0 where
    context : e.context ≡ d.context
    config : e.config ≡ d.config

  close-context : (d : Detector fl M) (samples : List Float) → Same d (close_window fl d samples)
  unfolding close_window append_pre_roll
  close-context d samples = ground arith

  classify-context :
      (d : Detector fl M) (p : Float) (samples : List Float) → Same d (classify fl d p samples)
  unfolding on_speech on_silence finalize_segment
  classify-context d p samples = ground arith

  infer-last :
      (network : List Float → M → Float × M) (start d : Detector fl M) (heard samples : List Float)
      → pos_part start.config.context_size ≤ window fl start
      → length samples ≡ window fl d
      → Follows start d heard
      → Follows start (infer fl network d samples).1 (heard ++ samples)
  unfolding infer
  infer-last network start d heard samples small len v = record {
    kept = v.kept;
    last =
        subst
          (λ n.
            Suffix (zeros fl start.config ++ (heard ++ samples))
              (drop (window fl d - pos_part d.config.context_size) samples) n)
          (omega (
            arith,
            ap (λ (c : VadConfig fl). pos_part c.window_size) v.kept,
            ap (λ (c : VadConfig fl). pos_part c.context_size) v.kept,
            length-append (zeros fl start.config) heard,
            length-append heard samples,
            length-replicate (pos_part start.config.context_size) (fl.lit 0 1),
          ))
          (subst
            (λ h. Suffix h (drop (window fl d - pos_part d.config.context_size) samples) (
              length (zeros fl start.config ++ heard)
              + (window fl d - pos_part d.config.context_size)))
            (append_assoc (zeros fl start.config) heard samples)
            (Suffix-drop (window fl d - pos_part d.config.context_size)
              (Suffix-last (zeros fl start.config ++ heard) samples) (omega arith)));
  }

  -- Nothing but `infer` touches the context.
  carry :
      {start d e : Detector fl M} {heard : List Float}
      → Same d e
      → Follows start d heard
      → Follows start e heard
  carry {start} {heard = heard} s v = record {
    kept = s.config ∙ v.kept;
    last =
        subst (λ x. Suffix (zeros fl start.config ++ heard) x (length heard)) (sym s.context)
          v.last;
  }

  flush-context : (d : Detector fl M) → Same d (flush fl d)
  unfolding flush finalize_segment
  flush-context d = ground arith

  both : {c d e : Detector fl M} → Same c d → Same d e → Same c e
  both p q = record { context = q.context ∙ p.context; config = q.config ∙ p.config }

  accept-Follows :
      (network : List Float → M → Float × M) (start d d' : Detector fl M)
      (heard samples : List Float)
      → pos_part start.config.context_size ≤ window fl start
      → accept_waveform fl network d samples ≡ ok d'
      → Follows start d heard
      → Follows start d' (heard ++ samples)
  accept-Follows network start d d' heard samples small h v =
      let (len, e) = accept-hear fl network d d' samples h in
      let (p, i) = infer fl network d samples in
      subst (λ r. Follows start r (heard ++ samples)) e
        (carry
          (both (classify-context i p samples) (close-context (classify fl i p samples) samples))
          (infer-last network start d heard samples small len v))

  Run-Follows :
      (network : List Float → M → Float × M) {start d : Detector fl M} {heard : List Float}
      → pos_part start.config.context_size ≤ window fl start
      → Follows start start []
      → Run fl network start d heard
      → Follows start d heard
  unfolding pop pop_transition
  Run-Follows network small v fresh = v
  Run-Follows network {start} small v (accepts {d = d} {heard = heard} samples d' r h) =
      accept-Follows network start d d' heard samples small h (Run-Follows network small v r)
  Run-Follows network small v (flushes {d = d} r) =
      carry (flush-context d) (Run-Follows network small v r)
  Run-Follows network small v (pops {d = d} r) =
      carry (record { context = refl; config = refl }) (Run-Follows network small v r)
  Run-Follows network small v (pops_transition {d = d} r) =
      carry (record { context = refl; config = refl }) (Run-Follows network small v r)

  create-Follows :
      (zero_state : M) (config : VadConfig fl) (start : Detector fl M)
      → create fl zero_state config ≡ ok start
      → Follows start start [] × (pos_part start.config.context_size ≤ window fl start)
  unfolding create
  create-Follows zero_state config start h =
      let (e, _, small) = create-initial fl zero_state config start h in
      (
        record {
          kept = refl;
          last =
              subst (λ (s : Detector fl M). Suffix (zeros fl s.config ++ []) s.context 0) (sym e)
                (rw append-nil (record { before = []; cut = refl; starts = refl }));
        },
        subst (λ (s : Detector fl M). pos_part s.config.context_size ≤ window fl s) (sym e) small,
      )

  input_follows :
      (network : List Float → M → Float × M) (zero_state : M) (config : VadConfig fl)
      {start d : Detector fl M} {heard : List Float} (samples : List Float)
      → create fl zero_state config ≡ ok start
      → Run fl network start d heard
      → Suffix (zeros fl config ++ (heard ++ samples)) (d.context ++ samples) (length heard)
  input_follows network zero_state config {start} {d} {heard} samples c r =
      let (v, small) = create-Follows zero_state config start c in
      let (e, _, _) = create-initial fl zero_state config start c in
      let now = Run-Follows network small v r in
      subst (λ h. Suffix h (d.context ++ samples) (length heard))
        (append_assoc (zeros fl start.config) heard samples
          ∙ ap (λ (s : Detector fl M). zeros fl s.config ++ (heard ++ samples)) e)
        (Suffix-append samples now.last)

  -- The network hears the stream without a gap or an overlap. After any run of a detector, `infer`
  -- on a window `samples` asks the network for what was heard last, up to the end of the window and
  -- from as many samples before it as the context is long, with zeros in place of what precedes the
  -- first sample: it is all but the first `length heard` of the zeros, the samples heard and the
  -- window. The probability and the next state are those that the network answers.
  pub network_hears_stream :
      (network : List Float → M → Float × M) (zero_state : M) (config : VadConfig fl)
      → {start d : Detector fl M} {heard : List Float} (samples : List Float)
      → create fl zero_state config ≡ ok start
      → Run fl network start d heard
      → let answer =
          network (drop (length heard) (zeros fl config ++ (heard ++ samples))) d.state in
        let (prob, e) = infer fl network d samples in (prob ≡ answer.0) × (e.state ≡ answer.1)
  unfolding infer
  network_hears_stream network zero_state config {start} {d} {heard} samples c r =
      let e = dropped (input_follows network zero_state config samples c r) in
      (ap (λ input. (network input d.state).0) e, ap (λ input. (network input d.state).1) e)
    where
      dropped : {xs ys : List Float} {n : ℕ} → Suffix xs ys n → ys ≡ drop n xs
      dropped {xs} {ys} {n} v = sym (
          ap (λ h. drop n h) v.cut
          ∙ (ap (λ k. drop k (v.before ++ ys)) (sym v.starts) ∙ drop_before v.before ys))
