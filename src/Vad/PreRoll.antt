-- ===== src/Vad/PreRoll.antt =====
-- The pre-roll, and what the speech state machine leaves alone.
use asrcpp_gigam.Base.{
  ltb, leb, ◌==◌, leb→le, if_cases, length, length-append, is_empty, drop, length-drop, length-zero,
  ℕ, ◌+◌, ◌-◌, ◌≤◌, ◌<◌, ◌≡◌, sym, subst, true, ◌||◌, List, [], ◌∷◌, ◌++◌, arith,
}
use asrcpp_gigam.Base.Floats.{Floats}
use asrcpp_gigam.Base.Slices.{
  Suffix, Suffix-append, Suffix-nil, Suffix-drop, Suffix-any, Suffix-last,
}
use asrcpp_gigam.Vad.Detector.{
  Detector, finalize_segment, append_pre_roll, on_speech, on_silence, classify,
}

-- `p` can be the pre-roll: the last samples heard, at most `limit` of them.
abbrev pub Rolled {ℓ} : {F : Type ℓ} → ℕ → List F → List F → Type ℓ
Rolled limit heard p = (length p ≤ limit) × Suffix heard p (length heard - length p)

module _ (fl : Floats) {M : Type 0} where
  open fl use {Float, le}

  -- What the speech state machine leaves alone.
  pub record Frame (d e : Detector fl M) : Type 0 where
    pub total : e.total_samples_seen ≡ d.total_samples_seen
    pub roll : e.pre_roll ≡ d.pre_roll
    pub setup : e.config ≡ d.config
    pub padding : e.prefix_padding_samples ≡ d.prefix_padding_samples

  pub finalize-Frame : (d : Detector fl M) → Frame d (finalize_segment fl d)
  unfolding finalize_segment
  finalize-Frame d = ground arith

  pub classify-Frame :
      (d : Detector fl M) (p : Float) (samples : List Float) → Frame d (classify fl d p samples)
  unfolding on_speech on_silence finalize_segment
  classify-Frame d p samples = ground arith

  pub roll_up :
      (d : Detector fl M) (heard samples : List Float)
      → Rolled d.prefix_padding_samples heard d.pre_roll
      → 0 < length samples
      → Rolled d.prefix_padding_samples (heard ++ samples) (append_pre_roll fl d samples).pre_roll
  unfolding append_pre_roll
  roll_up d heard samples (fits, v) full =
      if_cases (λ (r : Detector fl M). Rolled limit all r.pre_roll) (limit == 0 || is_empty samples)
        (λ e. no_padding (length-zero d.pre_roll (none_kept samples full e fits)))
        λ e.
          if_cases (λ (r : Detector fl M). Rolled limit all r.pre_roll) (leb limit (length samples))
            (λ l. (
              omega (arith, length-drop (length samples - limit) samples, leb→le limit _ l),
              Suffix-any
                  (Suffix-drop (length samples - limit) (Suffix-last heard samples) (omega arith)),
            ))
            (λ l.
              if_cases (λ q. Rolled limit all (q ++ samples))
                (ltb limit (length d.pre_roll + length samples))
                (λ m. (
                  ground (
                    arith,
                    length-append (drop over d.pre_roll) samples,
                    length-drop over d.pre_roll,
                  ),
                  Suffix-any (Suffix-append samples (Suffix-drop over v (ground arith))),
                ))
                (λ m. (
                  ground (arith, length-append d.pre_roll samples),
                  Suffix-any (Suffix-append samples v),
                )))
    where
      limit : ℕ
      limit = d.prefix_padding_samples

      over : ℕ
      over = length d.pre_roll + length samples - limit

      all : List Float
      all = heard ++ samples

      no_padding : d.pre_roll ≡ [] → Rolled limit all d.pre_roll
      no_padding e = subst (Rolled limit all) (sym e) (omega arith, Suffix-any (Suffix-nil all))

      none_kept :
          (s : List Float)
          → 0 < length s
          → (limit == 0 || is_empty s) ≡ true
          → length d.pre_roll ≤ limit
          → length d.pre_roll ≡ 0
      none_kept [] h e f = absurd (omega (arith, h))
      none_kept (x ∷ s) h e f = ground arith
