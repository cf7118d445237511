-- ===== src/Vad/Segments.antt =====
-- One window in the speech state machine: the buffer and the segments stay pieces of the stream.
use asrcpp_gigam.Base.{
  ltb, if◌then◌else◌, Bool-cases, if_cases, length, length-append, take, All, take_all, All-append,
  ℕ, ◌+◌, ◌-◌, ◌≤◌, ◌<◌, max, ◌≡◌, refl, sym, subst, inl, inr, Bool, true, false, List, [], ◌∷◌,
  ◌++◌, arith,
}
use asrcpp_gigam.Base.Floats.{Floats}
use asrcpp_gigam.Vad.{SpeechSegment}
use asrcpp_gigam.Base.Slices.{Slice, Suffix, Slice-more, Suffix-append, Suffix-length, Suffix-take}
use asrcpp_gigam.Vad.Detector.{
  Detector, window, trimmed, finalize_segment, begin_speech, take_speech, on_speech, take_silence,
  on_silence,
}

-- A segment holds the samples of the stream between its two ends.
abbrev pub Cuts {ℓ} : {F : Type ℓ} → List F → SpeechSegment F → Type ℓ
Cuts heard g = Slice heard g.samples g.start_sample g.end_sample

Cuts-more {ℓ} :
    {F : Type ℓ} (heard more : List F) (gs : List (SpeechSegment F))
    → All (Cuts heard) gs
    → All (Cuts (heard ++ more)) gs
Cuts-more heard more [] h = tt
Cuts-more heard more (g ∷ gs) h = (Slice-more more h.0, Cuts-more heard more gs h.1)

module _ (fl : Floats) {M : Type 0} where
  open fl use {Float, le}

  -- Speech is buffered: the buffer is the stream from `current_start_sample` on, and
  -- `current_end_sample` is where the silence at its end begins.
  pub record Talking (d : Detector fl M) (heard : List Float) : Type 0 where
    pub buffer : Suffix heard d.speech_buf d.current_start_sample
    pub reaches : d.current_end_sample + d.silence_samples ≡ length heard
    pub speaks : d.current_start_sample < d.current_end_sample

  pub record Tracks (d : Detector fl M) (heard : List Float) : Type 0 where
    pub total : d.total_samples_seen ≡ length heard
    pub positive : 0 < window fl d
    pub before : Suffix heard d.pre_roll (length heard - length d.pre_roll)
    pub fits : length d.pre_roll ≤ d.prefix_padding_samples
    pub talking : d.in_speech ≡ true → Talking d heard
    pub silent : d.in_speech ≡ false → d.silence_samples ≡ 0
    pub cuts : All (Cuts heard) d.segments

  trimmed_lem :
      (d : Detector fl M) (heard : List Float)
      → Talking d heard
      → trimmed fl d ≡ take (length d.speech_buf - d.silence_samples) d.speech_buf
  unfolding trimmed
  trimmed_lem d heard v = elim (Bool-cases (ltb 0 d.silence_samples)) [
    | inl e ↦ ground (arith, Suffix-length v.buffer, v.reaches, v.speaks)
    | inr e ↦ ground (arith, take_all (length d.speech_buf - d.silence_samples) d.speech_buf)
  ]

  trimmed-Slice :
      (d : Detector fl M) (heard : List Float)
      → Talking d heard
      → Slice heard (trimmed fl d) d.current_start_sample d.current_end_sample
  trimmed-Slice d heard v = rw (trimmed_lem d heard v) (
      subst (Slice heard _ d.current_start_sample)
        (omega (arith, Suffix-length v.buffer, v.reaches, v.speaks))
        (Suffix-take (length d.speech_buf - d.silence_samples) v.buffer (omega arith)))

  -- The segment that `finalize_segment` makes of the buffer.
  abbrev pub closing : Detector fl M → SpeechSegment Float
  closing d = record {
    samples = trimmed fl d;
    start_sample = d.current_start_sample;
    end_sample = d.current_end_sample;
  }

  pub finalize-All {κ} :
      (P : SpeechSegment Float → Type κ) (d : Detector fl M)
      → P (closing d)
      → All P d.segments
      → All P (finalize_segment fl d).segments
  unfolding finalize_segment
  finalize-All P d p h =
      let grown = All-append P d.segments (closing d ∷ []) h (p, tt) in ground (arith, grown, h)

  finalize-Cuts :
      (d : Detector fl M) (heard : List Float)
      → Talking d heard
      → All (Cuts heard) d.segments
      → All (Cuts heard) (finalize_segment fl d).segments
  finalize-Cuts d heard v h = finalize-All (Cuts heard) d (trimmed-Slice d heard v) h

  finalize-quiet :
      (d : Detector fl M)
      → ((finalize_segment fl d).in_speech ≡ false) × ((finalize_segment fl d).silence_samples ≡ 0)
  unfolding finalize_segment
  finalize-quiet d = ground arith

  -- Where `on_speech` and `on_silence` leave off: still talking, or quiet, at the end of `heard`.
  pub record Between (d : Detector fl M) (heard : List Float) : Type 0 where
    pub talks : d.in_speech ≡ true → Talking d heard
    pub rests : d.in_speech ≡ false → d.silence_samples ≡ 0
    pub shown : All (Cuts heard) d.segments

  pub finalize-Between :
      (d : Detector fl M) (heard : List Float)
      → Talking d heard
      → All (Cuts heard) d.segments
      → Between (finalize_segment fl d) heard
  finalize-Between d heard v h =
      let (q, s) = finalize-quiet d in
      record { talks = λ e. cc; rests = λ e. s; shown = finalize-Cuts d heard v h }

  finalize_if-Between :
      (c : Bool) (d : Detector fl M) (heard : List Float)
      → d.in_speech ≡ true
      → Talking d heard
      → All (Cuts heard) d.segments
      → Between (if c then finalize_segment fl d else d) heard
  finalize_if-Between c d heard e v h =
      if_cases (λ r. Between r heard) c (λ _. finalize-Between d heard v h)
        (λ _. record { talks = λ _. v; rests = λ q. cc; shown = h })

  -- A window of speech, when the buffer holds what precedes it.
  speech-Talking :
      (d : Detector fl M) (heard samples : List Float)
      → Suffix heard d.speech_buf d.current_start_sample
      → length samples ≡ window fl d
      → 0 < window fl d
      → d.total_samples_seen ≡ length heard
      → Talking
          (record d {
            silence_samples = 0;
            speech_buf = d.speech_buf ++ samples;
            speech_start_samples = d.speech_start_samples + window fl d;
            current_end_sample = d.total_samples_seen + window fl d;
          })
          (heard ++ samples)
  speech-Talking d heard samples b len pos tot = record {
    buffer = Suffix-append samples b;
    reaches = omega (arith, length-append heard samples);
    speaks = omega (arith, Suffix-length b);
  }

  -- What `take_speech` needs of the detector that it is given.
  record Opened (d : Detector fl M) (heard : List Float) (n : ℕ) : Type 0 where
    on : d.in_speech ≡ true
    opens : Suffix heard d.speech_buf d.current_start_sample
    size : n ≡ window fl d
    some_size : 0 < window fl d
    seen : d.total_samples_seen ≡ length heard
    earlier : All (Cuts heard) d.segments

  opened :
      (d : Detector fl M) (heard : List Float) (n : ℕ)
      → Tracks d heard
      → n ≡ window fl d
      → Opened (if d.in_speech then d else begin_speech fl d) heard n
  unfolding begin_speech
  opened d heard n v len =
      if_cases (λ r. Opened r heard n) d.in_speech
        (λ e. record {
          on = e;
          opens = (v.talking e).buffer;
          size = len;
          some_size = v.positive;
          seen = v.total;
          earlier = v.cuts;
        })
        (λ e. record {
          on = refl;
          opens =
              subst (λ n. Suffix heard d.pre_roll (n - length d.pre_roll)) (sym v.total) v.before;
          size = len;
          some_size = v.positive;
          seen = v.total;
          earlier = v.cuts;
        })

  take_speech-Between :
      (d : Detector fl M) (heard samples : List Float)
      → Opened d heard (length samples)
      → Between (take_speech fl d samples) (heard ++ samples)
  unfolding take_speech
  take_speech-Between d heard samples v =
      finalize_if-Between _ _ (heard ++ samples) v.on
        (speech-Talking d heard samples v.opens v.size v.some_size v.seen)
        (Cuts-more heard samples d.segments v.earlier)

  pub on_speech-Between :
      (d : Detector fl M) (heard samples : List Float)
      → Tracks d heard
      → length samples ≡ window fl d
      → Between (on_speech fl d samples) (heard ++ samples)
  unfolding on_speech
  on_speech-Between d heard samples v len =
      take_speech-Between _ heard samples (opened d heard (length samples) v len)

  silence-Talking :
      (d : Detector fl M) (heard samples : List Float)
      → Talking d heard
      → length samples ≡ window fl d
      → d.total_samples_seen ≡ length heard
      → Talking
          (record d {
            silence_samples = d.silence_samples + window fl d;
            speech_buf = d.speech_buf ++ samples;
            speech_start_samples = d.speech_start_samples + window fl d;
            current_end_sample =
                max d.current_start_sample
                  (d.total_samples_seen + window fl d - (d.silence_samples + window fl d));
          })
          (heard ++ samples)
  silence-Talking d heard samples v len tot = record {
    buffer = Suffix-append samples v.buffer;
    reaches = omega (arith, v.reaches, v.speaks, length-append heard samples);
    speaks = omega (arith, v.reaches, v.speaks);
  }

  pub on_silence-Between :
      (d : Detector fl M) (heard samples : List Float)
      → Tracks d heard
      → length samples ≡ window fl d
      → Between (on_silence fl d samples) (heard ++ samples)
  unfolding on_silence take_silence
  on_silence-Between d heard samples v len =
      if_cases (λ r. Between r (heard ++ samples)) d.in_speech
        (λ e.
          finalize_if-Between _ _ (heard ++ samples) e
            (silence-Talking d heard samples (v.talking e) len v.total)
            (Cuts-more heard samples d.segments v.cuts))
        (λ e. record {
          talks = λ q. cc;
          rests = λ q. v.silent e;
          shown = Cuts-more heard samples d.segments v.cuts;
        })
