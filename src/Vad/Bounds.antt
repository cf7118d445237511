-- ===== src/Vad/Bounds.antt =====
-- How much audio the detector can hold.
use native.Mathlib.Nat.{le_trans}
use asrcpp_gigam.Base.{
  ltb, leb, if◌then◌else◌, if_cases, length, length-append, All, length-take, ℕ, ◌+◌, ◌-◌, ◌≤◌, ◌<◌,
  ◌≡◌, refl, ◌∙◌, Bool, true, false, ◌&&◌, List, arith,
}
use asrcpp_gigam.Base.Floats.{Floats}
use asrcpp_gigam.Vad.{SpeechSegment}
use asrcpp_gigam.Vad.Segments.{finalize-All}
use asrcpp_gigam.Vad.Detector.{
  Detector, window, trimmed, finalize_segment, min_silence_samples, max_speech_samples,
  begin_speech, take_speech, on_speech, take_silence, on_silence, classify,
}

-- Samples: the pre-roll, the maximal speech, the minimal silence and one window more.
module _ (fl : Floats) {M : Type 0} where
  open fl use {Float, le}

  abbrev pub longest : Detector fl M → ℕ
  longest d =
      d.prefix_padding_samples + max_speech_samples fl d + min_silence_samples fl d + window fl d

module _ (fl : Floats) {M : Type 0} (start : Detector fl M) where
  open fl use {Float, le}

  abbrev pub Short : SpeechSegment Float → Type 0
  Short g = length g.samples ≤ longest fl start

  pub record Within (d : Detector fl M) : Type 0 where
    pub setup : d.config ≡ start.config
    pub padding : d.prefix_padding_samples ≡ start.prefix_padding_samples
    pub rolls : length d.pre_roll ≤ d.prefix_padding_samples
    pub held :
        d.in_speech ≡ true → length d.speech_buf ≤ d.prefix_padding_samples + d.speech_start_samples
    pub cut :
        d.in_speech ≡ true → d.speech_start_samples < max_speech_samples fl d + d.silence_samples
    pub waits : d.in_speech ≡ true → d.silence_samples ≤ min_silence_samples fl d
    pub segs : All Short d.segments

  trimmed-shorter : (d : Detector fl M) → length (trimmed fl d) ≤ length d.speech_buf
  unfolding trimmed
  trimmed-shorter d =
      if_cases (λ (b : List Float). length b ≤ length d.speech_buf)
        (ltb 0 d.silence_samples && ltb d.silence_samples (length d.speech_buf))
        (λ _. omega (arith, length-take (length d.speech_buf - d.silence_samples) d.speech_buf))
        (λ _. omega arith)

  finalize-fields :
      (d : Detector fl M)
      → ((finalize_segment fl d).config ≡ d.config)
        × ((finalize_segment fl d).prefix_padding_samples ≡ d.prefix_padding_samples)
        × ((finalize_segment fl d).pre_roll ≡ d.pre_roll)
        × ((finalize_segment fl d).in_speech ≡ false)
  unfolding finalize_segment
  finalize-fields d = ground arith

  pub finalize-Within :
      (d : Detector fl M)
      → d.config ≡ start.config
      → d.prefix_padding_samples ≡ start.prefix_padding_samples
      → length d.pre_roll ≤ d.prefix_padding_samples
      → length d.speech_buf ≤ longest fl start
      → All Short d.segments
      → Within (finalize_segment fl d)
  finalize-Within d c p r h s =
      let (fc, fp, fr, fi) = finalize-fields d in
      record {
        setup = fc ∙ c;
        padding = fp ∙ p;
        rolls = ground arith;
        held = λ e. cc;
        cut = λ e. cc;
        waits = λ e. cc;
        segs = finalize-All fl Short d (le_trans (trimmed-shorter d) h) s;
      }

  room : {d : Detector fl M} → Within d → longest fl d ≡ longest fl start
  room {d} v = rw (v.setup, v.padding)

  -- What a window needs of the buffer that it joins.
  pub record Ready (d : Detector fl M) : Type 0 where
    pub setup : d.config ≡ start.config
    pub padding : d.prefix_padding_samples ≡ start.prefix_padding_samples
    pub rolls : length d.pre_roll ≤ d.prefix_padding_samples
    pub held : length d.speech_buf ≤ d.prefix_padding_samples + d.speech_start_samples
    pub space : length d.speech_buf + window fl d ≤ longest fl start
    pub segs : All Short d.segments

  pub talking-Ready : (d : Detector fl M) → d.in_speech ≡ true → Within d → Ready d
  talking-Ready d e v = record {
    setup = v.setup;
    padding = v.padding;
    rolls = v.rolls;
    held = v.held e;
    space = omega (arith, v.held e, v.cut e, v.waits e, room v);
    segs = v.segs;
  }

  begin-Ready : (d : Detector fl M) → Within d → Ready (begin_speech fl d)
  unfolding begin_speech
  begin-Ready d v = record {
    setup = v.setup;
    padding = v.padding;
    rolls = v.rolls;
    held = omega (arith, v.rolls);
    space = omega (arith, v.rolls, room v);
    segs = v.segs;
  }

  take_speech-Within :
      (d : Detector fl M) (samples : List Float)
      → d.in_speech ≡ true
      → length samples ≡ window fl d
      → Ready d
      → Within (take_speech fl d samples)
  unfolding take_speech
  take_speech-Within d samples e len v =
      if_cases Within (leb (max_speech_samples fl d) (d.speech_start_samples + window fl d))
        (λ _.
          finalize-Within _ v.setup v.padding v.rolls
            (omega (arith, len, v.space, length-append d.speech_buf samples)) v.segs)
        (λ l. record {
          setup = v.setup;
          padding = v.padding;
          rolls = v.rolls;
          held = λ _. omega (arith, len, v.held, length-append d.speech_buf samples);
          cut = λ _. ground arith;
          waits = λ _. omega arith;
          segs = v.segs;
        })

  take_silence-Within :
      (d : Detector fl M) (samples : List Float)
      → d.in_speech ≡ true
      → length samples ≡ window fl d
      → Within d
      → Within (take_silence fl d samples)
  unfolding take_silence
  take_silence-Within d samples e len v =
      if_cases Within (leb (min_silence_samples fl d) (d.silence_samples + window fl d))
        (λ _.
          finalize-Within _ v.setup v.padding v.rolls
            (omega (arith, len, (talking-Ready d e v).space, length-append d.speech_buf samples))
            v.segs)
        (λ l. record {
          setup = v.setup;
          padding = v.padding;
          rolls = v.rolls;
          held = λ _. omega (arith, len, v.held e, length-append d.speech_buf samples);
          cut = λ _. omega (arith, v.cut e);
          waits = λ _. ground arith;
          segs = v.segs;
        })

  pub classify-Within :
      (d : Detector fl M) (p : Float) (samples : List Float)
      → length samples ≡ window fl d
      → Within d
      → Within (classify fl d p samples)
  unfolding on_speech on_silence begin_speech
  classify-Within d p samples len v =
      if_cases Within (le d.config.threshold p) (λ _. opening d.in_speech refl)
        (λ _. if_cases Within d.in_speech (λ e. take_silence-Within d samples e len v) (λ _. v))
    where
      opening :
          (b : Bool)
          → d.in_speech ≡ b
          → Within (take_speech fl (if b then d else begin_speech fl d) samples)
      opening true e = take_speech-Within d samples e len (talking-Ready d e v)
      opening false e = take_speech-Within (begin_speech fl d) samples refl len (begin-Ready d v)
