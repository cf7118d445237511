-- ===== src/Vad/Events.antt =====
-- What the detector announces.
use asrcpp_gigam.Base.{
  leb, if◌then◌else◌, if_cases, length, is_empty, ℕ, ◌+◌, ◌-◌, ◌≡◌, refl, sym, ap, ◌∙◌, subst, true,
  false, not, ◌&&◌, List, [], ◌∷◌, ◌++◌, map, append_assoc, append-nil, arith,
}
use mathlib.Core.List.{map-append}
use asrcpp_gigam.Base.Result.{ok}
use asrcpp_gigam.Vad.Stream.{accept-hear}
use asrcpp_gigam.Base.Floats.{Floats}
use asrcpp_gigam.Vad.{SpeechSegment, SpeechTransition, started, stopped}
use asrcpp_gigam.Vad.Segments.{closing}
use asrcpp_gigam.Vad.Detector.{
  Detector, window, rate, infer, trimmed, finalize_segment, append_pre_roll, min_silence_samples,
  max_speech_samples, begin_speech, take_speech, on_speech, take_silence, on_silence, close_window,
  classify, accept_waveform, flush,
}

-- The positions of the `Stopped` transitions.
abbrev pub stops : List SpeechTransition → List ℕ
stops [] = []
stops (t ∷ ts) = elim t.kind [ started ↦ stops ts | stopped ↦ t.sample ∷ stops ts ]

stops-append : (xs ys : List SpeechTransition) → stops (xs ++ ys) ≡ stops xs ++ stops ys
stops-append [] ys = refl
stops-append (x ∷ xs) ys = ground (arith, stops-append xs ys)

abbrev pub end_samples {ℓ} : {F : Type ℓ} → List (SpeechSegment F) → List ℕ
end_samples = map (λ g. g.end_sample)

module _ (fl : Floats) {M : Type 0} where
  open fl use {Float, lt, le, div, of_nat}

  -- What a call appended to the two queues.
  pub record Emits (d e : Detector fl M) : Type 0 where
    pub new_segments : List (SpeechSegment Float)
    pub new_transitions : List SpeechTransition
    pub segments : e.segments ≡ d.segments ++ new_segments
    pub transitions : e.transitions ≡ d.transitions ++ new_transitions
    pub agree : stops new_transitions ≡ end_samples new_segments

  Emits-none :
      (d e : Detector fl M) → e.segments ≡ d.segments → e.transitions ≡ d.transitions → Emits d e
  Emits-none d e p q = record {
    new_segments = [];
    new_transitions = [];
    segments = p ∙ sym (append-nil d.segments);
    transitions = q ∙ sym (append-nil d.transitions);
    agree = refl;
  }

  Emits-trans : {c d e : Detector fl M} → Emits c d → Emits d e → Emits c e
  Emits-trans {c} {d} {e} u v = record {
    new_segments = u.new_segments ++ v.new_segments;
    new_transitions = u.new_transitions ++ v.new_transitions;
    segments =
        v.segments
        ∙ ap (λ s. s ++ v.new_segments) u.segments
        ∙ append_assoc c.segments u.new_segments v.new_segments;
    transitions =
        v.transitions
        ∙ ap (λ s. s ++ v.new_transitions) u.transitions
        ∙ append_assoc c.transitions u.new_transitions v.new_transitions;
    agree =
        stops-append u.new_transitions v.new_transitions
        ∙ cc (
          u.agree,
          v.agree,
          map-append (λ (g : SpeechSegment Float). g.end_sample) u.new_segments v.new_segments,
        );
  }

  finalize-Emits : (d : Detector fl M) → Emits d (finalize_segment fl d)
  unfolding finalize_segment
  finalize-Emits d =
      if_cases (Emits d) (is_empty d.speech_buf) (λ _. Emits-none d _ refl refl)
        λ _.
          if_cases (Emits d)
            (lt (div (of_nat (length (trimmed fl d))) (of_nat (rate fl d)))
              d.config.min_speech_duration)
            (λ _. Emits-none d _ refl refl)
            (λ _. record {
              new_segments = closing fl d ∷ [];
              new_transitions = record { kind = stopped; sample = d.current_end_sample } ∷ [];
              segments = refl;
              transitions = refl;
              agree = refl;
            })

  begin-Emits : (d : Detector fl M) → Emits d (begin_speech fl d)
  unfolding begin_speech
  begin-Emits d = record {
    new_segments = [];
    new_transitions =
        record { kind = started; sample = d.total_samples_seen - length d.pre_roll } ∷ [];
    segments = sym (append-nil d.segments);
    transitions = refl;
    agree = refl;
  }

  take_speech-Emits :
      (d : Detector fl M) (samples : List Float) → Emits d (take_speech fl d samples)
  unfolding take_speech
  take_speech-Emits d samples =
      if_cases (Emits d) (leb (max_speech_samples fl d) (d.speech_start_samples + window fl d))
        (λ _. Emits-trans (Emits-none d _ refl refl) (finalize-Emits _))
        (λ _. Emits-none d _ refl refl)

  take_silence-Emits :
      (d : Detector fl M) (samples : List Float) → Emits d (take_silence fl d samples)
  unfolding take_silence
  take_silence-Emits d samples =
      if_cases (Emits d) (leb (min_silence_samples fl d) (d.silence_samples + window fl d))
        (λ _. Emits-trans (Emits-none d _ refl refl) (finalize-Emits _))
        (λ _. Emits-none d _ refl refl)

  classify-Emits :
      (d : Detector fl M) (p : Float) (samples : List Float) → Emits d (classify fl d p samples)
  unfolding on_speech on_silence
  classify-Emits d p samples =
      if_cases (Emits d) (le d.config.threshold p)
        (λ _.
          Emits-trans
            (if_cases (Emits d) d.in_speech (λ _. Emits-none d d refl refl) (λ _. begin-Emits d))
            (take_speech-Emits (if d.in_speech then d else begin_speech fl d) samples))
        (λ _.
          if_cases (Emits d) d.in_speech (λ _. take_silence-Emits d samples)
            (λ _. Emits-none d d refl refl))

  close-Emits : (d : Detector fl M) (samples : List Float) → Emits d (close_window fl d samples)
  unfolding close_window append_pre_roll
  close-Emits d samples = Emits-none d _ (ground arith) (ground arith)

  infer-Emits :
      (network : List Float → M → Float × M) (d : Detector fl M) (samples : List Float)
      → Emits d (infer fl network d samples).1
  unfolding infer
  infer-Emits network d samples = Emits-none d _ refl refl

  accept-Emits :
      (network : List Float → M → Float × M) (d d' : Detector fl M) (samples : List Float)
      → accept_waveform fl network d samples ≡ ok d'
      → Emits d d'
  accept-Emits network d d' samples h =
      let (_, e) = accept-hear fl network d d' samples h in
      let (p, i) = infer fl network d samples in
      subst (Emits d) e (
        Emits-trans (infer-Emits network d samples) (
          Emits-trans (classify-Emits i p samples) (close-Emits (classify fl i p samples) samples)))

  flush-Emits : (d : Detector fl M) → Emits d (flush fl d)
  unfolding flush
  flush-Emits d =
      if_cases (Emits d) (d.in_speech && not (is_empty d.speech_buf)) (λ _. finalize-Emits d)
        (λ _. Emits-none d d refl refl)

  -- `accept_waveform` and `flush` only append to the two queues, and for each segment that they
  -- append they append one `Stopped` transition, at the same end, in the same order.
  stops_match_segments :
      (network : List Float → M → Float × M) (d d' : Detector fl M) (samples : List Float)
      → accept_waveform fl network d samples ≡ ok d'
      → Emits d d' × Emits d (flush fl d)
  stops_match_segments network d d' samples h = (accept-Emits network d d' samples h, flush-Emits d)

  -- The detector after `flush` has discarded an utterance that is too short.
  abbrev discarded : Detector fl M → Detector fl M
  discarded d = record d {
    in_speech = false;
    silence_samples = 0;
    speech_start_samples = 0;
    speech_buf = [];
  }

  flush_short :
      (d : Detector fl M)
      → d.in_speech ≡ true
      → is_empty d.speech_buf ≡ false
      → lt (div (of_nat (length (trimmed fl d))) (of_nat (rate fl d))) d.config.min_speech_duration
        ≡ true
      → flush fl d ≡ discarded d
  unfolding flush finalize_segment
  flush_short d on full short = ground arith

  -- An utterance that is too short leaves its `Started` without a `Stopped`: when `flush` ends one,
  -- it announces nothing, and the next window of speech announces `Started` again.
  pub restart_without_stop :
      (d : Detector fl M) (samples : List Float)
      → d.in_speech ≡ true
      → is_empty d.speech_buf ≡ false
      → lt (div (of_nat (length (trimmed fl d))) (of_nat (rate fl d))) d.config.min_speech_duration
        ≡ true
      → (later : List SpeechTransition) × ((on_speech fl (flush fl d) samples).transitions
          ≡ d.transitions
            ++ (record { kind = started; sample = d.total_samples_seen - length d.pre_roll }
                ∷ later))
  unfolding on_speech begin_speech
  restart_without_stop d samples on full short =
      let v = take_speech-Emits (begin_speech fl (discarded d)) samples in
      let again : SpeechTransition = record {
        kind = started;
        sample = d.total_samples_seen - length d.pre_roll;
      } in
      (
        v.new_transitions,
        rw (flush_short d on full short)
            (v.transitions ∙ append_assoc d.transitions (again ∷ []) v.new_transitions),
      )
