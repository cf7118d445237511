-- ===== src/Vad/Capacity.antt =====
-- The bound on buffered audio, over any sequence of calls.
use asrcpp_gigam.Base.{
  Bool-cases, if_cases, length, length-append, is_empty, drop, All, length-drop, ◌+◌, ◌-◌, ◌≤◌, ◌≡◌,
  refl, sym, ap, ◌∙◌, subst, ◌⊎◌, inl, inr, true, false, not, ◌&&◌, List, [], ◌∷◌, arith,
}
use asrcpp_gigam.Base.Int.{pos_part}
use asrcpp_gigam.Base.Result.{ok}
use asrcpp_gigam.Base.Floats.{Floats}
use asrcpp_gigam.Vad.{SpeechSegment, VadConfig}
use asrcpp_gigam.Vad.Detector.{
  Detector, window, create, infer, append_pre_roll, close_window, accept_waveform, flush, pop,
  pop_transition,
}
use asrcpp_gigam.Vad.Stream.{
  append_pre_roll-only, advance, infer-window, accept-hear, Run, create-initial, fresh, accepts,
  flushes, pops, pops_transition,
}
use asrcpp_gigam.Vad.Bounds.{
  longest, Short, Within, finalize-Within, talking-Ready, classify-Within,
}

module _ (fl : Floats) {M : Type 0} (start : Detector fl M) where
  open fl use {Float, le}

  append_pre_roll-fits :
      (d : Detector fl M) (samples : List Float)
      → length d.pre_roll ≤ d.prefix_padding_samples
      → length (append_pre_roll fl d samples).pre_roll ≤ d.prefix_padding_samples
  unfolding append_pre_roll
  append_pre_roll-fits d samples h = ground (
    arith,
    length-drop (length samples - d.prefix_padding_samples) samples,
    length-append d.pre_roll samples,
    length-drop (length d.pre_roll + length samples - d.prefix_padding_samples) d.pre_roll,
    length-append (drop (length d.pre_roll + length samples - d.prefix_padding_samples) d.pre_roll)
        samples,
  )

  close-Within :
      (d : Detector fl M) (samples : List Float)
      → Within fl start d
      → Within fl start (close_window fl d samples)
  unfolding close_window
  close-Within d samples v =
      if_cases (λ (r : Detector fl M). Within fl start (advance fl r)) d.in_speech
        (λ e. record {
          setup = v.setup;
          padding = v.padding;
          rolls = omega arith;
          held = v.held;
          cut = v.cut;
          waits = v.waits;
          segs = v.segs;
        })
        (λ e.
          subst (λ (r : Detector fl M). Within fl start (advance fl r))
            (sym (append_pre_roll-only fl d samples))
            (record {
              setup = v.setup;
              padding = v.padding;
              rolls = append_pre_roll-fits d samples v.rolls;
              held = v.held;
              cut = v.cut;
              waits = v.waits;
              segs = v.segs;
            }))

  infer-Within :
      (network : List Float → M → Float × M) (d : Detector fl M) (samples : List Float)
      → Within fl start d
      → Within fl start (infer fl network d samples).1
  unfolding infer
  infer-Within network d samples v = record {
    setup = v.setup;
    padding = v.padding;
    rolls = v.rolls;
    held = v.held;
    cut = v.cut;
    waits = v.waits;
    segs = v.segs;
  }

  accept-Within :
      (network : List Float → M → Float × M) (d d' : Detector fl M) (samples : List Float)
      → accept_waveform fl network d samples ≡ ok d'
      → Within fl start d
      → Within fl start d'
  accept-Within network d d' samples h v =
      let (len, e) = accept-hear fl network d d' samples h in
      let (p, i) = infer fl network d samples in
      subst (Within fl start) e (
        close-Within _ samples (
          classify-Within fl start i p samples (len ∙ sym (infer-window fl network d samples))
            (infer-Within network d samples v)))

  flush-Within : (d : Detector fl M) → Within fl start d → Within fl start (flush fl d)
  unfolding flush
  flush-Within d v =
      if_cases (Within fl start) (d.in_speech && not (is_empty d.speech_buf))
        (λ e.
          finalize-Within fl start d v.setup v.padding v.rolls
            (omega (arith, (talking-Ready fl start d (ground arith) v).space)) v.segs)
        (λ _. v)

  drop-Short :
      (gs : List (SpeechSegment Float)) → All (Short fl start) gs → All (Short fl start) (drop 1 gs)
  drop-Short [] h = tt
  drop-Short (g ∷ gs) h = h.1

  Run-Within :
      (network : List Float → M → Float × M) {d : Detector fl M} {heard : List Float}
      → Within fl start start
      → Run fl network start d heard
      → Within fl start d
  unfolding pop pop_transition
  Run-Within network v fresh = v
  Run-Within network v (accepts {d = d} samples d' r h) =
      accept-Within network d d' samples h (Run-Within network v r)
  Run-Within network v (flushes {d = d} r) = flush-Within d (Run-Within network v r)
  Run-Within network v (pops {d = d} r) =
      let w = Run-Within network v r in
      record {
        setup = w.setup;
        padding = w.padding;
        rolls = w.rolls;
        held = w.held;
        cut = w.cut;
        waits = w.waits;
        segs = drop-Short d.segments w.segs;
      }
  Run-Within network v (pops_transition {d = d} r) =
      let w = Run-Within network v r in
      record {
        setup = w.setup;
        padding = w.padding;
        rolls = w.rolls;
        held = w.held;
        cut = w.cut;
        waits = w.waits;
        segs = w.segs;
      }

  start-Within :
      (zero_state : M) (config : VadConfig fl)
      → create fl zero_state config ≡ ok start
      → Within fl start start
  start-Within zero_state config h =
      let (e, _, _) = create-initial fl zero_state config start h in
      let off : start.in_speech ≡ false = ap (λ (d : Detector fl M). d.in_speech) e in
      record {
        setup = refl;
        padding = refl;
        rolls = rw e (omega arith);
        held = λ q. cc;
        cut = λ q. cc;
        waits = λ q. cc;
        segs = rw e tt;
      }

  held_room :
      {d : Detector fl M}
      → (d.in_speech ≡ true) ⊎ (d.in_speech ≡ false)
      → Within fl start d
      → (d.in_speech ≡ false) ⊎ (length d.speech_buf + window fl start ≤ longest fl start)
  held_room {d} (inl e) v = inr (
      subst (λ (k : VadConfig fl). length d.speech_buf + pos_part k.window_size ≤ longest fl start)
        v.setup (talking-Ready fl start d e v).space)
  held_room (inr e) v = inl e

  -- Whatever windows a new detector accepts, an utterance never grows past the pre-roll, the
  -- maximal speech, the minimal silence and one window together: not the buffer while someone
  -- speaks, and no segment that is handed out. The pre-roll keeps to its own size.
  audio_bounded :
      (network : List Float → M → Float × M) (zero_state : M) (config : VadConfig fl)
      → {d : Detector fl M} {heard : List Float} → create fl zero_state config ≡ ok start
      → Run fl network start d heard
      → ((d.in_speech ≡ false) ⊎ (length d.speech_buf + window fl start ≤ longest fl start))
        × All (Short fl start) d.segments
        × (length d.pre_roll ≤ start.prefix_padding_samples)
  audio_bounded network zero_state config {d} c r =
      let v = Run-Within network (start-Within zero_state config c) r in
      (held_room (Bool-cases d.in_speech) v, v.segs, omega (arith, v.rolls, v.padding))
