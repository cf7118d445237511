-- ===== src/Vad/Detector.antt =====
-- The state of the detector and its methods.
use asrcpp_gigam.Base.{
  ltb, leb, ◌==◌, if◌then◌else◌, length, is_empty, take, drop, replicate, ℕ, ◌+◌, ◌-◌, ◌*◌, ◌/◌,
  max, Bool, true, false, not, ◌&&◌, ◌||◌, List, [], ◌∷◌, ◌++◌,
}
use asrcpp_gigam.Base.Int.{pos_part, ltb_ℤ, leb_ℤ, pos}
use asrcpp_gigam.Base.Result.{Result, ◌>>◌, throw_if, ok, err}
use asrcpp_gigam.Base.Floats.{Floats}
use asrcpp_gigam.Vad.{
  SpeechSegment, SpeechTransition, VadError, VadConfig, started, stopped, window_size_not_positive,
  context_size_out_of_range, sample_rate_not_positive, threshold_out_of_range, wrong_window,
}

-- `state` is the network's recurrent state, `M` its type.
module _ (fl : Floats) (M : Type 0) where
  open fl use {Float, lt, le, lit, of_nat, to_nat, mul, div}

  pub record Detector : Type 0 where
    pub config : VadConfig fl
    pub prefix_padding_samples : ℕ
    pub state : M
    pub context : List Float
    pub in_speech : Bool
    pub silence_samples : ℕ
    pub speech_start_samples : ℕ
    pub total_samples_seen : ℕ
    pub current_start_sample : ℕ
    pub current_end_sample : ℕ
    pub speech_buf : List Float
    pub pre_roll : List Float
    pub segments : List (SpeechSegment Float)
    pub transitions : List SpeechTransition

module _ (fl : Floats) {M : Type 0} where
  open fl use {Float, lt, le, lit, of_nat, to_nat, mul, div}

  abbrev pub window : Detector fl M → ℕ
  window d = pos_part d.config.window_size

  abbrev pub rate : Detector fl M → ℕ
  rate d = pos_part d.config.sample_rate

  abbrev pub initial : M → VadConfig fl → Detector fl M
  initial silent config = record {
    config = config;
    prefix_padding_samples = pos_part config.prefix_padding_ms * pos_part config.sample_rate / 1000;
    state = silent;
    context = replicate (pos_part config.context_size) (lit 0 1);
    in_speech = false;
    silence_samples = 0;
    speech_start_samples = 0;
    total_samples_seen = 0;
    current_start_sample = 0;
    current_end_sample = 0;
    speech_buf = [];
    pre_roll = [];
    segments = [];
    transitions = [];
  }

  -- The constructor, after `config_` and `runtime_`; `silent` is the zero state of the network.
  unfoldable pub create : M → VadConfig fl → Result VadError (Detector fl M)
  create silent config = do
    throw_if (leb_ℤ config.window_size (pos 0)) window_size_not_positive
    throw_if (ltb_ℤ config.context_size (pos 0) || leb_ℤ config.window_size config.context_size)
        context_size_out_of_range
    throw_if (leb_ℤ config.sample_rate (pos 0)) sample_rate_not_positive
    throw_if (le config.threshold (lit 0 1) || le (lit 1 1) config.threshold) threshold_out_of_range
    ok (initial silent config)

  -- `infer`, for a window of the right size: the network reads the context and the window. It answers
  -- always: that `Ort::Session::Run` throws is left out.
  unfoldable pub infer :
      (List Float → M → Float × M) → Detector fl M → List Float → Float × Detector fl M
  infer network d samples =
      let (prob, state') = network (d.context ++ samples) d.state in
      (
        prob,
        record d {
          state = state';
          context = drop (window d - pos_part d.config.context_size) samples;
        },
      )

  -- The speech without the silence that ended it.
  unfoldable pub trimmed : Detector fl M → List Float
  trimmed d =
      if ltb 0 d.silence_samples && ltb d.silence_samples (length d.speech_buf)
      then take (length d.speech_buf - d.silence_samples) d.speech_buf
      else d.speech_buf

  -- `std::move` leaves `speech_buf_` empty.
  unfoldable pub finalize_segment : Detector fl M → Detector fl M
  unfolding trimmed
  finalize_segment d =
      let quiet = record d { in_speech = false; silence_samples = 0; speech_start_samples = 0 } in
      if is_empty d.speech_buf
      then quiet
      else if lt (div (of_nat (length (trimmed d))) (of_nat (rate d))) d.config.min_speech_duration
      then record quiet { speech_buf = [] }
      else record quiet {
        speech_buf = [];
        segments =
            d.segments
            ++ (record {
              samples = trimmed d;
              start_sample = d.current_start_sample;
              end_sample = d.current_end_sample;
            }
                ∷ []);
        transitions =
            d.transitions ++ (record { kind = stopped; sample = d.current_end_sample } ∷ []);
      }

  unfoldable pub append_pre_roll : Detector fl M → List Float → Detector fl M
  append_pre_roll d samples =
      let max_prefix = d.prefix_padding_samples in
      if max_prefix == 0 || is_empty samples
      then d
      else if leb max_prefix (length samples)
      then record d { pre_roll = drop (length samples - max_prefix) samples }
      else let needed = length d.pre_roll + length samples in
        record d {
          pre_roll =
              (if ltb max_prefix needed then drop (needed - max_prefix) d.pre_roll else d.pre_roll)
              ++ samples;
        }

  abbrev pub min_silence_samples : Detector fl M → ℕ
  min_silence_samples d = to_nat (mul d.config.min_silence_duration (of_nat (rate d)))

  abbrev pub max_speech_samples : Detector fl M → ℕ
  max_speech_samples d = to_nat (mul d.config.max_speech_duration (of_nat (rate d)))

  -- `std::max<int64_t>(0, a - b)` on counts is their truncated difference.
  unfoldable pub begin_speech : Detector fl M → Detector fl M
  begin_speech d =
      let start = d.total_samples_seen - length d.pre_roll in
      record d {
        in_speech = true;
        speech_start_samples = 0;
        current_start_sample = start;
        current_end_sample = d.total_samples_seen + window d;
        speech_buf = d.pre_roll;
        transitions = d.transitions ++ (record { kind = started; sample = start } ∷ []);
      }

  -- The buffer takes the window, and is cut at the maximal duration.
  unfoldable pub take_speech : Detector fl M → List Float → Detector fl M
  take_speech d samples =
      let e = record d {
        silence_samples = 0;
        speech_buf = d.speech_buf ++ samples;
        speech_start_samples = d.speech_start_samples + window d;
        current_end_sample = d.total_samples_seen + window d;
      } in
      if leb (max_speech_samples d) e.speech_start_samples then finalize_segment e else e

  unfoldable pub on_speech : Detector fl M → List Float → Detector fl M
  unfolding begin_speech take_speech
  on_speech d samples = take_speech (if d.in_speech then d else begin_speech d) samples

  -- The buffer takes the window, and is cut when the silence lasts long enough.
  unfoldable pub take_silence : Detector fl M → List Float → Detector fl M
  take_silence d samples =
      let silence = d.silence_samples + window d in
      let e = record d {
        silence_samples = silence;
        speech_buf = d.speech_buf ++ samples;
        speech_start_samples = d.speech_start_samples + window d;
        current_end_sample = max d.current_start_sample (d.total_samples_seen + window d - silence);
      } in
      if leb (min_silence_samples d) silence then finalize_segment e else e

  unfoldable pub on_silence : Detector fl M → List Float → Detector fl M
  unfolding take_silence
  on_silence d samples = if d.in_speech then take_silence d samples else d

  -- The end of `accept_waveform`.
  unfoldable pub close_window : Detector fl M → List Float → Detector fl M
  close_window d samples =
      let e = if d.in_speech then record d { pre_roll = [] } else append_pre_roll d samples in
      record e { total_samples_seen = e.total_samples_seen + window e }

  abbrev pub classify : Detector fl M → Float → List Float → Detector fl M
  classify d prob samples =
      if le d.config.threshold prob then on_speech d samples else on_silence d samples

  abbrev pub hear : Float × Detector fl M → List Float → Detector fl M
  hear (prob, d) samples = close_window (classify d prob samples) samples

  unfoldable pub accept_waveform :
      (List Float → M → Float × M) → Detector fl M → List Float → Result VadError (Detector fl M)
  accept_waveform network d samples =
      if length samples == window d
      then ok (hear (infer network d samples) samples)
      else err wrong_window

  unfoldable pub flush : Detector fl M → Detector fl M
  flush d = if d.in_speech && not (is_empty d.speech_buf) then finalize_segment d else d

  unfoldable pub reset : M → Detector fl M → Detector fl M
  reset silent d = record d {
    in_speech = false;
    silence_samples = 0;
    speech_start_samples = 0;
    total_samples_seen = 0;
    current_start_sample = 0;
    current_end_sample = 0;
    speech_buf = [];
    pre_roll = [];
    segments = [];
    transitions = [];
    context = replicate (pos_part d.config.context_size) (lit 0 1);
    state = silent;
  }

  -- `pop` and `pop_transition`, which the callers make only on a queue that is not empty.
  unfoldable pub pop : Detector fl M → Detector fl M
  pop d = record d { segments = drop 1 d.segments }

  unfoldable pub pop_transition : Detector fl M → Detector fl M
  pop_transition d = record d { transitions = drop 1 d.transitions }
