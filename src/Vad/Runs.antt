-- ===== src/Vad/Runs.antt =====
-- The detector at concrete inputs, in thousandths. The window is 4 samples at 1000 Hz, and the
-- network's probability is the first sample of the window.
use asrcpp_gigam.Base.{
  drop, length, get_or, All, ℕ, ◌+◌, ◌≡◌, refl, ◌⊎◌, true, false, List, [], ◌∷◌, ◌++◌,
}
use asrcpp_gigam.Base.Int.{pos}
use asrcpp_gigam.Base.Result.{Result, ◌>>=◌, ok}
use asrcpp_gigam.Base.Floats.{milli}
use asrcpp_gigam.Vad.{SpeechTransition, VadError, VadConfig, started, stopped}
use asrcpp_gigam.Base.Slices.{Suffix}
use asrcpp_gigam.Vad.Segments.{Cuts}
use asrcpp_gigam.Vad.Stream.{Run, segments_exact, fresh, accepts, flushes}
use asrcpp_gigam.Vad.Context.{zeros, network_hears_stream}
use asrcpp_gigam.Vad.Events.{restart_without_stop}
use asrcpp_gigam.Vad.Detector.{
  infer, Detector, initial, create, infer, trimmed, finalize_segment, append_pre_roll, on_speech,
  on_silence, close_window, hear, accept_waveform, flush,
}

abbrev net : List ℕ → ℕ → ℕ × ℕ
net input s = (get_or input 1 0, s + 1)

abbrev config : VadConfig milli
config = record {
  model_path = [];
  threshold = 500;
  min_silence_duration = 8;
  min_speech_duration = 6;
  max_speech_duration = 20;
  prefix_padding_ms = pos 6;
  sample_rate = pos 1000;
  window_size = pos 4;
  context_size = pos 1;
}

abbrev quiet : List ℕ
quiet = 0 ∷ 1 ∷ 2 ∷ 3 ∷ []

abbrev loud : List ℕ
loud = 900 ∷ 4 ∷ 5 ∷ 6 ∷ []

abbrev fresh_detector : Detector milli ℕ
fresh_detector = initial milli 0 config

built : create milli 0 config ≡ ok fresh_detector
unfolding create
built = refl

abbrev talking_detector : Detector milli ℕ
talking_detector = record fresh_detector {
  state = 3;
  context = 6 ∷ [];
  in_speech = true;
  speech_start_samples = 4;
  total_samples_seen = 12;
  current_start_sample = 2;
  current_end_sample = 12;
  speech_buf = 2 ∷ 3 ∷ 0 ∷ 1 ∷ 2 ∷ 3 ∷ 900 ∷ 4 ∷ 5 ∷ 6 ∷ [];
  transitions = record { kind = started; sample = 2 } ∷ [];
}

-- Two windows of silence, one of speech, two of silence: a segment from sample 2 to sample 12.
abbrev one_segment : Detector milli ℕ
one_segment = record talking_detector {
  state = 5;
  context = 3 ∷ [];
  in_speech = false;
  speech_start_samples = 0;
  total_samples_seen = 20;
  speech_buf = [];
  pre_roll = quiet;
  segments =
      record { samples = 2 ∷ 3 ∷ 0 ∷ 1 ∷ 2 ∷ 3 ∷ loud; start_sample = 2; end_sample = 12 } ∷ [];
  transitions = record { kind = started; sample = 2 } ∷ record { kind = stopped; sample = 12 } ∷ [];
}

abbrev feed : Detector milli ℕ → List (List ℕ) → Result VadError (Detector milli ℕ)
feed d [] = ok d
feed d (w ∷ ws) = accept_waveform milli net d w >>= λ d'. feed d' ws

fed_segment : feed fresh_detector (quiet ∷ quiet ∷ loud ∷ quiet ∷ quiet ∷ []) ≡ ok one_segment
unfolding accept_waveform infer on_speech on_silence close_window append_pre_roll finalize_segment
fed_segment = refl

abbrev hears : Detector milli ℕ → List ℕ → Detector milli ℕ
hears d samples = hear milli (infer milli net d samples) samples

-- Two windows of speech, and the end of the stream.
abbrev two_loud : Detector milli ℕ
two_loud = hears (hears fresh_detector loud) loud

two_loud_run : Run milli net fresh_detector two_loud (([] ++ loud) ++ loud)
unfolding accept_waveform infer close_window on_speech
two_loud_run = accepts loud two_loud (accepts loud (hears fresh_detector loud) fresh refl) refl

segments_exact_example :
    All (Cuts (loud ++ loud)) (flush milli two_loud).segments
    × (((flush milli two_loud).in_speech ≡ false)
        ⊎ Suffix
            (loud ++ loud)
            (flush milli two_loud).speech_buf
            (flush milli two_loud).current_start_sample)
    × ((flush milli two_loud).total_samples_seen ≡ length (loud ++ loud))
segments_exact_example = segments_exact milli net 0 config built (flushes two_loud_run)

network_hears_stream_example :
    let answer = net (drop 8 (zeros milli config ++ ((loud ++ loud) ++ quiet))) two_loud.state in
    let (prob, e) = infer milli net two_loud quiet in (prob ≡ answer.0) × (e.state ≡ answer.1)
network_hears_stream_example = network_hears_stream milli net 0 config quiet built two_loud_run

abbrev short_talk : Detector milli ℕ
short_talk = record talking_detector { speech_buf = 900 ∷ 4 ∷ []; current_start_sample = 10 }

restart_without_stop_example :
    (later : List SpeechTransition) × ((on_speech milli (flush milli short_talk) loud).transitions
      ≡ record { kind = started; sample = 2 } ∷ record { kind = started; sample = 12 } ∷ later)
unfolding trimmed
restart_without_stop_example = restart_without_stop milli short_talk loud refl refl refl
