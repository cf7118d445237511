-- ===== src/Session/Runs.antt =====
-- The session at concrete inputs, in thousandths: windows of 4 samples at 1000 Hz. The network's
-- probability is the first sample of the window, and the recognizer names what it is given.
use asrcpp_gigam.Base.{
  length, get_or, All, ℕ, ◌+◌, ◌≡◌, refl, false, some, List, [], ◌∷◌, ◌++◌, arith,
}
use asrcpp_gigam.Base.Bytes.{codes}
use asrcpp_gigam.Base.Int.{pos}
use asrcpp_gigam.Base.Result.{ok}
use asrcpp_gigam.Base.Floats.{milli}
use asrcpp_gigam.Config.{Config}
use asrcpp_gigam.Vad.{VadConfig}
use asrcpp_gigam.Vad.Stream.{fresh}
use asrcpp_gigam.Vad.Detector.{
  Detector, initial, infer, finalize_segment, on_speech, on_silence, close_window, accept_waveform,
  flush as vad_flush,
}
use asrcpp_gigam.Session.{final, done, Engines, create_session, process_vad_segments}
use asrcpp_gigam.Session.Handlers.{feed, on_audio, on_recognize, on_close}
use asrcpp_gigam.Session.Steps.{Expected, S, Live}
use asrcpp_gigam.Session.Balance.{Balanced}
use asrcpp_gigam.Session.Windows.{Hears, feed_lossless}
use asrcpp_gigam.Session.Commands.{
  Command, run, never_misfed, sessions_counted, audio, recognize, clear, close,
}
use asrcpp_gigam.Session.Turns.{Fresh, on_recognize-Fresh}

abbrev pub engines : Engines milli
engines = record {
  M = ℕ;
  network = λ input s. (get_or input 1 0, s + 1);
  silent = 0;
  W = ℕ;
  recognize = λ samples rate w. (some (codes "yes"), w + 1);
  compute_rms = λ samples. get_or samples 0 0;
}

abbrev detector_config : VadConfig milli
detector_config = record {
  model_path = [];
  threshold = 500;
  min_silence_duration = 8;
  min_speech_duration = 6;
  max_speech_duration = 20;
  prefix_padding_ms = pos 0;
  sample_rate = pos 1000;
  window_size = pos 4;
  context_size = pos 1;
}

abbrev server_config : Config milli
server_config = record {
  host = codes "0.0.0.0";
  port = 8081;
  threads = 4;
  idle_connection_timeout_sec = 0;
  model_dir = codes "models";
  vad_model = codes "vad";
  provider = codes "cpu";
  num_threads = pos 4;
  sample_rate = pos 1000;
  feature_dim = pos 64;
  vad_threshold = 500;
  vad_min_silence = 8;
  vad_min_speech = 6;
  vad_max_speech = 20;
  vad_window_size = pos 4;
  vad_context_size = pos 1;
  recognizer_pool_size = pos 1;
  max_concurrent_requests = 1;
  recognizer_wait_timeout_ms = 30000;
  max_ws_connections = 0;
  silence_threshold = 8;
  min_audio_sec = 5;
  max_audio_sec = 0;
  live_flush_interval_sec = 6000;
  max_upload_bytes = 1000;
  max_ws_message_bytes = 1000;
}

abbrev new_detector : Detector milli ℕ
new_detector = initial milli 0 detector_config

abbrev new : S milli engines
new = record {
  vad = new_detector;
  config = server_config;
  out_messages = [];
  pending = [];
  live_chunk = [];
  has_first_result = false;
  segments = 0;
  silence_segments = 0;
  audio_samples = 0;
  total_samples_received = 0;
  last_live_flush_samples = 0;
  session_active = false;
  max_duration_exceeded = false;
  chunks = 0;
  bytes = 0;
  session_seq = 1;
  world = 0;
  sessions_started = 0;
  sessions_ended = 0;
}

abbrev ten : List ℕ
ten = 900 ∷ 1 ∷ 2 ∷ 3 ∷ 900 ∷ 4 ∷ 5 ∷ 6 ∷ 7 ∷ 8 ∷ []

new-Live : Live milli engines new
new-Live = record { agree = refl; positive = omega arith; room = omega arith }

feed_lossless_example :
    ((feed milli engines (length ten) ten new).1 ≡ ok tt)
    × Hears milli engines new_detector ([] ++ ten) (feed milli engines (length ten) ten new).0
    × Live milli engines (feed milli engines (length ten) ten new).0
feed_lossless_example =
    feed_lossless milli engines new_detector ten [] new new-Live
      (record { heard = []; run = fresh; whole = refl })

abbrev commands : List (Command ℕ)
commands = audio ten ∷ recognize ∷ audio ten ∷ clear ∷ close ∷ []

never_misfed_example :
    All Expected
      (run milli engines commands (create_session milli engines new_detector server_config 0)).1
never_misfed_example =
    never_misfed milli engines new_detector server_config 0 commands refl (omega arith)

sessions_counted_example :
    Balanced milli engines
      (run milli engines commands (create_session milli engines new_detector server_config 0)).0
    × ((on_close milli engines
          (run milli engines commands
            (create_session milli engines new_detector server_config 0)).0).sessions_started
        ≡ (on_close milli engines
            (run milli engines commands
              (create_session milli engines new_detector server_config 0)).0).sessions_ended)
sessions_counted_example =
    sessions_counted milli engines new_detector server_config 0 commands refl (omega arith)

abbrev talked : S milli engines
talked = (on_audio milli engines ten new).0

not_exceeded : talked.max_duration_exceeded ≡ false
unfolding on_audio process_vad_segments accept_waveform close_window infer on_speech on_silence
    finalize_segment
not_exceeded = refl

recognized : (on_recognize milli engines talked).1 ≡ ok tt
unfolding on_recognize on_audio process_vad_segments accept_waveform close_window infer on_speech
    vad_flush on_silence finalize_segment
recognized = refl

-- The turn ends with the text of the utterance, whose `Stopped` is gone.
turn_test : (on_recognize milli engines talked).0.out_messages ≡ final (codes "yes") 8 ∷ done ∷ []
unfolding on_recognize on_audio process_vad_segments accept_waveform close_window infer on_speech
    vad_flush on_silence finalize_segment
turn_test = refl

on_recognize-Fresh_example : Fresh milli engines (on_recognize milli engines talked).0
on_recognize-Fresh_example = on_recognize-Fresh milli engines talked not_exceeded recognized
