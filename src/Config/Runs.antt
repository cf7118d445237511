-- ===== src/Config/Runs.antt =====
-- A configuration whose values lie outside their ranges, in thousandths.
use asrcpp_gigam.Base.{ℕ, ◌*◌, ◌≤◌, ◌≡◌, refl, inl, false, [], arith}
use asrcpp_gigam.Base.Int.{pos_part, pos, negsuc}
use asrcpp_gigam.Base.Bytes.{codes}
use asrcpp_gigam.Base.Result.{ok}
use asrcpp_gigam.Base.Floats.{milli}
use asrcpp_gigam.Config.{Config, validate}
use asrcpp_gigam.Slots.{asr_executor_worker_count, asr_executor_queue_capacity}
use asrcpp_gigam.Slots.Bounds.{executor_built}
use asrcpp_gigam.Executor.{create as create_executor}
use asrcpp_gigam.Config.Ranges.{Ranges, Literals}

abbrev pub given : Config milli
given = record {
  host = codes "0.0.0.0";
  port = 8081;
  threads = 300;
  idle_connection_timeout_sec = 0;
  model_dir = codes "models";
  vad_model = codes "vad";
  provider = codes "cpu";
  num_threads = negsuc 2;
  sample_rate = pos 96000;
  feature_dim = pos 64;
  vad_threshold = 1000;
  vad_min_silence = 0;
  vad_min_speech = 250;
  vad_max_speech = 200;
  vad_window_size = pos 32;
  vad_context_size = pos 8;
  recognizer_pool_size = pos 0;
  max_concurrent_requests = 0;
  recognizer_wait_timeout_ms = 0;
  max_ws_connections = 0;
  silence_threshold = 8;
  min_audio_sec = 500;
  max_audio_sec = 400;
  live_flush_interval_sec = 100;
  max_upload_bytes = 1000;
  max_ws_message_bytes = 1000;
}

abbrev pub repaired : Config milli
repaired = record given {
  threads = 256;
  num_threads = pos 1;
  sample_rate = pos 48000;
  vad_threshold = 990;
  vad_min_silence = 10;
  vad_max_speech = 10250;
  vad_window_size = pos 64;
  recognizer_pool_size = pos 1;
  max_concurrent_requests = 1;
  recognizer_wait_timeout_ms = 30000;
  max_audio_sec = 30500;
  live_flush_interval_sec = 200;
}

pub validated : validate milli given ≡ ok repaired
unfolding validate
validated = refl

pub milli-Literals : Literals milli
milli-Literals = record {
  low_positive = refl;
  low_below = refl;
  high_positive = refl;
  high_below = refl;
  under = λ v h. ground arith;
  over = λ v h. ground arith;
}

executor_built_example :
    (create_executor {T = ℕ}
        (asr_executor_worker_count milli repaired)
        (asr_executor_queue_capacity milli repaired)
      ≡ inl (
        record {
          queue_capacity = asr_executor_queue_capacity milli repaired;
          queue = [];
          in_flight = 0;
          stopping = false;
        },
        asr_executor_worker_count milli repaired,
      ))
    × (asr_executor_worker_count milli repaired ≡ pos_part repaired.recognizer_pool_size)
    × (8 * pos_part repaired.recognizer_pool_size ≤ asr_executor_queue_capacity milli repaired)
executor_built_example = executor_built milli {T = ℕ} given repaired validated
