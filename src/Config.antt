-- ===== src/Config.antt =====
-- `Config` of include/asr/config.h and `Config::validate` of src/config.cpp. `from_env`, which
-- reads the environment of the process, is left out.
pub mod Ranges
pub mod Runs
use asrcpp_gigam.Base.{ltb, ◌==◌, if◌then◌else◌, ℕ, min, max, ◌&&◌, ◌||◌}
use asrcpp_gigam.Base.Bytes.{Bytes}
use asrcpp_gigam.Base.Int.{ℤ, pos_part, ltb_ℤ, leb_ℤ, clamp_ℤ, pos}
use asrcpp_gigam.Base.Result.{Result, throw_if, ◌>>=◌, ◌>>◌, ok}
use asrcpp_gigam.Base.Floats.{Floats}

pub data ConfigError : Type 0 where
  sample_rate_not_positive vad_window_size_not_positive vad_context_size_out_of_range : ConfigError
  feature_dim_not_positive max_upload_bytes_zero port_zero max_ws_message_bytes_zero : ConfigError

module _ (fl : Floats) where
  open fl use {Float}

  pub record Config : Type 0 where
    pub host : Bytes
    pub port : ℕ
    pub threads : ℕ
    pub idle_connection_timeout_sec : ℕ
    pub model_dir : Bytes
    pub vad_model : Bytes
    pub provider : Bytes
    pub num_threads : ℤ
    pub sample_rate : ℤ
    pub feature_dim : ℤ
    pub vad_threshold : Float
    pub vad_min_silence : Float
    pub vad_min_speech : Float
    pub vad_max_speech : Float
    pub vad_window_size : ℤ
    pub vad_context_size : ℤ
    pub recognizer_pool_size : ℤ
    pub max_concurrent_requests : ℕ
    pub recognizer_wait_timeout_ms : ℕ
    pub max_ws_connections : ℕ
    pub silence_threshold : Float
    pub min_audio_sec : Float
    pub max_audio_sec : Float
    pub live_flush_interval_sec : Float
    pub max_upload_bytes : ℕ
    pub max_ws_message_bytes : ℕ

-- `std::clamp` under the test that the value is outside.
abbrev pub within : ℤ → ℕ → ℕ → ℤ
within v lo hi = if ltb_ℤ v (pos lo) || ltb_ℤ (pos hi) v then clamp_ℤ v (pos lo) (pos hi) else v

abbrev pub fix_threads : ℕ → ℕ
fix_threads v = if ltb v 1 || ltb 256 v then max 1 (min v 256) else v

abbrev pub fix_pool : ℤ → ℤ
fix_pool v = let n = if leb_ℤ v (pos 0) && leb_ℤ (pos 0) v then pos 1 else v in within n 1 256

module _ (fl : Floats) where
  open fl use {Float, lt, le, lit, add}

  abbrev pub fix_threshold : Float → Float
  fix_threshold v =
      if le v (lit 0 1) || le (lit 1 1) v
      then (if lt v (lit 1 100) then lit 1 100 else if lt (lit 99 100) v then lit 99 100 else v)
      else v

  abbrev pub fix_min_audio : Float → Float
  fix_min_audio v = if lt v (lit 0 1) then lit 0 1 else v

  abbrev pub fix_interval : Float → Float
  fix_interval v =
      if lt v (lit 0 1) then lit 0 1 else if lt (lit 0 1) v && lt v (lit 2 10) then lit 2 10 else v

  abbrev pub fix_max_audio : Float → Float → Float
  fix_max_audio min_audio v =
      if lt v (lit 0 1)
      then lit 0 1
      else if lt (lit 0 1) v && le v min_audio
      then add min_audio (lit 30 1)
      else v

  abbrev pub fix_duration : Float → Float
  fix_duration v = if le v (lit 0 1) then lit 1 100 else v

  abbrev pub fix_max_speech : Float → Float → Float
  fix_max_speech min_speech v = if le v min_speech then add min_speech (lit 10 1) else v

  unfoldable pub validate : Config fl → Result ConfigError (Config fl)
  validate c = do
    throw_if (leb_ℤ c.sample_rate (pos 0)) sample_rate_not_positive
    throw_if (leb_ℤ c.vad_window_size (pos 0)) vad_window_size_not_positive
    throw_if
        (ltb_ℤ c.vad_context_size (pos 0)
          || leb_ℤ (within c.vad_window_size 64 4096) c.vad_context_size)
        vad_context_size_out_of_range
    throw_if (leb_ℤ c.feature_dim (pos 0)) feature_dim_not_positive
    throw_if (c.max_upload_bytes == 0) max_upload_bytes_zero
    throw_if (c.port == 0) port_zero
    throw_if (c.max_ws_message_bytes == 0) max_ws_message_bytes_zero
    ok (record c {
      sample_rate = within c.sample_rate 8000 48000;
      vad_window_size = within c.vad_window_size 64 4096;
      num_threads = within c.num_threads 1 128;
      threads = fix_threads c.threads;
      vad_threshold = fix_threshold c.vad_threshold;
      min_audio_sec = fix_min_audio c.min_audio_sec;
      live_flush_interval_sec = fix_interval c.live_flush_interval_sec;
      max_audio_sec = fix_max_audio (fix_min_audio c.min_audio_sec) c.max_audio_sec;
      recognizer_pool_size = fix_pool c.recognizer_pool_size;
      recognizer_wait_timeout_ms =
          if c.recognizer_wait_timeout_ms == 0 then 30000 else c.recognizer_wait_timeout_ms;
      max_concurrent_requests =
          if c.max_concurrent_requests == 0
          then pos_part (fix_pool c.recognizer_pool_size)
          else c.max_concurrent_requests;
      vad_min_silence = fix_duration c.vad_min_silence;
      vad_min_speech = fix_duration c.vad_min_speech;
      vad_max_speech = fix_max_speech (fix_duration c.vad_min_speech) c.vad_max_speech;
    })
