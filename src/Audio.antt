-- ===== src/Audio.antt =====
-- src/audio/: decoding of the audio that clients send.
pub mod Base64
pub mod Pcm
pub mod Rtp
pub mod Opus
pub mod Emitter
pub mod Downmix
pub mod Files
pub mod Resampler
pub mod Runs
use asrcpp_gigam.Base.{ℕ}
use asrcpp_gigam.Base.Bytes.{Bytes}

-- What an `AudioError` says. `stalled` has no counterpart in the program: a loop without fuel.
pub data AudioError : Type 0 where
  invalid_base64 text_after_padding dangling_bits : AudioError
  odd_pcm_size : AudioError
  empty_packet not_rtp packet_too_large bad_frame_size bad_sample_rate no_decoder : AudioError
  opus_failed : ℕ → AudioError
  no_resampler no_progress stalled : AudioError
  resampling_failed flush_failed : ℕ → AudioError
  unsupported_format : Bytes → AudioError
