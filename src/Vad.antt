-- ===== src/Vad.antt =====
-- `VoiceActivityDetector` of src/vad.cpp and include/asr/vad.h. The neural network is a parameter:
-- `network input state` is its probability of speech and its next state. Sample counts are natural
-- numbers: they start at 0, and their `int64_t` would wrap only after 2 ^ 63 samples.
pub mod Detector
pub mod Segments
pub mod PreRoll
pub mod Stream
pub mod Context
pub mod Events
pub mod Bounds
pub mod Capacity
mod Runs
use asrcpp_gigam.Base.{ℕ, ◌≡◌, refl, ◌⊎◌, inl, inr, List}
use asrcpp_gigam.Base.Int.{ℤ}
use asrcpp_gigam.Base.Bytes.{Bytes}
use asrcpp_gigam.Base.Floats.{Floats}

pub record SpeechSegment {ℓ} (F : Type ℓ) : Type ℓ where
  pub samples : List F
  pub start_sample : ℕ
  pub end_sample : ℕ

pub data Kind : Type 0 where
  started stopped : Kind

pub kinds : (k : Kind) → (k ≡ started) ⊎ (k ≡ stopped)
kinds started = inl refl
kinds stopped = inr refl

pub record SpeechTransition : Type 0 where
  pub kind : Kind
  pub sample : ℕ

pub data VadError : Type 0 where
  window_size_not_positive context_size_out_of_range sample_rate_not_positive : VadError
  threshold_out_of_range wrong_window : VadError

module _ (fl : Floats) where
  open fl use {Float}

  pub record VadConfig : Type 0 where
    pub model_path : Bytes
    pub threshold : Float
    pub min_silence_duration : Float
    pub min_speech_duration : Float
    pub max_speech_duration : Float
    pub prefix_padding_ms : ℤ
    pub sample_rate : ℤ
    pub window_size : ℤ
    pub context_size : ℤ
