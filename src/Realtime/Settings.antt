-- ===== src/Realtime/Settings.antt =====
-- What the server can serve of the settings of a session (src/realtime_session.cpp).
use asrcpp_gigam.Config.{Config}
use asrcpp_gigam.Base.{
  is_empty, ◌≡◌, refl, ◌⊎◌, inl, inr, Bool, true, false, not, ◌&&◌, ◌||◌, [], ◌∷◌, arith,
}
use asrcpp_gigam.Base.Int.{ℤ, ◌≤ℤ◌, ltb_ℤ, pos, negsuc}
use asrcpp_gigam.Base.Bytes.{Bytes, codes, bytes_eq, bytes_eq→eq}
use asrcpp_gigam.Base.Floats.{Floats}
use asrcpp_gigam.Realtime.{RealtimeSessionConfig, make_default_realtime_session_config}
use asrcpp_gigam.Realtime.Update.{
  is_opus_input_audio_format, is_supported_input_audio_format, is_supported_opus_output_sample_rate,
}

small_rate : (r : ℤ) → pos 8000 ≤ℤ r → r ≤ℤ pos 48000 → r ≤ℤ pos 192000
small_rate r h k = omega arith

pub rate_in_range :
    (r : ℤ)
    → (ltb_ℤ r (pos 8000) || ltb_ℤ (pos 192000) r) ≡ false
    → (pos 8000 ≤ℤ r) × (r ≤ℤ pos 192000)
rate_in_range r h = ground arith

pub opus_rate_in_range :
    (r : ℤ) → is_supported_opus_output_sample_rate r ≡ true → (pos 8000 ≤ℤ r) × (r ≤ℤ pos 192000)
unfolding is_supported_opus_output_sample_rate
opus_rate_in_range (pos r) h = ground arith
opus_rate_in_range (negsuc n) h = cc

pub not-eq-false : (b : Bool) → not b ≡ false → b ≡ true
not-eq-false b h = ground arith

pub default_or_empty :
    (model : Bytes)
    → (not (is_empty model) && not (bytes_eq model (codes "default"))) ≡ false
    → (model ≡ []) ⊎ (model ≡ codes "default")
default_or_empty [] h = inl refl
default_or_empty (c ∷ cs) h = inr (bytes_eq→eq (c ∷ cs) (codes "default") (not-eq-false _ h))

pub empty : (text : Bytes) → not (is_empty text) ≡ false → text ≡ []
empty [] h = refl
empty (c ∷ cs) h = cc

module _ (fl : Floats) where
  pub record Served (c : RealtimeSessionConfig fl) : Type 0 where
    pub format : is_supported_input_audio_format c.input_audio_format ≡ true
    pub rate_low : pos 8000 ≤ℤ c.input_sample_rate
    pub rate_high : c.input_sample_rate ≤ℤ pos 192000
    pub opus_rate :
        is_opus_input_audio_format c.input_audio_format ≡ true
        → is_supported_opus_output_sample_rate c.input_sample_rate ≡ true
    pub model :
        (c.input_audio_transcription.model ≡ [])
        ⊎ (c.input_audio_transcription.model ≡ codes "default")
    pub language : c.input_audio_transcription.language ≡ []
    pub prompt : c.input_audio_transcription.prompt ≡ []

  -- The format and the rate, before and after the check of the rate of Opus.
  unfoldable pub Audible : RealtimeSessionConfig fl → Type 0
  Audible c =
      (is_supported_input_audio_format c.input_audio_format ≡ true)
      × (pos 8000 ≤ℤ c.input_sample_rate)
      × (c.input_sample_rate ≤ℤ pos 192000)

  unfoldable pub Decodable : RealtimeSessionConfig fl → Type 0
  unfolding Audible
  Decodable c =
      Audible c
      × (is_opus_input_audio_format c.input_audio_format ≡ true
          → is_supported_opus_output_sample_rate c.input_sample_rate ≡ true)

module _ (fl : Floats) where
  pub default-Served :
      (c : Config fl)
      → pos 8000 ≤ℤ c.sample_rate
      → c.sample_rate ≤ℤ pos 48000
      → Served fl (make_default_realtime_session_config fl c)
  unfolding make_default_realtime_session_config is_supported_input_audio_format
  default-Served c low high = record {
    format = refl;
    rate_low = low;
    rate_high = small_rate c.sample_rate low high;
    opus_rate = λ h. absurd (ground arith);
    model = inr refl;
    language = refl;
    prompt = refl;
  }
