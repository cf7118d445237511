-- ===== src/Audio/Pcm.antt =====
-- src/audio/pcm.cpp: `pcm16_to_float32_into`. `sample_float s` is the float
-- `static_cast<float>(s) / 32768.0F`, which is exact.
use asrcpp_gigam.Base.{
  ltb, ◌==◌, if◌then◌else◌, Bool-cases, length, is_empty, All, ℕ, ◌+◌, ◌-◌, ◌*◌, ◌/◌, ◌%◌, ◌≤◌, ◌<◌,
  ◌≡◌, refl, ◌⊎◌, inl, inr, not, List, [], ◌∷◌, map, arith,
}
use asrcpp_gigam.Base.Bytes.{Bytes}
use asrcpp_gigam.Base.Int.{ℤ, pos_part, neg_part, pos, negsuc}
use asrcpp_gigam.Base.Result.{Result, ok, err}
use asrcpp_gigam.Audio.{AudioError, odd_pcm_size}

-- The cast of a `uint16_t` to `int16_t`.
unfoldable pub to_int16 : ℕ → ℤ
to_int16 u = if ltb u 32768 then pos u else negsuc (65535 - u)

module _ {ℓ} {F : Type ℓ} (sample_float : ℤ → F) where
  -- The loop over the samples: byte 2 i is the low one.
  unfoldable pub samples_of : Bytes → List F
  unfolding to_int16
  samples_of (lo ∷ hi ∷ rest) = sample_float (to_int16 (lo + hi * 256)) ∷ samples_of rest
  samples_of _ = []

  unfoldable pub pcm16_to_float32 : Bytes → Result AudioError (List F)
  unfolding samples_of
  pcm16_to_float32 bytes =
      if is_empty bytes
      then ok []
      else if not (length bytes % 2 == 0)
      then err odd_pcm_size
      else ok (samples_of bytes)

-- The two bytes of a sample, the low one first.
abbrev pub low_byte : ℤ → ℕ
low_byte (pos n) = n % 256
low_byte (negsuc n) = 255 - n % 256

abbrev pub high_byte : ℤ → ℕ
high_byte (pos n) = n / 256
high_byte (negsuc n) = 255 - n / 256

abbrev pub IsInt16 : ℤ → Type 0
IsInt16 s = (pos_part s < 32768) × (neg_part s ≤ 32768)

abbrev pub pcm_bytes : List ℤ → Bytes
pcm_bytes [] = []
pcm_bytes (s ∷ ss) = low_byte s ∷ high_byte s ∷ pcm_bytes ss

to_int16-bytes : (s : ℤ) → IsInt16 s → to_int16 (low_byte s + high_byte s * 256) ≡ s
unfolding to_int16
to_int16-bytes (pos n) h = ground arith
to_int16-bytes (negsuc n) h = ground arith

length-pcm_bytes : (ss : List ℤ) → length (pcm_bytes ss) ≡ 2 * length ss
length-pcm_bytes [] = refl
length-pcm_bytes (s ∷ ss) = omega (arith, length-pcm_bytes ss)

module _ {ℓ} {F : Type ℓ} (sample_float : ℤ → F) where
  samples_of-pcm_bytes :
      (ss : List ℤ) → All IsInt16 ss → samples_of sample_float (pcm_bytes ss) ≡ map sample_float ss
  unfolding samples_of
  samples_of-pcm_bytes [] h = refl
  samples_of-pcm_bytes (s ∷ ss) h = cc (to_int16-bytes s h.0, samples_of-pcm_bytes ss h.1)

  length-samples_of : (bytes : Bytes) → length (samples_of sample_float bytes) ≡ length bytes / 2
  unfolding samples_of
  length-samples_of [] = refl
  length-samples_of (a ∷ []) = refl
  length-samples_of (a ∷ b ∷ rest) = omega (arith, length-samples_of rest)

  -- Decoding gives back the samples, the negative ones too, of every sequence of 16-bit samples
  -- that is written with the low byte first.
  pub pcm16_to_float32-pcm_bytes :
      (ss : List ℤ)
      → All IsInt16 ss
      → pcm16_to_float32 sample_float (pcm_bytes ss) ≡ ok (map sample_float ss)
  unfolding pcm16_to_float32
  pcm16_to_float32-pcm_bytes [] h = refl
  pcm16_to_float32-pcm_bytes (s ∷ ss) h =
      ground (arith, length-pcm_bytes ss, samples_of-pcm_bytes (s ∷ ss) h)

  -- Decoding succeeds exactly on an even number of bytes, with one sample for each two of them;
  -- on an odd number the error is the one about the size.
  pcm16_to_float32_total :
      (bytes : Bytes)
      → ((length bytes % 2 ≡ 0)
          × (pcm16_to_float32 sample_float bytes ≡ ok (samples_of sample_float bytes))
          × (length (samples_of sample_float bytes) ≡ length bytes / 2))
        ⊎ ((length bytes % 2 ≡ 1) × (pcm16_to_float32 sample_float bytes ≡ err odd_pcm_size))
  unfolding pcm16_to_float32
  pcm16_to_float32_total [] = inl (refl, refl, refl)
  pcm16_to_float32_total (b ∷ bs) = elim (Bool-cases (length (b ∷ bs) % 2 == 0)) [
    | inl e ↦ inl (ground arith, ground arith, length-samples_of (b ∷ bs))
    | inr e ↦ inr (ground arith, ground arith)
  ]
