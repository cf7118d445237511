-- ===== src/Offline.antt =====
-- `recognize_audio_chunked` of src/offline_transcription.cpp and `trim_ascii` of
-- include/asr/string_utils.h. `recognize chunk world` is the callback, that may throw and change the
-- world; `none` in its place is an empty `std::function`.
pub mod Trim
pub mod Chunks
mod Runs
use asrcpp_gigam.Base.{
  ◌==◌, if◌then◌else◌, length, is_empty, take, drop, ℕ, zero, suc, max, Bool, ◌&&◌, ◌||◌, Option,
  none, some, List, [], ◌∷◌, ◌++◌,
}
use asrcpp_gigam.Base.Bytes.{Bytes}
use asrcpp_gigam.Base.Int.{ℤ, pos_part, leb_ℤ, pos}
use asrcpp_gigam.Base.Result.{Result, ok, err}
use asrcpp_gigam.Base.Floats.{Floats}

abbrev pub is_whitespace : ℕ → Bool
is_whitespace c = c == 32 || c == 9 || c == 10 || c == 13 || c == 12 || c == 11

-- From `find_first_not_of` on.
unfoldable pub trim_front : Bytes → Bytes
trim_front [] = []
trim_front (c ∷ cs) = if is_whitespace c then trim_front cs else c ∷ cs

-- Up to `find_last_not_of`.
unfoldable pub trim_back : Bytes → Bytes
trim_back [] = []
trim_back (c ∷ cs) =
    let rest = trim_back cs in if is_empty rest && is_whitespace c then [] else c ∷ rest

unfoldable pub trim_ascii : Bytes → Bytes
unfolding trim_front trim_back
trim_ascii input = trim_back (trim_front input)

-- `thrown e` is an exception of the callback; `out_of_fuel` has no counterpart in the program.
pub data ChunkError {ℓ} (X : Type ℓ) : Type ℓ where
  rate_not_positive no_callback out_of_fuel : ChunkError X
  thrown : X → ChunkError X

-- The text so far and the trimmed text of a chunk.
unfoldable pub append_text : Bytes → Bytes → Bytes
append_text text chunk_text =
    if is_empty chunk_text
    then text
    else if is_empty text
    then chunk_text
    else text ++ (32 ∷ chunk_text)

module _ {κ ι} {W : Type κ} {X : Type ι} where
  pub take_text :
      (Bytes → W → Result (ChunkError X) Bytes × W)
      → Bytes
      → Result X Bytes × W
      → Result (ChunkError X) Bytes × W
  unfolding append_text trim_ascii
  take_text next text (err e, w) = (err (thrown e), w)
  take_text next text (ok t, w) = next (append_text text (trim_ascii t)) w

module _ {ℓ κ ι} {F : Type ℓ} {W : Type κ} {X : Type ι} where
  -- The loop, on the audio from `offset` on.
  unfoldable pub chunk_loop :
      (List F → W → Result X Bytes × W)
      → ℕ
      → ℕ
      → List F
      → Bytes
      → W
      → Result (ChunkError X) Bytes × W
  unfolding take_text
  chunk_loop recognize fuel size [] text w = (ok text, w)
  chunk_loop recognize zero size (x ∷ xs) text w = (err out_of_fuel, w)
  chunk_loop recognize (suc fuel) size (x ∷ xs) text w =
      take_text (chunk_loop recognize fuel size (drop size (x ∷ xs))) text
        (recognize (take size (x ∷ xs)) w)

module _ (fl : Floats) where
  open fl use {Float, of_nat, to_nat, mul}

  abbrev pub chunk_samples : ℤ → Float → ℕ
  chunk_samples sample_rate max_chunk_sec =
      max 1 (to_nat (mul max_chunk_sec (of_nat (pos_part sample_rate))))

module _ {κ ι} (fl : Floats) {W : Type κ} {X : Type ι} where
  open fl use {Float, le, lit}

  whole_text : Result X Bytes × W → Result (ChunkError X) Bytes × W
  unfolding trim_ascii
  whole_text (err e, w) = (err (thrown e), w)
  whole_text (ok t, w) = (ok (trim_ascii t), w)

  unfoldable pub with_callback :
      (List Float → W → Result X Bytes × W)
      → List Float
      → ℤ
      → Float
      → W
      → Result (ChunkError X) Bytes × W
  unfolding chunk_loop whole_text
  with_callback recognize audio sample_rate max_chunk_sec w =
      if is_empty audio
      then (ok [], w)
      else if le max_chunk_sec (lit 0 1)
      then whole_text (recognize audio w)
      else chunk_loop recognize (length audio) (chunk_samples fl sample_rate max_chunk_sec) audio []
          w

  unfoldable pub recognize_audio_chunked :
      Option (List Float → W → Result X Bytes × W)
      → List Float
      → ℤ
      → Float
      → W
      → Result (ChunkError X) Bytes × W
  unfolding with_callback
  recognize_audio_chunked none audio sample_rate max_chunk_sec w =
      (err (if leb_ℤ sample_rate (pos 0) then rate_not_positive else no_callback), w)
  recognize_audio_chunked (some recognize) audio sample_rate max_chunk_sec w =
      if leb_ℤ sample_rate (pos 0)
      then (err rate_not_positive, w)
      else with_callback recognize audio sample_rate max_chunk_sec w
