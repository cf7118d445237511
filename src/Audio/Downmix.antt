-- ===== src/Audio/Downmix.antt =====
-- `downmix_interleaved_to_mono` of src/audio/decode.cpp. `add` and `div` are those of the floats.
use asrcpp_gigam.Base.{
  ◌==◌, if◌then◌else◌, length, length-append, take, drop, All, concat, take-length, drop-length, ℕ,
  zero, suc, ◌*◌, ◌/◌, ◌%◌, ◌≤◌, ◌≡◌, refl, sym, ap, ◌∙◌, not, List, [], ◌∷◌, ◌++◌, map, arith,
}
use native.Mathlib.Nat.{mul-suc, mul-mod_right, mul-div_right}
use asrcpp_gigam.Base.Int.{ℤ, pos_part, leb_ℤ, pos}
use asrcpp_gigam.Base.Result.{Result, ok, err}
use asrcpp_gigam.Base.Floats.{Floats}

pub data DownmixError : Type 0 where
  bad_channels bad_size : DownmixError

module _ (fl : Floats) where
  open fl use {Float, add, div, of_nat, lit}

  -- The inner loop, from left to right.
  abbrev pub sum_from : Float → List Float → Float
  sum_from sum [] = sum
  sum_from sum (x ∷ xs) = sum_from (add sum x) xs

  unfoldable pub mean : ℕ → List Float → Float
  mean channels frame = div (sum_from (lit 0 1) frame) (of_nat channels)

  -- The outer loop: so many frames are left.
  unfoldable pub mix_frames : ℕ → ℕ → List Float → List Float
  mix_frames channels zero xs = []
  mix_frames channels (suc frames) xs =
      mean channels (take channels xs) ∷ mix_frames channels frames (drop channels xs)

  unfoldable pub downmix : ℤ → List Float → Result DownmixError (List Float)
  unfolding mix_frames
  downmix channels interleaved =
      let n = pos_part channels in
      if leb_ℤ channels (pos 0)
      then err bad_channels
      else if not (length interleaved % n == 0)
      then err bad_size
      else if n == 1
      then ok interleaved
      else ok (mix_frames n (length interleaved / n) interleaved)

  mix_frames-concat :
      (channels : ℕ) (frames : List (List Float))
      → All (λ f. length f ≡ channels) frames
      → mix_frames channels (length frames) (concat frames) ≡ map (mean channels) frames
  unfolding mix_frames
  mix_frames-concat channels [] h = refl
  mix_frames-concat channels (f ∷ fs) h =
      let first = ap (λ n. take n (f ++ concat fs)) (sym h.0) ∙ take-length f (concat fs) in
      let rest = ap (λ n. drop n (f ++ concat fs)) (sym h.0) ∙ drop-length f (concat fs) in
      cc (first, rest, mix_frames-concat channels fs h.1)

  length-concat :
      (channels : ℕ) (frames : List (List Float))
      → All (λ f. length f ≡ channels) frames
      → length (concat frames) ≡ channels * length frames
  length-concat channels [] h = omega arith
  length-concat channels (f ∷ fs) h = omega (
    arith,
    length-append f (concat fs),
    h.0,
    length-concat channels fs h.1,
    mul-suc channels (length fs),
  )

  -- With at least two channels, an interleaved buffer of whole frames becomes one sample for each
  -- frame: the mean of its channels, summed from the first to the last.
  downmix-concat :
      (channels : ℕ) (frames : List (List Float))
      → 2 ≤ channels
      → All (λ f. length f ≡ channels) frames
      → downmix (pos channels) (concat frames) ≡ ok (map (mean channels) frames)
  unfolding downmix
  downmix-concat channels frames two h =
      let size = length-concat channels frames h in
      let even : length (concat frames) % channels ≡ 0 =
        ap (λ k. k % channels) size ∙ mul-mod_right channels (length frames) in
      let count : length (concat frames) / channels ≡ length frames =
        ap (λ k. k / channels) size ∙ mul-div_right (length frames) (omega arith) in
      let mixed : mix_frames channels (length (concat frames) / channels) (concat frames)
          ≡ map (mean channels) frames =
        ap (λ k. mix_frames channels k (concat frames)) count
        ∙ mix_frames-concat channels frames h in
      ground (arith, even, mixed)
