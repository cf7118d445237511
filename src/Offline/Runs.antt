-- ===== src/Offline/Runs.antt =====
-- A transcription in chunks of three samples at 1000 Hz; each chunk is answered with its first sample
-- as a byte between spaces.
use asrcpp_gigam.Base.{get_or, ℕ, ◌+◌, ◌≡◌, refl, some, List, [], ◌∷◌}
use asrcpp_gigam.Base.Bytes.{Bytes, codes}
use asrcpp_gigam.Base.Int.{pos}
use asrcpp_gigam.Base.Result.{Result, ok}
use asrcpp_gigam.Base.Floats.{milli}
use asrcpp_gigam.Offline.{chunk_samples, recognize_audio_chunked}
use asrcpp_gigam.Offline.Chunks.{Cut, recognize_audio_chunked-Cut}

abbrev first_byte : List ℕ → Bytes
first_byte chunk = 32 ∷ get_or chunk 0 0 ∷ 10 ∷ []

abbrev callback : List ℕ → ℕ → Result ℕ Bytes × ℕ
callback chunk calls = (ok (first_byte chunk), calls + 1)

abbrev seven : List ℕ
seven = 65 ∷ 1 ∷ 2 ∷ 32 ∷ 4 ∷ 5 ∷ 67 ∷ []

-- The text of the second chunk is blank.
seven_test :
    recognize_audio_chunked milli (some callback) seven (pos 1000) 3 0 ≡ (ok (codes "A C"), 3)
unfolding recognize_audio_chunked
seven_test = refl

recognize_audio_chunked-Cut_example :
    Cut callback first_byte
      (λ chunk w. refl)
      (chunk_samples milli (pos 1000) 3)
      seven
      []
      (recognize_audio_chunked milli (some callback) seven (pos 1000) 3 0)
recognize_audio_chunked-Cut_example =
    recognize_audio_chunked-Cut milli callback first_byte (λ chunk w. refl) seven (pos 1000) 3 0
      refl refl
