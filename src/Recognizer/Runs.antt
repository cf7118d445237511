-- ===== src/Recognizer/Runs.antt =====
-- A pool of two recognizers.
use mathlib.Core.List.{Nodup}
use asrcpp_gigam.Base.{All, ℕ, ◌≡◌, refl, true, false, Option, some, List, [], ◌∷◌}
use asrcpp_gigam.Base.Int.{ℤ, pos}
use asrcpp_gigam.Base.Bytes.{Bytes}
use asrcpp_gigam.Base.Result.{ok, err}
use asrcpp_gigam.Recognizer.Returned.{recognize_returns}
use asrcpp_gigam.Recognizer.{
  Slot, find_free, try_lease, end_lease, erase_front, erase_back, result_text, recognize,
}
use asrcpp_gigam.Recognizer.Leases.{Event, run, leases_apart, tries, ends}

abbrev two : List (Slot ℕ)
two = record { handle = 10; in_use = false } ∷ record { handle = 11; in_use = false } ∷ []

abbrev events : List Event
events = tries ∷ tries ∷ ends 1 ∷ tries ∷ []

leases_apart_example : Nodup (run events (record { slots = two; leases = [] })).leases
leases_apart_example = leases_apart two events (refl, (refl, tt))

-- The library answers " a\n" for every recording.
abbrev answered : ℕ → List ℕ → ℤ → Option Bytes
answered handle audio sample_rate = some (32 ∷ 97 ∷ 10 ∷ [])

recognize_text : (recognize answered (0 ∷ []) (pos 16000) two).0 ≡ ok (97 ∷ [])
unfolding recognize try_lease find_free end_lease result_text erase_front erase_back
recognize_text = refl

recognize_returns_example :
    let r = recognize answered (0 ∷ []) (pos 16000) two in
    (r.1 ≡ two) × (r.0 ≡ err tt → All (λ s. s.in_use ≡ true) two)
recognize_returns_example = recognize_returns answered (0 ∷ []) (pos 16000) two
