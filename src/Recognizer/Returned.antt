-- ===== src/Recognizer/Returned.antt =====
-- What a call of `Recognizer::recognize` (src/recognizer.cpp) leaves of the pool.
use asrcpp_gigam.Base.{
  if◌then◌else◌, All, ℕ, suc, ◌≡◌, refl, ap, Bool, true, false, not, Option, none, some, List, [],
  ◌∷◌,
}
use asrcpp_gigam.Base.Int.{ℤ}
use asrcpp_gigam.Base.Bytes.{Bytes}
use asrcpp_gigam.Base.Result.{err}
use asrcpp_gigam.Recognizer.{
  Slot, find_free, set_use, take_slot, try_lease, end_lease, with_lease, recognize,
}

-- The first slot is free, the others are as they were.
abbrev Restored : {H : Type 0} → List (Slot H) → Option ℕ → Type 0
Restored slots none = Unit
Restored slots (some i) = set_use i false (set_use i true slots) ≡ slots

none-cons :
    (b : Bool) (o : Option ℕ)
    → (if not b then some 0 else elim o [ none ↦ none | some i ↦ some (suc i) ]) ≡ none
    → (b ≡ true) × (o ≡ none)
none-cons false o e = cc
none-cons true none e = (refl, refl)
none-cons true (some i) e = cc

module _ {H : Type 0} where
  Restored-cons :
      (h : H) (b : Bool) (ss : List (Slot H)) (o : Option ℕ)
      → Restored ss o
      → Restored
          (record { handle = h; in_use = b } ∷ ss)
          (if not b then some 0 else elim o [ none ↦ none | some i ↦ some (suc i) ])
  Restored-cons h false ss o r = refl
  Restored-cons h true ss none r = tt
  Restored-cons h true ss (some i) r = ap (λ t. record { handle = h; in_use = true } ∷ t) r

  find_free-Restored : (slots : List (Slot H)) → Restored slots (find_free slots)
  unfolding find_free
  find_free-Restored [] = tt
  find_free-Restored (s ∷ ss) =
      Restored-cons s.handle s.in_use ss (find_free ss) (find_free-Restored ss)

  find_free-none :
      (slots : List (Slot H)) → find_free slots ≡ none → All (λ s. s.in_use ≡ true) slots
  unfolding find_free
  find_free-none [] e = tt
  find_free-none (s ∷ ss) e =
      let k = none-cons s.in_use (find_free ss) e in (k.0, find_free-none ss k.1)

module _ {H F : Type 0} where
  with_lease_returns :
      (decode : H → List F → ℤ → Option Bytes) (audio : List F) (sample_rate : ℤ)
      (slots : List (Slot H)) (o : Option ℕ)
      → Restored slots o
      → (o ≡ none → All (λ s. s.in_use ≡ true) slots)
      → let r = with_lease decode audio sample_rate (take_slot slots o) in
        (r.1 ≡ slots) × (r.0 ≡ err tt → All (λ s. s.in_use ≡ true) slots)
  unfolding end_lease
  with_lease_returns decode audio sample_rate slots none r k = (refl, λ _. k refl)
  with_lease_returns decode audio sample_rate slots (some i) r k = (r, λ e. cc)

  -- A call gives back the slot that it takes, whatever the library answers, so that the pool is as it
  -- was; it fails only for a pool in which every slot is in use.
  pub recognize_returns :
      (decode : H → List F → ℤ → Option Bytes) (audio : List F) (sample_rate : ℤ)
      (slots : List (Slot H))
      → let r = recognize decode audio sample_rate slots in
        (r.1 ≡ slots) × (r.0 ≡ err tt → All (λ s. s.in_use ≡ true) slots)
  unfolding recognize try_lease
  recognize_returns decode [] sample_rate slots = (refl, λ e. cc)
  recognize_returns decode (a ∷ audio) sample_rate slots =
      with_lease_returns decode (a ∷ audio) sample_rate slots (find_free slots)
        (find_free-Restored slots) (find_free-none slots)
