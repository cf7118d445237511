-- ===== src/Recognizer.antt =====
-- The pool of recognizers of src/recognizer.cpp and include/asr/recognizer.h. A slot's handle is what
-- the recognition library gave for it. Waiting on the condition variable is a sequence of attempts,
-- each under the mutex.
pub mod Leases
pub mod Returned
mod Runs
use asrcpp_gigam.Base.{
  ◌==◌, if◌then◌else◌, is_empty, ℕ, zero, suc, ◌/◌, max, Bool, true, false, not, ◌&&◌, ◌||◌, Option,
  none, some, List, [], ◌∷◌, ◌++◌, map,
}
use asrcpp_gigam.Base.Int.{ℤ, pos_part, ltb_ℤ, pos}
use asrcpp_gigam.Base.Bytes.{Bytes}
use asrcpp_gigam.Base.Result.{Result, ok, err}
use asrcpp_gigam.Base.Floats.{Floats}
use asrcpp_gigam.Config.{Config}

pub record Slot (H : Type 0) : Type 0 where
  pub handle : H
  pub in_use : Bool

module _ (fl : Floats) where
  unfoldable pub pool_size : Config fl → ℕ
  pool_size cfg =
      if ltb_ℤ (pos 0) cfg.recognizer_pool_size then pos_part cfg.recognizer_pool_size else 1

  -- `std::max(1, cfg.num_threads / pool_size)`; a negative quotient is below 1 as well.
  unfoldable pub threads_per_slot : Config fl → ℕ
  unfolding pool_size
  threads_per_slot cfg = max 1 (pos_part cfg.num_threads / pool_size cfg)

module _ {H : Type 0} where
  -- The loop of the constructor: `make i` is the handle of slot `i`, or `none`. An error is the
  -- number of the slot that failed and the handles that are destroyed for it.
  unfoldable pub create_slots :
      (ℕ → Option H) → ℕ → ℕ → List (Slot H) → Result (ℕ × List H) (List (Slot H))
  create_slots make zero i slots = ok slots
  create_slots make (suc left) i slots = elim (make i) [
    | none ↦ err (i, map (λ s. s.handle) slots)
    | some handle ↦
        create_slots make left (suc i) (slots ++ (record { handle = handle; in_use = false } ∷ []))
  ]

  -- `std::find_if` of a slot that is not in use, with its position.
  unfoldable pub find_free : List (Slot H) → Option ℕ
  find_free [] = none
  find_free (s ∷ ss) =
      let later = find_free ss in
      if not s.in_use then some 0 else elim later [ none ↦ none | some i ↦ some (suc i) ]

  abbrev pub set_use : ℕ → Bool → List (Slot H) → List (Slot H)
  set_use i b [] = []
  set_use zero b (s ∷ ss) = record s { in_use = b } ∷ ss
  set_use (suc i) b (s ∷ ss) = s ∷ set_use i b ss

  abbrev pub take_slot : List (Slot H) → Option ℕ → Option ℕ × List (Slot H)
  take_slot slots none = (none, slots)
  take_slot slots (some i) = (some i, set_use i true slots)

  -- One attempt: a slot that is leased from then on, or none, and the caller waits or gives up.
  unfoldable pub try_lease : List (Slot H) → Option ℕ × List (Slot H)
  unfolding find_free
  try_lease slots = take_slot slots (find_free slots)

  -- The end of a `SlotLease`.
  unfoldable pub end_lease : ℕ → List (Slot H) → List (Slot H)
  end_lease slot_idx slots = set_use slot_idx false slots

-- `find_first_not_of(" \t\n\r")`
abbrev pub is_blank : ℕ → Bool
is_blank c = c == 32 || c == 9 || c == 10 || c == 13

unfoldable pub erase_front : Bytes → Bytes
erase_front [] = []
erase_front (c ∷ cs) = if is_blank c then erase_front cs else c ∷ cs

unfoldable pub erase_back : Bytes → Bytes
erase_back [] = []
erase_back (c ∷ cs) =
    let rest = erase_back cs in if is_empty rest && is_blank c then [] else c ∷ rest

-- The text of a result, trimmed in place at its end and then at its start.
unfoldable pub result_text : Bytes → Bytes
unfolding erase_front erase_back
result_text text = erase_front (erase_back text)

-- No stream or no result is the empty text.
abbrev pub decoded_text : Option Bytes → Bytes
decoded_text none = []
decoded_text (some text) = result_text text

module _ {H : Type 0} where
  abbrev pub handle_at : ℕ → List (Slot H) → Option H
  handle_at i [] = none
  handle_at zero (s ∷ ss) = some s.handle
  handle_at (suc i) (s ∷ ss) = handle_at i ss

module _ {H F : Type 0} where
  -- `decode` is the library: the text of the samples, or `none` where it gives no stream or no
  -- result.
  abbrev pub decoded_with : (H → List F → ℤ → Option Bytes) → List F → ℤ → Option H → Bytes
  decoded_with decode audio sample_rate none = []
  decoded_with decode audio sample_rate (some handle) =
      decoded_text (decode handle audio sample_rate)

  abbrev pub with_lease :
      (H → List F → ℤ → Option Bytes)
      → List F
      → ℤ
      → Option ℕ × List (Slot H)
      → Result (Unit {0}) Bytes × List (Slot H)
  unfolding end_lease
  with_lease decode audio sample_rate (none, slots) = (err tt, slots)
  with_lease decode audio sample_rate (some slot_idx, leased) = (
    ok (decoded_with decode audio sample_rate (handle_at slot_idx leased)),
    end_lease slot_idx leased,
  )

  -- One call while no other uses the pool: its wait is one attempt, and the lease, the decoding and the
  -- end of the lease follow each other. The attempts and ends of overlapping calls are in Leases. An
  -- error is that the pool is saturated. The slots are those of the last attempt, given back.
  unfoldable pub recognize :
      (H → List F → ℤ → Option Bytes)
      → List F
      → ℤ
      → List (Slot H)
      → Result (Unit {0}) Bytes × List (Slot H)
  unfolding try_lease
  recognize decode [] sample_rate slots = (ok [], slots)
  recognize decode (a ∷ audio) sample_rate slots =
      with_lease decode (a ∷ audio) sample_rate (try_lease slots)
