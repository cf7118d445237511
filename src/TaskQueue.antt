-- ===== src/TaskQueue.antt =====
-- `SerializedTaskQueue` of src/executor.cpp and include/asr/executor.h: the tasks of one connection,
-- at most one of them handed on at a time. Each method holds the mutex from its first line to its
-- last, so a method is one function on the state. A start function is a value of `S`; `call` runs it,
-- in a world `W` that it may change (the shared executor), and says whether it accepted.
pub mod Order
pub mod Service
mod Runs
use asrcpp_gigam.Base.{
  leb, if◌then◌else◌, length, is_empty, ℕ, Bool, true, false, not, ◌||◌, Option, none, some, List,
  [], ◌∷◌, ◌++◌,
}

pub record TaskQueue {ℓ} (S : Type ℓ) : Type ℓ where
  pub max_pending : ℕ
  pub pending : List S
  pub in_flight : Bool
  pub stopped : Bool

abbrev pub create {ℓ} : {S : Type ℓ} → ℕ → TaskQueue S
create max_pending = record {
  max_pending = max_pending;
  pending = [];
  in_flight = false;
  stopped = false;
}

module _ {ℓ κ} {S : Type ℓ} {W : Type κ} where
  unfoldable pub enqueue : TaskQueue S → W → S → TaskQueue S × W × Bool
  enqueue q w start =
      if leb q.max_pending (length q.pending)
      then (q, w, false)
      else (record q { pending = q.pending ++ (start ∷ []) }, w, true)

  -- The start function is called, and kept for later if the executor refuses it.
  unfoldable pub start_now : TaskQueue S → S → Bool × W → TaskQueue S × W × Bool
  start_now q start (true, w) = (record q { in_flight = true }, w, true)
  start_now q start (false, w) = enqueue q w start

  unfoldable pub start_front : TaskQueue S → List S → Bool × W → TaskQueue S × W × Bool
  start_front q rest (true, w) = (record q { pending = rest; in_flight = true }, w, true)
  start_front q rest (false, w) = (q, w, false)

module _ {ℓ κ} {S : Type ℓ} {W : Type κ} (call : S → W → Bool × W) where
  -- `none` is an empty `std::function`.
  unfoldable pub push_or_start : TaskQueue S → W → Option S → TaskQueue S × W × Bool
  unfolding enqueue start_now
  push_or_start q w none = (q, w, false)
  push_or_start q w (some start) =
      if q.stopped
      then (q, w, false)
      else if q.in_flight || not (is_empty q.pending)
      then enqueue q w start
      else start_now q start (call start w)

  unfoldable pub try_front : TaskQueue S → W → List S → TaskQueue S × W × Bool
  unfolding start_front
  try_front q w [] = (q, w, false)
  try_front q w (start ∷ rest) = start_front q rest (call start w)

  unfoldable pub maybe_start_next : TaskQueue S → W → TaskQueue S × W × Bool
  unfolding try_front
  maybe_start_next q w = if q.stopped || q.in_flight then (q, w, false) else try_front q w q.pending

module _ {ℓ} {S : Type ℓ} where
  unfoldable pub finish_current : TaskQueue S → TaskQueue S
  finish_current q = record q { in_flight = false }

  unfoldable pub stop : TaskQueue S → Bool → TaskQueue S
  stop q drop_pending = record q {
    stopped = true;
    pending = if drop_pending then [] else q.pending;
  }

  unfoldable pub clear : TaskQueue S → TaskQueue S
  clear q = record q { pending = [] }
