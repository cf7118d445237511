-- ===== src/Executor.antt =====
-- `BoundedExecutor` of src/executor.cpp and include/asr/executor.h: worker threads that take tasks
-- from a bounded queue. What runs under the mutex without a wait is one function on the state; what
-- a task does while it runs is not part of the state.
pub mod System
pub mod Invariant
mod Runs
use asrcpp_gigam.Base.{
  leb, ◌==◌, if◌then◌else◌, length, is_empty, ℕ, ◌+◌, ◌-◌, ◌%◌, ◌^◌, ◌⊎◌, inl, inr, Bool, true,
  false, ◌&&◌, ◌||◌, Option, none, some, List, [], ◌∷◌, ◌++◌,
}

pub record Executor {ℓ} (T : Type ℓ) : Type ℓ where
  pub queue_capacity : ℕ
  pub queue : List T
  pub in_flight : ℕ
  pub stopping : Bool

pub data Error : Type 0 where
  no_workers no_capacity : Error

-- The state behind the mutex of a new executor, and the number of threads that it starts.
unfoldable pub create {ℓ} : {T : Type ℓ} → ℕ → ℕ → (Executor T × ℕ) ⊎ Error
create worker_count queue_capacity =
    if worker_count == 0
    then inr no_workers
    else if queue_capacity == 0
    then inr no_capacity
    else inl (
      record { queue_capacity = queue_capacity; queue = []; in_flight = 0; stopping = false },
      worker_count,
    )

module _ {ℓ} {T : Type ℓ} where
  -- `none` is an empty `std::function`.
  unfoldable pub try_submit : Executor T → Option T → Executor T × Bool
  try_submit e none = (e, false)
  try_submit e (some task) =
      if e.stopping || leb e.queue_capacity (length e.queue)
      then (e, false)
      else (record e { queue = e.queue ++ (task ∷ []) }, true)

  -- The first critical section of `shutdown`; `false` if another call had begun it.
  unfoldable pub begin_shutdown : Executor T → Executor T × Bool
  begin_shutdown e = if e.stopping then (e, false) else (record e { stopping = true }, true)

  -- The predicate that `wait_for_idle` waits for.
  unfoldable pub is_idle : Executor T → Bool
  is_idle e = is_empty e.queue && e.in_flight == 0

-- What a worker does in the first critical section of a round of `worker_loop`.
pub data Pick {ℓ} (T : Type ℓ) : Type ℓ where
  wait leave : Pick T
  run : T → Pick T

module _ {ℓ} {T : Type ℓ} where
  pick_from : Executor T → List T → Executor T × Pick T
  pick_from e [] = (e, if e.stopping then leave else wait)
  pick_from e (task ∷ rest) = (record e { queue = rest; in_flight = e.in_flight + 1 }, run task)

  unfoldable pub pick : Executor T → Executor T × Pick T
  unfolding pick_from
  pick e = pick_from e e.queue

  -- The second critical section, after the task has returned or thrown: `in_flight_` is a `size_t`.
  -- The result says whether the threads in `wait_for_idle` are woken.
  unfoldable pub done : Executor T → Executor T × Bool
  done e =
      let left = (e.in_flight + 2 ^ 64 - 1) % 2 ^ 64 in
      (record e { in_flight = left }, is_empty e.queue && left == 0)
