-- ===== src/Slots.antt =====
-- The limits of src/server.cpp: the slots of the WebSocket connections (`try_acquire_ws_slot`,
-- `release_ws_slot`), the semaphore of the HTTP requests (`RequestSemaphore`), and the sizes of the
-- executor. The counters are of type `size_t`.
pub mod Bounds
mod Runs
use asrcpp_gigam.Base.{
  ltb, leb, ◌==◌, if◌then◌else◌, ℕ, ◌+◌, ◌-◌, ◌*◌, ◌%◌, ◌^◌, max, Bool, true, false, not, ◌&&◌,
}
use asrcpp_gigam.Base.Int.{pos_part, ltb_ℤ, pos}
use asrcpp_gigam.Base.Floats.{Floats}
use asrcpp_gigam.Config.{Config}

-- `fetch_sub(1)` and `--count`.
abbrev pub decrement : ℕ → ℕ
decrement n = (n + 2 ^ 64 - 1) % 2 ^ 64

-- What a thread knows after one round of the loop; `again n` has read `n`.
pub data Attempt : Type 0 where
  acquired refused : Attempt
  again : ℕ → Attempt

-- One round: the test of the loop and the compare-and-swap of `current`, which may fail without a
-- reason. The counter is `active`.
unfoldable pub try_round : ℕ → ℕ → ℕ → Bool → ℕ × Attempt
try_round max_connections active current spurious =
    if not (ltb current max_connections)
    then (active, refused)
    else if active == current && not spurious
    then ((active + 1) % 2 ^ 64, acquired)
    else (active, again active)

-- The first access: without a limit the slot is taken at once, else the counter is read.
unfoldable pub begin_acquire : ℕ → ℕ → ℕ × Attempt
begin_acquire max_connections active =
    if max_connections == 0 then ((active + 1) % 2 ^ 64, acquired) else (active, again active)

unfoldable pub release_ws_slot : ℕ → ℕ
release_ws_slot active = decrement active

pub record RequestSemaphore : Type 0 where
  pub max_count : ℕ
  pub count : ℕ

unfoldable pub try_acquire : RequestSemaphore → RequestSemaphore × Bool
try_acquire s =
    if leb s.max_count s.count
    then (s, false)
    else (record s { count = (s.count + 1) % 2 ^ 64 }, true)

unfoldable pub release : RequestSemaphore → RequestSemaphore
release s = record s { count = decrement s.count }

module _ (fl : Floats) where
  unfoldable pub asr_executor_worker_count : Config fl → ℕ
  asr_executor_worker_count c =
      let pool = if ltb_ℤ c.recognizer_pool_size (pos 1) then pos 1 else c.recognizer_pool_size in
      max 1 (pos_part pool)

  unfoldable pub asr_executor_queue_capacity : Config fl → ℕ
  unfolding asr_executor_worker_count
  asr_executor_queue_capacity c =
      let workers = asr_executor_worker_count c in
      max (workers * 8 % 2 ^ 64) (max 1 c.max_concurrent_requests * 2 % 2 ^ 64)
