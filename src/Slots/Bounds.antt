-- ===== src/Slots/Bounds.antt =====
-- However the threads interleave, the limits of src/server.cpp hold.
use asrcpp_gigam.Executor.{create}
use asrcpp_gigam.Config.Ranges.{Ranges, validate-Ranges}
use asrcpp_gigam.Config.{Config, validate}
use asrcpp_gigam.Base.Floats.{Floats}
use asrcpp_gigam.Base.Int.{ℤ, pos_part, ◌≤ℤ◌, ltb_ℤ, pos, negsuc}
use asrcpp_gigam.Base.{
  ◌==◌, if◌then◌else◌, ℕ, ◌+◌, ◌-◌, ◌*◌, ◌%◌, ◌^◌, ◌≤◌, ◌<◌, max, ◌≡◌, refl, inl, Bool, true, false,
  List, [], ◌∷◌, arith,
}
use asrcpp_gigam.Base.Result.{ok}
use asrcpp_gigam.Slots.{
  Attempt, again, try_round, begin_acquire, release_ws_slot, RequestSemaphore, try_acquire, release,
  asr_executor_worker_count, asr_executor_queue_capacity, acquired, refused,
}

-- What some thread does to the counter: its first access, a round with whatever value it holds, or the
-- release of a slot that some connection holds.
pub data Access : Type 0 where
  start : Access
  round : ℕ → Bool → Access
  leave : Access

-- The counter, and the number of connections that hold a slot.
pub record Slots : Type 0 where
  pub active : ℕ
  pub held : ℕ

settle : ℕ × Attempt → ℕ → Slots
settle (active, acquired) held = record { active = active; held = held + 1 }
settle (active, refused) held = record { active = active; held = held }
settle (active, again n) held = record { active = active; held = held }

unfoldable pub access : ℕ → Access → Slots → Slots
unfolding settle
access limit start s = settle (begin_acquire limit s.active) s.held
access limit (round current spurious) s = settle (try_round limit s.active current spurious) s.held
access limit leave s =
    if s.held == 0 then s else record { active = release_ws_slot s.active; held = s.held - 1 }

pub accesses : ℕ → List Access → Slots → Slots
accesses limit [] s = s
accesses limit (a ∷ cs) s = accesses limit cs (access limit a s)

abbrev Counted : ℕ → Slots → Type 0
Counted limit s = (s.active ≡ s.held) × (s.held ≤ limit)

access-Counted :
    (limit : ℕ) (a : Access) (s : Slots)
    → 0 < limit
    → limit < 2 ^ 64
    → Counted limit s
    → Counted limit (access limit a s)
unfolding access settle try_round begin_acquire release_ws_slot
access-Counted limit start s positive small (e, h) = ground arith
access-Counted limit (round current spurious) s positive small (e, h) = ground arith
access-Counted limit leave s positive small (e, h) = ground arith

accesses-Counted :
    (limit : ℕ) (cs : List Access) (s : Slots)
    → 0 < limit
    → limit < 2 ^ 64
    → Counted limit s
    → Counted limit (accesses limit cs s)
unfolding accesses
accesses-Counted limit [] s positive small c = c
accesses-Counted limit (a ∷ cs) s positive small c =
    accesses-Counted limit cs (access limit a s) positive small
      (access-Counted limit a s positive small c)

-- With a limit (not 0, a `size_t`), however the loads, the compare-and-swaps and the releases of the
-- connections interleave, and whatever stale value a thread holds, the counter is the number of
-- connections that hold a slot, and that is at most the limit.
pub slots_bounded :
    (limit : ℕ) (cs : List Access)
    → 0 < limit
    → limit < 2 ^ 64
    → ((accesses limit cs (record { active = 0; held = 0 })).active
        ≡ (accesses limit cs (record { active = 0; held = 0 })).held)
      × ((accesses limit cs (record { active = 0; held = 0 })).held ≤ limit)
slots_bounded limit cs positive small =
    accesses-Counted limit cs (record { active = 0; held = 0 }) positive small (refl, omega arith)

-- A request that asks for the semaphore, or one that has it and gives it back.
pub data Request : Type 0 where
  ask give : Request

asked : RequestSemaphore × Bool → ℕ → RequestSemaphore × ℕ
asked (s, true) held = (s, held + 1)
asked (s, false) held = (s, held)

request : Request → RequestSemaphore × ℕ → RequestSemaphore × ℕ
unfolding asked
request ask (s, held) = asked (try_acquire s) held
request give (s, held) = if held == 0 then (s, held) else (release s, held - 1)

pub requests : List Request → RequestSemaphore × ℕ → RequestSemaphore × ℕ
requests [] t = t
requests (r ∷ rs) t = requests rs (request r t)

abbrev pub Held : ℕ → RequestSemaphore × ℕ → Type 0
Held limit (s, held) = (s.max_count ≡ limit) × (s.count ≡ held) × (held ≤ limit)

request-Held :
    (limit : ℕ) (r : Request) (s : RequestSemaphore) (held : ℕ)
    → limit < 2 ^ 64
    → Held limit (s, held)
    → Held limit (request r (s, held))
unfolding request asked try_acquire release
request-Held limit ask s held small h = ground arith
request-Held limit give s held small h = ground arith

-- Whatever requests come and end, in any order: if the count of the semaphore is the number of requests
-- that hold it and at most `max_count`, a `size_t`, then it stays so.
requests-Held :
    (limit : ℕ) (rs : List Request) (s : RequestSemaphore) (held : ℕ)
    → limit < 2 ^ 64
    → Held limit (s, held)
    → Held limit (requests rs (s, held))
unfolding requests
requests-Held limit [] s held small h = h
requests-Held limit (r ∷ rs) s held small h =
    requests-Held limit rs ((request r (s, held)).0) ((request r (s, held)).1) small
      (request-Held limit r s held small h)

workers_eq :
    (p : ℤ) → pos 1 ≤ℤ p → max 1 (pos_part (if ltb_ℤ p (pos 1) then pos 1 else p)) ≡ pos_part p
workers_eq p h = ground arith

room_eq : (w b : ℕ) → w ≤ 256 → 8 * w ≤ max (w * 8 % 2 ^ 64) b
room_eq w b h = omega arith

small : (p : ℤ) {w : ℕ} → w ≡ pos_part p → p ≤ℤ pos 256 → w ≤ 256
small (pos n) h k = omega arith
small (negsuc n) h k = omega arith

sized :
    (fl : Floats) (c : Config fl)
    → Ranges fl c
    → (asr_executor_worker_count fl c ≡ pos_part c.recognizer_pool_size)
      × (8 * asr_executor_worker_count fl c ≤ asr_executor_queue_capacity fl c)
      × (1 ≤ asr_executor_worker_count fl c)
unfolding asr_executor_worker_count asr_executor_queue_capacity
sized fl c r =
    let e = workers_eq c.recognizer_pool_size r.pool_low in
    (
      e,
      room_eq (asr_executor_worker_count fl c) (max 1 c.max_concurrent_requests * 2 % 2 ^ 64)
          (small c.recognizer_pool_size e r.pool_high),
      omega arith,
    )

module _ {ℓ} (fl : Floats) {T : Type ℓ} where
  built :
      (workers capacity : ℕ)
      → 1 ≤ workers
      → 1 ≤ capacity
      → create {T = T} workers capacity
        ≡ inl (
          record { queue_capacity = capacity; queue = []; in_flight = 0; stopping = false },
          workers,
        )
  unfolding create
  built workers capacity h k = ground arith

  -- From a validated configuration the server builds its executor: the constructor does not throw,
  -- there is one worker for each recognizer of the pool, and room for at least eight tasks for each
  -- worker.
  pub executor_built :
      (c c' : Config fl)
      → validate fl c ≡ ok c'
      → (create {T = T} (asr_executor_worker_count fl c') (asr_executor_queue_capacity fl c')
          ≡ inl (
            record {
              queue_capacity = asr_executor_queue_capacity fl c';
              queue = [];
              in_flight = 0;
              stopping = false;
            },
            asr_executor_worker_count fl c',
          ))
        × (asr_executor_worker_count fl c' ≡ pos_part c'.recognizer_pool_size)
        × (8 * pos_part c'.recognizer_pool_size ≤ asr_executor_queue_capacity fl c')
  executor_built c c' h =
      let (a, b, p) = sized fl c' (validate-Ranges fl c c' h) in
      (
        built (asr_executor_worker_count fl c') (asr_executor_queue_capacity fl c') p
            (omega (arith, b, p)),
        a,
        omega (arith, a, b),
      )
