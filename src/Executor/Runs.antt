-- ===== src/Executor/Runs.antt =====
-- The executor at concrete inputs: two tasks, one worker, and a shutdown.
use mathlib.Core.List.{Perm}
use asrcpp_gigam.Base.{length, ℕ, ◌≤◌, ◌≡◌, refl, ◌↔◌, inl, true, false, [], ◌∷◌, ◌++◌, arith}
use asrcpp_gigam.Executor.{Executor, create, try_submit, begin_shutdown, is_idle, pick, done}
use asrcpp_gigam.Executor.System.{
  System, Reach, start, submits, takes, leaves, ends, shuts, here, next,
}
use asrcpp_gigam.Executor.Invariant.{Reach-bounds, shutdown_drains, idle_iff_finished}

abbrev fresh : Executor ℕ
fresh = record { queue_capacity = 2; queue = []; in_flight = 0; stopping = false }

abbrev first_taken : System ℕ
first_taken = record {
  executor = record fresh { in_flight = 1 };
  waiting = 0;
  running = 7 ∷ [];
  exited = 0;
  accepted = 7 ∷ [];
  taken = 7 ∷ [];
  finished = [];
}

abbrev all_left : System ℕ
all_left = record {
  executor = record fresh { stopping = true };
  waiting = 0;
  running = [];
  exited = 1;
  accepted = 7 ∷ 8 ∷ [];
  taken = 7 ∷ 8 ∷ [];
  finished = 7 ∷ 8 ∷ [];
}

Reach-first : Reach (start fresh 1) first_taken
unfolding try_submit pick
Reach-first =
    next (next here (submits _ 7 (record fresh { queue = 7 ∷ [] }) refl))
      (takes _ 7 (record fresh { in_flight = 1 }) 0 refl refl)

-- Then submit 8, shut down, end 7, take and end 8, leave.
Reach-end : Reach (start fresh 1) all_left
unfolding try_submit pick done begin_shutdown
Reach-end =
    next
      (next
        (next
          (next
            (next
              (next Reach-first (submits _ 8 (record fresh { queue = 8 ∷ []; in_flight = 1 }) refl))
              (shuts _))
            (ends _ [] 7 [] refl))
          (takes _ 8 (record fresh { in_flight = 1; stopping = true }) 0 refl refl))
        (ends _ [] 8 [] refl))
      (leaves _ (record fresh { stopping = true }) 0 refl refl)

create_fresh : create {T = ℕ} 1 2 ≡ inl (fresh, 1)
unfolding create
create_fresh = refl

Reach-bounds_example :
    (first_taken.executor.in_flight ≡ length first_taken.running)
    × (first_taken.executor.in_flight ≤ 1)
    × (length first_taken.executor.queue ≤ 2)
    × (first_taken.taken ++ first_taken.executor.queue ≡ first_taken.accepted)
    × Perm first_taken.taken (first_taken.finished ++ first_taken.running)
Reach-bounds_example = Reach-bounds 1 2 fresh first_taken (omega arith) create_fresh Reach-first

shutdown_drains_example :
    Perm all_left.accepted all_left.finished
    × (all_left.executor.queue ≡ [])
    × (all_left.running ≡ [])
shutdown_drains_example =
    shutdown_drains 1 2 fresh all_left (omega arith) create_fresh Reach-end refl

idle_iff_finished_example :
    (is_idle first_taken.executor ≡ true) ↔ Perm first_taken.accepted first_taken.finished
idle_iff_finished_example =
    idle_iff_finished 1 2 fresh first_taken (omega arith) create_fresh Reach-first
