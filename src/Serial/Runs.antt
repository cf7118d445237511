-- ===== src/Serial/Runs.antt =====
-- A connection whose executor refuses every task with an odd number of earlier attempts.
use asrcpp_gigam.Base.{
  ◌==◌, replicate, ℕ, ◌+◌, ◌%◌, ◌≡◌, refl, Bool, true, false, some, List, [], ◌∷◌, ◌++◌,
}
use asrcpp_gigam.TaskQueue.{
  enqueue, start_now, start_front, push_or_start, try_front, maybe_start_next, finish_current, stop,
}
use asrcpp_gigam.Serial.{loop_idle, schedule_serial_queue_retry, front_step, loop_step, gone}
use asrcpp_gigam.Serial.Threads.{
  Move, new_threads, undecided, to_close, move, moves, message, close, task_end, timer, front_moves,
  loop_moves,
}
use asrcpp_gigam.Serial.Wakeups.{closes_once}

abbrev sometimes : ℕ → ℕ → Bool × ℕ
sometimes task attempts = (attempts % 2 == 0, attempts + 1)

-- Task 7 starts, task 8 waits; at the end of task 7 the executor refuses task 8, and a retry is ordered.
abbrev waits : List (Move ℕ)
waits =
    message (some 7)
    ∷ (replicate 3 front_moves
        ++ (message (some 8) ∷ (replicate 4 front_moves ++ (task_end ∷ replicate 10 loop_moves))))

-- The end of the connection finds task 7 in flight; before it leaves the close to the end of that task,
-- the task has ended.
abbrev overtaken : List (Move ℕ)
overtaken =
    message (some 7)
    ∷ (replicate 3 front_moves
        ++ (close
            ∷ (replicate 3 front_moves
                ++ (task_end ∷ (replicate 4 loop_moves ++ (front_moves ∷ []))))))

closes_once_example :
    let t = (moves sometimes overtaken (new_threads 2, 0)).0 in
    t.conn.closes + to_close t.conn t.loop + undecided t.front ≡ 1
closes_once_example = closes_once sometimes 2 0 overtaken

-- The retry starts task 8.
retried_test :
    let t = (moves sometimes (waits ++ (timer ∷ replicate 4 loop_moves)) (new_threads 2, 0)).0 in
    (t.conn.task_queue.in_flight ≡ true) × (t.conn.task_queue.pending ≡ []) × (t.loop ≡ loop_idle)
unfolding moves move front_step loop_step schedule_serial_queue_retry push_or_start start_now
    enqueue maybe_start_next try_front start_front finish_current stop
retried_test = (refl, refl, refl)

-- Both threads are through, and the close is left to a task that has ended: the session stays open.
never_closed :
    let t = (moves sometimes overtaken (new_threads 2, 0)).0 in
    (t.conn.closes ≡ 0)
    × (t.conn.session_close_pending ≡ true)
    × (t.conn.task_queue.in_flight ≡ false)
    × (t.front ≡ gone)
    × (t.loop ≡ loop_idle)
unfolding moves move front_step loop_step schedule_serial_queue_retry push_or_start start_now
    enqueue maybe_start_next try_front start_front finish_current stop
never_closed = (refl, refl, refl, refl, refl)
