-- ===== src/Serial/Wakeups.antt =====
-- No task of a connection is forgotten, and how often its session is closed (src/server.cpp), whatever
-- the order in which its two threads run.
use asrcpp_gigam.Base.{ℕ, ◌+◌, ◌≡◌, refl, Bool, Option, List, [], ◌∷◌, arith}
use asrcpp_gigam.TaskQueue.{
  enqueue, start_now, start_front, push_or_start, try_front, maybe_start_next, finish_current, stop,
}
use asrcpp_gigam.Serial.{
  Connection, Front, front_idle, front_retry, Loop, loop_idle, loop_retry,
  schedule_serial_queue_retry, front_step, loop_step, reads_retry, reads_stopped, reads_in_flight,
  reads_pending, orders, asks_stop, pushes, asks_pending, asks_in_flight, overloads, overload_stops,
  ends, end_stops, end_asks, ends_later, ends_now, gone, finishes, loop_asks_stop, loop_stops,
  unmarks, timer_asks_stopped, timer_asks_stop, starts_next, asks_waiting, asks_close, asks_running,
  closes_session, unmarks_close,
}
use asrcpp_gigam.Serial.Threads.{
  Move, Threads, begin_loop, new_threads, begin_front, Awake, undecided, to_close, Counted, move,
  moves, message, close, task_end, timer, front_moves, loop_moves,
}

module _ {ℓ κ} {S : Type ℓ} {W : Type κ} (call : S → W → Bool × W) where
  front-Awake :
      (f : Front S) (l : Loop) (c : Connection S) (w : W)
      → Awake c f l
      → let (g, d, v) = front_step call f c w in Awake d g l
  unfolding front_step schedule_serial_queue_retry push_or_start stop enqueue start_now
  front-Awake front_idle l c w h = h
  front-Awake (asks_stop start) l c w h = ground arith
  front-Awake (pushes start) l c w h = ground arith
  front-Awake asks_pending l c w h = ground arith
  front-Awake asks_in_flight l c w h = ground arith
  front-Awake (front_retry reads_retry) l c w h = ground arith
  front-Awake (front_retry reads_stopped) l c w h = ground arith
  front-Awake (front_retry reads_in_flight) l c w h = ground arith
  front-Awake (front_retry reads_pending) l c w h = ground arith
  front-Awake (front_retry orders) l c w h = ground arith
  front-Awake overloads l c w h = ground arith
  front-Awake overload_stops l c w h = ground arith
  front-Awake ends l c w h = ground arith
  front-Awake end_stops l c w h = ground arith
  front-Awake end_asks l c w h = ground arith
  front-Awake ends_later l c w h = ground arith
  front-Awake ends_now l c w h = ground arith
  front-Awake gone l c w h = h

  loop-Awake :
      (l : Loop) (f : Front S) (c : Connection S) (w : W)
      → Awake c f l
      → let (m, d, v) = loop_step call l c w in Awake d f m
  unfolding loop_step schedule_serial_queue_retry maybe_start_next finish_current stop try_front
      start_front
  loop-Awake loop_idle f c w h = h
  loop-Awake finishes f c w h = ground arith
  loop-Awake loop_asks_stop f c w h = ground arith
  loop-Awake loop_stops f c w h = ground arith
  loop-Awake unmarks f c w h = ground arith
  loop-Awake timer_asks_stopped f c w h = ground arith
  loop-Awake timer_asks_stop f c w h = ground arith
  loop-Awake (starts_next b) f c w h = ground arith
  loop-Awake (asks_waiting b) f c w h = ground arith
  loop-Awake (loop_retry b reads_retry) f c w h = ground arith
  loop-Awake (loop_retry b reads_stopped) f c w h = ground arith
  loop-Awake (loop_retry b reads_in_flight) f c w h = ground arith
  loop-Awake (loop_retry b reads_pending) f c w h = ground arith
  loop-Awake (loop_retry b orders) f c w h = ground arith
  loop-Awake asks_close f c w h = ground arith
  loop-Awake asks_running f c w h = ground arith
  loop-Awake closes_session f c w h = ground arith
  loop-Awake unmarks_close f c w h = ground arith

  front-Counted :
      (f : Front S) (l : Loop) (c : Connection S) (w : W)
      → Counted c f l
      → let (g, d, v) = front_step call f c w in Counted d g l
  unfolding front_step schedule_serial_queue_retry push_or_start stop enqueue start_now
  front-Counted front_idle l c w (h, k) = (ground arith, ground arith)
  front-Counted (asks_stop start) l c w (h, k) = (ground arith, ground arith)
  front-Counted (pushes start) l c w (h, k) = (ground arith, ground arith)
  front-Counted asks_pending l c w (h, k) = (ground arith, ground arith)
  front-Counted asks_in_flight l c w (h, k) = (ground arith, ground arith)
  front-Counted (front_retry reads_retry) l c w (h, k) = (ground arith, ground arith)
  front-Counted (front_retry reads_stopped) l c w (h, k) = (ground arith, ground arith)
  front-Counted (front_retry reads_in_flight) l c w (h, k) = (ground arith, ground arith)
  front-Counted (front_retry reads_pending) l c w (h, k) = (ground arith, ground arith)
  front-Counted (front_retry orders) l c w (h, k) = (ground arith, ground arith)
  front-Counted overloads l c w (h, k) = (ground arith, ground arith)
  front-Counted overload_stops l c w (h, k) = (ground arith, ground arith)
  front-Counted ends l c w (h, k) = (ground arith, ground arith)
  front-Counted end_stops l c w (h, k) = (ground arith, ground arith)
  front-Counted end_asks l c w (h, k) = (ground arith, ground arith)
  front-Counted ends_later l c w (h, k) = (ground arith, ground arith)
  front-Counted ends_now l c w (h, k) = (ground arith, ground arith)
  front-Counted gone l c w (h, k) = (ground arith, ground arith)

  loop-Counted :
      (l : Loop) (f : Front S) (c : Connection S) (w : W)
      → Counted c f l
      → let (m, d, v) = loop_step call l c w in Counted d f m
  unfolding loop_step schedule_serial_queue_retry maybe_start_next finish_current stop try_front
      start_front
  loop-Counted loop_idle f c w (h, k) = (ground arith, ground arith)
  loop-Counted finishes f c w (h, k) = (ground arith, ground arith)
  loop-Counted loop_asks_stop f c w (h, k) = (ground arith, ground arith)
  loop-Counted loop_stops f c w (h, k) = (ground arith, ground arith)
  loop-Counted unmarks f c w (h, k) = (ground arith, ground arith)
  loop-Counted timer_asks_stopped f c w (h, k) = (ground arith, ground arith)
  loop-Counted timer_asks_stop f c w (h, k) = (ground arith, ground arith)
  loop-Counted (starts_next b) f c w (h, k) = (ground arith, ground arith)
  loop-Counted (asks_waiting b) f c w (h, k) = (ground arith, ground arith)
  loop-Counted (loop_retry b reads_retry) f c w (h, k) = (ground arith, ground arith)
  loop-Counted (loop_retry b reads_stopped) f c w (h, k) = (ground arith, ground arith)
  loop-Counted (loop_retry b reads_in_flight) f c w (h, k) = (ground arith, ground arith)
  loop-Counted (loop_retry b reads_pending) f c w (h, k) = (ground arith, ground arith)
  loop-Counted (loop_retry b orders) f c w (h, k) = (ground arith, ground arith)
  loop-Counted asks_close f c w (h, k) = (ground arith, ground arith)
  loop-Counted asks_running f c w (h, k) = (ground arith, ground arith)
  loop-Counted closes_session f c w (h, k) = (ground arith, ground arith)
  loop-Counted unmarks_close f c w (h, k) = (ground arith, ground arith)

  abbrev Good : Threads S → Type 0
  Good t = Awake t.conn t.front t.loop × Counted t.conn t.front t.loop

  message-Good :
      (start : Option S) (c : Connection S) (f : Front S) (l : Loop)
      → Awake c f l × Counted c f l
      → Awake c (begin_front (asks_stop start) f) l × Counted c (begin_front (asks_stop start) f) l
  message-Good start c f l g = ground arith

  close-Good :
      (c : Connection S) (f : Front S) (l : Loop)
      → Awake c f l × Counted c f l
      → Awake c (begin_front ends f) l × Counted c (begin_front ends f) l
  close-Good c f l g = ground arith

  task_end-Good :
      (c : Connection S) (f : Front S) (l : Loop)
      → Awake c f l × Counted c f l
      → Awake c f (begin_loop finishes l) × Counted c f (begin_loop finishes l)
  task_end-Good c f l g = ground arith

  timer-Good :
      (c : Connection S) (f : Front S) (l : Loop)
      → Awake c f l × Counted c f l
      → Awake c f (begin_loop unmarks l) × Counted c f (begin_loop unmarks l)
  timer-Good c f l g = ground arith

  move-Good : (m : Move S) (t : Threads S) (w : W) → Good t → Good (move call m (t, w)).0
  unfolding move
  move-Good (message start) t w g = message-Good start t.conn t.front t.loop g
  move-Good close t w g = close-Good t.conn t.front t.loop g
  move-Good task_end t w g = task_end-Good t.conn t.front t.loop g
  move-Good timer t w g = timer-Good t.conn t.front t.loop g
  move-Good front_moves t w g =
      (front-Awake t.front t.loop t.conn w g.0, front-Counted t.front t.loop t.conn w g.1)
  move-Good loop_moves t w g =
      (loop-Awake t.loop t.front t.conn w g.0, loop-Counted t.loop t.front t.conn w g.1)

  moves-Good : (ms : List (Move S)) (t : Threads S) (w : W) → Good t → Good (moves call ms (t, w)).0
  unfolding moves
  moves-Good [] t w g = g
  moves-Good (m ∷ ms) t w g =
      moves-Good ms ((move call m (t, w)).0) ((move call m (t, w)).1) (move-Good m t w g)

  -- However the threads interleave, the session of a connection is closed at most once: at each moment
  -- exactly one of three things is the case, that the end of the connection has not decided it yet,
  -- that a close is left to the end of a task, or that the session was closed.
  pub closes_once :
      (n : ℕ) (w : W) (ms : List (Move S))
      → let t = (moves call ms (new_threads n, w)).0 in
        t.conn.closes + to_close t.conn t.loop + undecided t.front ≡ 1
  closes_once n w ms = (moves-Good ms (new_threads n) w (refl, (refl, refl))).1.0
