-- ===== src/Serial/Threads.antt =====
-- What comes to a connection (src/server.cpp), and the runs of its two threads in any order.
use asrcpp_gigam.Base.{
  if◌then◌else◌, is_empty, ℕ, ◌+◌, ◌≡◌, Bool, true, false, not, ◌&&◌, ◌||◌, Option, List, [], ◌∷◌,
}
use asrcpp_gigam.TaskQueue.{create}
use asrcpp_gigam.Serial.{
  Connection, Front, front_idle, front_retry, Loop, loop_idle, loop_retry, front_step, loop_step,
  asks_stop, asks_pending, asks_in_flight, ends, gone, finishes, loop_asks_stop, unmarks,
  timer_asks_stopped, timer_asks_stop, starts_next, asks_waiting, asks_running, closes_session,
  unmarks_close,
}

-- A message whose handler enqueues a task and the end of the connection come to its thread, the end of
-- a task and a timer to the main loop, each when that thread is idle; and a thread goes on by one access.
pub data Move {ℓ} (S : Type ℓ) : Type ℓ where
  message : Option S → Move S
  close task_end timer front_moves loop_moves : Move S

pub record Threads {ℓ} (S : Type ℓ) : Type ℓ where
  pub conn : Connection S
  pub front : Front S
  pub loop : Loop

abbrev pub begin_loop : Loop → Loop → Loop
begin_loop l loop_idle = l
begin_loop l m = m

abbrev pub loop_cares : Loop → Bool
loop_cares loop_asks_stop = true
loop_cares timer_asks_stopped = true
loop_cares timer_asks_stop = true
loop_cares (starts_next b) = true
loop_cares (asks_waiting b) = true
loop_cares (loop_retry b r) = true
loop_cares _ = false

-- The loop has read that a close waits.
abbrev pub saw_close : Loop → Bool
saw_close asks_running = true
saw_close closes_session = true
saw_close unmarks_close = true
saw_close _ = false

module _ {ℓ} {S : Type ℓ} where
  abbrev pub new_threads : ℕ → Threads S
  new_threads n = record {
    conn = record {
      task_queue = create n;
      stop_processing = false;
      retry_scheduled = false;
      session_close_pending = false;
      closes = 0;
    };
    front = front_idle;
    loop = loop_idle;
  }

  -- The thread of the connection begins a handler if it is idle.
  abbrev pub begin_front : Front S → Front S → Front S
  begin_front f front_idle = f
  begin_front f g = g

  -- It has begun to look after the tasks that wait, and is not through with it.
  abbrev pub front_cares : Front S → Bool
  front_cares asks_pending = true
  front_cares asks_in_flight = true
  front_cares (front_retry r) = true
  front_cares _ = false

  abbrev pub Awake : Connection S → Front S → Loop → Type 0
  Awake c f l =
      (is_empty c.task_queue.pending
        || c.task_queue.in_flight
        || c.retry_scheduled
        || c.task_queue.stopped
        || c.stop_processing
        || front_cares f
        || loop_cares l)
      ≡ true

  -- Whether `handleConnectionClosed` has still to decide who closes the session.
  abbrev pub undecided : Front S → ℕ
  undecided gone = 0
  undecided _ = 1

  abbrev pub is_gone : Front S → Bool
  is_gone gone = true
  is_gone _ = false

  abbrev pub to_close : Connection S → Loop → ℕ
  to_close c unmarks_close = 0
  to_close c _ = if c.session_close_pending then 1 else 0

  abbrev pub Counted : Connection S → Front S → Loop → Type 0
  Counted c f l =
      (c.closes + to_close c l + undecided f ≡ 1)
      × ((not (saw_close l) || (c.session_close_pending && is_gone f)) ≡ true)

module _ {ℓ κ} {S : Type ℓ} {W : Type κ} (call : S → W → Bool × W) where
  unfoldable pub move : Move S → Threads S × W → Threads S × W
  unfolding front_step loop_step
  move (message start) (t, w) = (record t { front = begin_front (asks_stop start) t.front }, w)
  move close (t, w) = (record t { front = begin_front ends t.front }, w)
  move task_end (t, w) = (record t { loop = begin_loop finishes t.loop }, w)
  move timer (t, w) = (record t { loop = begin_loop unmarks t.loop }, w)
  move front_moves (t, w) =
      let (f, c, v) = front_step call t.front t.conn w in (record t { conn = c; front = f }, v)
  move loop_moves (t, w) =
      let (l, c, v) = loop_step call t.loop t.conn w in (record t { conn = c; loop = l }, v)

  unfoldable pub moves : List (Move S) → Threads S × W → Threads S × W
  unfolding move
  moves [] t = t
  moves (m ∷ ms) t = moves ms (move m t)
