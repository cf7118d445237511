-- ===== src/Serial.antt =====
-- The serial tasks of one realtime connection (src/server.cpp): how two threads start the tasks of its
-- `SerializedTaskQueue`, and when its session is closed. The thread of the connection handles its
-- messages and its end; the main loop of the server, `ctx->loop`, handles the ends of tasks and the
-- timers. Each thread does one handler after the other, but the handlers of the two interleave: a
-- position of a thread is before an access to what they share, and a step is one access. A call of the
-- queue holds its mutex, so it is one access; the plain flags are read and written as if they were
-- atomic. `closes` counts the calls of `ASRSession::on_close`. The context, its loop, its queue and its
-- session exist.
pub mod Threads
pub mod Wakeups
mod Runs
use asrcpp_gigam.Base.{if◌then◌else◌, is_empty, ℕ, ◌+◌, Bool, true, false, Option, none, some}
use asrcpp_gigam.TaskQueue.{TaskQueue, push_or_start, maybe_start_next, finish_current, stop}

pub record Connection {ℓ} (S : Type ℓ) : Type ℓ where
  pub task_queue : TaskQueue S
  pub stop_processing : Bool
  pub retry_scheduled : Bool
  pub session_close_pending : Bool
  pub closes : ℕ

-- In `schedule_serial_queue_retry`: the reads of its test, in their order, and the order of a timer.
pub data Retry : Type 0 where
  reads_retry reads_stopped reads_in_flight reads_pending orders : Retry

-- The thread of the connection: in `enqueue_serial_task`, in what a handler does when that refuses the
-- task, or in `handleConnectionClosed`. `gone` is a connection whose end was handled.
pub data Front {ℓ} (S : Type ℓ) : Type ℓ where
  front_idle : Front S
  asks_stop pushes : Option S → Front S
  asks_pending asks_in_flight : Front S
  front_retry : Retry → Front S
  overloads overload_stops : Front S
  ends end_stops end_asks ends_later ends_now gone : Front S

-- The main loop: in `on_serial_task_finished`, or, where the flag is false, in the timer's function.
pub data Loop : Type 0 where
  loop_idle : Loop
  finishes loop_asks_stop loop_stops : Loop
  unmarks timer_asks_stopped timer_asks_stop : Loop
  starts_next asks_waiting : Bool → Loop
  loop_retry : Bool → Retry → Loop
  asks_close asks_running closes_session unmarks_close : Loop

-- What is left of a handler of the loop behind the start of the next task.
abbrev pub loop_rest : Bool → Loop
loop_rest of_task = if of_task then asks_close else loop_idle

module _ {ℓ} {S : Type ℓ} where
  -- The next access of `schedule_serial_queue_retry`; `none` is its end.
  unfoldable pub schedule_serial_queue_retry : Retry → Connection S → Option Retry × Connection S
  schedule_serial_queue_retry reads_retry c =
      (if c.retry_scheduled then none else some reads_stopped, c)
  schedule_serial_queue_retry reads_stopped c =
      (if c.task_queue.stopped then none else some reads_in_flight, c)
  schedule_serial_queue_retry reads_in_flight c =
      (if c.task_queue.in_flight then none else some reads_pending, c)
  schedule_serial_queue_retry reads_pending c =
      (if is_empty c.task_queue.pending then none else some orders, c)
  schedule_serial_queue_retry orders c = (none, record c { retry_scheduled = true })

  abbrev pub front_after_retry : Option Retry × Connection S → Front S × Connection S
  front_after_retry (none, c) = (front_idle, c)
  front_after_retry (some r, c) = (front_retry r, c)

  abbrev pub loop_after_retry : Bool → Option Retry × Connection S → Loop × Connection S
  loop_after_retry of_task (none, c) = (loop_rest of_task, c)
  loop_after_retry of_task (some r, c) = (loop_retry of_task r, c)

module _ {ℓ κ} {S : Type ℓ} {W : Type κ} (call : S → W → Bool × W) where
  abbrev pub front_pushed : Connection S → TaskQueue S × W × Bool → Front S × Connection S × W
  front_pushed c (q, w, accepted) =
      (if accepted then asks_pending else overloads, record c { task_queue = q }, w)

  -- The next access of the thread of the connection.
  unfoldable pub front_step : Front S → Connection S → W → Front S × Connection S × W
  unfolding schedule_serial_queue_retry push_or_start stop
  front_step front_idle c w = (front_idle, c, w)
  front_step (asks_stop start) c w = (if c.stop_processing then overloads else pushes start, c, w)
  front_step (pushes start) c w = front_pushed c (push_or_start call c.task_queue w start)
  front_step asks_pending c w =
      (if is_empty c.task_queue.pending then front_idle else asks_in_flight, c, w)
  front_step asks_in_flight c w =
      (if c.task_queue.in_flight then front_idle else front_retry reads_retry, c, w)
  front_step (front_retry r) c w =
      let (f, d) = front_after_retry (schedule_serial_queue_retry r c) in (f, d, w)
  front_step overloads c w = (overload_stops, record c { stop_processing = true }, w)
  front_step overload_stops c w = (front_idle, record c { task_queue = stop c.task_queue true }, w)
  front_step ends c w = (end_stops, record c { stop_processing = true }, w)
  front_step end_stops c w = (end_asks, record c { task_queue = stop c.task_queue true }, w)
  front_step end_asks c w = (if c.task_queue.in_flight then ends_later else ends_now, c, w)
  front_step ends_later c w = (gone, record c { session_close_pending = true }, w)
  front_step ends_now c w = (gone, record c { closes = c.closes + 1 }, w)
  front_step gone c w = (gone, c, w)

  abbrev pub loop_started : Bool → Connection S → TaskQueue S × W × Bool → Loop × Connection S × W
  loop_started of_task c (q, w, started) =
      (if started then loop_rest of_task else asks_waiting of_task, record c { task_queue = q }, w)

  -- The next access of the main loop.
  unfoldable pub loop_step : Loop → Connection S → W → Loop × Connection S × W
  unfolding schedule_serial_queue_retry maybe_start_next finish_current stop
  loop_step loop_idle c w = (loop_idle, c, w)
  loop_step finishes c w =
      (loop_asks_stop, record c { task_queue = finish_current c.task_queue }, w)
  loop_step loop_asks_stop c w = (if c.stop_processing then loop_stops else starts_next true, c, w)
  loop_step loop_stops c w = (asks_close, record c { task_queue = stop c.task_queue true }, w)
  loop_step unmarks c w = (timer_asks_stopped, record c { retry_scheduled = false }, w)
  loop_step timer_asks_stopped c w =
      (if c.task_queue.stopped then loop_idle else timer_asks_stop, c, w)
  loop_step timer_asks_stop c w = (if c.stop_processing then loop_idle else starts_next false, c, w)
  loop_step (starts_next of_task) c w =
      loop_started of_task c (maybe_start_next call c.task_queue w)
  loop_step (asks_waiting of_task) c w = (
    if is_empty c.task_queue.pending then loop_rest of_task else loop_retry of_task reads_retry,
    c,
    w,
  )
  loop_step (loop_retry of_task r) c w =
      let (l, d) = loop_after_retry of_task (schedule_serial_queue_retry r c) in (l, d, w)
  loop_step asks_close c w = (if c.session_close_pending then asks_running else loop_idle, c, w)
  loop_step asks_running c w = (if c.task_queue.in_flight then loop_idle else closes_session, c, w)
  loop_step closes_session c w = (unmarks_close, record c { closes = c.closes + 1 }, w)
  loop_step unmarks_close c w = (loop_idle, record c { session_close_pending = false }, w)
