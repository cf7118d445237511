-- ===== src/Live/Reached.antt =====
-- Connections of a validated server (src/server.cpp), after any messages and tasks in any order.

use asrcpp_gigam.Realtime.Settings.{Served, default-Served}
use asrcpp_gigam.Config.Ranges.{validate-Ranges}
use asrcpp_gigam.Base.Int.{◌≤ℤ◌, pos}
use asrcpp_gigam.Base.{
  ltb, if_cases, ℕ, ◌+◌, ◌≡◌, refl, not, ◌||◌, Option, none, some, List, [], ◌∷◌, arith,
}
use asrcpp_gigam.Base.Bytes.{Bytes, codes, bytes_eq}
use asrcpp_gigam.Base.Result.{Result, Ensures, Ensures-ok, ok, err}
use asrcpp_gigam.Config.{Config, validate}
use asrcpp_gigam.Vad.{VadError}
use asrcpp_gigam.Vad.Detector.{Detector}
use asrcpp_gigam.Realtime.{make_default_realtime_session_config, new_session, S, next_event_id}
use asrcpp_gigam.Realtime.Events.{event_session_created}
use asrcpp_gigam.Live.{Outside}
use asrcpp_gigam.Live.Events.{C, send}
use asrcpp_gigam.Live.Handlers.{string_at}
use asrcpp_gigam.Live.Pipeline.{live_config, context_of, greet, new_connection}
use asrcpp_gigam.Live.Dispatch.{
  Message, Task, Verdict, read_client_event_id, invalid, typed_event, parsed_event, message_size,
  accept_frame, handle_new_message, run_task, refuse_task, text_frame, binary_frame, other_frame,
}
use asrcpp_gigam.Live.Counts.{Inv, send_error-Inv}
use asrcpp_gigam.Live.Invariant.{run_task-Inv}

-- What happens to a connection: a message arrives, a task of its queue runs, the queue refuses one; or
-- the handlers of the connection's own thread leave any next number of an event, any count of invalid
-- events, any sent events and any last error between two tasks, since their error events are not
-- ordered with the tasks' events. No task tests one of these, and the invariant reads none.
pub data Step (V : Type 0) : Type 0 where
  arrives : Message → Step V
  runs : Task V → Step V
  refuses : Bytes → Step V
  meanwhile : ℕ → ℕ → List Bytes → Bytes → Step V

module _ (o : Outside) where
  open o use {floats, json}

  abbrev pub step : ℕ → Config floats → Step o.json.Value → C o → C o
  step fuel server (arrives message) c = (handle_new_message o message c).0
  step fuel server (runs task) c = run_task o fuel server task c
  step fuel server (refuses id) c = refuse_task o id c
  step fuel server (meanwhile n invalid_events events message) c = record c {
    realtime = record (c.realtime) { event_seq = n };
    invalid_events = invalid_events;
    sent = events;
    last_error = message;
  }

  abbrev pub steps : ℕ → Config floats → List (Step o.json.Value) → C o → C o
  steps fuel server [] c = c
  steps fuel server (x ∷ xs) c = steps fuel server xs (step fuel server x c)

  invalid-Inv :
      (code message param id : Bytes) (c : C o)
      → Inv o c
      → Inv o (invalid o code message param id c)
  unfolding invalid
  invalid-Inv code message param id c v =
      send_error-Inv o code message param id (record c { invalid_events = c.invalid_events + 1 }) v

  typed_event-Inv :
      (event : o.json.Value) (id : Bytes) (type : Option Bytes) (c : C o)
      → Inv o c
      → Inv o (typed_event o event id type c).0
  unfolding typed_event
  typed_event-Inv event id none c v =
      invalid-Inv [] (codes "Event 'type' must be a string") (codes "type") id c v
  typed_event-Inv event id (some type) c v =
      if_cases (λ (r : C o × Verdict o.json.Value). Inv o r.0)
        (bytes_eq type (codes "ping") || bytes_eq type (codes "noop")) (λ _. v) λ _. v

  parsed_event-Inv :
      (event : Option o.json.Value) (c : C o) → Inv o c → Inv o (parsed_event o event c).0
  unfolding parsed_event
  parsed_event-Inv none c v = invalid-Inv [] (codes "Invalid JSON payload") [] [] c v
  parsed_event-Inv (some event) c v =
      if_cases (λ (r : C o × Verdict o.json.Value). Inv o r.0) (not (json.is_object event))
        (λ _. invalid-Inv [] (codes "JSON event must be an object") [] [] c v)
        λ _.
          typed_event-Inv event (read_client_event_id o event) (string_at o event (codes "type")) c
            v

  accept_frame-Inv : (m : Message) (c : C o) → Inv o c → Inv o (accept_frame o m c).0
  unfolding accept_frame
  accept_frame-Inv (text_frame bytes) c v = parsed_event-Inv (json.parse bytes) c v
  accept_frame-Inv (binary_frame bytes) c v = v
  accept_frame-Inv other_frame c v = v

  step-Inv :
      (fuel : ℕ) (server : Config floats) (x : Step o.json.Value) (c : C o)
      → Inv o c
      → Inv o (step fuel server x c)
  unfolding handle_new_message refuse_task
  step-Inv fuel server (arrives m) c v =
      if_cases (λ (r : C o × Verdict o.json.Value). Inv o r.0)
        (ltb c.runtime_config.max_ws_message_bytes (message_size o m)) (λ _. v)
        λ _. accept_frame-Inv m c v
  step-Inv fuel server (runs task) c v = run_task-Inv o fuel server task c v
  step-Inv fuel server (refuses id) c v =
      send_error-Inv o [] (codes "Connection queue is full") [] id c v
  step-Inv fuel server (meanwhile n invalid_events events message) c v = record {
    finished = v.finished;
    named = v.named;
    served = v.served;
  }

  steps-Inv :
      (fuel : ℕ) (server : Config floats) (xs : List (Step o.json.Value)) (c : C o)
      → Inv o c
      → Inv o (steps fuel server xs c)
  steps-Inv fuel server [] c v = v
  steps-Inv fuel server (x ∷ xs) c v =
      steps-Inv fuel server xs (step fuel server x c) (step-Inv fuel server x c v)

  greeted :
      (config : Config floats) (id : ℕ) (s : S floats) (w : o.engines.W)
      (r : Result VadError (Detector floats o.engines.M))
      → s.item_seq ≡ 0
      → s.current_item_id ≡ []
      → Served floats s.config
      → Ensures (Inv o) (greet o (context_of o config id s w r))
  unfolding greet context_of event_session_created next_event_id send
  greeted config id s w (err e) i k v = tt
  greeted config id s w (ok vad) i k v = record {
    finished = omega arith;
    named = rw (k, i) (omega arith);
    served = v;
  }

  new_connection-Inv :
      (server : Config floats) (id : ℕ) (w : o.engines.W) (c : C o)
      → pos 8000 ≤ℤ server.sample_rate
      → server.sample_rate ≤ℤ pos 48000
      → new_connection o server id w ≡ ok c
      → Inv o c
  unfolding new_connection new_session
  new_connection-Inv server id w c low high e =
      Ensures-ok (Inv o) (new_connection o server id w) e (
        greeted (live_config o server) id
          (new_session floats id
            (make_default_realtime_session_config floats (live_config o server)))
          w _ refl refl (default-Served floats (live_config o server) low high))

  -- On a connection of a validated server, after any messages, tasks and refusals in any order, with
  -- any changes of the number of the next event, of the count of invalid events, of the events sent
  -- and of the last error between them: no more items are completed than are committed, at least as
  -- many numbers of items are given out as items are committed, with one more if there is a current
  -- item, and the session's configuration is one that the server can serve.
  pub reached-Inv :
      (fuel id : ℕ) (raw server : Config floats) (w : o.engines.W) (c : C o)
      (xs : List (Step o.json.Value))
      → validate floats raw ≡ ok server
      → new_connection o server id w ≡ ok c
      → Inv o (steps fuel server xs c)
  reached-Inv fuel id raw server w c xs v e =
      let r = validate-Ranges floats raw server v in
      steps-Inv fuel server xs c (new_connection-Inv server id w c r.rate_low r.rate_high e)
