-- ===== src/Live/Dispatch.antt =====
-- `handleNewMessage` of src/server.cpp: what becomes of a message, on the thread of the connection and
-- then, as a task of its queue, on a worker thread.
use asrcpp_gigam.Base.{ltb, if◌then◌else◌, length, ℕ, ◌+◌, not, ◌||◌, Option, none, some, []}
use asrcpp_gigam.Base.Bytes.{Bytes, codes, bytes_eq}
use asrcpp_gigam.Base.Result.{ok, err}
use asrcpp_gigam.Config.{Config}
use asrcpp_gigam.Session.{recognizer_failed}
use asrcpp_gigam.Live.{Outside, Failure, audio_failed, session_failed}
use asrcpp_gigam.Live.Events.{C, send_error}
use asrcpp_gigam.Live.Handlers.{Handled, handle_audio_append_binary, string_at, handle_audio_append}
use asrcpp_gigam.Live.Commit.{handle_audio_commit, handle_audio_clear}
use asrcpp_gigam.Live.Pipeline.{handle_session_update}

-- A message of the client; frames of other kinds are ignored.
pub data Message : Type 0 where
  text_frame binary_frame : Bytes → Message
  other_frame : Message

-- A task of the queue.
pub data Task (V : Type 0) : Type 0 where
  binary_task : Bytes → Task V
  event_task : V → Bytes → Bytes → Task V

-- What is left to do of a message.
pub data Verdict (V : Type 0) : Type 0 where
  settled shut_down : Verdict V
  queued : Task V → Verdict V

module _ (o : Outside) where
  open o use {json}

  abbrev pub V : Type 0
  V = o.json.Value

  abbrev pub text_or_empty : Option Bytes → Bytes
  text_or_empty none = []
  text_or_empty (some text) = text

  unfoldable pub read_client_event_id : V → Bytes
  unfolding string_at
  read_client_event_id event = text_or_empty (string_at o event (codes "event_id"))

  -- `++ctx->invalid_events; send_error(...)`
  unfoldable pub invalid : Bytes → Bytes → Bytes → Bytes → C o → C o
  unfolding send_error
  invalid code message param client_event_id c =
      send_error o code message param client_event_id
        (record c { invalid_events = c.invalid_events + 1 })

  unfoldable pub typed_event : V → Bytes → Option Bytes → C o → C o × Verdict V
  unfolding invalid
  typed_event event client_event_id none c = (
    invalid (codes "invalid_event_type") (codes "Event 'type' must be a string") (codes "type")
        client_event_id c,
    settled,
  )
  typed_event event client_event_id (some event_type) c =
      let d = record c { last_client_event_type = event_type } in
      if bytes_eq event_type (codes "ping") || bytes_eq event_type (codes "noop")
      then (record d { ping_events = d.ping_events + 1 }, settled)
      else (d, queued (event_task event event_type client_event_id))

  unfoldable pub parsed_event : Option V → C o → C o × Verdict V
  unfolding invalid typed_event read_client_event_id string_at
  parsed_event none c =
      (invalid (codes "invalid_json") (codes "Invalid JSON payload") [] [] c, settled)
  parsed_event (some event) c =
      if not (json.is_object event)
      then (invalid (codes "invalid_event") (codes "JSON event must be an object") [] [] c, settled)
      else typed_event event (read_client_event_id event) (string_at o event (codes "type")) c

  abbrev pub message_size : Message → ℕ
  message_size (text_frame bytes) = length bytes
  message_size (binary_frame bytes) = length bytes
  message_size other_frame = 0

  unfoldable pub accept_frame : Message → C o → C o × Verdict V
  unfolding parsed_event
  accept_frame (text_frame bytes) c = parsed_event (json.parse bytes) c
  accept_frame (binary_frame bytes) c = (c, queued (binary_task bytes))
  accept_frame other_frame c = (c, settled)

  -- This runs on the thread of the connection, and `run_task` on a worker's. Both may send an event, and
  -- no lock orders the changes of `event_seq_` and of `invalid_events` that come with it: Reached lets
  -- these fields, the events and the last error change in any way between two tasks. The other fields
  -- that are written here (`close_reason`, the count of pings) are changed by no task.
  unfoldable pub handle_new_message : Message → C o → C o × Verdict V
  unfolding accept_frame
  handle_new_message message c =
      if ltb c.runtime_config.max_ws_message_bytes (message_size message)
      then (record c { close_reason = codes "message_too_large" }, shut_down)
      else accept_frame message c

  unfoldable pub unknown_event : Bytes → C o → Handled o
  unfolding invalid
  unknown_event client_event_id c = (
    invalid (codes "unknown_event_type") (codes "Unsupported event type") (codes "type")
        client_event_id c,
    ok tt,
  )

  unfoldable pub handle_event : ℕ → Config o.floats → V → Bytes → Bytes → C o → Handled o
  unfolding handle_session_update handle_audio_append handle_audio_commit handle_audio_clear
      unknown_event
  handle_event fuel server event event_type client_event_id c =
      if bytes_eq event_type (codes "transcription_session.update")
        || bytes_eq event_type (codes "session.update")
      then handle_session_update o server event client_event_id c
      else if bytes_eq event_type (codes "input_audio_buffer.append")
      then handle_audio_append o fuel event client_event_id c
      else if bytes_eq event_type (codes "input_audio_buffer.commit")
      then handle_audio_commit o fuel c
      else if bytes_eq event_type (codes "input_audio_buffer.clear")
      then handle_audio_clear o c
      else unknown_event client_event_id c

  -- The handlers of exceptions; only the recognizer's pool throws a `RecognizerBusyError`.
  unfoldable pub report : Failure → Bytes → C o → C o
  unfolding send_error
  report (audio_failed e) client_event_id c =
      send_error o (codes "audio_decode_error") (o.audio_what e) (codes "audio") client_event_id
        (record c { decode_errors = c.decode_errors + 1 })
  report (session_failed recognizer_failed) client_event_id c =
      send_error o (codes "server_busy") (o.session_what recognizer_failed) [] [] c
  report (session_failed e) client_event_id c =
      send_error o (codes "internal_error") (o.session_what e) [] client_event_id c

  unfoldable pub caught : Bytes → Handled o → C o
  unfolding report
  caught client_event_id (c, ok u) = c
  caught client_event_id (c, err e) = report e client_event_id c

  unfoldable pub run_task : ℕ → Config o.floats → Task V → C o → C o
  unfolding caught handle_event handle_audio_append_binary
  run_task fuel server (binary_task payload) c =
      caught [] (handle_audio_append_binary o fuel payload c)
  run_task fuel server (event_task event event_type client_event_id) c =
      caught client_event_id (handle_event fuel server event event_type client_event_id c)

  -- The client of a task that the queue refuses is told so, and the connection is shut down.
  unfoldable pub refuse_task : Bytes → C o → C o
  unfolding send_error
  refuse_task client_event_id c =
      record (send_error o (codes "server_busy") (codes "Connection queue is full") []
        client_event_id c) { close_reason = codes "capacity_exceeded" }
