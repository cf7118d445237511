-- ===== src/Lib.antt =====
-- The core of the speech recognition server: what is modelled of it, and what is proved.
--
-- The server takes audio from HTTP uploads and WebSocket connections and answers with text. A
-- connection decodes what it receives (Audio), hands the samples to its session (Session), which
-- feeds them to the voice activity detector (Vad) window by window and passes each finished
-- segment to the recognizer. The work of all connections runs on one bounded executor (Executor);
-- the tasks of one connection are kept in order by a serialized queue in front of it (TaskQueue,
-- Serial). A realtime connection (Live) reads the messages of its client, keeps a conversation
-- (Realtime) whose settings the client may change, decodes and resamples what it appends and
-- answers with events. An upload comes with a form (Whisper), holds a permit and is recognized
-- chunk by chunk (Upload, Offline). All of them share a pool of recognizers (Recognizer). The
-- limits and durations come from the configuration (Config).
--
-- - TaskQueue: SerializedTaskQueue of src/executor.cpp and include/asr/executor.h. Each method
--   holds its mutex from the first line to the last, so it is one function on the record
--   TaskQueue. A start function is a value that `call` runs in a world it may change.
--   TaskQueue/Order follows the tasks through any sequence of calls, TaskQueue/Service says when
--   they are handed on.
-- - Executor: BoundedExecutor of the same files. Its critical sections are functions;
--   Executor/System puts workers and callers around them as a step relation, one step for each
--   critical section, and Executor/Invariant proves what holds in every interleaving. Condition
--   variables only delay a step; what is proved does not depend on who is woken.
-- - Vad: VoiceActivityDetector of src/vad.cpp and include/asr/vad.h. Vad/Detector has the state
--   and the methods; Segments, PreRoll and Stream relate what it cuts to the stream that it heard,
--   Context the input of the network, Events the transitions, Bounds and Capacity the sizes. The
--   network (ONNX Runtime) is a parameter that maps an input and a state to a probability and a
--   state; that its call throws is left out.
-- - Audio: src/audio/base64.cpp (Audio/Base64), src/audio/pcm.cpp (Audio/Pcm) and
--   src/audio/realtime_opus.cpp (Audio/Rtp for try_parse_rtp_packet, Audio/Opus for
--   RealtimeOpusDecoder), of src/audio/decode.cpp ChunkEmitter (Audio/Emitter),
--   downmix_interleaved_to_mono (Audio/Downmix) and the choice of the decoder (Audio/Files), and
--   StreamResampler of src/audio/resampler.cpp (Audio/Resampler). Bytes are natural numbers below
--   256, shifts and masks are written as products, quotients and remainders. The Opus library and
--   the resampling library are records of operations.
-- - Session: ASRSession of src/handler.cpp and include/asr/handler.h. Session and Session/Handlers
--   have the state and the methods; a method returns the state and whether it threw, since C++
--   keeps what was changed before a throw. Session/Steps and Session/Balance prove what the
--   methods keep, Session/Windows the windowing, Session/Commands runs of any methods,
--   Session/Turns the end of a turn. The recognizer and compute_rms are parameters.
-- - Config: Config and Config::validate of include/asr/config.h and src/config.cpp.
-- - Serial: how src/server.cpp hands the tasks of a realtime connection to its queue, retries them
--   and closes the session (schedule_serial_queue_retry, on_serial_task_finished,
--   enqueue_serial_task, handleConnectionClosed). The thread of the connection runs the handlers of
--   messages and of the close, the main loop the ends of tasks and the timers. Serial has the
--   handlers as positions between accesses to what the threads share, one step for each access;
--   Serial/Threads interleaves the two threads, Serial/Wakeups proves what holds in every
--   interleaving. The plain flags are taken as if they were atomic.
-- - Slots: the limits of src/server.cpp: the slots of the WebSocket connections, taken by a loop
--   over a compare-and-swap, the semaphore of the HTTP requests, and the sizes of the executor.
-- - Realtime: RealtimeSession of src/realtime_session.cpp and include/asr/realtime_session.h.
--   Realtime has the state, the item ids and the configurations, Realtime/Update
--   apply_session_update check by check, Realtime/Events the texts of the events;
--   Realtime/Settings and Realtime/Served are about the settings, Realtime/Items about the items.
-- - Live: RealtimeConnectionContext and RealtimeWsController of src/server.cpp. Live/Events has
--   the functions that send events, Live/Handlers those of the audio (handle_audio_append and what
--   it calls), Live/Commit handle_audio_commit and handle_audio_clear, Live/Pipeline
--   handleNewConnection, rebuild_pipeline and handle_session_update, Live/Dispatch
--   handleNewMessage: what is done at once, and the task that a worker runs, with its handlers of
--   exceptions. Every handler that can throw returns the connection beside a result. Live/Counts,
--   Kept, Committed, Invariant and Reached prove the invariant of a connection, Live/Rebuilt and
--   Built the answer to a session.update and the accepted connection, Live/Tally the counting of
--   the items. The tasks of one connection run one after the other, by the theorems on TaskQueue.
--   The handler of messages runs beside them on another thread; what both change is arbitrary
--   between two tasks in Live/Reached.
-- - Whisper: src/whisper_api.cpp and include/asr/whisper_api.h. Whisper has the fields' own
--   parsers, Whisper/Fields parse_multi_value_field, Whisper/Parse
--   parse_whisper_transcription_request, Whisper/Times format_timestamp, Whisper/Render the
--   responses; Reasons has the rules that a form may break, Judged, Kept, Tokens and Accepted prove
--   what a request has passed and why one is refused.
-- - Recognizer: the pool of src/recognizer.cpp and include/asr/recognizer.h. Waiting for a slot is
--   a sequence of attempts, each under the mutex. Recognizer/Leases follows any sequence of
--   attempts and ends, Recognizer/Returned one call of recognize.
-- - Json: append_json_escaped of include/asr/json_utils.h, with a reader of JSON strings
--   (Json/Reader); the JSON library as an interface (Json/Library), with a small instance for runs
--   (Json/Sample).
-- - Upload: the routes POST /recognize and POST /v1/audio/transcriptions of src/server.cpp
--   (setup_http_handlers). Upload has how a request ends and what it does to the semaphore and the
--   count of sessions, Upload/Handlers the checks, the work and the responses of each route,
--   Upload/Ends and Upload/Permits any sequence of requests and ends of work.
-- - Offline: recognize_audio_chunked of src/offline_transcription.cpp, which cuts an upload into
--   chunks, and trim_ascii of include/asr/string_utils.h (to_lower_ascii is in Base/Bytes).
-- - Base: shared tests, lists, integers, bytes, slices, results and the interface of the floats.
--
-- Numbers: float and double are an interface (Base/Floats) with no law, so the theorems hold for
-- any arithmetic, and what a theorem needs of it is among its hypotheses; the instance in
-- thousandths serves to run the model. int is the signed integer of Base/Int. Sizes and sample
-- counts are natural numbers; where the code wraps (the uint32_t of the base64 decoder, the
-- uint16_t of the RTP numbers, the size_t of in_flight_) the wrap is written out. An int64_t count
-- of samples would wrap after 2 ^ 63 of them, which is left out.
--
-- Loops are structural recursion, but for the loop of on_audio over a chunk and the loop of
-- recognize_audio_chunked over an upload: they take fuel, as much as there are samples, and each
-- round takes one at least. The loop of ChunkEmitter::push takes at most one round for each
-- buffered sample. The loops of the resampler run until its library stops giving samples; their
-- fuel is a parameter of the handlers, the theorems hold for any, and without fuel the loop is an
-- error (stalled). That the library does not give samples forever is not proved.
--
-- Not modelled: the readiness route and the start-up (src/server.cpp, src/main.cpp), which call a
-- third-party framework; the containers of uploads (src/audio/decode.cpp), which third-party
-- libraries read; the environment (Config::from_env); the clock, the metrics and the logging,
-- whose values decide nothing in these parts. The JSON, Opus, resampling and recognition libraries
-- are parameters; that the JSON library throws on text that is not UTF-8 is modelled where such
-- text can come (Whisper, Upload).
pub mod Base
pub mod Audio
pub mod Config
pub mod Executor
pub mod Json
pub mod Live
pub mod Offline
pub mod Realtime
pub mod Recognizer
pub mod Serial
pub mod Session
pub mod Slots
pub mod TaskQueue
pub mod Upload
pub mod Vad
pub mod Whisper
