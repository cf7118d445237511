-- ===== src/Live.antt =====
-- One realtime connection of the server (src/server.cpp): `RealtimeConnectionContext` and what the
-- worker threads do to it. Its queue of tasks is in Serial. The locks guard single counters; the tasks
-- of a connection run one after the other, beside the handlers of messages on the connection's thread. Logging and the clock are left out, and the buffers of
-- decoded audio are values.
pub mod Events
pub mod Handlers
pub mod Commit
pub mod Pipeline
pub mod Dispatch
pub mod Counts
pub mod Kept
pub mod Committed
pub mod Invariant
pub mod Reached
pub mod Rebuilt
pub mod Built
pub mod Tally
mod Runs
use asrcpp_gigam.Base.{ℕ, Bool, Option, List}
use asrcpp_gigam.Base.Int.{ℤ}
use asrcpp_gigam.Base.Bytes.{Bytes}
use asrcpp_gigam.Base.Floats.{Floats}
use asrcpp_gigam.Config.{Config}
use asrcpp_gigam.Json.Library.{JsonLibrary}
use asrcpp_gigam.Audio.{AudioError}
use asrcpp_gigam.Audio.Opus.{OpusLibrary, OpusDecoder}
use asrcpp_gigam.Audio.Resampler.{SrcLibrary, StreamResampler}
use asrcpp_gigam.Session.{SessionError, Engines, Session}
use asrcpp_gigam.Realtime.{RealtimeSession}

-- What a connection uses and the repository does not hold: float arithmetic, the recognizer and the
-- network, the JSON, Opus and resampling libraries; `what` is the text of an exception.
pub record Outside : Type 1 where
  pub floats : Floats
  pub engines : Engines floats
  pub json : JsonLibrary (floats.Float)
  pub opus : OpusLibrary (floats.Float)
  pub src : SrcLibrary (floats.Float)
  pub audio_what : AudioError → Bytes
  pub session_what : SessionError → Bytes
  pub pcm_sample : ℤ → floats.Float

pub data Failure : Type 0 where
  audio_failed : AudioError → Failure
  session_failed : SessionError → Failure

module _ (o : Outside) where
  pub record Context : Type 0 where
    pub runtime_config : Config o.floats
    pub realtime : RealtimeSession o.floats
    pub session : Session o.floats o.engines
    pub resampler : Option (StreamResampler o.src)
    pub opus_decoder : Option (OpusDecoder o.opus)
    pub close_reason : Bytes
    pub last_client_event_type : Bytes
    pub last_error : Bytes
    pub connection_id : ℕ
    pub raw_input_samples : ℕ
    pub input_samples : ℕ
    pub append_events : ℕ
    pub ping_events : ℕ
    pub invalid_events : ℕ
    pub decode_errors : ℕ
    pub committed_events : ℕ
    pub completed_events : ℕ
    pub interim_events : ℕ
    pub speech_started_events : ℕ
    pub speech_stopped_events : ℕ
    pub speech_active : Bool
    pub sent : List Bytes
