-- ===== src/Upload.antt =====
-- The HTTP requests of src/server.cpp that upload a file, `POST /recognize` and
-- `POST /v1/audio/transcriptions`: what is checked before the work is submitted, the work, and the
-- permit of the request semaphore that they hold. The clock and the other metrics are left out.
pub mod Handlers
pub mod Ends
pub mod Permits
mod Runs
use asrcpp_gigam.Base.{ℕ, ◌+◌, Bool, true, false, Option, none, some, []}
use asrcpp_gigam.Base.Bytes.{Bytes, codes}
use asrcpp_gigam.Base.Result.{Result, ok, err}
use asrcpp_gigam.Slots.{RequestSemaphore, try_acquire, release}

pub record Response : Type 0 where
  pub status : ℕ
  pub body : Bytes
  pub content_type : Bytes

-- An error of a request; `POST /recognize` uses the first two fields.
pub record UploadError : Type 0 where
  pub code_status : ℕ
  pub detail : Bytes
  pub api_type : Bytes
  pub api_param : Bytes
  pub api_code : Bytes

pub record UploadFile : Type 0 where
  pub item_name : Bytes
  pub file_name : Bytes
  pub content : Bytes

-- An exception of the work: RecognizerBusyError, AudioError, another std::exception with its text, or
-- one without.
pub data Fault : Type 0 where
  busy_fault audio_fault failed_fault : Bytes → Fault
  unknown_fault : Fault

-- The semaphore, and how often `session_started` and `session_ended` were called.
pub record Desk : Type 0 where
  pub sem : RequestSemaphore
  pub started_sessions : ℕ
  pub ended_sessions : ℕ

-- How a handler ends: a request that gets no permit, an exception that leaves the handler, an answer,
-- or work of type `J` that the executor has taken.
pub data Reply (J : Type 0) : Type 0 where
  turned_away : Option Response → Reply J
  thrown : Reply J
  replied : Response → Reply J
  taken : J → Reply J

unfoldable pub json_response : ℕ → Option Bytes → Option Response
json_response status none = none
json_response status (some body) =
    some (record { status = status; body = body; content_type = codes "application/json" })

abbrev pub capacity_error : UploadError
capacity_error = record {
  code_status = 503;
  detail = codes "Server at capacity, try again later";
  api_type = codes "server_error";
  api_param = [];
  api_code = codes "capacity_exceeded";
}

abbrev pub queue_full_error : UploadError
queue_full_error = record {
  code_status = 503;
  detail = codes "ASR executor queue is full";
  api_type = codes "server_error";
  api_param = [];
  api_code = codes "capacity_exceeded";
}

abbrev pub fault_error : Fault → UploadError
fault_error (busy_fault what) = record {
  code_status = 503;
  detail = what;
  api_type = codes "server_error";
  api_param = [];
  api_code = codes "capacity_exceeded";
}
fault_error (audio_fault what) = record {
  code_status = 400;
  detail = what;
  api_type = codes "invalid_request_error";
  api_param = codes "file";
  api_code = codes "invalid_audio";
}
fault_error (failed_fault what) = record {
  code_status = 500;
  detail = what;
  api_type = codes "server_error";
  api_param = [];
  api_code = codes "internal_error";
}
fault_error unknown_fault = record {
  code_status = 500;
  detail = codes "Unknown internal error";
  api_type = codes "server_error";
  api_param = [];
  api_code = codes "internal_error";
}

unfoldable pub released : Desk → Desk
unfolding release
released d = record d { sem = release d.sem; ended_sessions = d.ended_sessions + 1 }

module _ {J : Type 0} where
  -- The response of `make_error_and_release`: nothing is released where making it throws.
  unfoldable pub settle : Desk → Option Response → Desk × Reply J
  unfolding release released
  settle d none = (d, thrown)
  settle d (some response) = (released d, replied response)

  -- With the permit; `accepts` is the answer of the executor.
  unfoldable pub admitted :
      (UploadError → Option Response) → Bool → Result UploadError J → Desk → Desk × Reply J
  unfolding settle
  admitted make_error accepts (err e) d = settle d (make_error e)
  admitted make_error true (ok job) d = (d, taken job)
  admitted make_error false (ok job) d = settle d (make_error queue_full_error)

  unfoldable pub with_permit :
      (UploadError → Option Response)
      → Bool
      → Result UploadError J
      → Desk
      → RequestSemaphore × Bool
      → Desk × Reply J
  unfolding admitted
  with_permit make_error accepts job d (sem, false) =
      (record d { sem = sem }, turned_away (make_error capacity_error))
  with_permit make_error accepts job d (sem, true) =
      admitted make_error accepts job
        (record d { sem = sem; started_sessions = d.started_sessions + 1 })

  unfoldable pub handle_upload :
      (UploadError → Option Response) → Bool → Result UploadError J → Desk → Desk × Reply J
  unfolding try_acquire with_permit
  handle_upload make_error accepts job d = with_permit make_error accepts job d (try_acquire d.sem)

  -- The end of the work without an exception. `dump_what` is the text of the exception of `dump`; the
  -- session has been ended before.
  unfoldable pub answered :
      (UploadError → Option Response) → Bytes → Desk → Option Response → Desk × Reply J
  unfolding settle release
  answered make_error dump_what d none =
      settle d (make_error (fault_error (failed_fault dump_what)))
  answered make_error dump_what d (some response) =
      (record d { sem = release d.sem }, replied response)

  -- What the work gives, and `render`, the response to it.
  unfoldable pub finish_upload {ℓ} :
      {A : Type ℓ}
      → (UploadError → Option Response)
      → Bytes
      → (A → Option Response)
      → Result Fault A
      → Desk
      → Desk × Reply J
  unfolding settle answered
  finish_upload make_error dump_what render (err fault) d =
      settle d (make_error (fault_error fault))
  finish_upload make_error dump_what render (ok a) d =
      answered make_error dump_what (record d { ended_sessions = d.ended_sessions + 1 }) (render a)
