-- ===== src/Upload/Handlers.antt =====
-- The handlers of the two routes of src/server.cpp that take uploads.
use asrcpp_gigam.Base.{
  ltb, if◌then◌else◌, length, is_empty, ℕ, max, Bool, ◌||◌, Option, none, some, List, [], ◌∷◌,
}
use asrcpp_gigam.Base.Int.{ℤ}
use asrcpp_gigam.Base.Bytes.{Bytes, codes, bytes_eq, to_lower_ascii}
use asrcpp_gigam.Base.Result.{Result, throw_if, ◌>>=◌, ◌>>◌, ok, err}
use asrcpp_gigam.Json.Library.{JsonLibrary, try_dump}
use asrcpp_gigam.Offline.{trim_ascii, append_text}
use asrcpp_gigam.Audio.Files.{decode_audio_streamed}
use asrcpp_gigam.Realtime.{of_int}
use asrcpp_gigam.Whisper.{WhisperApiValidationError, Doubles, WhisperTranscriptionRequest, Form}
use asrcpp_gigam.Whisper.Parse.{parse_whisper_transcription_request}
use asrcpp_gigam.Whisper.Render.{
  WhisperRenderedResponse, render_whisper_transcription_response, build_whisper_api_error_json,
}
use asrcpp_gigam.Upload.{
  Response, UploadError, UploadFile, Fault, Desk, Reply, json_response, handle_upload,
  finish_upload, audio_fault,
}

unfoldable pub append_transcription_chunk : Bytes → Bytes → Bytes
unfolding append_text trim_ascii
append_transcription_chunk heard chunk_text = append_text heard (trim_ascii chunk_text)

unfoldable pub canonical_whisper_response_language : Bytes → Bytes
unfolding trim_ascii bytes_eq
canonical_whisper_response_language requested_language =
    let normalized = to_lower_ascii (trim_ascii requested_language) in
    if is_empty normalized
      || bytes_eq normalized (codes "ru")
      || bytes_eq normalized (codes "ru-ru")
      || bytes_eq normalized (codes "russian")
    then codes "ru"
    else normalized

-- The part that is named `file`, or else the first one.
unfoldable pub named_file : List UploadFile → Option UploadFile
unfolding bytes_eq
named_file [] = none
named_file (file ∷ files) =
    let later = named_file files in
    if bytes_eq file.item_name (codes "file") then some file else later

abbrev pub picked_file : List UploadFile → Option UploadFile
picked_file [] = none
picked_file (file ∷ files) = elim (named_file (file ∷ files)) [ none ↦ some file | some f ↦ some f ]

abbrev pub upload_error : ℕ → Bytes → Bytes → Bytes → UploadError
upload_error status detail param code = record {
  code_status = status;
  detail = detail;
  api_type = codes "invalid_request_error";
  api_param = param;
  api_code = code;
}

abbrev pub file_error : ℕ → Bytes → Bytes → UploadError
file_error status detail code = upload_error status detail (codes "file") code

-- The size of an upload; `empty` is what an empty one is told.
unfoldable pub check_size : ℕ → Bytes → UploadFile → Result UploadError UploadFile
check_size max_upload_bytes empty file = do
  throw_if (ltb max_upload_bytes (length file.content))
      (file_error 413 (codes "File too large") (codes "file_too_large"))
  throw_if (is_empty file.content) (file_error 400 empty (codes "empty_file"))
  ok file

-- The files of `POST /recognize`, `none` if they cannot be read.
unfoldable pub admit_recognize : ℕ → Option (List UploadFile) → Result UploadError UploadFile
unfolding check_size
admit_recognize max_upload_bytes none =
    err (file_error 400 (codes "No file uploaded") (codes "empty_file"))
admit_recognize max_upload_bytes (some []) =
    err (file_error 400 (codes "No file uploaded") (codes "empty_file"))
admit_recognize max_upload_bytes (some (file ∷ files)) =
    check_size max_upload_bytes (codes "Empty file") file

-- What the work uses and is not modelled: the decoders of the containers, which give the chunks that
-- they have decoded and then the duration or an exception, the pool of recognizers, and the text of
-- an exception of `dump`.
pub record Engine (F : Type 0) : Type 0 where
  pub has_opus : Bool
  pub decode_wav_stream_memory : ℤ → ℕ → Bytes → List (List F) × Result Fault F
  pub decode_opus_file_streamed : ℤ → ℕ → Bytes → List (List F) × Result Fault F
  pub recognize_chunk : List F → ℤ → Result Fault Bytes
  pub dump_what : Bytes

module _ (ds : Doubles) where
  open ds use {floats}

  -- 20 seconds.
  unfoldable pub http_chunk_samples : ℤ → ℕ
  http_chunk_samples sample_rate =
      max 1 (floats.to_nat (floats.mul (floats.lit 20 1) (of_int floats sample_rate)))

  -- The callback of each chunk, and then the end of the decoder.
  unfoldable pub transcribe_chunks :
      (List (floats.Float) → Result Fault Bytes)
      → Result Fault (floats.Float)
      → Bytes
      → List (List (floats.Float))
      → Result Fault (Bytes × floats.Float)
  unfolding append_transcription_chunk
  transcribe_chunks recognize end heard [] = end >>= λ duration. ok (heard, duration)
  transcribe_chunks recognize end heard (chunk ∷ chunks) = recognize chunk >>= λ chunk_text.
      transcribe_chunks recognize end (append_transcription_chunk heard chunk_text) chunks

  unfoldable pub decoded_upload :
      Engine (floats.Float)
      → ℤ
      → Result Bytes (List (List (floats.Float)) × Result Fault (floats.Float))
      → Result Fault (Bytes × floats.Float)
  unfolding transcribe_chunks
  decoded_upload engine sample_rate (err what) = err (audio_fault what)
  decoded_upload engine sample_rate (ok (chunks, end)) =
      transcribe_chunks (λ chunk. engine.recognize_chunk chunk sample_rate) end [] chunks

  unfoldable pub transcribe_upload :
      Engine (floats.Float) → ℤ → UploadFile → Result Fault (Bytes × floats.Float)
  unfolding http_chunk_samples decode_audio_streamed decoded_upload
  transcribe_upload engine sample_rate file =
      let chunk_samples = http_chunk_samples sample_rate in
      decoded_upload engine sample_rate (
        decode_audio_streamed engine.has_opus
          (engine.decode_wav_stream_memory sample_rate chunk_samples)
          (engine.decode_opus_file_streamed sample_rate chunk_samples) file.content file.file_name)

  pub data Work : Type 0 where
    plain_work : UploadFile → Work
    whisper_work : WhisperTranscriptionRequest ds → UploadFile → Work

  abbrev pub plain_job : Result UploadError UploadFile → Result UploadError Work
  plain_job admission = admission >>= λ file. ok (plain_work file)

  unfoldable pub whisper_file : ℕ → Option UploadFile → Result UploadError UploadFile
  unfolding check_size
  whisper_file max_upload_bytes none =
      err (file_error 400 (codes "Missing required field 'file'") (codes "missing_field"))
  whisper_file max_upload_bytes (some file) =
      check_size max_upload_bytes (codes "Empty file uploaded") file

  abbrev pub read_form :
      Result WhisperApiValidationError (WhisperTranscriptionRequest ds)
      → Result UploadError (WhisperTranscriptionRequest ds)
  read_form (ok request) = ok request
  read_form (err e) = err (record {
    code_status = 400;
    detail = e.message;
    api_type = e.type;
    api_param = e.param;
    api_code = e.code;
  })

  -- The form and the files of `POST /v1/audio/transcriptions`.
  unfoldable pub admit_whisper : ℕ → Option (Form × List UploadFile) → Result UploadError Work
  unfolding check_size parse_whisper_transcription_request named_file whisper_file
  admit_whisper max_upload_bytes none =
      err
        (file_error 400 (codes "Expected multipart/form-data request") (codes "invalid_multipart"))
  admit_whisper max_upload_bytes (some (form, files)) =
      read_form (parse_whisper_transcription_request ds form) >>= λ request.
      whisper_file max_upload_bytes (picked_file files) >>= λ file. ok (whisper_work request file)

module _ (ds : Doubles) (js : JsonLibrary (ds.floats.Float)) where
  open ds use {floats}

  unfoldable pub make_error : UploadError → Option Response
  unfolding json_response
  make_error e =
      json_response e.code_status
        (try_dump js (js.object ((codes "detail", js.string e.detail) ∷ [])))

  unfoldable pub make_whisper_error : UploadError → Option Response
  unfolding json_response build_whisper_api_error_json
  make_whisper_error e =
      json_response e.code_status
        (build_whisper_api_error_json ds js e.detail e.api_type e.api_param e.api_code)

  unfoldable pub recognize_response : Bytes × floats.Float → Option Response
  unfolding json_response
  recognize_response (heard, duration) = json_response 200 (
      try_dump js
        (js.object ((codes "text", js.string heard) ∷ (codes "duration", js.number duration) ∷ [])))

  abbrev pub rendered_response : Option WhisperRenderedResponse → Option Response
  rendered_response none = none
  rendered_response (some rendered) =
      some (record { status = 200; body = rendered.body; content_type = rendered.content_type })

  unfoldable pub whisper_response :
      WhisperTranscriptionRequest ds → Bytes × floats.Float → Option Response
  unfolding render_whisper_transcription_response canonical_whisper_response_language
  whisper_response request (heard, duration) = rendered_response (
      render_whisper_transcription_response ds js request (record {
        text = heard;
        duration_sec = duration;
        language = canonical_whisper_response_language request.language;
      }))

  unfoldable pub handle_recognize :
      ℕ → Bool → Option (List UploadFile) → Desk → Desk × Reply (Work ds)
  unfolding handle_upload make_error admit_recognize
  handle_recognize max_upload_bytes accepts files =
      handle_upload make_error accepts (plain_job ds (admit_recognize max_upload_bytes files))

  unfoldable pub handle_whisper :
      ℕ → Bool → Option (Form × List UploadFile) → Desk → Desk × Reply (Work ds)
  unfolding handle_upload make_whisper_error admit_whisper
  handle_whisper max_upload_bytes accepts parts =
      handle_upload make_whisper_error accepts (admit_whisper ds max_upload_bytes parts)

  -- The task on a worker.
  unfoldable pub run_work : Engine (floats.Float) → ℤ → Work ds → Desk → Desk × Reply (Work ds)
  unfolding finish_upload make_error make_whisper_error transcribe_upload recognize_response
      whisper_response
  run_work engine sample_rate (plain_work file) =
      finish_upload make_error engine.dump_what recognize_response
        (transcribe_upload ds engine sample_rate file)
  run_work engine sample_rate (whisper_work request file) =
      finish_upload make_whisper_error engine.dump_what (whisper_response request)
        (transcribe_upload ds engine sample_rate file)
