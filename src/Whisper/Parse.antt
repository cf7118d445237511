-- ===== src/Whisper/Parse.antt =====
-- `parse_whisper_transcription_request` of src/whisper_api.cpp, in the order of its checks; `out` is
-- not null. A result is the request, or the error.
use asrcpp_gigam.Base.{
  if◌then◌else◌, is_empty, Bool, true, false, not, ◌&&◌, ◌||◌, Option, none, some, List, [], ◌∷◌,
  ◌++◌,
}
use asrcpp_gigam.Base.Bytes.{Bytes, codes, bytes_eq, to_lower_ascii}
use asrcpp_gigam.Base.Result.{Result, throw_if, ◌>>=◌, ◌>>◌, ok, err}
use asrcpp_gigam.Offline.{trim_ascii}
use asrcpp_gigam.Whisper.{
  WhisperResponseFormat, WhisperTimestampGranularity, WhisperApiValidationError, Doubles,
  WhisperTranscriptionRequest, Form, find_field, append_timestamp_granularity_unique,
  parse_bool_field, parse_response_format, parse_timestamp_granularity,
  is_supported_whisper_model_alias, is_supported_whisper_language_hint, make_validation_error,
  verbose_json, word, segment, json as json_format,
}
use asrcpp_gigam.Whisper.Fields.{parse_multi_value_field}

module _ (ds : Doubles) where
  open ds use {floats, stod, is_finite, equal}

  abbrev pub Request : Type 0
  Request = WhisperTranscriptionRequest ds

  abbrev pub Checked : Type 0
  Checked = Result WhisperApiValidationError Request

  -- `if (field is there) ...`
  unfoldable pub if_there : Option Bytes → (Bytes → Request → Checked) → Request → Checked
  if_there none step req = ok req
  if_there (some value) step req = step value req

  -- `if (field is there and not blank) ...`
  unfoldable pub if_filled : Option Bytes → (Bytes → Request → Checked) → Request → Checked
  unfolding if_there
  if_filled field step =
      if_there field (λ value req. if is_empty (trim_ascii value) then ok req else step value req)

  -- What a parser of a field reads, or else an error.
  unfoldable pub read_as {ℓ} :
      {A : Type ℓ} → Option A → WhisperApiValidationError → Result WhisperApiValidationError A
  read_as none error = err error
  read_as (some a) error = ok a

  abbrev pub blank_request : Bytes → Request
  blank_request model = record {
    model = model;
    language = [];
    prompt = [];
    response_format = json_format;
    timestamp_granularities = [];
    temperature = none;
    stream = false;
    include_logprobs = false;
  }

  unfoldable pub check_model : Bytes → Checked
  unfolding trim_ascii make_validation_error
  check_model model = do
    throw_if (is_empty (trim_ascii model)) (
        make_validation_error (codes "Missing required field 'model'") (codes "model")
          (codes "missing_field"))
    throw_if (not (is_supported_whisper_model_alias (trim_ascii model))) (
        make_validation_error
          (codes "Unsupported 'model'. Supported aliases: whisper-1, gpt-4o-mini-transcribe, "
            ++ codes "whisper-large-v3-turbo, default, gigaam-v3")
          (codes "model") (codes "unsupported_value"))
    ok (blank_request (trim_ascii model))

  unfoldable pub read_model : Option Bytes → Checked
  unfolding check_model make_validation_error
  read_model none = err (
      make_validation_error (codes "Missing required field 'model'") (codes "model")
        (codes "missing_field"))
  read_model (some model) = check_model model

  unfoldable pub read_language : Bytes → Request → Checked
  unfolding trim_ascii make_validation_error
  read_language language req =
      throw_if (not (is_supported_whisper_language_hint (trim_ascii language))) (
        make_validation_error (codes "Only Russian language hint is supported by this backend")
          (codes "language") (codes "unsupported_value"))
      >> ok (record req { language = trim_ascii language })

  unfoldable pub read_prompt : Bytes → Request → Checked
  unfolding trim_ascii make_validation_error
  read_prompt prompt req =
      throw_if (not (is_empty (trim_ascii prompt))) (
        make_validation_error (codes "'prompt' is not supported by this backend") (codes "prompt")
          (codes "unsupported_value"))
      >> ok (record req { prompt = trim_ascii prompt })

  unfoldable pub read_response_format : Bytes → Request → Checked
  unfolding make_validation_error read_as
  read_response_format response_format req =
      read_as (parse_response_format response_format) (
        make_validation_error
          (codes "Invalid 'response_format'. Supported: json, text, srt, verbose_json, vtt")
          (codes "response_format") (codes "invalid_value"))
      >>= λ parsed. ok (record req { response_format = parsed })

  unfoldable pub check_temperature : Request → floats.Float → Checked
  unfolding make_validation_error
  check_temperature req t = do
    throw_if (not (is_finite t) || floats.lt t (floats.lit 0 1) || floats.lt (floats.lit 1 1) t) (
        make_validation_error (codes "'temperature' must be in range [0, 1]") (codes "temperature")
          (codes "invalid_value"))
    throw_if (not (equal t (floats.lit 0 1))) (
        make_validation_error (codes "Only temperature=0 is supported by this backend")
          (codes "temperature") (codes "unsupported_value"))
    ok (record req { temperature = some t })

  unfoldable pub read_temperature : Bytes → Request → Checked
  unfolding make_validation_error read_as check_temperature
  read_temperature temperature req =
      read_as (stod (trim_ascii temperature)) (
        make_validation_error (codes "Invalid numeric value for 'temperature'")
          (codes "temperature") (codes "invalid_value"))
      >>= check_temperature req

  unfoldable pub read_stream : Bytes → Request → Checked
  unfolding make_validation_error read_as
  read_stream stream_field req =
      read_as (parse_bool_field stream_field) (
        make_validation_error (codes "Invalid boolean value for 'stream'") (codes "stream")
          (codes "invalid_value"))
      >>= λ parsed.
          throw_if parsed (
            make_validation_error (codes "'stream=true' is not supported by this backend")
              (codes "stream") (codes "unsupported_value"))
          >> ok (record req { stream = parsed })

  -- The loop over the values of `include[]` or `include`, whichever `key` is.
  unfoldable pub include_values : Bytes → List Bytes → Request → Checked
  unfolding make_validation_error
  include_values key [] req = ok req
  include_values key (token ∷ tokens) req =
      throw_if (not (bytes_eq (to_lower_ascii token) (codes "logprobs"))) (
        make_validation_error (codes "Unsupported value in '" ++ (key ++ (codes "': " ++ token)))
          key (codes "invalid_value"))
      >> include_values key tokens (record req { include_logprobs = true })

  unfoldable pub read_include : Bytes → Bytes → Request → Checked
  unfolding include_values
  read_include key include = include_values key (parse_multi_value_field include)

  unfoldable pub take_granularity : Bytes → Request → WhisperTimestampGranularity → Checked
  unfolding make_validation_error
  take_granularity key req word = err (
      make_validation_error
        (codes "'"
          ++ (key ++ codes "=word' is not supported by this backend; use 'segment' instead"))
        key (codes "unsupported_value"))
  take_granularity key req segment = ok (record req {
    timestamp_granularities =
        append_timestamp_granularity_unique req.timestamp_granularities segment;
  })

  -- The loop over the values of `timestamp_granularities[]` or `timestamp_granularities`.
  unfoldable pub granularity_values : Bytes → List Bytes → Request → Checked
  unfolding make_validation_error read_as take_granularity
  granularity_values key [] req = ok req
  granularity_values key (token ∷ tokens) req =
      read_as (parse_timestamp_granularity token) (
        make_validation_error (codes "Invalid '" ++ (key ++ codes "'. Supported: word, segment"))
          key (codes "invalid_value"))
      >>= take_granularity key req
      >>= granularity_values key tokens

  unfoldable pub read_granularities : Bytes → Bytes → Request → Checked
  unfolding granularity_values
  read_granularities key granularities =
      granularity_values key (parse_multi_value_field granularities)

  abbrev pub is_verbose : WhisperResponseFormat → Bool
  is_verbose verbose_json = true
  is_verbose _ = false

  unfoldable pub check_request : Request → Checked
  unfolding make_validation_error
  check_request req = do
    throw_if (not (is_empty req.timestamp_granularities) && not (is_verbose req.response_format)) (
        make_validation_error
          (codes "'timestamp_granularities[]' requires response_format='verbose_json'")
          (codes "timestamp_granularities[]") (codes "invalid_value"))
    throw_if req.include_logprobs (
        make_validation_error (codes "'include[]=logprobs' is not supported by this server")
          (codes "include[]") (codes "unsupported_value"))
    ok req

  unfoldable pub parse_whisper_transcription_request : Form → Checked
  unfolding read_model if_there if_filled read_language read_prompt read_response_format
      read_temperature read_stream read_include read_granularities check_request
  parse_whisper_transcription_request form =
      read_model (find_field form (codes "model"))
      >>= if_there (find_field form (codes "language")) read_language
      >>= if_there (find_field form (codes "prompt")) read_prompt
      >>= if_filled (find_field form (codes "response_format")) read_response_format
      >>= if_filled (find_field form (codes "temperature")) read_temperature
      >>= if_filled (find_field form (codes "stream")) read_stream
      >>= if_filled (find_field form (codes "include[]")) (read_include (codes "include[]"))
      >>= if_filled (find_field form (codes "include")) (read_include (codes "include"))
      >>= if_filled (find_field form (codes "timestamp_granularities[]"))
          (read_granularities (codes "timestamp_granularities[]"))
      >>= if_filled (find_field form (codes "timestamp_granularities"))
          (read_granularities (codes "timestamp_granularities"))
      >>= check_request
