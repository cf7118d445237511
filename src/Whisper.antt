-- ===== src/Whisper.antt =====
-- The transcription requests of src/whisper_api.cpp and include/asr/whisper_api.h: the fields of a form
-- and what they are read as. The form is the list of its fields, each key once. `std::stod` and the
-- arithmetic on `double` are parameters.
pub mod Fields
pub mod Parse
pub mod Accepted
pub mod Reasons
pub mod Judged
pub mod Kept
pub mod Tokens
pub mod Times
pub mod Render
mod Runs
use asrcpp_gigam.Base.{
  if◌then◌else◌, is_empty, ℕ, Bool, true, false, ◌||◌, Option, none, some, List, [], ◌∷◌, ◌++◌,
}
use asrcpp_gigam.Base.Bytes.{Bytes, codes, bytes_eq, to_lower_ascii}
use asrcpp_gigam.Base.Floats.{Floats}
use asrcpp_gigam.Offline.{trim_ascii}

pub data WhisperResponseFormat : Type 0 where
  json text srt verbose_json vtt : WhisperResponseFormat

pub data WhisperTimestampGranularity : Type 0 where
  word segment : WhisperTimestampGranularity

pub record WhisperApiValidationError : Type 0 where
  pub message : Bytes
  pub type : Bytes
  pub param : Bytes
  pub code : Bytes

-- Numbers of type `double`; `stod` is `none` where the library throws, `equal` is `==`, and
-- `milliseconds` is `std::llround` of a thousand times a number that is not negative.
pub record Doubles : Type 1 where
  pub floats : Floats
  pub stod : Bytes → Option (floats.Float)
  pub is_finite : floats.Float → Bool
  pub equal : floats.Float → floats.Float → Bool
  pub milliseconds : floats.Float → ℕ

module _ (ds : Doubles) where
  pub record WhisperTranscriptionRequest : Type 0 where
    pub model : Bytes
    pub language : Bytes
    pub prompt : Bytes
    pub response_format : WhisperResponseFormat
    pub timestamp_granularities : List WhisperTimestampGranularity
    pub temperature : Option (ds.floats.Float)
    pub stream : Bool
    pub include_logprobs : Bool

abbrev pub Form : Type 0
Form = List (Bytes × Bytes)

unfoldable pub find_field : Form → Bytes → Option Bytes
find_field [] key = none
find_field ((name, value) ∷ rest) key =
    let later = find_field rest key in if bytes_eq name key then some value else later

abbrev pub same_granularity : WhisperTimestampGranularity → WhisperTimestampGranularity → Bool
same_granularity word word = true
same_granularity segment segment = true
same_granularity _ _ = false

unfoldable pub contains_timestamp_granularity :
    List WhisperTimestampGranularity → WhisperTimestampGranularity → Bool
contains_timestamp_granularity [] needle = false
contains_timestamp_granularity (v ∷ vs) needle =
    same_granularity v needle || contains_timestamp_granularity vs needle

unfoldable pub append_timestamp_granularity_unique :
    List WhisperTimestampGranularity
    → WhisperTimestampGranularity
    → List WhisperTimestampGranularity
unfolding contains_timestamp_granularity
append_timestamp_granularity_unique values value =
    if contains_timestamp_granularity values value then values else values ++ (value ∷ [])

abbrev pub normalized : Bytes → Bytes
normalized raw = to_lower_ascii (trim_ascii raw)

unfoldable pub parse_bool_field : Bytes → Option Bool
unfolding trim_ascii bytes_eq
parse_bool_field raw =
    let value = normalized raw in
    if bytes_eq value (codes "true") || bytes_eq value (codes "1")
    then some true
    else if bytes_eq value (codes "false") || bytes_eq value (codes "0")
    then some false
    else none

unfoldable pub parse_response_format : Bytes → Option WhisperResponseFormat
unfolding trim_ascii bytes_eq
parse_response_format raw =
    let value = normalized raw in
    if bytes_eq value (codes "json")
    then some json
    else if bytes_eq value (codes "text")
    then some text
    else if bytes_eq value (codes "srt")
    then some srt
    else if bytes_eq value (codes "verbose_json")
    then some verbose_json
    else if bytes_eq value (codes "vtt")
    then some vtt
    else none

unfoldable pub parse_timestamp_granularity : Bytes → Option WhisperTimestampGranularity
unfolding trim_ascii bytes_eq
parse_timestamp_granularity raw =
    let value = normalized raw in
    if bytes_eq value (codes "word")
    then some word
    else if bytes_eq value (codes "segment")
    then some segment
    else none

unfoldable pub is_supported_whisper_model_alias : Bytes → Bool
unfolding trim_ascii bytes_eq
is_supported_whisper_model_alias model =
    let value = normalized model in
    bytes_eq value (codes "whisper-1")
    || bytes_eq value (codes "gpt-4o-mini-transcribe")
    || bytes_eq value (codes "whisper-large-v3-turbo")
    || bytes_eq value (codes "default")
    || bytes_eq value (codes "gigaam-v3")

unfoldable pub is_supported_whisper_language_hint : Bytes → Bool
unfolding trim_ascii bytes_eq
is_supported_whisper_language_hint language =
    let value = normalized language in
    is_empty (trim_ascii language)
    || bytes_eq value (codes "ru")
    || bytes_eq value (codes "ru-ru")
    || bytes_eq value (codes "russian")

unfoldable pub make_validation_error : Bytes → Bytes → Bytes → WhisperApiValidationError
make_validation_error message param code = record {
  message = message;
  type = codes "invalid_request_error";
  param = param;
  code = code;
}
