-- ===== src/Whisper/Runs.antt =====
-- Requests at concrete inputs, in thousandths.

use asrcpp_gigam.Whisper.Reasons.{Explained}
use asrcpp_gigam.Base.{List, ◌==◌, ◌≡◌, refl, true, false, some, [], ◌∷◌, arith}
use asrcpp_gigam.Base.Bytes.{Bytes, codes, bytes_eq, isspace, tolower}
use asrcpp_gigam.Base.Result.{ok, err}
use asrcpp_gigam.Base.Floats.{milli}
use asrcpp_gigam.Whisper.{
  WhisperApiValidationError, Doubles, Form, find_field, append_timestamp_granularity_unique,
  parse_bool_field, parse_response_format, parse_timestamp_granularity,
  is_supported_whisper_model_alias, make_validation_error, verbose_json, segment,
}
use asrcpp_gigam.Whisper.Fields.{join, parse_multi_value_field-join, parse_multi_value_field}
use asrcpp_gigam.Whisper.Parse.{Request, parse_whisper_transcription_request}
use asrcpp_gigam.Whisper.Accepted.{Accepted, request-Accepted, refusal-Explained}
use asrcpp_gigam.Whisper.Times.{format_ms, read_timestamp, read_timestamp-format_ms}

-- It reads every number as 0.
abbrev doubles : Doubles
doubles = record {
  floats = milli;
  stod = λ s. some 0;
  is_finite = λ x. true;
  equal = λ x y. x == y;
  milliseconds = λ x. x;
}

abbrev good : Form
good =
    (codes "model", codes " Whisper-1 ")
    ∷ (codes "temperature", codes "0")
    ∷ (codes "response_format", codes "Verbose_JSON")
    ∷ (codes "timestamp_granularities[]", codes "segment")
    ∷ []

abbrev bad : Form
bad = (codes "model", codes "default") ∷ (codes "stream", codes "true") ∷ []

read_timestamp-format_ms_example : read_timestamp b',' (format_ms 3723004 b',') ≡ some 3723004
read_timestamp-format_ms_example = read_timestamp-format_ms 3723004 b',' refl (omega arith)

abbrev good_request : Request doubles
good_request = record {
  model = codes "Whisper-1";
  language = [];
  prompt = [];
  response_format = verbose_json;
  timestamp_granularities = segment ∷ [];
  temperature = some 0;
  stream = false;
  include_logprobs = false;
}

good_read : parse_whisper_transcription_request doubles good ≡ ok good_request
unfolding parse_whisper_transcription_request find_field bytes_eq is_supported_whisper_model_alias
    tolower parse_response_format parse_multi_value_field isspace parse_timestamp_granularity
    append_timestamp_granularity_unique parse_bool_field make_validation_error
good_read = refl

request-Accepted_example : Accepted doubles good good_request
request-Accepted_example = request-Accepted doubles good good_request good_read

abbrev streamed : WhisperApiValidationError
streamed = record {
  message = codes "'stream=true' is not supported by this backend";
  type = codes "invalid_request_error";
  param = codes "stream";
  code = codes "unsupported_value";
}

bad_read : parse_whisper_transcription_request doubles bad ≡ err streamed
unfolding parse_whisper_transcription_request find_field bytes_eq is_supported_whisper_model_alias
    tolower parse_response_format parse_multi_value_field isspace parse_timestamp_granularity
    append_timestamp_granularity_unique parse_bool_field make_validation_error
bad_read = refl

refusal-Explained_example : Explained doubles bad streamed
refusal-Explained_example = refusal-Explained doubles bad streamed bad_read

abbrev two_values : List Bytes
two_values = codes "word" ∷ codes "segment" ∷ []

parse_multi_value_field-join_example : parse_multi_value_field (join two_values) ≡ two_values
unfolding isspace
parse_multi_value_field-join_example =
    parse_multi_value_field-join (codes "word") (codes "segment" ∷ []) (
      record { some_byte = refl; plain = (refl, (refl, (refl, (refl, tt)))) },
      (
        record {
          some_byte = refl;
          plain = (refl, (refl, (refl, (refl, (refl, (refl, (refl, tt)))))));
        },
        tt,
      ),
    )
