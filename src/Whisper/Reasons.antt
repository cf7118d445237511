-- ===== src/Whisper/Reasons.antt =====
-- Why a request is refused: what `parse_whisper_transcription_request` (src/whisper_api.cpp) may say
-- of a form, rule by rule.
use asrcpp_gigam.Base.{
  is_empty, ◌≡◌, ◌≢◌, ◌⊎◌, Bool, true, false, not, ◌||◌, Option, none, some, List, ◌∷◌, ◌++◌,
}
use asrcpp_gigam.Base.Bytes.{Bytes, codes, bytes_eq, to_lower_ascii}
use asrcpp_gigam.Offline.{trim_ascii}
use asrcpp_gigam.Whisper.{
  WhisperResponseFormat, WhisperApiValidationError, Doubles, Form, find_field, parse_bool_field,
  parse_response_format, parse_timestamp_granularity, is_supported_whisper_model_alias,
  is_supported_whisper_language_hint, verbose_json, word, segment, json as json_format,
}
use asrcpp_gigam.Whisper.Fields.{parse_multi_value_field}

-- A value of the field `key`, with a token among its values.
pub record Listed (form : Form) (key : Bytes) (P : Bytes → Type 0) : Type 0 where
  pub value : Bytes
  pub token : Bytes
  pub before : List Bytes
  pub after : List Bytes
  pub there : find_field form key ≡ some value
  pub among : parse_multi_value_field value ≡ before ++ (token ∷ after)
  pub holds : P token

abbrev pub IsInclude : Bytes → Type 0
IsInclude key = (key ≡ codes "include[]") ⊎ (key ≡ codes "include")

abbrev pub IsGranularities : Bytes → Type 0
IsGranularities key =
    (key ≡ codes "timestamp_granularities[]") ⊎ (key ≡ codes "timestamp_granularities")

-- The format that a field states, `json` without one.
abbrev pub Stated : Option Bytes → WhisperResponseFormat → Type 0
Stated none format = format ≡ json_format
Stated (some value) format =
    ((is_empty (trim_ascii value) ≡ true) × (format ≡ json_format))
    ⊎ (parse_response_format value ≡ some format)

module _ (ds : Doubles) where
  open ds use {floats, stod, is_finite, equal}

  abbrev pub outside : floats.Float → Bool
  outside t = not (is_finite t) || floats.lt t (floats.lit 0 1) || floats.lt (floats.lit 1 1) t

  -- The field that an error names, its code, and the rule that the form breaks.
  pub data Reason (form : Form) : Bytes → Bytes → Type 0 where
    no_model :
        find_field form (codes "model") ≡ none → Reason form (codes "model") (codes "missing_field")
    blank_model :
        (v : Bytes)
        → find_field form (codes "model") ≡ some v
        → is_empty (trim_ascii v) ≡ true
        → Reason form (codes "model") (codes "missing_field")
    other_model :
        (v : Bytes)
        → find_field form (codes "model") ≡ some v
        → is_empty (trim_ascii v) ≡ false
        → is_supported_whisper_model_alias (trim_ascii v) ≡ false
        → Reason form (codes "model") (codes "unsupported_value")
    other_language :
        (v : Bytes)
        → find_field form (codes "language") ≡ some v
        → is_supported_whisper_language_hint (trim_ascii v) ≡ false
        → Reason form (codes "language") (codes "unsupported_value")
    some_prompt :
        (v : Bytes)
        → find_field form (codes "prompt") ≡ some v
        → is_empty (trim_ascii v) ≡ false
        → Reason form (codes "prompt") (codes "unsupported_value")
    no_format :
        (v : Bytes)
        → find_field form (codes "response_format") ≡ some v
        → parse_response_format v ≡ none
        → Reason form (codes "response_format") (codes "invalid_value")
    no_temperature :
        (v : Bytes)
        → find_field form (codes "temperature") ≡ some v
        → stod (trim_ascii v) ≡ none
        → Reason form (codes "temperature") (codes "invalid_value")
    outside_temperature :
        (v : Bytes) (t : floats.Float)
        → find_field form (codes "temperature") ≡ some v
        → stod (trim_ascii v) ≡ some t
        → outside t ≡ true
        → Reason form (codes "temperature") (codes "invalid_value")
    other_temperature :
        (v : Bytes) (t : floats.Float)
        → find_field form (codes "temperature") ≡ some v
        → stod (trim_ascii v) ≡ some t
        → outside t ≡ false
        → equal t (floats.lit 0 1) ≡ false
        → Reason form (codes "temperature") (codes "unsupported_value")
    no_stream :
        (v : Bytes)
        → find_field form (codes "stream") ≡ some v
        → parse_bool_field v ≡ none
        → Reason form (codes "stream") (codes "invalid_value")
    streaming :
        (v : Bytes)
        → find_field form (codes "stream") ≡ some v
        → parse_bool_field v ≡ some true
        → Reason form (codes "stream") (codes "unsupported_value")
    other_include :
        (key : Bytes)
        → IsInclude key
        → Listed form key (λ t. bytes_eq (to_lower_ascii t) (codes "logprobs") ≡ false)
        → Reason form key (codes "invalid_value")
    no_granularity :
        (key : Bytes)
        → IsGranularities key
        → Listed form key (λ t. parse_timestamp_granularity t ≡ none)
        → Reason form key (codes "invalid_value")
    word_granularity :
        (key : Bytes)
        → IsGranularities key
        → Listed form key (λ t. parse_timestamp_granularity t ≡ some word)
        → Reason form key (codes "unsupported_value")
    not_verbose :
        (key : Bytes) (format : WhisperResponseFormat)
        → IsGranularities key
        → Listed form key (λ t. parse_timestamp_granularity t ≡ some segment)
        → Stated (find_field form (codes "response_format")) format
        → format ≢ verbose_json
        → Reason form (codes "timestamp_granularities[]") (codes "invalid_value")
    logprobs :
        (key : Bytes)
        → IsInclude key
        → Listed form key (λ t. bytes_eq (to_lower_ascii t) (codes "logprobs") ≡ true)
        → Reason form (codes "include[]") (codes "unsupported_value")

  pub record Explained (form : Form) (e : WhisperApiValidationError) : Type 0 where
    pub kind : e.type ≡ codes "invalid_request_error"
    pub reason : Reason form e.param e.code
