-- ===== src/Whisper/Judged.antt =====
-- What is kept of a request while it is read (src/whisper_api.cpp).
use asrcpp_gigam.Base.{
  if_cases, is_empty, ◌≡◌, refl, ◌⊎◌, Bool, true, false, not, Option, none, some, [], ◌∷◌, arith,
}
use asrcpp_gigam.Base.Bytes.{Bytes, codes, bytes_eq, to_lower_ascii}
use asrcpp_gigam.Base.Result.{Result, throw_if, ◌>>=◌, ◌>>◌, ok, err}
use asrcpp_gigam.Offline.{trim_ascii}
use asrcpp_gigam.Whisper.{
  WhisperResponseFormat, WhisperApiValidationError, Doubles, Form, parse_timestamp_granularity,
  is_supported_whisper_model_alias, is_supported_whisper_language_hint, make_validation_error,
  segment,
}
use asrcpp_gigam.Whisper.Reasons.{IsInclude, IsGranularities, Listed, Reason, Explained}
use asrcpp_gigam.Whisper.Parse.{Request, Checked, if_there, if_filled, read_as}

module _ (ds : Doubles) (form : Form) where
  -- `P` holds of a result, and an error is explained.
  abbrev pub Judged : {A : Type 0} → (A → Type 0) → Result WhisperApiValidationError A → Type 0
  Judged P (ok a) = P a
  Judged P (err e) = Explained ds form e

  pub Judged->>= :
      {A B : Type 0} (P : A → Type 0) (Q : B → Type 0) (r : Result WhisperApiValidationError A)
      (f : A → Result WhisperApiValidationError B)
      → Judged P r
      → ((a : A) → r ≡ ok a → P a → Judged Q (f a))
      → Judged Q (r >>= f)
  Judged->>= P Q (ok a) f j k = k a refl j
  Judged->>= P Q (err e) f j k = j

  pub Judged-throw_if :
      {B : Type 0} (Q : B → Type 0) (test : Bool) (e : WhisperApiValidationError)
      (rest : Result WhisperApiValidationError B)
      → (test ≡ true → Explained ds form e)
      → (test ≡ false → Judged Q rest)
      → Judged Q (throw_if test e >> rest)
  Judged-throw_if Q true e rest x h = x refl
  Judged-throw_if Q false e rest x h = h refl

  pub explain :
      (message : Bytes) {param code : Bytes}
      → Reason ds form param code
      → Explained ds form (make_validation_error message param code)
  unfolding make_validation_error
  explain message r = record { kind = refl; reason = r }

pub not-eq-false : (b : Bool) → not b ≡ false → b ≡ true
not-eq-false b h = ground arith

pub empty_text : (text : Bytes) → not (is_empty text) ≡ false → text ≡ []
empty_text [] h = refl
empty_text (c ∷ cs) h = cc

pub not-eq-true : (b : Bool) → not b ≡ true → b ≡ false
not-eq-true b h = ground arith

module _ (ds : Doubles) where
  open ds use {floats, stod, is_finite, equal}

  abbrev pub Zero : Option (floats.Float) → Type 0
  Zero none = Unit
  Zero (some t) = (is_finite t ≡ true) × (equal t (floats.lit 0 1) ≡ true)

  -- A value of one of the fields of `include`, with `logprobs` among its values; and one of
  -- `timestamp_granularities` with `segment`.
  abbrev pub AsksLogprobs : Form → Type 0
  AsksLogprobs form =
      (key : Bytes) × (IsInclude key
        × Listed form key (λ t. bytes_eq (to_lower_ascii t) (codes "logprobs") ≡ true))

  abbrev pub AsksSegments : Form → Type 0
  AsksSegments form =
      (key : Bytes) × (IsGranularities key
        × Listed form key (λ t. parse_timestamp_granularity t ≡ some segment))

  -- What holds of a request after each field; `Format` is known of its format.
  pub record Sofar (form : Form) (Format : WhisperResponseFormat → Type 0) (req : Request ds)
      : Type 0 where
    pub model : is_supported_whisper_model_alias req.model ≡ true
    pub language : is_supported_whisper_language_hint req.language ≡ true
    pub prompt : req.prompt ≡ []
    pub format : Format req.response_format
    pub temperature : Zero req.temperature
    pub stream : req.stream ≡ false
    pub granularities :
        (req.timestamp_granularities ≡ []) ⊎ (req.timestamp_granularities ≡ segment ∷ [])
    pub asked : (req.timestamp_granularities ≡ []) ⊎ AsksSegments form
    pub logged : (req.include_logprobs ≡ false) ⊎ AsksLogprobs form

  abbrev pub Kept : Form → (WhisperResponseFormat → Type 0) → (Request ds → Checked ds) → Type 0
  Kept form Format step =
      (req : Request ds) → Sofar form Format req → Judged ds form (Sofar form Format) (step req)

  pub if_there-Kept :
      (form : Form) (Format : WhisperResponseFormat → Type 0) (field : Option Bytes)
      (step : Bytes → Request ds → Checked ds)
      → ((value : Bytes) → field ≡ some value → Kept form Format (step value))
      → Kept form Format (if_there ds field step)
  unfolding if_there
  if_there-Kept form Format none step k req v = v
  if_there-Kept form Format (some value) step k req v = k value refl req v

  pub if_filled-Kept :
      (form : Form) (Format : WhisperResponseFormat → Type 0) (field : Option Bytes)
      (step : Bytes → Request ds → Checked ds)
      → ((value : Bytes) → field ≡ some value → Kept form Format (step value))
      → Kept form Format (if_filled ds field step)
  unfolding if_filled
  if_filled-Kept form Format field step k = if_there-Kept form Format field _ λ value e req v.
      if_cases (Judged ds form (Sofar form Format)) (is_empty (trim_ascii value)) (λ _. v)
        λ _. k value e req v

  pub read_as-Judged :
      (form : Form) {A : Type 0} (read : Option A) (e : WhisperApiValidationError)
      → (read ≡ none → Explained ds form e)
      → Judged ds form (λ a. read ≡ some a) (read_as ds read e)
  unfolding read_as
  read_as-Judged form none e x = x refl
  read_as-Judged form (some a) e x = refl
