-- ===== src/Whisper/Tokens.antt =====
-- That the values of the fields `include` and `timestamp_granularities` (src/whisper_api.cpp) keep what is
-- known of a request, or give an error.
use asrcpp_gigam.Whisper.Fields.{parse_multi_value_field}
use asrcpp_gigam.Base.{
  ◌++◌, append_assoc, sym, ◌∙◌, ◌≡◌, refl, ◌⊎◌, inl, inr, true, false, not, none, some, List, [],
  ◌∷◌,
}
use asrcpp_gigam.Base.Bytes.{Bytes, codes, bytes_eq, to_lower_ascii}
use asrcpp_gigam.Whisper.{
  WhisperTimestampGranularity, Doubles, Form, WhisperResponseFormat, find_field,
  contains_timestamp_granularity, append_timestamp_granularity_unique, parse_timestamp_granularity,
  word, segment,
}
use asrcpp_gigam.Whisper.Parse.{
  Request, include_values, read_include, take_granularity, granularity_values, read_granularities,
}
use asrcpp_gigam.Whisper.Reasons.{
  Listed, IsInclude, IsGranularities, other_include, no_granularity, word_granularity,
}
use asrcpp_gigam.Whisper.Judged.{
  not-eq-true, Judged, Judged->>=, Judged-throw_if, explain, not-eq-false, Sofar, Kept,
  read_as-Judged,
}

-- A token among the values of a field.
listed :
    {form : Form} {key value token : Bytes} (before after : List Bytes)
    → find_field form key ≡ some value
    → parse_multi_value_field value ≡ before ++ (token ∷ after)
    → (P : Bytes → Type 0) → P token
    → Listed form key P
listed {value = value} {token = token} before after there among P p = record {
  value = value;
  token = token;
  before = before;
  after = after;
  there = there;
  among = among;
  holds = p;
}

module _ (ds : Doubles) (form : Form) (Format : WhisperResponseFormat → Type 0) where
  include_values-Kept :
      (key value : Bytes) (before tokens : List Bytes)
      → IsInclude key
      → find_field form key ≡ some value
      → parse_multi_value_field value ≡ before ++ tokens
      → Kept ds form Format (include_values ds key tokens)
  unfolding include_values
  include_values-Kept key value before [] k there among req v = v
  include_values-Kept key value before (token ∷ tokens) k there among req v =
      Judged-throw_if ds form (Sofar ds form Format)
        (not (bytes_eq (to_lower_ascii token) (codes "logprobs"))) _ _
        (λ e. explain ds form _ (
          other_include key k (
            listed before tokens there among
              (λ t. bytes_eq (to_lower_ascii t) (codes "logprobs") ≡ false) (not-eq-true _ e))))
        λ e.
          include_values-Kept key value (before ++ (token ∷ [])) tokens k there
            (among ∙ sym (append_assoc before (token ∷ []) tokens))
            (record req { include_logprobs = true })
            (record {
              model = v.model;
              language = v.language;
              prompt = v.prompt;
              format = v.format;
              temperature = v.temperature;
              stream = v.stream;
              granularities = v.granularities;
              asked = v.asked;
              logged = inr (
                key,
                (
                  k,
                  listed before tokens there among
                      (λ t. bytes_eq (to_lower_ascii t) (codes "logprobs") ≡ true)
                      (not-eq-false _ e),
                ),
              );
            })

  one_segment :
      (vs : List WhisperTimestampGranularity)
      → (vs ≡ []) ⊎ (vs ≡ segment ∷ [])
      → append_timestamp_granularity_unique vs segment ≡ segment ∷ []
  unfolding append_timestamp_granularity_unique contains_timestamp_granularity
  one_segment vs (inl e) = rw e refl
  one_segment vs (inr e) = rw e refl

  take_granularity-Kept :
      (key : Bytes) (g : WhisperTimestampGranularity)
      → IsGranularities key
      → Listed form key (λ t. parse_timestamp_granularity t ≡ some g)
      → (req : Request ds) → Sofar ds form Format req
      → Judged ds form (Sofar ds form Format) (take_granularity ds key req g)
  unfolding take_granularity
  take_granularity-Kept key word k l req v = explain ds form _ (word_granularity key k l)
  take_granularity-Kept key segment k l req v = record {
    model = v.model;
    language = v.language;
    prompt = v.prompt;
    format = v.format;
    temperature = v.temperature;
    stream = v.stream;
    granularities = inr (one_segment req.timestamp_granularities v.granularities);
    asked = inr (key, (k, l));
    logged = v.logged;
  }

  granularity_values-Kept :
      (key value : Bytes) (before tokens : List Bytes)
      → IsGranularities key
      → find_field form key ≡ some value
      → parse_multi_value_field value ≡ before ++ tokens
      → Kept ds form Format (granularity_values ds key tokens)
  unfolding granularity_values
  granularity_values-Kept key value before [] k there among req v = v
  granularity_values-Kept key value before (token ∷ tokens) k there among req v =
      Judged->>= ds form (Sofar ds form Format) (Sofar ds form Format) _ _
        (Judged->>= ds form (λ a. parse_timestamp_granularity token ≡ some a) (Sofar ds form Format)
          _ _
          (read_as-Judged ds form (parse_timestamp_granularity token) _ λ e. explain ds form _ (
            no_granularity key k
              (listed before tokens there among (λ t. parse_timestamp_granularity t ≡ none) e)))
          λ g _ e.
            take_granularity-Kept key g k
              (listed before tokens there among (λ t. parse_timestamp_granularity t ≡ some g) e) req
              v)
        λ next _ w.
          granularity_values-Kept key value (before ++ (token ∷ [])) tokens k there
            (among ∙ sym (append_assoc before (token ∷ []) tokens)) next w

  pub read_include-Kept :
      (key field : Bytes)
      → IsInclude key
      → find_field form key ≡ some field
      → Kept ds form Format (read_include ds key field)
  unfolding read_include
  read_include-Kept key field k there =
      include_values-Kept key field [] (parse_multi_value_field field) k there refl

  pub read_granularities-Kept :
      (key field : Bytes)
      → IsGranularities key
      → find_field form key ≡ some field
      → Kept ds form Format (read_granularities ds key field)
  unfolding read_granularities
  read_granularities-Kept key field k there =
      granularity_values-Kept key field [] (parse_multi_value_field field) k there refl
