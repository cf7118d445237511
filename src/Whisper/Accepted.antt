-- ===== src/Whisper/Accepted.antt =====
-- The requests that `parse_whisper_transcription_request` (src/whisper_api.cpp) accepts, and the
-- errors that it gives for the others.
use asrcpp_gigam.Base.{
  some, Bool, true, ◌≢◌, is_empty, ◌≡◌, refl, subst, ◌⊎◌, inl, inr, false, not, ◌&&◌, List, [], ◌∷◌,
}
use asrcpp_gigam.Base.Bytes.{Bytes, codes}
use asrcpp_gigam.Base.Result.{◌>>=◌, ok_injective, err_injective, ok, err}
use asrcpp_gigam.Whisper.{
  WhisperResponseFormat, WhisperTimestampGranularity, WhisperApiValidationError, Doubles, Form,
  find_field, text, srt, verbose_json, vtt, json as json_format,
}
use asrcpp_gigam.Whisper.Parse.{
  Request, Checked, if_there, if_filled, read_language, read_prompt, read_temperature, read_stream,
  read_include, read_granularities, is_verbose, check_request, parse_whisper_transcription_request,
}
use asrcpp_gigam.Whisper.Reasons.{Stated, Explained, not_verbose, logprobs}
use asrcpp_gigam.Whisper.Judged.{
  Judged, Judged->>=, Judged-throw_if, explain, Sofar, Kept, if_there-Kept, if_filled-Kept,
}
use asrcpp_gigam.Whisper.Tokens.{read_include-Kept, read_granularities-Kept}
use asrcpp_gigam.Whisper.Kept.{
  read_model-Judged, read_language-Kept, read_prompt-Kept, read_response_format-Judged,
  read_temperature-Kept, read_stream-Kept,
}

module _ (ds : Doubles) where
  open ds use {floats, stod, is_finite, equal}

  -- What the server can serve.
  pub record Accepted (form : Form) (req : Request ds) : Type 0 where
    pub sofar : Sofar ds form (Stated (find_field form (codes "response_format"))) req
    pub verbose : (req.timestamp_granularities ≡ []) ⊎ (req.response_format ≡ verbose_json)
    pub no_logprobs : req.include_logprobs ≡ false

  verbose_or_none :
      (vs : List WhisperTimestampGranularity) (format : WhisperResponseFormat)
      → (not (is_empty vs) && not (is_verbose ds format)) ≡ false
      → (vs ≡ []) ⊎ (format ≡ verbose_json)
  verbose_or_none [] format e = inl refl
  verbose_or_none (v ∷ vs) json_format e = cc
  verbose_or_none (v ∷ vs) text e = cc
  verbose_or_none (v ∷ vs) srt e = cc
  verbose_or_none (v ∷ vs) vtt e = cc
  verbose_or_none (v ∷ vs) verbose_json e = inr refl

  some_segment :
      {A : Type 0} (vs : List WhisperTimestampGranularity) (b : Bool)
      → (not (is_empty vs) && b) ≡ true
      → (vs ≡ []) ⊎ A
      → A
  some_segment [] b e k = cc
  some_segment (v ∷ vs) b e (inl k) = cc
  some_segment (v ∷ vs) b e (inr a) = a

  other_format :
      (vs : List WhisperTimestampGranularity) (format : WhisperResponseFormat)
      → (not (is_empty vs) && not (is_verbose ds format)) ≡ true
      → format ≢ verbose_json
  other_format [] format e k = cc
  other_format (v ∷ vs) json_format e k = cc
  other_format (v ∷ vs) text e k = cc
  other_format (v ∷ vs) srt e k = cc
  other_format (v ∷ vs) vtt e k = cc
  other_format (v ∷ vs) verbose_json e k = cc

  some_logprobs : {A : Type 0} (b : Bool) → b ≡ true → (b ≡ false) ⊎ A → A
  some_logprobs true e (inl h) = cc
  some_logprobs false e k = cc
  some_logprobs true e (inr a) = a

module _ (ds : Doubles) (form : Form) where
  abbrev Known : Request ds → Type 0
  Known = Sofar ds form (Stated (find_field form (codes "response_format")))

  check_request-Judged :
      (req : Request ds) → Known req → Judged ds form (Accepted ds form) (check_request ds req)
  unfolding check_request
  check_request-Judged req v =
      let vs = req.timestamp_granularities in
      Judged-throw_if ds form (Accepted ds form)
        (not (is_empty vs) && not (is_verbose ds req.response_format)) _ _
        (λ e.
          let (key, (k, l)) = some_segment ds vs _ e v.asked in
          explain ds form _ (
            not_verbose key req.response_format k l v.format
              (other_format ds vs req.response_format e)))
        λ e.
          Judged-throw_if ds form (Accepted ds form) req.include_logprobs _ _
            (λ f.
              let (key, (k, l)) = some_logprobs ds req.include_logprobs f v.logged in
              explain ds form _ (logprobs key k l))
            λ f. record {
              sofar = v;
              verbose = verbose_or_none ds vs req.response_format e;
              no_logprobs = f;
            }

  -- A field after those before it; `Format` is what is known of the format.
  there-Judged :
      (Format : WhisperResponseFormat → Type 0) (key : Bytes)
      (step : Bytes → Request ds → Checked ds) (r : Checked ds)
      → Judged ds form (Sofar ds form Format) r
      → ((value : Bytes) → find_field form key ≡ some value → Kept ds form Format (step value))
      → Judged ds form (Sofar ds form Format) (r >>= if_there ds (find_field form key) step)
  there-Judged Format key step r v k =
      Judged->>= ds form (Sofar ds form Format) (Sofar ds form Format) r _ v
        λ req _. if_there-Kept ds form Format (find_field form key) step k req

  filled-Judged :
      (Format : WhisperResponseFormat → Type 0) (key : Bytes)
      (step : Bytes → Request ds → Checked ds) (r : Checked ds)
      → Judged ds form (Sofar ds form Format) r
      → ((value : Bytes) → find_field form key ≡ some value → Kept ds form Format (step value))
      → Judged ds form (Sofar ds form Format) (r >>= if_filled ds (find_field form key) step)
  filled-Judged Format key step r v k =
      Judged->>= ds form (Sofar ds form Format) (Sofar ds form Format) r _ v
        λ req _. if_filled-Kept ds form Format (find_field form key) step k req

  parse-Judged : Judged ds form (Accepted ds form) (parse_whisper_transcription_request ds form)
  unfolding parse_whisper_transcription_request
  parse-Judged =
      let Json : WhisperResponseFormat → Type 0 = λ format. format ≡ json_format in
      let Format = Stated (find_field form (codes "response_format")) in
      let r1 = read_model-Judged ds form in
      let r2 =
        there-Judged Json (codes "language") (read_language ds) _ r1
          (read_language-Kept ds form Json) in
      let r3 =
        there-Judged Json (codes "prompt") (read_prompt ds) _ r2 (read_prompt-Kept ds form Json) in
      let r4 =
        Judged->>= ds form (Sofar ds form Json) Known _ _ r3
          λ req _. read_response_format-Judged ds form req in
      let r5 =
        filled-Judged Format (codes "temperature") (read_temperature ds) _ r4
          (read_temperature-Kept ds form Format) in
      let r6 =
        filled-Judged Format (codes "stream") (read_stream ds) _ r5
          (read_stream-Kept ds form Format) in
      let r7 =
        filled-Judged Format (codes "include[]") (read_include ds (codes "include[]")) _ r6
          λ field. read_include-Kept ds form Format (codes "include[]") field (inl refl) in
      let r8 =
        filled-Judged Format (codes "include") (read_include ds (codes "include")) _ r7
          λ field. read_include-Kept ds form Format (codes "include") field (inr refl) in
      let r9 =
        filled-Judged Format (codes "timestamp_granularities[]")
          (read_granularities ds (codes "timestamp_granularities[]")) _ r8
          λ field.
            read_granularities-Kept ds form Format (codes "timestamp_granularities[]") field
              (inl refl) in
      let r10 =
        filled-Judged Format (codes "timestamp_granularities")
          (read_granularities ds (codes "timestamp_granularities")) _ r9
          λ field.
            read_granularities-Kept ds form Format (codes "timestamp_granularities") field
              (inr refl) in
      Judged->>= ds form Known (Accepted ds form) _ _ r10 λ req _. check_request-Judged req

  Judged-ok :
      (r : Checked ds) (req : Request ds)
      → r ≡ ok req
      → Judged ds form (Accepted ds form) r
      → Accepted ds form req
  Judged-ok (ok a) req e j = subst (Accepted ds form) (ok_injective e) j
  Judged-ok (err x) req e j = cc

  Judged-err :
      (r : Checked ds) (e : WhisperApiValidationError)
      → r ≡ err e
      → Judged ds form (Accepted ds form) r
      → Explained ds form e
  Judged-err (ok a) e h j = cc
  Judged-err (err x) e h j = subst (Explained ds form) (err_injective h) j

module _ (ds : Doubles) where
  -- A request that is accepted is one that the server can serve: a known model, a Russian or no
  -- language, no prompt, the response format that the form states (`json` without one), no temperature
  -- but 0, no stream and no logprobs, and timestamps for segments at most, once, only if the form asks
  -- for them, and only in `verbose_json`.
  pub request-Accepted :
      (form : Form) (req : Request ds)
      → parse_whisper_transcription_request ds form ≡ ok req
      → Accepted ds form req
  request-Accepted form req e =
      Judged-ok ds form (parse_whisper_transcription_request ds form) req e (parse-Judged ds form)

  -- A request that is refused breaks the rule that the error names. The error is an invalid request
  -- error, and its field and code are one of these: model/missing_field if there is no model or a
  -- blank one; model/unsupported_value for another model; language/unsupported_value for another
  -- language; prompt/unsupported_value for a prompt that is not blank; response_format/invalid_value,
  -- temperature/invalid_value and stream/invalid_value if the field cannot be read, or the temperature
  -- is not within 0..1; temperature/unsupported_value for another one than 0; stream/unsupported_value
  -- for `true`; a field of `include` with invalid_value if one of its values is not `logprobs`; a
  -- field of `timestamp_granularities` with invalid_value if one of its values cannot be read, with
  -- unsupported_value for `word`; timestamp_granularities[]/invalid_value if segments are asked for
  -- and the format that the form states is not `verbose_json`; include[]/unsupported_value if
  -- `logprobs` is asked for.
  pub refusal-Explained :
      (form : Form) (e : WhisperApiValidationError)
      → parse_whisper_transcription_request ds form ≡ err e
      → Explained ds form e
  refusal-Explained form e h =
      Judged-err ds form (parse_whisper_transcription_request ds form) e h (parse-Judged ds form)
