-- ===== src/Whisper/Kept.antt =====
-- That every field of a request (src/whisper_api.cpp) keeps what is known, or gives an error.
use asrcpp_gigam.Base.{
  Option-cases, if_cases, ap, ◌∙◌, is_empty, ◌≡◌, refl, inl, inr, Bool, true, false, not, ◌||◌,
  some, arith,
}
use asrcpp_gigam.Base.Bytes.{Bytes, codes}
use asrcpp_gigam.Offline.{trim_ascii}
use asrcpp_gigam.Whisper.{
  Doubles, Form, WhisperResponseFormat, find_field, json as json_format, parse_bool_field,
  parse_response_format, is_supported_whisper_model_alias, is_supported_whisper_language_hint,
}
use asrcpp_gigam.Whisper.Parse.{
  if_there, if_filled, Request, check_model, read_model, read_language, read_prompt,
  read_response_format, check_temperature, read_temperature, read_stream,
}
use asrcpp_gigam.Whisper.Reasons.{
  Stated, outside, no_model, blank_model, other_model, other_language, some_prompt, no_format,
  no_temperature, outside_temperature, other_temperature, no_stream, streaming,
}
use asrcpp_gigam.Whisper.Judged.{
  not-eq-true, Judged, Judged->>=, Judged-throw_if, explain, not-eq-false, empty_text, Sofar, Kept,
  read_as-Judged,
}

module _ (ds : Doubles) (form : Form) where
  open ds use {floats, stod, is_finite, equal}

  check_model-Judged :
      (model : Bytes)
      → find_field form (codes "model") ≡ some model
      → Judged ds form (Sofar ds form (λ format. format ≡ json_format)) (check_model ds model)
  unfolding check_model is_supported_whisper_language_hint
  check_model-Judged model there =
      let P = Sofar ds form (λ format. format ≡ json_format) in
      Judged-throw_if ds form P (is_empty (trim_ascii model)) _ _
        (λ e. explain ds form _ (blank_model model there e))
        λ e.
          Judged-throw_if ds form P (not (is_supported_whisper_model_alias (trim_ascii model))) _ _
            (λ f. explain ds form _ (other_model model there e (not-eq-true _ f)))
            λ f. record {
              model = not-eq-false _ f;
              language = refl;
              prompt = refl;
              format = refl;
              temperature = tt;
              stream = refl;
              granularities = inl refl;
              asked = inl refl;
              logged = inl refl;
            }

  pub read_model-Judged :
      Judged ds form
        (Sofar ds form (λ format. format ≡ json_format))
        (read_model ds (find_field form (codes "model")))
  unfolding read_model
  read_model-Judged = elim (Option-cases (find_field form (codes "model"))) [
    | inl e ↦ rw e (explain ds form _ (no_model e))
    | inr (model, e) ↦ rw e (check_model-Judged model e)
  ]

  stated :
      (field : Bytes)
      → find_field form (codes "response_format") ≡ some field
      → (req : Request ds) → Sofar ds form (λ format. format ≡ json_format) req
      → Judged ds form (Sofar ds form (Stated (some field))) (read_response_format ds field req)
  unfolding read_response_format
  stated field there req v =
      Judged->>= ds form (λ a. parse_response_format field ≡ some a)
        (Sofar ds form (Stated (some field))) _ _
        (read_as-Judged ds form (parse_response_format field) _
          λ e. explain ds form _ (no_format field there e))
        λ parsed _ e. record {
          model = v.model;
          language = v.language;
          prompt = v.prompt;
          format = inr e;
          temperature = v.temperature;
          stream = v.stream;
          granularities = v.granularities;
          asked = v.asked;
          logged = v.logged;
        }

  -- The format was `json` until then.
  pub read_response_format-Judged :
      (req : Request ds)
      → Sofar ds form (λ format. format ≡ json_format) req
      → Judged ds form
          (Sofar ds form (Stated (find_field form (codes "response_format"))))
          (if_filled ds (find_field form (codes "response_format")) (read_response_format ds) req)
  unfolding if_filled if_there
  read_response_format-Judged req v =
      elim (Option-cases (find_field form (codes "response_format"))) [
        | inl e ↦ rw e (record {
          model = v.model;
          language = v.language;
          prompt = v.prompt;
          format = v.format;
          temperature = v.temperature;
          stream = v.stream;
          granularities = v.granularities;
          asked = v.asked;
          logged = v.logged;
        })
        | inr (field, e) ↦ rw e (
            if_cases (Judged ds form (Sofar ds form (Stated (some field))))
              (is_empty (trim_ascii field))
              (λ blank. record {
                model = v.model;
                language = v.language;
                prompt = v.prompt;
                format = inl (blank, v.format);
                temperature = v.temperature;
                stream = v.stream;
                granularities = v.granularities;
                asked = v.asked;
                logged = v.logged;
              })
              λ _. stated field e req v)
      ]

module _ (ds : Doubles) (form : Form) (Format : WhisperResponseFormat → Type 0) where
  open ds use {floats, stod, is_finite, equal}

  pub read_language-Kept :
      (language : Bytes)
      → find_field form (codes "language") ≡ some language
      → Kept ds form Format (read_language ds language)
  unfolding read_language
  read_language-Kept language there req v =
      Judged-throw_if ds form (Sofar ds form Format)
        (not (is_supported_whisper_language_hint (trim_ascii language))) _ _
        (λ e. explain ds form _ (other_language language there (not-eq-true _ e)))
        λ e. record {
          model = v.model;
          language = not-eq-false _ e;
          prompt = v.prompt;
          format = v.format;
          temperature = v.temperature;
          stream = v.stream;
          granularities = v.granularities;
          asked = v.asked;
          logged = v.logged;
        }

  pub read_prompt-Kept :
      (prompt : Bytes)
      → find_field form (codes "prompt") ≡ some prompt
      → Kept ds form Format (read_prompt ds prompt)
  unfolding read_prompt
  read_prompt-Kept prompt there req v =
      Judged-throw_if ds form (Sofar ds form Format) (not (is_empty (trim_ascii prompt))) _ _
        (λ e. explain ds form _ (some_prompt prompt there (not-eq-true _ e)))
        λ e. record {
          model = v.model;
          language = v.language;
          prompt = empty_text _ e;
          format = v.format;
          temperature = v.temperature;
          stream = v.stream;
          granularities = v.granularities;
          asked = v.asked;
          logged = v.logged;
        }

  check_temperature-Kept :
      (field : Bytes) (t : floats.Float)
      → find_field form (codes "temperature") ≡ some field
      → stod (trim_ascii field) ≡ some t
      → (req : Request ds) → Sofar ds form Format req
      → Judged ds form (Sofar ds form Format) (check_temperature ds req t)
  unfolding check_temperature
  check_temperature-Kept field t there read req v =
      Judged-throw_if ds form (Sofar ds form Format) (outside ds t) _ _
        (λ e. explain ds form _ (outside_temperature field t there read e))
        λ f.
          Judged-throw_if ds form (Sofar ds form Format) (not (equal t (floats.lit 0 1))) _ _
            (λ e. explain ds form _ (other_temperature field t there read f (not-eq-true _ e)))
            λ e. record {
              model = v.model;
              language = v.language;
              prompt = v.prompt;
              format = v.format;
              temperature = (first_false (is_finite t) _ _ f, not-eq-false _ e);
              stream = v.stream;
              granularities = v.granularities;
              asked = v.asked;
              logged = v.logged;
            }
    where
      first_false : (a b c : Bool) → (not a || b || c) ≡ false → a ≡ true
      first_false a b c h = ground arith

  pub read_temperature-Kept :
      (field : Bytes)
      → find_field form (codes "temperature") ≡ some field
      → Kept ds form Format (read_temperature ds field)
  unfolding read_temperature
  read_temperature-Kept field there req v =
      Judged->>= ds form (λ a. stod (trim_ascii field) ≡ some a) (Sofar ds form Format) _ _
        (read_as-Judged ds form (stod (trim_ascii field)) _
          λ e. explain ds form _ (no_temperature field there e))
        λ t _ e. check_temperature-Kept field t there e req v

  pub read_stream-Kept :
      (field : Bytes)
      → find_field form (codes "stream") ≡ some field
      → Kept ds form Format (read_stream ds field)
  unfolding read_stream
  read_stream-Kept field there req v =
      Judged->>= ds form (λ a. parse_bool_field field ≡ some a) (Sofar ds form Format) _ _
        (read_as-Judged ds form (parse_bool_field field) _
          λ e. explain ds form _ (no_stream field there e))
        λ parsed _ e.
          Judged-throw_if ds form (Sofar ds form Format) parsed _ _
            (λ f. explain ds form _ (streaming field there (e ∙ ap some f)))
            λ f. record {
              model = v.model;
              language = v.language;
              prompt = v.prompt;
              format = v.format;
              temperature = v.temperature;
              stream = f;
              granularities = v.granularities;
              asked = v.asked;
              logged = v.logged;
            }
