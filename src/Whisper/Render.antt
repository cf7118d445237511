-- ===== src/Whisper/Render.antt =====
-- The responses of src/whisper_api.cpp; `none` is the exception of a text that is not UTF-8. A duration, a `float`, is the `double` that it converts to.
use asrcpp_gigam.Base.{if◌then◌else◌, is_empty, ℕ, Option, none, some, List, [], ◌∷◌, ◌++◌}
use asrcpp_gigam.Base.Int.{pos}
use asrcpp_gigam.Base.Bytes.{Bytes, codes}
use asrcpp_gigam.Json.Library.{JsonLibrary, try_dump}
use asrcpp_gigam.Whisper.{
  WhisperResponseFormat, WhisperTimestampGranularity, Doubles, WhisperTranscriptionRequest,
  contains_timestamp_granularity, srt, verbose_json, vtt, segment, json as json_format,
  text as text_format,
}
use asrcpp_gigam.Whisper.Times.{format_timestamp}

pub record WhisperRenderedResponse : Type 0 where
  pub body : Bytes
  pub content_type : Bytes

module _ (ds : Doubles) where
  pub record WhisperTranscriptionResponsePayload : Type 0 where
    pub text : Bytes
    pub duration_sec : ds.floats.Float
    pub language : Bytes

module _ (ds : Doubles) (js : JsonLibrary (ds.floats.Float)) where
  open ds use {floats}
  open js use {Value}

  abbrev pub Payload : Type 0
  Payload = WhisperTranscriptionResponsePayload ds

  -- `std::max(0.0f, payload.duration_sec)`
  abbrev pub duration_of : Payload → floats.Float
  duration_of payload =
      if floats.lt (floats.lit 0 1) payload.duration_sec
      then payload.duration_sec
      else floats.lit 0 1

  unfoldable pub build_verbose_segment : Payload → Value
  build_verbose_segment payload = js.object (
      (codes "id", js.integer (pos 0))
      ∷ (codes "seek", js.integer (pos 0))
      ∷ (codes "start", js.number (floats.lit 0 1))
      ∷ (codes "end", js.number (duration_of payload))
      ∷ (codes "text", js.string payload.text)
      ∷ (codes "tokens", js.array [])
      ∷ (codes "temperature", js.number (floats.lit 0 1))
      ∷ (codes "avg_logprob", js.number (floats.lit 0 1))
      ∷ (codes "compression_ratio", js.number (floats.lit 1 1))
      ∷ (codes "no_speech_prob", js.number (floats.lit 0 1))
      ∷ [])

  abbrev pub segments_field : List WhisperTimestampGranularity → Payload → List (Bytes × Value)
  segments_field granularities payload =
      let wanted = if is_empty granularities then segment ∷ [] else granularities in
      if contains_timestamp_granularity wanted segment
      then (codes "segments", js.array (build_verbose_segment payload ∷ [])) ∷ []
      else []

  unfoldable pub verbose_body : List WhisperTimestampGranularity → Payload → Value
  unfolding build_verbose_segment contains_timestamp_granularity
  verbose_body granularities payload = js.object (
      (codes "task", js.string (codes "transcribe"))
      ∷ (
        codes "language",
        js.string (if is_empty payload.language then codes "unknown" else payload.language),
      )
      ∷ (codes "duration", js.number (duration_of payload))
      ∷ (codes "text", js.string payload.text)
      ∷ segments_field granularities payload)

  -- `j.dump()`, or `none` if it throws.
  abbrev pub json_rendered : Option Bytes → Option WhisperRenderedResponse
  json_rendered none = none
  json_rendered (some body) = some (record { body = body; content_type = codes "application/json" })

  -- From the beginning to the end of the audio.
  unfoldable pub cue : ℕ → Payload → Bytes
  unfolding format_timestamp
  cue separator payload =
      format_timestamp ds (floats.lit 0 1) separator
      ++ codes " --> "
      ++ format_timestamp ds (duration_of payload) separator
      ++ (10 ∷ (payload.text ++ (10 ∷ [])))

  unfoldable pub render_as :
      WhisperResponseFormat
      → List WhisperTimestampGranularity
      → Payload
      → Option WhisperRenderedResponse
  unfolding verbose_body cue
  render_as json_format granularities payload =
      json_rendered (try_dump js (js.object ((codes "text", js.string payload.text) ∷ [])))
  render_as text_format granularities payload =
      some (record { body = payload.text; content_type = codes "text/plain; charset=utf-8" })
  render_as srt granularities payload = some (record {
    body = b'1' ∷ (10 ∷ cue b',' payload);
    content_type = codes "application/x-subrip; charset=utf-8";
  })
  render_as vtt granularities payload = some (record {
    body = codes "WEBVTT" ++ (10 ∷ (10 ∷ cue b'.' payload));
    content_type = codes "text/vtt; charset=utf-8";
  })
  render_as verbose_json granularities payload =
      json_rendered (try_dump js (verbose_body granularities payload))

  unfoldable pub render_whisper_transcription_response :
      WhisperTranscriptionRequest ds → Payload → Option WhisperRenderedResponse
  unfolding render_as
  render_whisper_transcription_response request =
      render_as request.response_format request.timestamp_granularities

  abbrev pub or_null : Bytes → Value
  or_null shown = if is_empty shown then js.null else js.string shown

  unfoldable pub build_whisper_api_error_json : Bytes → Bytes → Bytes → Bytes → Option Bytes
  build_whisper_api_error_json message type param code = try_dump js (
      js.object (
        (
          codes "error",
          js.object (
              (codes "message", js.string message)
              ∷ (codes "type", js.string type)
              ∷ (codes "param", or_null param)
              ∷ (codes "code", or_null code)
              ∷ []),
        )
        ∷ []))
