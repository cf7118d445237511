-- ===== src/Realtime/Update.antt =====
-- `RealtimeSession::apply_session_update` of src/realtime_session.cpp, in the order of its checks. An
-- error is the message of `error_message`.
use asrcpp_gigam.Base.{
  ◌==◌, if◌then◌else◌, is_some, is_empty, Bool, false, not, ◌&&◌, ◌||◌, Option, none, some, ◌++◌,
}
use asrcpp_gigam.Base.Int.{ℤ, ltb_ℤ, pos, negsuc}
use asrcpp_gigam.Base.Bytes.{Bytes, codes, bytes_eq, to_lower_ascii}
use asrcpp_gigam.Base.Result.{Result, throw_if, ◌>>=◌, ◌>>◌, ok, err}
use asrcpp_gigam.Base.Floats.{Floats}
use asrcpp_gigam.Json.Library.{JsonLibrary, to_int}
use asrcpp_gigam.Offline.{trim_ascii}
use asrcpp_gigam.Realtime.{
  InputAudioTranscription, TurnDetection, RealtimeSessionConfig, RealtimeSession,
  default_turn_detection,
}

unfoldable pub is_opus_input_audio_format : Bytes → Bool
unfolding bytes_eq
is_opus_input_audio_format format =
    bytes_eq format (codes "opus")
    || bytes_eq format (codes "opus_raw")
    || bytes_eq format (codes "opus_rtp")

unfoldable pub is_supported_input_audio_format : Bytes → Bool
unfolding is_opus_input_audio_format
is_supported_input_audio_format format =
    bytes_eq format (codes "pcm16") || is_opus_input_audio_format format

unfoldable pub is_supported_opus_output_sample_rate : ℤ → Bool
is_supported_opus_output_sample_rate (pos r) =
    r == 8000 || r == 12000 || r == 16000 || r == 24000 || r == 48000
is_supported_opus_output_sample_rate (negsuc n) = false

abbrev pub store_model : Bytes → InputAudioTranscription → InputAudioTranscription
store_model text tr = record tr { model = text }

abbrev pub store_language : Bytes → InputAudioTranscription → InputAudioTranscription
store_language text tr = record tr { language = text }

abbrev pub store_prompt : Bytes → InputAudioTranscription → InputAudioTranscription
store_prompt text tr = record tr { prompt = text }

module _ (fl : Floats) (js : JsonLibrary (fl.Float)) where
  open fl use {Float}
  open js use {Value, is_object, is_string, is_null, is_number, is_number_integer}

  abbrev pub Updated : Type 0
  Updated = Result Bytes (RealtimeSessionConfig fl)

  -- `if (object.contains(key)) ...`
  unfoldable pub if_given {ℓ} :
      {A : Type ℓ} → Option Value → (Value → A → Result Bytes A) → A → Result Bytes A
  if_given none step a = ok a
  if_given (some v) step a = step v a

  abbrev pub given : Value → Bytes → Bool
  given object key = is_some (js.find object key)

  abbrev pub get_int : Value → ℤ
  get_int v = to_int (js.get_int64 v)

  unfoldable pub update_format : Value → RealtimeSessionConfig fl → Updated
  update_format v next = do
    throw_if (not (is_string v)) (codes "session.input_audio_format must be a string")
    let format = to_lower_ascii (js.get_string v)
    throw_if (not (is_supported_input_audio_format format))
        (codes "unsupported session.input_audio_format: " ++ format)
    ok (record next { input_audio_format = format })

  unfoldable pub update_rate : Value → RealtimeSessionConfig fl → Updated
  update_rate v next = do
    throw_if (not (is_number_integer v)) (codes "session.input_sample_rate must be an integer")
    throw_if (ltb_ℤ (get_int v) (pos 8000) || ltb_ℤ (pos 192000) (get_int v))
        (codes "session.input_sample_rate must be in range [8000, 192000]")
    ok (record next { input_sample_rate = get_int v })

  -- The rate that an Opus session gets; `old` is the session's own configuration.
  abbrev pub decided_rate : Value → RealtimeSessionConfig fl → RealtimeSessionConfig fl → ℤ
  decided_rate update old next =
      if given update (codes "input_audio_format")
        && not (given update (codes "input_sample_rate"))
        && not (is_opus_input_audio_format old.input_audio_format)
      then pos 48000
      else next.input_sample_rate

  unfoldable pub check_opus_rate :
      Value → RealtimeSessionConfig fl → RealtimeSessionConfig fl → Updated
  check_opus_rate update old next =
      let rate = decided_rate update old next in
      if is_opus_input_audio_format next.input_audio_format
      then throw_if (not (is_supported_opus_output_sample_rate rate)) (
          codes
            "session.input_sample_rate for opus* must be one of: 8000, 12000, 16000, 24000, 48000")
        >> ok (record next { input_sample_rate = rate })
      else ok next

  abbrev pub with_transcription :
      (InputAudioTranscription → InputAudioTranscription)
      → RealtimeSessionConfig fl
      → RealtimeSessionConfig fl
  with_transcription f next = record next {
    input_audio_transcription = f next.input_audio_transcription;
  }

  -- A text field: `message` if it is no string, else its trimmed text is stored.
  unfoldable pub update_text :
      Bytes
      → (Bytes → InputAudioTranscription → InputAudioTranscription)
      → Value
      → RealtimeSessionConfig fl
      → Updated
  update_text message store v next = do
    throw_if (not (is_string v)) message
    ok (with_transcription (store (trim_ascii (js.get_string v))) next)

  unfoldable pub update_model : Value → RealtimeSessionConfig fl → Updated
  update_model = update_text (codes "session.model must be a string") store_model

  unfoldable pub update_transcription : Value → RealtimeSessionConfig fl → Updated
  unfolding if_given update_text
  update_transcription tr next =
      throw_if (not (is_object tr)) (codes "session.input_audio_transcription must be an object")
      >> if_given (js.find tr (codes "model"))
          (update_text (codes "session.input_audio_transcription.model must be a string")
            store_model)
          next
      >>= if_given (js.find tr (codes "language")) (
          update_text (codes "session.input_audio_transcription.language must be a string")
            store_language)
      >>= if_given (js.find tr (codes "prompt")) (
          update_text (codes "session.input_audio_transcription.prompt must be a string")
            store_prompt)

  unfoldable pub turn_type : TurnDetection fl → Bytes → Result Bytes (Option (TurnDetection fl))
  turn_type turn type =
      if bytes_eq type (codes "server_vad")
      then ok (some (record turn { type = type }))
      else if bytes_eq type (codes "null") || bytes_eq type (codes "none")
      then ok none
      else err (codes "session.turn_detection.type must be 'server_vad' or null")

  -- `none` is a `turn_detection` that was reset.
  unfoldable pub update_turn_type :
      Option Value → TurnDetection fl → Result Bytes (Option (TurnDetection fl))
  unfolding turn_type
  update_turn_type none turn = ok (some turn)
  update_turn_type (some v) turn =
      throw_if (not (is_string v)) (codes "session.turn_detection.type must be a string")
      >> turn_type turn (to_lower_ascii (js.get_string v))

  unfoldable pub update_threshold : Value → TurnDetection fl → Result Bytes (TurnDetection fl)
  update_threshold v turn = do
    throw_if (not (is_number v)) (codes "session.turn_detection.threshold must be numeric")
    ok (record turn { threshold = js.get_float v })

  unfoldable pub update_padding : Value → TurnDetection fl → Result Bytes (TurnDetection fl)
  update_padding v turn = do
    throw_if (not (is_number_integer v))
        (codes "session.turn_detection.prefix_padding_ms must be integer")
    ok (record turn { prefix_padding_ms = get_int v })

  unfoldable pub update_silence : Value → TurnDetection fl → Result Bytes (TurnDetection fl)
  update_silence v turn = do
    throw_if (not (is_number_integer v))
        (codes "session.turn_detection.silence_duration_ms must be integer")
    ok (record turn { silence_duration_ms = get_int v })

  unfoldable pub update_turn_numbers :
      Value → Option (TurnDetection fl) → Result Bytes (Option (TurnDetection fl))
  unfolding if_given update_threshold update_padding update_silence
  update_turn_numbers td none = ok none
  update_turn_numbers td (some turn) =
      if_given (js.find td (codes "threshold")) update_threshold turn
      >>= if_given (js.find td (codes "prefix_padding_ms")) update_padding
      >>= if_given (js.find td (codes "silence_duration_ms")) update_silence
      >>= λ t. ok (some t)

  -- The turn detection to change: the session's, or a default one.
  abbrev pub turn_to_update : Option (TurnDetection fl) → TurnDetection fl
  turn_to_update none = default_turn_detection fl
  turn_to_update (some turn) = turn

  -- What an object makes of it.
  unfoldable pub updated_turn :
      Value → Option (TurnDetection fl) → Result Bytes (Option (TurnDetection fl))
  unfolding update_turn_type update_turn_numbers
  updated_turn td turn =
      throw_if (not (is_object td)) (codes "session.turn_detection must be an object or null")
      >> update_turn_type (js.find td (codes "type")) (turn_to_update turn)
      >>= update_turn_numbers td

  unfoldable pub update_turn_detection : Value → RealtimeSessionConfig fl → Updated
  unfolding updated_turn
  update_turn_detection td next =
      if is_null td
      then ok (record next { turn_detection = none })
      else updated_turn td next.turn_detection >>= λ turn.
          ok (record next { turn_detection = turn })

  unfoldable pub check_supported : RealtimeSessionConfig fl → Updated
  check_supported next =
      let tr = next.input_audio_transcription in
      do
        throw_if (not (is_empty tr.model) && not (bytes_eq tr.model (codes "default")))
            (codes "session.input_audio_transcription.model currently supports only 'default'")
        throw_if (not (is_empty tr.language))
            (codes "session.input_audio_transcription.language is not supported by this backend")
        throw_if (not (is_empty tr.prompt))
            (codes "session.input_audio_transcription.prompt is not supported by this backend")
        ok next

  -- The configuration that an update makes of the session's.
  unfoldable pub updated_config : Value → RealtimeSessionConfig fl → Updated
  unfolding if_given update_format update_rate check_opus_rate update_model update_transcription
      update_turn_detection check_supported
  updated_config update config =
      throw_if (not (is_object update)) (codes "session must be an object")
      >> if_given (js.find update (codes "input_audio_format")) update_format config
      >>= if_given (js.find update (codes "input_sample_rate")) update_rate
      >>= check_opus_rate update config
      >>= if_given (js.find update (codes "model")) update_model
      >>= if_given (js.find update (codes "input_audio_transcription")) update_transcription
      >>= if_given (js.find update (codes "turn_detection")) update_turn_detection
      >>= check_supported

  unfoldable pub store_update :
      RealtimeSession fl → Updated → RealtimeSession fl × Result Bytes (Unit {0})
  store_update s (ok next) = (record s { config = next }, ok tt)
  store_update s (err message) = (s, err message)

  unfoldable pub apply_session_update :
      Value → RealtimeSession fl → RealtimeSession fl × Result Bytes (Unit {0})
  unfolding store_update updated_config
  apply_session_update update s = store_update s (updated_config update s.config)
