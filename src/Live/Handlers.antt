-- ===== src/Live/Handlers.antt =====
-- The handlers of the audio events of src/server.cpp. `fuel` is that of the resampler's loops. A
-- handler that throws keeps what it has changed.
use asrcpp_gigam.Base.{
  if◌then◌else◌, length, is_empty, ℕ, suc, ◌+◌, Bool, true, false, ◌||◌, Option, none, some, List,
  [], ◌∷◌,
}
use asrcpp_gigam.Base.Int.{pos_part}
use asrcpp_gigam.Base.Bytes.{Bytes, codes, bytes_eq}
use asrcpp_gigam.Base.Result.{Result, ok, err}
use asrcpp_gigam.Audio.{AudioError, unsupported_format}
use asrcpp_gigam.Audio.Base64.{base64_decode}
use asrcpp_gigam.Audio.Pcm.{pcm16_to_float32}
use asrcpp_gigam.Audio.Opus.{
  OpusPacketMode, OpusDecoder, decode_packet, auto, raw, rtp, create as create_decoder,
}
use asrcpp_gigam.Audio.Resampler.{StreamResampler, process as process_samples}
use asrcpp_gigam.Session.{OutMessage, Outcome, interim}
use asrcpp_gigam.Session.Handlers.{on_audio}
use asrcpp_gigam.Live.{Outside, Failure, audio_failed, session_failed}
use asrcpp_gigam.Live.Events.{
  C, send_error, emit_transcription_events, emit_speech_transition_events,
}

unfoldable pub is_realtime_opus_format : Bytes → Bool
unfolding bytes_eq
is_realtime_opus_format format =
    bytes_eq format (codes "opus")
    || bytes_eq format (codes "opus_raw")
    || bytes_eq format (codes "opus_rtp")

unfoldable pub realtime_opus_packet_mode : Bytes → OpusPacketMode
realtime_opus_packet_mode format =
    if bytes_eq format (codes "opus_raw")
    then raw
    else if bytes_eq format (codes "opus_rtp")
    then rtp
    else auto

abbrev pub is_interim {ℓ} : {F : Type ℓ} → OutMessage F → Bool
is_interim (interim time rms speech) = true
is_interim _ = false

abbrev pub count_interim {ℓ} : {F : Type ℓ} → List (OutMessage F) → ℕ
count_interim [] = 0
count_interim (m ∷ ms) = if is_interim m then suc (count_interim ms) else count_interim ms

module _ (o : Outside) where
  abbrev pub F : Type 0
  F = o.floats.Float

  abbrev pub Handled : Type 0
  Handled = C o × Result Failure (Unit {0})

  unfoldable pub then_do : Handled → (C o → Handled) → Handled
  then_do (c, ok u) f = f c
  then_do (c, err e) f = (c, err e)

  abbrev pub audio_result {ℓ} : {A : Type ℓ} → Result AudioError A → Result Failure A
  audio_result (ok a) = ok a
  audio_result (err e) = err (audio_failed e)

  -- A decoder at the session's rate, which is not negative.
  abbrev pub new_decoder : C o → Result AudioError (OpusDecoder o.opus)
  new_decoder c =
      let config = c.realtime.config in
      create_decoder o.opus (pos_part config.input_sample_rate) 8 true
        (realtime_opus_packet_mode config.input_audio_format)

  abbrev pub session_decoder : C o → Result AudioError (OpusDecoder o.opus)
  session_decoder c = elim c.opus_decoder [ none ↦ new_decoder c | some d ↦ ok d ]

  unfoldable pub decode_with :
      Bytes → C o → Result AudioError (OpusDecoder o.opus) → C o × Result Failure (List F)
  decode_with bytes c (err e) = (c, err (audio_failed e))
  decode_with bytes c (ok d) =
      let (e, samples) = decode_packet o.opus d bytes in
      (record c { opus_decoder = some e }, audio_result samples)

  unfoldable pub decode_append_samples : Bytes → C o → C o × Result Failure (List F)
  unfolding decode_with
  decode_append_samples audio_bytes c =
      let format = c.realtime.config.input_audio_format in
      if is_empty format || bytes_eq format (codes "pcm16")
      then (c, audio_result (pcm16_to_float32 o.pcm_sample audio_bytes))
      else if is_realtime_opus_format format
      then decode_with audio_bytes c (session_decoder c)
      else (c, err (audio_failed (unsupported_format format)))

  -- The session after one of its methods.
  unfoldable pub with_session : C o → Outcome o.floats o.engines → Handled
  with_session c (s, ok u) = (record c { session = s }, ok tt)
  with_session c (s, err e) = (record c { session = s }, err (session_failed e))

  unfoldable pub hear : List F → C o → Handled
  unfolding with_session
  hear samples c =
      let d = record c { input_samples = c.input_samples + length samples } in
      with_session d (on_audio o.floats o.engines samples d.session)

  unfoldable pub hear_resampled : C o → StreamResampler o.src × Result AudioError (List F) → Handled
  unfolding hear
  hear_resampled c (r, ok samples) = hear samples (record c { resampler = some r })
  hear_resampled c (r, err e) = (record c { resampler = some r }, err (audio_failed e))

  -- What the session is given: the samples, at its rate.
  unfoldable pub hear_at_rate : ℕ → Option (StreamResampler o.src) → List F → C o → Handled
  unfolding hear hear_resampled
  hear_at_rate fuel none samples c = hear samples c
  hear_at_rate fuel (some r) samples c = hear_resampled c (process_samples o.src fuel samples r)

  unfoldable pub emit : C o → ℕ × C o
  unfolding emit_speech_transition_events emit_transcription_events
  emit c =
      let d = emit_speech_transition_events o c in
      emit_transcription_events o d.session.out_messages d

  unfoldable pub count_and_emit : C o → Handled
  unfolding emit
  count_and_emit c = (
    (emit
        (record c { interim_events = c.interim_events + count_interim c.session.out_messages })).1,
    ok tt,
  )

  unfoldable pub process_audio_append_samples : ℕ → List F → C o → Handled
  unfolding hear_at_rate count_and_emit then_do
  process_audio_append_samples fuel samples c =
      let d = record c {
        append_events = c.append_events + 1;
        raw_input_samples = c.raw_input_samples + length samples;
      } in
      then_do (hear_at_rate fuel d.resampler samples d) count_and_emit

  unfoldable pub append_audio : ℕ → C o × Result Failure (List F) → Handled
  unfolding process_audio_append_samples
  append_audio fuel (c, ok samples) = process_audio_append_samples fuel samples c
  append_audio fuel (c, err e) = (c, err e)

  unfoldable pub handle_audio_append_binary : ℕ → Bytes → C o → Handled
  unfolding append_audio decode_append_samples
  handle_audio_append_binary fuel payload c = append_audio fuel (decode_append_samples payload c)

  unfoldable pub append_base64 : ℕ → Result AudioError Bytes → C o → Handled
  unfolding append_audio decode_append_samples
  append_base64 fuel (ok bytes) c = append_audio fuel (decode_append_samples bytes c)
  append_base64 fuel (err e) c = (c, err (audio_failed e))

  -- `object[key]`, if it is there and a string.
  unfoldable pub string_at : o.json.Value → Bytes → Option Bytes
  string_at object key = elim (o.json.find object key) [
    | none ↦ none
    | some v ↦ if o.json.is_string v then some (o.json.get_string v) else none
  ]

  unfoldable pub append_event_text : ℕ → Option Bytes → Bytes → C o → Handled
  unfolding append_base64 send_error
  append_event_text fuel none client_event_id c = (
    send_error o (codes "invalid_audio") (codes "Event must include base64 string field 'audio'")
        (codes "audio") client_event_id c,
    ok tt,
  )
  append_event_text fuel (some audio) client_event_id c = append_base64 fuel (base64_decode audio) c

  unfoldable pub handle_audio_append : ℕ → o.json.Value → Bytes → C o → Handled
  unfolding append_event_text string_at
  handle_audio_append fuel event = append_event_text fuel (string_at event (codes "audio"))
