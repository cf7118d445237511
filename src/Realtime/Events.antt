-- ===== src/Realtime/Events.antt =====
-- The events that a realtime session writes (src/realtime_session.cpp). Some are put together as
-- text, the others are values of the JSON library.
use asrcpp_gigam.Base.{if◌then◌else◌, is_empty, ℕ, Option, none, some, List, [], ◌∷◌, ◌++◌}
use asrcpp_gigam.Base.Int.{pos}
use asrcpp_gigam.Base.Bytes.{Bytes, codes}
use asrcpp_gigam.Base.Decimal.{decimal}
use asrcpp_gigam.Base.Floats.{Floats}
use asrcpp_gigam.Json.{append_json_escaped}
use asrcpp_gigam.Json.Library.{JsonLibrary}
use asrcpp_gigam.Realtime.{
  RealtimeCommittedItem, TurnDetection, RealtimeSession, next_event_id, ensure_current_item_id,
}

unfoldable pub event_speech_started_json : Bytes → Bytes → ℕ → Bytes
event_speech_started_json event_id item_id audio_start_ms =
    codes "{\"type\":\"input_audio_buffer.speech_started\",\"event_id\":\""
    ++ event_id
    ++ codes "\",\"audio_start_ms\":"
    ++ decimal audio_start_ms
    ++ codes ",\"item_id\":\""
    ++ item_id
    ++ codes "\"}"

unfoldable pub event_speech_stopped_json : Bytes → Bytes → ℕ → Bytes
event_speech_stopped_json event_id item_id audio_end_ms =
    codes "{\"type\":\"input_audio_buffer.speech_stopped\",\"event_id\":\""
    ++ event_id
    ++ codes "\",\"audio_end_ms\":"
    ++ decimal audio_end_ms
    ++ codes ",\"item_id\":\""
    ++ item_id
    ++ codes "\"}"

abbrev pub quoted_or_null : Bytes → Bytes
quoted_or_null text = if is_empty text then codes "null" else b'"' ∷ (text ++ (b'"' ∷ []))

unfoldable pub event_buffer_committed_json : Bytes → RealtimeCommittedItem → Bytes
event_buffer_committed_json event_id commit =
    codes "{\"type\":\"input_audio_buffer.committed\",\"event_id\":\""
    ++ event_id
    ++ codes "\",\"item_id\":\""
    ++ commit.item_id
    ++ codes "\",\"previous_item_id\":"
    ++ quoted_or_null commit.previous_item_id
    ++ codes "}"

unfoldable pub event_buffer_cleared_json : Bytes → Bytes
event_buffer_cleared_json event_id =
    codes "{\"type\":\"input_audio_buffer.cleared\",\"event_id\":\"" ++ event_id ++ codes "\"}"

unfoldable pub event_transcription_completed_json : Bytes → Bytes → Bytes → Bytes
event_transcription_completed_json event_id item_id transcript =
    append_json_escaped
      (codes "{\"type\":\"conversation.item.input_audio_transcription.completed\",\"event_id\":\""
        ++ event_id
        ++ codes "\",\"item_id\":\""
        ++ item_id
        ++ codes "\",\"content_index\":0,\"transcript\":\"")
      transcript
    ++ codes "\"}"

module _ (fl : Floats) where
  unfoldable pub event_speech_started : ℕ → RealtimeSession fl → Bytes × RealtimeSession fl
  unfolding next_event_id ensure_current_item_id
  event_speech_started audio_start_ms s =
      let (event_id, t) = next_event_id fl s in
      let (item_id, u) = ensure_current_item_id fl t in
      (event_speech_started_json event_id item_id audio_start_ms, u)

  unfoldable pub event_speech_stopped : ℕ → RealtimeSession fl → Bytes × RealtimeSession fl
  unfolding next_event_id ensure_current_item_id
  event_speech_stopped audio_end_ms s =
      let (event_id, t) = next_event_id fl s in
      let (item_id, u) = ensure_current_item_id fl t in
      (event_speech_stopped_json event_id item_id audio_end_ms, u)

  unfoldable pub event_buffer_committed :
      RealtimeCommittedItem → RealtimeSession fl → Bytes × RealtimeSession fl
  unfolding next_event_id
  event_buffer_committed commit s =
      let (event_id, t) = next_event_id fl s in (event_buffer_committed_json event_id commit, t)

  unfoldable pub event_buffer_cleared : RealtimeSession fl → Bytes × RealtimeSession fl
  unfolding next_event_id
  event_buffer_cleared s =
      let (event_id, t) = next_event_id fl s in (event_buffer_cleared_json event_id, t)

  unfoldable pub event_transcription_completed :
      Bytes → Bytes → RealtimeSession fl → Bytes × RealtimeSession fl
  unfolding next_event_id
  event_transcription_completed item_id transcript s =
      let (event_id, t) = next_event_id fl s in
      (event_transcription_completed_json event_id item_id transcript, t)

module _ (fl : Floats) (js : JsonLibrary (fl.Float)) where
  abbrev pub if_any : Bytes → Bytes → List (Bytes × js.Value)
  if_any key text = if is_empty text then [] else (key, js.string text) ∷ []

  unfoldable pub turn_json : Option (TurnDetection fl) → js.Value
  turn_json none = js.null
  turn_json (some turn) = js.object (
      (codes "type", js.string turn.type)
      ∷ (codes "threshold", js.number turn.threshold)
      ∷ (codes "prefix_padding_ms", js.integer turn.prefix_padding_ms)
      ∷ (codes "silence_duration_ms", js.integer turn.silence_duration_ms)
      ∷ [])

  unfoldable pub session_json : RealtimeSession fl → js.Value
  unfolding turn_json
  session_json s =
      let c = s.config in
      let tr = c.input_audio_transcription in
      js.object (
        (codes "id", js.string s.session_id)
        ∷ (codes "object", js.string (codes "realtime.transcription_session"))
        ∷ (codes "model", js.string tr.model)
        ∷ (codes "input_audio_format", js.string c.input_audio_format)
        ∷ (codes "input_sample_rate", js.integer c.input_sample_rate)
        ∷ (
          codes "input_audio_transcription",
          js.object (
              (codes "model", js.string tr.model)
              ∷ (if_any (codes "language") tr.language ++ if_any (codes "prompt") tr.prompt)),
        )
        ∷ (codes "turn_detection", turn_json c.turn_detection)
        ∷ [])

  unfoldable pub event_session_created : RealtimeSession fl → Bytes × RealtimeSession fl
  unfolding next_event_id session_json
  event_session_created s =
      let (event_id, t) = next_event_id fl s in
      (
        js.dump (
            js.object (
              (codes "type", js.string (codes "session.created"))
              ∷ (codes "event_id", js.string event_id)
              ∷ (codes "session", session_json t)
              ∷ [])),
        t,
      )

  unfoldable pub event_session_updated : RealtimeSession fl → Bytes × RealtimeSession fl
  unfolding next_event_id session_json
  event_session_updated s =
      let (event_id, t) = next_event_id fl s in
      (
        js.dump (
            js.object (
              (codes "type", js.string (codes "transcription_session.updated"))
              ∷ (codes "event_id", js.string event_id)
              ∷ (codes "session", session_json t)
              ∷ [])),
        t,
      )

  unfoldable pub event_transcription_delta :
      Bytes → Bytes → RealtimeSession fl → Bytes × RealtimeSession fl
  unfolding next_event_id
  event_transcription_delta item_id delta s =
      let (event_id, t) = next_event_id fl s in
      (
        js.dump (
            js.object (
              (codes "type", js.string (codes "conversation.item.input_audio_transcription.delta"))
              ∷ (codes "event_id", js.string event_id)
              ∷ (codes "item_id", js.string item_id)
              ∷ (codes "content_index", js.integer (pos 0))
              ∷ (codes "delta", js.string delta)
              ∷ [])),
        t,
      )

  abbrev pub string_or_null : Bytes → js.Value
  string_or_null text = if is_empty text then js.null else js.string text

  unfoldable pub event_error :
      Bytes → Bytes → Bytes → Bytes → RealtimeSession fl → Bytes × RealtimeSession fl
  unfolding next_event_id
  event_error code message param client_event_id s =
      let (event_id, t) = next_event_id fl s in
      let error = js.object (
        (codes "type", js.string (codes "invalid_request_error"))
        ∷ (codes "code", js.string code)
        ∷ (codes "message", js.string message)
        ∷ (codes "param", string_or_null param)
        ∷ (codes "event_id", string_or_null client_event_id)
        ∷ []) in
      (
        js.dump (
            js.object (
              (codes "type", js.string (codes "error"))
              ∷ (codes "event_id", js.string event_id)
              ∷ (codes "error", error)
              ∷ [])),
        t,
      )
