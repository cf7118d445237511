-- ===== src/Live/Pipeline.antt =====
-- How src/server.cpp builds what a connection needs: `rebuild_pipeline` and `handle_session_update`.
-- `server` is the configuration of the server.
use asrcpp_gigam.Base.{if◌then◌else◌, ℕ, false, ◌||◌, Option, none, some, []}
use asrcpp_gigam.Base.Int.{ltb_ℤ}
use asrcpp_gigam.Base.Bytes.{Bytes, codes}
use asrcpp_gigam.Base.Result.{Result, ok, err}
use asrcpp_gigam.Config.{Config}
use asrcpp_gigam.Audio.{AudioError}
use asrcpp_gigam.Audio.Opus.{OpusDecoder}
use asrcpp_gigam.Audio.Resampler.{StreamResampler, create as create_resampler}
use asrcpp_gigam.Vad.{VadError}
use asrcpp_gigam.Vad.Detector.{Detector, create as create_detector}
use asrcpp_gigam.Session.{create_session, vad_error}
use asrcpp_gigam.Realtime.{
  TurnDetection, RealtimeSession, make_default_realtime_session_config, seconds_of_ms,
  make_realtime_vad_config, new_session, clear_current_item,
}
use asrcpp_gigam.Realtime.Update.{apply_session_update}
use asrcpp_gigam.Realtime.Events.{event_session_created, event_session_updated}
use asrcpp_gigam.Live.{Outside, audio_failed, session_failed}
use asrcpp_gigam.Live.Events.{C, send, send_error}
use asrcpp_gigam.Live.Handlers.{is_realtime_opus_format, Handled, then_do, new_decoder}

module _ (o : Outside) where
  open o use {floats}

  abbrev pub turn_config : Option (TurnDetection floats) → Config floats → Config floats
  turn_config none config = config
  turn_config (some turn) config = record config {
    vad_threshold = turn.threshold;
    vad_min_silence = seconds_of_ms floats turn.silence_duration_ms;
  }

  -- The session's own configuration: no limit on its length, a flush every 5 seconds.
  abbrev pub live_config : Config floats → Config floats
  live_config server = record server {
    max_audio_sec = floats.lit 0 1;
    live_flush_interval_sec = floats.lit 5 1;
  }

  unfoldable pub resampler_built : C o → Result AudioError (StreamResampler o.src) → Handled o
  resampler_built c (ok r) = (record c { resampler = some r }, ok tt)
  resampler_built c (err e) = (c, err (audio_failed e))

  unfoldable pub build_resampler : C o → Handled o
  unfolding resampler_built
  build_resampler c =
      let from = c.realtime.config.input_sample_rate in
      let to = c.runtime_config.sample_rate in
      if ltb_ℤ from to || ltb_ℤ to from
      then resampler_built c (create_resampler o.src from to)
      else (record c { resampler = none }, ok tt)

  unfoldable pub decoder_built : C o → Result AudioError (OpusDecoder o.opus) → Handled o
  decoder_built c (ok d) = (record c { opus_decoder = some d }, ok tt)
  decoder_built c (err e) = (c, err (audio_failed e))

  unfoldable pub build_decoder : C o → Handled o
  unfolding decoder_built is_realtime_opus_format
  build_decoder c =
      if is_realtime_opus_format c.realtime.config.input_audio_format
      then decoder_built c (new_decoder o c)
      else (record c { opus_decoder = none }, ok tt)

  -- The recognizer is shared: the new session finds it as the old one left it.
  unfoldable pub session_built : C o → Result VadError (Detector floats o.engines.M) → Handled o
  unfolding create_session clear_current_item
  session_built c (err e) = (c, err (session_failed (vad_error e)))
  session_built c (ok vad) = (
    record c {
      session = create_session floats o.engines vad c.runtime_config c.session.world;
      speech_active = false;
      realtime = clear_current_item floats c.realtime;
    },
    ok tt,
  )

  unfoldable pub build_session : C o → Handled o
  unfolding session_built make_realtime_vad_config
  build_session c = session_built c (
      create_detector floats o.engines.silent
        (make_realtime_vad_config floats c.runtime_config c.realtime.config))

  unfoldable pub rebuild_pipeline : Config floats → C o → Handled o
  unfolding then_do build_resampler build_decoder build_session
  rebuild_pipeline server c =
      let d = record c {
        runtime_config = turn_config c.realtime.config.turn_detection (live_config server);
      } in
      then_do o (then_do o (build_resampler d) build_decoder) build_session

  unfoldable pub send_updated : C o → Handled o
  unfolding send event_session_updated
  send_updated c = (send o (event_session_updated floats o.json c.realtime) c, ok tt)

  unfoldable pub apply_update :
      Config floats → Bytes → C o → RealtimeSession floats × Result Bytes (Unit {0}) → Handled o
  unfolding send_error rebuild_pipeline send_updated then_do
  apply_update server client_event_id c (realtime, err message) = (
    send_error o (codes "invalid_session_update") message (codes "session") client_event_id
        (record c { realtime = realtime }),
    ok tt,
  )
  apply_update server client_event_id c (realtime, ok u) =
      then_do o (rebuild_pipeline server (record c { realtime = realtime })) send_updated

  unfoldable pub update_session : Config floats → Bytes → C o → Option o.json.Value → Handled o
  unfolding apply_update apply_session_update send_error
  update_session server client_event_id c none = (
    send_error o (codes "missing_session") (codes "Event must include 'session' object")
        (codes "session") client_event_id c,
    ok tt,
  )
  update_session server client_event_id c (some v) =
      apply_update server client_event_id c (apply_session_update floats o.json v c.realtime)

  unfoldable pub handle_session_update : Config floats → o.json.Value → Bytes → C o → Handled o
  unfolding update_session
  handle_session_update server event client_event_id c =
      update_session server client_event_id c (o.json.find event (codes "session"))

  -- A new connection, as `handleNewConnection` sets it up; `connection_id` is its number.
  unfoldable pub context_of :
      Config floats
      → ℕ
      → RealtimeSession floats
      → o.engines.W
      → Result VadError (Detector floats o.engines.M)
      → Result VadError (C o)
  unfolding create_session
  context_of config connection_id realtime world (err e) = err e
  context_of config connection_id realtime world (ok vad) = ok (record {
    runtime_config = config;
    realtime = realtime;
    session = create_session floats o.engines vad config world;
    resampler = none;
    opus_decoder = none;
    close_reason = codes "normal";
    last_client_event_type = [];
    last_error = [];
    connection_id = connection_id;
    raw_input_samples = 0;
    input_samples = 0;
    append_events = 0;
    ping_events = 0;
    invalid_events = 0;
    decode_errors = 0;
    committed_events = 0;
    completed_events = 0;
    interim_events = 0;
    speech_started_events = 0;
    speech_stopped_events = 0;
    speech_active = false;
    sent = [];
  })

  unfoldable pub greet : Result VadError (C o) → Result VadError (C o)
  unfolding send event_session_created
  greet (ok c) = ok (send o (event_session_created floats o.json c.realtime) c)
  greet (err e) = err e

  -- The default configuration has the server's own rate, so there is nothing to resample.
  unfoldable pub new_connection : Config floats → ℕ → o.engines.W → Result VadError (C o)
  unfolding greet context_of new_session make_default_realtime_session_config
      make_realtime_vad_config
  new_connection server connection_id world =
      let config = live_config server in
      let realtime =
        new_session floats connection_id (make_default_realtime_session_config floats config) in
      greet (
        context_of config connection_id realtime world (
          create_detector floats o.engines.silent
            (make_realtime_vad_config floats config realtime.config)))
