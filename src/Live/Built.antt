-- ===== src/Live/Built.antt =====
-- That a session update never fails for what it builds (`rebuild_pipeline` of src/server.cpp).

use asrcpp_gigam.Realtime.Events.{event_session_updated, event_error}
use asrcpp_gigam.Base.Bytes.{Bytes, codes}
use asrcpp_gigam.Realtime.Settings.{Served}
use asrcpp_gigam.Realtime.Served.{updated_config-Ensures}
use asrcpp_gigam.Realtime.{
  RealtimeSessionConfig, apply_turn_detection, make_realtime_vad_config, next_event_id,
  clear_current_item,
}
use asrcpp_gigam.Config.Ranges.{
  Ranges, validate-Ranges, Literals, Proper, clamped-Proper, validated-Proper, built_within,
}
use asrcpp_gigam.Config.{Config, validate}
use asrcpp_gigam.Base.{Option-cases, ◌≡◌, refl, inl, inr, false}
use asrcpp_gigam.Base.Result.{Ensures, ok, err}
use asrcpp_gigam.Vad.Detector.{initial, create as create_detector}
use asrcpp_gigam.Realtime.Update.{Updated, updated_config, store_update, apply_session_update}
use asrcpp_gigam.Live.Rebuilt.{
  Willing, resampler_for, decoder_for, resampler_for-some, decoder_for-some, build_resampler_lem,
  build_decoder_lem, runtime_for, session_for, Rebuilt, Refused, Reply, Replied,
}
use asrcpp_gigam.Live.{Outside}
use asrcpp_gigam.Live.Events.{C, send, send_error}
use asrcpp_gigam.Live.Handlers.{then_do}
use asrcpp_gigam.Live.Pipeline.{
  turn_config, live_config, session_built, build_session, rebuild_pipeline, send_updated,
  apply_update, update_session, handle_session_update,
}

module _ (o : Outside) where
  open o use {floats}

  pub detector_built :
      (server : Config floats) (rc : RealtimeSessionConfig floats)
      → Literals floats
      → Ranges floats server
      → Proper floats server.vad_threshold
      → let v =
          make_realtime_vad_config floats
            (turn_config o rc.turn_detection (live_config o server))
            rc in
        create_detector floats o.engines.silent v ≡ ok (initial floats o.engines.silent v)
  unfolding make_realtime_vad_config apply_turn_detection
  detector_built server rc l r p = elim (Option-cases rc.turn_detection) [
    | inl e ↦ rw e (built_within floats o.engines.silent server _ r refl refl refl p)
    | inr (turn, e) ↦ rw e (
        built_within floats o.engines.silent server _ r refl refl refl
          (clamped-Proper floats l turn.threshold))
  ]

  -- Everything is built, since nothing of it fails.
  rebuild_pipeline_lem :
      (server : Config floats) (c : C o)
      → Willing o
      → Literals floats
      → Ranges floats server
      → Proper floats server.vad_threshold
      → Served floats c.realtime.config
      → let next = c.realtime.config in
        rebuild_pipeline o server c ≡ (
          record c {
            runtime_config = runtime_for o server next;
            resampler = resampler_for o next (runtime_for o server next);
            opus_decoder = decoder_for o next;
            session = session_for o server next c.session.world;
            speech_active = false;
            realtime = clear_current_item floats c.realtime;
          },
          ok tt,
        )
  unfolding rebuild_pipeline then_do build_session session_built
  rebuild_pipeline_lem server c w l r p v =
      let d = record c { runtime_config = runtime_for o server c.realtime.config } in
      rw (build_resampler_lem o d w) (
        rw
          (build_decoder_lem o
            (record d { resampler = resampler_for o d.realtime.config d.runtime_config }) w v)
          (rw (detector_built server c.realtime.config l r p) refl))

  pipeline-Reply :
      (server : Config floats) (c : C o) (next : RealtimeSessionConfig floats)
      → let d = record c { realtime = record (c.realtime) { config = next } } in
        Willing o
        → Literals floats
        → Ranges floats server
        → Proper floats server.vad_threshold
        → Served floats next
        → let h = then_do o (rebuild_pipeline o server d) (send_updated o) in
          (h.1 ≡ ok tt) × Rebuilt o server next c h.0
  unfolding then_do send_updated send event_session_updated next_event_id clear_current_item
  pipeline-Reply server c next w l r p v =
      rw
        (rebuild_pipeline_lem server (record c { realtime = record (c.realtime) { config = next } })
          w l r p v)
        (
          refl,
          record {
            configured = refl;
            runtime = refl;
            session = refl;
            resampler = refl;
            decoder = refl;
            resamples = resampler_for-some o next (runtime_for o server next) w;
            decodes = decoder_for-some o next w v;
            no_speech = refl;
            no_item = refl;
            told = refl;
          },
        )

  error-Refused :
      (code message id : Bytes) (c : C o)
      → Refused o code message id c (send_error o code message (codes "session") id c)
  unfolding send_error send event_error next_event_id
  error-Refused code message id c = record {
    configured = refl;
    runtime = refl;
    session = refl;
    resampler = refl;
    decoder = refl;
    told = refl;
  }

  applied-Reply :
      (server : Config floats) (id : Bytes) (c : C o) (u : Updated floats o.json)
      → Willing o
      → Literals floats
      → Ranges floats server
      → Proper floats server.vad_threshold
      → Ensures (Served floats) u
      → let h = apply_update o server id c (store_update floats o.json c.realtime u) in
        (h.1 ≡ ok tt) × Reply o server id c h.0 u
  unfolding apply_update store_update
  applied-Reply server id c (err message) w l r p v =
      (refl, error-Refused (codes "invalid_session_update") message id c)
  applied-Reply server id c (ok next) w l r p v = pipeline-Reply server c next w l r p v

  -- Every `session.update` that reaches a connection of a validated server throws nothing and is
  -- answered by exactly one event. Without a 'session' that is the error `missing_session`, and for
  -- an update that `apply_session_update` refuses the error `invalid_session_update` with its message;
  -- then nothing is built and the configuration stays. Otherwise the configuration is the updated one,
  -- and built for it are the configuration of the detector and the recognizer, a resampler if the
  -- rates differ (else there is none), an Opus decoder if the format is Opus (else there is none) and
  -- a new session with a new detector; no speech is active, there is no current item, and the event is
  -- `transcription_session.updated` with the updated configuration. The connection's configuration is
  -- one that the server can serve, the libraries set up what they are asked for at the rates that they
  -- support, and the literals of the threshold are ordered as they are.
  pub update_answered :
      (file server : Config floats) (event : o.json.Value) (id : Bytes) (c : C o)
      → Willing o
      → Literals floats
      → validate floats file ≡ ok server
      → Served floats c.realtime.config
      → let h = handle_session_update o server event id c in
        (h.1 ≡ ok tt) × Replied o server id c h.0 (o.json.find event (codes "session"))
  unfolding handle_session_update update_session apply_session_update
  update_answered file server event id c w l e v =
      elim (Option-cases (o.json.find event (codes "session"))) [
        | inl f ↦ rw f (
          refl,
          error-Refused (codes "missing_session") (codes "Event must include 'session' object") id
              c,
        )
        | inr (u, f) ↦ rw f (
            applied-Reply server id c (updated_config floats o.json u c.realtime.config) w l
              (validate-Ranges floats file server e) (validated-Proper floats l file server e)
              (updated_config-Ensures floats o.json u c.realtime.config v))
      ]
