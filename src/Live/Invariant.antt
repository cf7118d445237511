-- ===== src/Live/Invariant.antt =====
-- What holds of a connection (src/server.cpp) after any messages.

use asrcpp_gigam.Live.Dispatch.{
  Task, invalid, unknown_event, handle_event, report, caught, run_task, binary_task, event_task,
}
use asrcpp_gigam.Realtime.Settings.{Served}
use asrcpp_gigam.Realtime.Served.{updated_config-Ensures}
use asrcpp_gigam.Realtime.Update.{Updated, updated_config, store_update, apply_session_update}
use asrcpp_gigam.Session.{vad_error, recognizer_failed, out_of_fuel}
use asrcpp_gigam.Base.{if_cases, ℕ, ◌+◌, refl, false, ◌||◌, Option, none, some, [], arith}
use asrcpp_gigam.Base.Int.{ltb_ℤ}
use asrcpp_gigam.Base.Bytes.{Bytes, codes, bytes_eq}
use asrcpp_gigam.Base.Result.{Result, Ensures, ok, err}
use asrcpp_gigam.Config.{Config}
use asrcpp_gigam.Vad.{VadError}
use asrcpp_gigam.Vad.Detector.{Detector, create as create_detector}
use asrcpp_gigam.Audio.{AudioError}
use asrcpp_gigam.Audio.Opus.{OpusDecoder}
use asrcpp_gigam.Audio.Resampler.{StreamResampler, create as create_resampler}
use asrcpp_gigam.Realtime.{make_realtime_vad_config, S, next_event_id, clear_current_item}
use asrcpp_gigam.Realtime.Events.{event_buffer_cleared, event_session_updated}
use asrcpp_gigam.Session.Handlers.{on_reset}
use asrcpp_gigam.Live.{Outside, Failure, audio_failed, session_failed}
use asrcpp_gigam.Live.Events.{C}
use asrcpp_gigam.Live.Handlers.{
  is_realtime_opus_format, Handled, then_do, new_decoder, handle_audio_append_binary,
}
use asrcpp_gigam.Live.Commit.{map_resampler, reset_opus, send_cleared, handle_audio_clear}
use asrcpp_gigam.Live.Pipeline.{
  turn_config, live_config, resampler_built, build_resampler, decoder_built, build_decoder,
  session_built, build_session, rebuild_pipeline, send_updated, apply_update, update_session,
  handle_session_update,
}
use asrcpp_gigam.Live.Counts.{Sound, Inv, send-Inv, send_error-Inv}
use asrcpp_gigam.Live.Committed.{handle_audio_commit-Inv}
use asrcpp_gigam.Live.Kept.{then_do-Inv, handle_audio_append_binary-Inv, handle_audio_append-Inv}

module _ (o : Outside) where
  open o use {floats}

  cleared-Sound :
      (s : S floats) (completed committed : ℕ)
      → Sound floats s completed committed
      → Sound floats (clear_current_item floats s) completed committed
  unfolding clear_current_item
  cleared-Sound s completed committed v = record {
    finished = v.finished;
    named = omega (arith, v.named);
    served = v.served;
  }

  reset_opus-Inv :
      (d : Option (OpusDecoder o.opus)) (c : C o) → Inv o c → Inv o (reset_opus o d c).0
  unfolding reset_opus
  reset_opus-Inv none c v = v
  reset_opus-Inv (some d) c v = v

  send_cleared-Inv : (c : C o) → Inv o c → Inv o (send_cleared o c).0
  unfolding send_cleared event_buffer_cleared next_event_id
  send_cleared-Inv c v =
      let w = cleared-Sound c.realtime c.completed_events c.committed_events v in
      let s = clear_current_item floats c.realtime in
      send-Inv o [] _ (record c { realtime = s; speech_active = false }) refl refl w.served w

  handle_audio_clear-Inv : (c : C o) → Inv o c → Inv o (handle_audio_clear o c).0
  unfolding handle_audio_clear
  handle_audio_clear-Inv c v =
      let d = record c {
        session = on_reset floats o.engines c.session;
        resampler = map_resampler o c.resampler;
      } in
      then_do-Inv o (reset_opus o d.opus_decoder d) (send_cleared o)
        (reset_opus-Inv d.opus_decoder d v) send_cleared-Inv

  resampler_built-Inv :
      (c : C o) (r : Result AudioError (StreamResampler o.src))
      → Inv o c
      → Inv o (resampler_built o c r).0
  unfolding resampler_built
  resampler_built-Inv c (ok r) v = v
  resampler_built-Inv c (err e) v = v

  decoder_built-Inv :
      (c : C o) (r : Result AudioError (OpusDecoder o.opus))
      → Inv o c
      → Inv o (decoder_built o c r).0
  unfolding decoder_built
  decoder_built-Inv c (ok d) v = v
  decoder_built-Inv c (err e) v = v

  session_built-Inv :
      (c : C o) (r : Result VadError (Detector floats o.engines.M))
      → Inv o c
      → Inv o (session_built o c r).0
  unfolding session_built
  session_built-Inv c (ok d) v = cleared-Sound c.realtime c.completed_events c.committed_events v
  session_built-Inv c (err e) v = v

  build_resampler-Inv : (c : C o) → Inv o c → Inv o (build_resampler o c).0
  unfolding build_resampler
  build_resampler-Inv c v =
      let from = c.realtime.config.input_sample_rate in
      let to = c.runtime_config.sample_rate in
      if_cases (λ (h : Handled o). Inv o h.0) (ltb_ℤ from to || ltb_ℤ to from)
        (λ _. resampler_built-Inv c (create_resampler o.src from to) v) λ _. v

  build_decoder-Inv : (c : C o) → Inv o c → Inv o (build_decoder o c).0
  unfolding build_decoder
  build_decoder-Inv c v =
      if_cases (λ (h : Handled o). Inv o h.0)
        (is_realtime_opus_format c.realtime.config.input_audio_format)
        (λ _. decoder_built-Inv c (new_decoder o c) v) λ _. v

  rebuild_pipeline-Inv :
      (server : Config floats) (c : C o) → Inv o c → Inv o (rebuild_pipeline o server c).0
  unfolding rebuild_pipeline build_session
  rebuild_pipeline-Inv server c v =
      let d = record c {
        runtime_config = turn_config o c.realtime.config.turn_detection (live_config o server);
      } in
      then_do-Inv o (then_do o (build_resampler o d) (build_decoder o)) (build_session o)
        (then_do-Inv o (build_resampler o d) (build_decoder o) (build_resampler-Inv d v)
          build_decoder-Inv)
        λ e w.
          session_built-Inv e
            (create_detector floats o.engines.silent
              (make_realtime_vad_config floats e.runtime_config e.realtime.config))
            w

  stored-Sound :
      (s : S floats) (completed committed : ℕ) (r : Updated floats o.json)
      → Sound floats s completed committed
      → Ensures (Served floats) r
      → Sound floats (store_update floats o.json s r).0 completed committed
  unfolding store_update
  stored-Sound s completed committed (ok next) v k = record {
    finished = v.finished;
    named = v.named;
    served = k;
  }
  stored-Sound s completed committed (err message) v k = v

  send_updated-Inv : (c : C o) → Inv o c → Inv o (send_updated o c).0
  unfolding send_updated event_session_updated next_event_id
  send_updated-Inv c v = send-Inv o [] _ c refl refl v.served v

  apply_update-Inv :
      (server : Config floats) (id : Bytes) (c : C o) (u : S floats × Result Bytes (Unit {0}))
      → Inv o (record c { realtime = u.0 })
      → Inv o (apply_update o server id c u).0
  unfolding apply_update
  apply_update-Inv server id c (s, err message) v =
      send_error-Inv o (codes "invalid_session_update") message (codes "session") id
        (record c { realtime = s }) v
  apply_update-Inv server id c (s, ok u) v =
      let d = record c { realtime = s } in
      then_do-Inv o (rebuild_pipeline o server d) (send_updated o) (rebuild_pipeline-Inv server d v)
        send_updated-Inv

  update_session-Inv :
      (server : Config floats) (id : Bytes) (c : C o) (u : Option o.json.Value)
      → Inv o c
      → Inv o (update_session o server id c u).0
  unfolding update_session apply_session_update
  update_session-Inv server id c none v =
      send_error-Inv o [] (codes "Event must include 'session' object") (codes "session") id c v
  update_session-Inv server id c (some u) v =
      let r = updated_config floats o.json u c.realtime.config in
      apply_update-Inv server id c (store_update floats o.json c.realtime r) (
        stored-Sound c.realtime c.completed_events c.committed_events r v
          (updated_config-Ensures floats o.json u c.realtime.config v.served))

  handle_event-Inv :
      (fuel : ℕ) (server : Config floats) (event : o.json.Value) (event_type id : Bytes) (c : C o)
      → Inv o c
      → Inv o (handle_event o fuel server event event_type id c).0
  unfolding handle_event handle_session_update unknown_event invalid
  handle_event-Inv fuel server event event_type id c v =
      let P : Handled o → Type 0 = λ h. Inv o h.0 in
      if_cases P
        (bytes_eq event_type (codes "transcription_session.update")
          || bytes_eq event_type (codes "session.update"))
        (λ _. update_session-Inv server id c (o.json.find event (codes "session")) v)
        λ _.
          if_cases P (bytes_eq event_type (codes "input_audio_buffer.append"))
            (λ _. handle_audio_append-Inv o fuel event id c v)
            λ _.
              if_cases P (bytes_eq event_type (codes "input_audio_buffer.commit"))
                (λ _. handle_audio_commit-Inv o fuel c v)
                λ _.
                  if_cases P (bytes_eq event_type (codes "input_audio_buffer.clear"))
                    (λ _. handle_audio_clear-Inv c v)
                    λ _.
                      send_error-Inv o [] (codes "Unsupported event type") (codes "type") id
                        (record c { invalid_events = c.invalid_events + 1 }) v

  report-Inv : (e : Failure) (id : Bytes) (c : C o) → Inv o c → Inv o (report o e id c)
  unfolding report
  report-Inv (audio_failed e) id c v =
      send_error-Inv o [] (o.audio_what e) (codes "audio") id
        (record c { decode_errors = c.decode_errors + 1 }) v
  report-Inv (session_failed recognizer_failed) id c v =
      send_error-Inv o [] (o.session_what recognizer_failed) [] [] c v
  report-Inv (session_failed out_of_fuel) id c v =
      send_error-Inv o [] (o.session_what out_of_fuel) [] id c v
  report-Inv (session_failed (vad_error e)) id c v =
      send_error-Inv o [] (o.session_what (vad_error e)) [] id c v

  caught-Inv : (id : Bytes) (h : Handled o) → Inv o h.0 → Inv o (caught o id h)
  unfolding caught
  caught-Inv id (c, ok u) v = v
  caught-Inv id (c, err e) v = report-Inv e id c v

  pub run_task-Inv :
      (fuel : ℕ) (server : Config floats) (t : Task o.json.Value) (c : C o)
      → Inv o c
      → Inv o (run_task o fuel server t c)
  unfolding run_task
  run_task-Inv fuel server (binary_task payload) c v =
      caught-Inv [] (handle_audio_append_binary o fuel payload c)
        (handle_audio_append_binary-Inv o fuel payload c v)
  run_task-Inv fuel server (event_task event event_type id) c v =
      caught-Inv id (handle_event o fuel server event event_type id c)
        (handle_event-Inv fuel server event event_type id c v)
