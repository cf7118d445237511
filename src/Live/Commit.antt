-- ===== src/Live/Commit.antt =====
-- The end of a turn and the clearing of its audio: `handle_audio_commit` and `handle_audio_clear` of
-- src/server.cpp.
use asrcpp_gigam.Base.{ℕ, zero, suc, ◌+◌, false, Option, none, some, List, [], ◌∷◌}
use asrcpp_gigam.Base.Result.{Result, ok, err}
use asrcpp_gigam.Audio.{AudioError}
use asrcpp_gigam.Audio.Opus.{OpusDecoder, reset as reset_decoder}
use asrcpp_gigam.Audio.Resampler.{StreamResampler, flush as flush_samples, reset as reset_resampler}
use asrcpp_gigam.Session.Handlers.{on_recognize, on_reset}
use asrcpp_gigam.Realtime.{clear_current_item}
use asrcpp_gigam.Realtime.Events.{event_buffer_cleared}
use asrcpp_gigam.Live.{Outside, Failure, audio_failed}
use asrcpp_gigam.Live.Events.{C, send, send_commit}
use asrcpp_gigam.Live.Handlers.{F, Handled, then_do, audio_result, with_session, hear, emit}

module _ (o : Outside) where
  -- The finals that were sent so far, and the connection.
  abbrev pub Counted : Type 0
  Counted = (ℕ × C o) × Result Failure (Unit {0})

  unfoldable pub emitted : ℕ → Handled o → Counted
  unfolding emit
  emitted finals (c, ok u) = let (n, d) = emit o c in ((finals + n, d), ok tt)
  emitted finals (c, err e) = ((finals, c), err e)

  -- The tail of the resampler is heard and emitted, if there is one.
  unfoldable pub hear_tail : C o → StreamResampler o.src × Result AudioError (List (F o)) → Counted
  unfolding emitted hear
  hear_tail c (r, err e) = ((0, record c { resampler = some r }), err (audio_failed e))
  hear_tail c (r, ok []) = ((0, record c { resampler = some r }), ok tt)
  hear_tail c (r, ok (x ∷ xs)) = emitted 0 (hear o (x ∷ xs) (record c { resampler = some r }))

  unfoldable pub flush_resampler : ℕ → Option (StreamResampler o.src) → C o → Counted
  unfolding hear_tail
  flush_resampler fuel none c = ((0, c), ok tt)
  flush_resampler fuel (some r) c = hear_tail c (flush_samples o.src fuel r)

  unfoldable pub recognize_turn : Counted → Counted
  unfolding emitted with_session
  recognize_turn ((finals, c), ok u) =
      emitted finals (with_session o c (on_recognize o.floats o.engines c.session))
  recognize_turn ((finals, c), err e) = ((finals, c), err e)

  unfoldable pub commit_without_final : C o → C o
  unfolding send_commit
  commit_without_final c =
      let d = (send_commit o c).1 in record d { committed_events = d.committed_events + 1 }

  unfoldable pub commit_turn : Counted → Handled o
  unfolding commit_without_final
  commit_turn ((zero, c), ok u) = (record (commit_without_final c) { speech_active = false }, ok tt)
  commit_turn ((suc n, c), ok u) = (record c { speech_active = false }, ok tt)
  commit_turn ((finals, c), err e) = (c, err e)

  unfoldable pub handle_audio_commit : ℕ → C o → Handled o
  unfolding flush_resampler recognize_turn commit_turn
  handle_audio_commit fuel c = commit_turn (recognize_turn (flush_resampler fuel c.resampler c))

  abbrev pub map_resampler : Option (StreamResampler o.src) → Option (StreamResampler o.src)
  map_resampler none = none
  map_resampler (some r) = some (reset_resampler o.src r)

  -- The decoder's `reset` may throw; then nothing after it is done.
  unfoldable pub reset_opus : Option (OpusDecoder o.opus) → C o → Handled o
  reset_opus none c = (c, ok tt)
  reset_opus (some d) c =
      let (e, outcome) = reset_decoder o.opus d in
      (record c { opus_decoder = some e }, audio_result o outcome)

  unfoldable pub send_cleared : C o → Handled o
  unfolding send clear_current_item event_buffer_cleared
  send_cleared c = (
    send o (event_buffer_cleared o.floats (clear_current_item o.floats c.realtime))
        (record c { speech_active = false }),
    ok tt,
  )

  unfoldable pub handle_audio_clear : C o → Handled o
  unfolding reset_opus then_do send_cleared on_reset
  handle_audio_clear c =
      let d = record c {
        session = on_reset o.floats o.engines c.session;
        resampler = map_resampler c.resampler;
      } in
      then_do o (reset_opus d.opus_decoder d) send_cleared
