-- ===== src/Live/Committed.antt =====
-- That the end of a turn (handle_audio_commit of src/server.cpp) keeps the counters of a connection
-- sound.

use asrcpp_gigam.Live.Commit.{
  Counted, emitted, hear_tail, flush_resampler, recognize_turn, commit_without_final, commit_turn,
  handle_audio_commit,
}
use asrcpp_gigam.Base.{ℕ, zero, suc, Option, none, some, List, [], ◌∷◌, arith}
use asrcpp_gigam.Base.Result.{Result, ok, err}
use asrcpp_gigam.Audio.{AudioError}
use asrcpp_gigam.Audio.Resampler.{StreamResampler, flush as flush_samples}
use asrcpp_gigam.Session.Handlers.{on_recognize}
use asrcpp_gigam.Live.{Outside}
use asrcpp_gigam.Live.Events.{C}
use asrcpp_gigam.Live.Handlers.{F, Handled, with_session, hear}
use asrcpp_gigam.Live.Counts.{Inv, send_commit-Sound}
use asrcpp_gigam.Live.Kept.{emit-Inv, with_session-Inv, hear-Inv}

module _ (o : Outside) where
  emitted-Inv : (n : ℕ) (h : Handled o) → Inv o h.0 → Inv o (emitted o n h).0.1
  unfolding emitted
  emitted-Inv n (c, ok u) v = emit-Inv o c v
  emitted-Inv n (c, err e) v = v

  hear_tail-Inv :
      (c : C o) (r : StreamResampler o.src × Result AudioError (List (F o)))
      → Inv o c
      → Inv o (hear_tail o c r).0.1
  unfolding hear_tail
  hear_tail-Inv c (r, err e) v = v
  hear_tail-Inv c (r, ok []) v = v
  hear_tail-Inv c (r, ok (x ∷ xs)) v =
      emitted-Inv 0 (hear o (x ∷ xs) (record c { resampler = some r }))
        (hear-Inv o (x ∷ xs) (record c { resampler = some r }) v)

  flush_resampler-Inv :
      (fuel : ℕ) (r : Option (StreamResampler o.src)) (c : C o)
      → Inv o c
      → Inv o (flush_resampler o fuel r c).0.1
  unfolding flush_resampler
  flush_resampler-Inv fuel none c v = v
  flush_resampler-Inv fuel (some r) c v = hear_tail-Inv c (flush_samples o.src fuel r) v

  recognize_turn-Inv : (k : Counted o) → Inv o k.0.1 → Inv o (recognize_turn o k).0.1
  unfolding recognize_turn
  recognize_turn-Inv ((n, c), ok u) v =
      let r = on_recognize o.floats o.engines c.session in
      emitted-Inv n (with_session o c r) (with_session-Inv o c r v)
  recognize_turn-Inv ((n, c), err e) v = v

  commit_turn-Inv : (k : Counted o) → Inv o k.0.1 → Inv o (commit_turn o k).0
  unfolding commit_turn commit_without_final
  commit_turn-Inv ((zero, c), ok u) v =
      let k = send_commit-Sound o c 0 (omega arith) v in
      record { finished = omega (arith, v.finished); named = k.named; served = k.served }
  commit_turn-Inv ((suc n, c), ok u) v = v
  commit_turn-Inv ((zero, c), err e) v = v
  commit_turn-Inv ((suc n, c), err e) v = v

  pub handle_audio_commit-Inv :
      (fuel : ℕ) (c : C o) → Inv o c → Inv o (handle_audio_commit o fuel c).0
  unfolding handle_audio_commit
  handle_audio_commit-Inv fuel c v =
      let k = flush_resampler o fuel c.resampler c in
      commit_turn-Inv (recognize_turn o k)
        (recognize_turn-Inv k (flush_resampler-Inv fuel c.resampler c v))
