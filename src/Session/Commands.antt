-- ===== src/Session/Commands.antt =====
-- The methods of `ASRSession` (src/handler.cpp) in any order: how they end, and how many sessions the
-- metrics count.
use asrcpp_gigam.Base.{All, ◌<◌, ◌≡◌, refl, ◌∙◌, List, [], ◌∷◌, arith}
use asrcpp_gigam.Base.Int.{pos_part}
use asrcpp_gigam.Base.Result.{Result, ok}
use asrcpp_gigam.Base.Floats.{Floats}
use asrcpp_gigam.Config.{Config}
use asrcpp_gigam.Vad.Detector.{Detector, window, pop_transition as vad_pop_transition}
use asrcpp_gigam.Session.{SessionError, Engines, Outcome, reset_session, create_session}
use asrcpp_gigam.Session.Handlers.{
  on_audio, on_recognize, on_reset, on_close, pop_speech_transition,
}
use asrcpp_gigam.Session.Steps.{Expected, S, Live}
use asrcpp_gigam.Session.Balance.{
  Balanced, Safe, ended_balanced, reset_vad-window, on_audio-Safe, on_recognize-Safe,
}

pub data Command {ℓ} (F : Type ℓ) : Type ℓ where
  audio : List F → Command F
  recognize clear close next_transition : Command F

module _ (fl : Floats) (en : Engines fl) where
  open fl use {Float}

  -- What a connection does to its session; `clear` is the RESET command.
  unfoldable step : Command Float → S fl en → Outcome fl en
  step (audio samples) s = on_audio fl en samples s
  step recognize s = on_recognize fl en s
  step clear s = (on_reset fl en s, ok tt)
  step close s = (on_close fl en s, ok tt)
  step next_transition s = (pop_speech_transition fl en s, ok tt)

  step-Safe : (c : Command Float) (s : S fl en) → Safe fl en s (step c s)
  unfolding step on_reset on_close reset_session pop_speech_transition vad_pop_transition
  step-Safe (audio samples) s = on_audio-Safe fl en samples s
  step-Safe recognize s = on_recognize-Safe fl en s
  step-Safe clear s = record {
    live = λ v. record {
      agree = reset_vad-window fl en s.vad ∙ v.agree;
      positive = v.positive;
      room = v.positive;
    };
    expected = λ v. tt;
    balanced = λ v b. ended_balanced fl en s.session_active s.sessions_started s.sessions_ended b;
  }
  step-Safe close s = record {
    live = λ v. record { agree = v.agree; positive = v.positive; room = v.room };
    expected = λ v. tt;
    balanced = λ v b. ended_balanced fl en s.session_active s.sessions_started s.sessions_ended b;
  }
  step-Safe next_transition s = record {
    live = λ v. record { agree = v.agree; positive = v.positive; room = v.room };
    expected = λ v. tt;
    balanced = λ v b. b;
  }

  -- The session after the commands, and how each of them ended.
  unfoldable pub run :
      List (Command Float) → S fl en → S fl en × List (Result SessionError (Unit {0}))
  unfolding step
  run [] s = (s, [])
  run (c ∷ cs) s = let (t, e) = step c s in let (u, es) = run cs t in (u, e ∷ es)

  run-Safe :
      (cs : List (Command Float)) (s : S fl en)
      → Live fl en s
      → Balanced fl en s
      → Live fl en (run cs s).0 × Balanced fl en (run cs s).0 × All Expected (run cs s).1
  unfolding run
  run-Safe [] s v b = (v, b, tt)
  run-Safe (c ∷ cs) s v b =
      let g = step-Safe c s in
      let (w, a, es) = run-Safe cs ((step c s).0) (g.live v) (g.balanced v b) in
      (w, a, (g.expected v, es))

  create_session-Live :
      (vad : Detector fl en.M) (config : Config fl) (world : en.W)
      → window fl vad ≡ pos_part config.vad_window_size
      → 0 < pos_part config.vad_window_size
      → Live fl en (create_session fl en vad config world)
  unfolding create_session reset_session
  create_session-Live vad config world h p = record { agree = h; positive = p; room = p }

  create_session-Balanced :
      (vad : Detector fl en.M) (config : Config fl) (world : en.W)
      → Balanced fl en (create_session fl en vad config world)
  unfolding create_session reset_session
  create_session-Balanced vad config world = refl

  -- If the detector has the window size of the configuration, then whatever chunks a session is
  -- given and whatever commands follow one another, each call returns or ends with an exception of
  -- the recognizer: the detector is never given a window of a wrong size, and the loop over a chunk
  -- always ends.
  pub never_misfed :
      (vad : Detector fl en.M) (config : Config fl) (world : en.W) (cs : List (Command Float))
      → window fl vad ≡ pos_part config.vad_window_size
      → 0 < pos_part config.vad_window_size
      → All Expected (run cs (create_session fl en vad config world)).1
  never_misfed vad config world cs h p =
      let (v, b, es) =
        run-Safe cs (create_session fl en vad config world)
          (create_session-Live vad config world h p) (create_session-Balanced vad config world) in
      es

  -- After any commands, also where the recognizer has thrown, the metrics have seen as many sessions
  -- start as end, and one more while a session is active; once the connection is closed they have
  -- seen as many end as start.
  pub sessions_counted :
      (vad : Detector fl en.M) (config : Config fl) (world : en.W) (cs : List (Command Float))
      → window fl vad ≡ pos_part config.vad_window_size
      → 0 < pos_part config.vad_window_size
      → Balanced fl en (run cs (create_session fl en vad config world)).0
        × ((on_close fl en (run cs (create_session fl en vad config world)).0).sessions_started
            ≡ (on_close fl en (run cs (create_session fl en vad config world)).0).sessions_ended)
  unfolding on_close
  sessions_counted vad config world cs h p =
      let (v, b, es) =
        run-Safe cs (create_session fl en vad config world)
          (create_session-Live vad config world h p) (create_session-Balanced vad config world) in
      let s = (run cs (create_session fl en vad config world)).0 in
      (b, ended_balanced fl en s.session_active s.sessions_started s.sessions_ended b ∙ omega arith)
