-- ===== src/Session/Turns.antt =====
-- How a turn ends: `on_recognize` of src/handler.cpp.
use asrcpp_gigam.Base.{if_cases, ◌≡◌, refl, false, List, [], ◌∷◌, ◌++◌}
use asrcpp_gigam.Base.Result.{ok, err}
use asrcpp_gigam.Base.Floats.{Floats}
use asrcpp_gigam.Vad.Detector.{reset as vad_reset}
use asrcpp_gigam.Session.{OutMessage, done, Engines, Outcome, and_then, reset_session}
use asrcpp_gigam.Session.Handlers.{finalize_session, after_segments, drain, finalize, on_recognize}
use asrcpp_gigam.Session.Steps.{S}

module _ (fl : Floats) (en : Engines fl) where
  -- Nothing of the turn is left but its messages, which end with `done`.
  pub record Fresh (s : S fl en) : Type 0 where
    pub answered : List (OutMessage (fl.Float))
    pub messages : s.out_messages ≡ answered ++ (done ∷ [])
    pub pending : s.pending ≡ []
    pub live : s.live_chunk ≡ []
    pub quiet : s.vad.in_speech ≡ false
    pub segments : s.vad.segments ≡ []
    pub transitions : s.vad.transitions ≡ []
    pub heard : s.vad.total_samples_seen ≡ 0
    pub received : s.total_samples_received ≡ 0
    pub inactive : s.session_active ≡ false

  abbrev Ends : Outcome fl en → Type 0
  Ends (s, ok u) = Fresh s
  Ends (s, err e) = Unit

  Ends-Fresh : (r : Outcome fl en) → r.1 ≡ ok tt → Ends r → Fresh r.0
  Ends-Fresh (s, ok u) e h = h
  Ends-Fresh (s, err x) e h = cc

  finalize-Fresh : (s : S fl en) → Fresh (finalize_session fl en s)
  unfolding finalize_session reset_session vad_reset
  finalize-Fresh s = record {
    answered = s.out_messages;
    messages = refl;
    pending = refl;
    live = refl;
    quiet = refl;
    segments = refl;
    transitions = refl;
    heard = refl;
    received = refl;
    inactive = refl;
  }

  finalized-Ends : (r : Outcome fl en) → Ends (and_then fl en r (finalize fl en))
  unfolding and_then finalize
  finalized-Ends (s, ok u) = finalize-Fresh s
  finalized-Ends (s, err e) = tt

  -- When `on_recognize` ends a turn, unless the turn was ended already for its length, the messages
  -- end with `done` and the session starts anew: no audio, no segment and no speech transition is
  -- left. So a `Stopped` that the turn's end has queued is gone before the caller can read it.
  pub on_recognize-Fresh :
      (s : S fl en)
      → s.max_duration_exceeded ≡ false
      → (on_recognize fl en s).1 ≡ ok tt
      → Fresh (on_recognize fl en s).0
  unfolding on_recognize
  on_recognize-Fresh s h e = Ends-Fresh (on_recognize fl en s) e (
      if_cases Ends s.max_duration_exceeded (λ t. cc)
        (λ _.
          finalized-Ends
            (and_then fl en (drain fl en (record s { out_messages = [] })) (after_segments fl en))))
