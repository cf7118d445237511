-- ===== src/Session.antt =====
-- `ASRSession` of src/handler.cpp and include/asr/handler.h: the live recognition of one
-- connection. The recognizer is a parameter: `recognize samples rate world` is the text, or `none`
-- if it throws, and the recognizer's next state; so is the float arithmetic of `compute_rms`. The
-- clock and the metrics that are fed from it are left out, but for the calls that count sessions.
-- A message holds the values that its JSON is written from.
pub mod Handlers
pub mod Steps
pub mod Windows
pub mod Balance
pub mod Commands
pub mod Turns
pub mod Runs
use asrcpp_gigam.Base.{
  if◌then◌else◌, length, is_empty, ℕ, ◌+◌, Bool, true, false, ◌||◌, Option, none, some, List, [],
  ◌∷◌, ◌++◌,
}
use asrcpp_gigam.Base.Bytes.{Bytes}
use asrcpp_gigam.Base.Int.{pos_part}
use asrcpp_gigam.Base.Result.{Result, ok, err}
use asrcpp_gigam.Base.Floats.{Floats}
use asrcpp_gigam.Config.{Config}
use asrcpp_gigam.Vad.{SpeechSegment, VadError}
use asrcpp_gigam.Vad.Detector.{Detector, pop}

pub data OutMessage {ℓ} (F : Type ℓ) : Type ℓ where
  interim : F → F → Bool → OutMessage F
  final : Bytes → F → OutMessage F
  done : OutMessage F

-- `out_of_fuel` has no counterpart in the program.
pub data SessionError : Type 0 where
  vad_error : VadError → SessionError
  recognizer_failed out_of_fuel : SessionError

abbrev pub is_final {ℓ} : {F : Type ℓ} → OutMessage F → Bool
is_final (final text duration) = true
is_final _ = false

abbrev pub any_final {ℓ} : {F : Type ℓ} → List (OutMessage F) → Bool
any_final [] = false
any_final (m ∷ ms) = is_final m || any_final ms

-- What the session is given: the network and its zero state, the recognizer, the loudness.
pub record Engines (fl : Floats) : Type 1 where
  pub M : Type 0
  pub network : List (fl.Float) → M → fl.Float × M
  pub silent : M
  pub W : Type 0
  pub recognize : List (fl.Float) → ℕ → W → Option Bytes × W
  pub compute_rms : List (fl.Float) → fl.Float

module _ (fl : Floats) (en : Engines fl) where
  open fl use {Float}

  pub record Session : Type 0 where
    pub vad : Detector fl en.M
    pub config : Config fl
    pub out_messages : List (OutMessage Float)
    pub pending : List Float
    pub live_chunk : List Float
    pub has_first_result : Bool
    pub segments : ℕ
    pub silence_segments : ℕ
    pub audio_samples : ℕ
    pub total_samples_received : ℕ
    pub last_live_flush_samples : ℕ
    pub session_active : Bool
    pub max_duration_exceeded : Bool
    pub chunks : ℕ
    pub bytes : ℕ
    pub session_seq : ℕ
    pub world : en.W
    pub sessions_started : ℕ
    pub sessions_ended : ℕ

module _ (fl : Floats) (en : Engines fl) where
  open fl use {Float, lt, le, lit, of_nat, to_nat, mul, div}

  -- A session after a method, and whether the method has thrown: it keeps what it has changed.
  abbrev pub Outcome : Type 0
  Outcome = Session fl en × Result SessionError (Unit {0})

  unfoldable pub and_then : Outcome → (Session fl en → Outcome) → Outcome
  and_then (s, ok u) f = f s
  and_then (s, err e) f = (s, err e)

  abbrev pub session_rate : Session fl en → ℕ
  session_rate s = pos_part s.config.sample_rate

  abbrev pub session_window : Session fl en → ℕ
  session_window s = pos_part s.config.vad_window_size

  abbrev pub seconds : Session fl en → ℕ → Float
  seconds s n = div (of_nat n) (of_nat (session_rate s))

  unfoldable pub reset_session : Session fl en → Session fl en
  reset_session s = record s {
    session_seq = s.session_seq + 1;
    has_first_result = false;
    segments = 0;
    silence_segments = 0;
    audio_samples = 0;
    last_live_flush_samples = 0;
    chunks = 0;
    bytes = 0;
    total_samples_received = 0;
    max_duration_exceeded = false;
  }

  -- The constructor; `sessions_started` and `sessions_ended` are the calls that the shared metrics
  -- have seen from this session.
  unfoldable pub create_session : Detector fl en.M → Config fl → en.W → Session fl en
  unfolding reset_session
  create_session vad config world = reset_session (record {
    vad = vad;
    config = config;
    out_messages = [];
    pending = [];
    live_chunk = [];
    has_first_result = false;
    segments = 0;
    silence_segments = 0;
    audio_samples = 0;
    total_samples_received = 0;
    last_live_flush_samples = 0;
    session_active = false;
    max_duration_exceeded = false;
    chunks = 0;
    bytes = 0;
    session_seq = 0;
    world = world;
    sessions_started = 0;
    sessions_ended = 0;
  })

  -- What follows the call of the recognizer on `samples`.
  unfoldable pub note_text : Float → Bytes → Session fl en → Session fl en
  note_text audio_sec text s =
      if is_empty text then record s { silence_segments = s.silence_segments + 1 } else record s {
        segments = s.segments + 1;
        out_messages = s.out_messages ++ (final text audio_sec ∷ []);
      }

  unfoldable pub decoded : List Float → Session fl en → Option Bytes × en.W → Outcome
  unfolding note_text
  decoded samples s (none, w) = (record s { world = w }, err recognizer_failed)
  decoded samples s (some text, w) = (
    note_text (seconds s (length samples)) text (record s {
      world = w;
      audio_samples = s.audio_samples + length samples;
      has_first_result = true;
    }),
    ok tt,
  )

  unfoldable pub pop_segment : Session fl en → Outcome
  pop_segment s = (record s { vad = pop fl s.vad }, ok tt)

  unfoldable pub process_segment : SpeechSegment Float → Session fl en → Outcome
  unfolding decoded pop_segment and_then
  process_segment segment s =
      if lt (seconds s (length segment.samples)) s.config.min_audio_sec
      then pop_segment (record s { silence_segments = s.silence_segments + 1 })
      else and_then
          (decoded segment.samples s (en.recognize segment.samples (session_rate s) s.world))
          pop_segment

  unfoldable pub process_segments : List (SpeechSegment Float) → Session fl en → Outcome
  unfolding process_segment and_then
  process_segments [] s = (s, ok tt)
  process_segments (g ∷ gs) s = and_then (process_segment g s) (process_segments gs)

  -- The loop pops the queue until it is empty, and nothing in it adds to the queue.
  unfoldable pub process_vad_segments : Session fl en → Outcome
  unfolding process_segments
  process_vad_segments s = process_segments s.vad.segments s
