-- ===== src/Realtime.antt =====
-- `RealtimeSession` of src/realtime_session.cpp and include/asr/realtime_session.h: the state of a
-- realtime conversation. The counters are natural numbers: their `uint64_t` starts at 0 and would wrap
-- only after 2 ^ 64 events.
pub mod Update
pub mod Served
pub mod Settings
pub mod Items
pub mod Events
pub mod Runs
use asrcpp_gigam.Base.{if◌then◌else◌, is_empty, ℕ, suc, Option, none, some, [], ◌++◌}
use asrcpp_gigam.Base.Int.{ℤ, pos_part, pos, negsuc}
use asrcpp_gigam.Base.Bytes.{Bytes, codes}
use asrcpp_gigam.Base.Decimal.{decimal}
use asrcpp_gigam.Base.Floats.{Floats}
use asrcpp_gigam.Config.{Config}
use asrcpp_gigam.Vad.{VadConfig}

pub record InputAudioTranscription : Type 0 where
  pub model : Bytes
  pub language : Bytes
  pub prompt : Bytes

pub record RealtimeCommittedItem : Type 0 where
  pub item_id : Bytes
  pub previous_item_id : Bytes

module _ (fl : Floats) where
  open fl use {Float, lt, lit, of_nat, to_nat, neg, mul, div}

  pub record TurnDetection : Type 0 where
    pub type : Bytes
    pub threshold : Float
    pub prefix_padding_ms : ℤ
    pub silence_duration_ms : ℤ

  pub record RealtimeSessionConfig : Type 0 where
    pub input_audio_format : Bytes
    pub input_sample_rate : ℤ
    pub input_audio_transcription : InputAudioTranscription
    pub turn_detection : Option TurnDetection

  pub record RealtimeSession : Type 0 where
    pub session_id : Bytes
    pub config : RealtimeSessionConfig
    pub event_seq : ℕ
    pub item_seq : ℕ
    pub current_item_id : Bytes
    pub previous_item_id : Bytes

  -- The members' initial values.
  abbrev pub default_turn_detection : TurnDetection
  default_turn_detection = record {
    type = codes "server_vad";
    threshold = lit 1 2;
    prefix_padding_ms = pos 300;
    silence_duration_ms = pos 500;
  }

  -- The silence of a configuration is not negative.
  unfoldable pub make_default_realtime_session_config : Config fl → RealtimeSessionConfig
  make_default_realtime_session_config config = record {
    input_audio_format = codes "pcm16";
    input_sample_rate = config.sample_rate;
    input_audio_transcription = record { model = codes "default"; language = []; prompt = [] };
    turn_detection = some (record {
      type = codes "server_vad";
      threshold = config.vad_threshold;
      prefix_padding_ms = pos 300;
      silence_duration_ms = pos (to_nat (mul config.vad_min_silence (lit 1000 1)));
    });
  }

  -- `std::clamp(v, 0.01F, 0.99F)`
  abbrev pub clamp_threshold : Float → Float
  clamp_threshold v =
      if lt v (lit 1 100) then lit 1 100 else if lt (lit 99 100) v then lit 99 100 else v

  -- A cast from `int`.
  abbrev pub of_int : ℤ → Float
  of_int (pos n) = of_nat n
  of_int (negsuc n) = neg (of_nat (suc n))

  abbrev pub seconds_of_ms : ℤ → Float
  seconds_of_ms ms = div (of_int ms) (lit 1000 1)

  unfoldable pub apply_turn_detection : Option TurnDetection → VadConfig fl → VadConfig fl
  apply_turn_detection none vad = vad
  apply_turn_detection (some turn) vad = record vad {
    threshold = clamp_threshold turn.threshold;
    prefix_padding_ms = pos (pos_part turn.prefix_padding_ms);
    min_silence_duration =
        let silence = seconds_of_ms turn.silence_duration_ms in
        if lt (lit 1 100) silence then silence else lit 1 100;
  }

  unfoldable pub make_realtime_vad_config : Config fl → RealtimeSessionConfig → VadConfig fl
  unfolding apply_turn_detection
  make_realtime_vad_config base_config realtime_config =
      apply_turn_detection realtime_config.turn_detection (record {
        model_path = base_config.vad_model;
        threshold = base_config.vad_threshold;
        min_silence_duration = base_config.vad_min_silence;
        min_speech_duration = base_config.vad_min_speech;
        max_speech_duration = base_config.vad_max_speech;
        prefix_padding_ms = pos 0;
        sample_rate = base_config.sample_rate;
        window_size = base_config.vad_window_size;
        context_size = base_config.vad_context_size;
      })

  unfoldable pub new_session : ℕ → RealtimeSessionConfig → RealtimeSession
  new_session connection_id config = record {
    session_id = codes "sess_" ++ decimal connection_id;
    config = config;
    event_seq = 0;
    item_seq = 0;
    current_item_id = [];
    previous_item_id = [];
  }

module _ (fl : Floats) where
  abbrev pub S : Type 0
  S = RealtimeSession fl

  abbrev pub event_id_of : ℕ → Bytes
  event_id_of n = codes "evt_" ++ decimal n

  abbrev pub item_id_of : ℕ → Bytes
  item_id_of n = codes "item_" ++ decimal n

  unfoldable pub next_event_id : S → Bytes × S
  next_event_id s = (event_id_of (suc s.event_seq), record s { event_seq = suc s.event_seq })

  unfoldable pub next_item_id : S → Bytes × S
  next_item_id s = (item_id_of (suc s.item_seq), record s { item_seq = suc s.item_seq })

  unfoldable pub ensure_current_item_id : S → Bytes × S
  unfolding next_item_id
  ensure_current_item_id s =
      let (id, t) = next_item_id s in
      if is_empty s.current_item_id
      then (id, record t { current_item_id = id })
      else (s.current_item_id, s)

  unfoldable pub commit_current_item : S → RealtimeCommittedItem × S
  unfolding ensure_current_item_id
  commit_current_item s =
      let (id, t) = ensure_current_item_id s in
      (
        record { item_id = id; previous_item_id = t.previous_item_id },
        record t { previous_item_id = id; current_item_id = [] },
      )

  unfoldable pub clear_current_item : S → S
  clear_current_item s = record s { current_item_id = [] }

  unfoldable pub set_config : RealtimeSessionConfig fl → S → S
  set_config config s = record s { config = config }
