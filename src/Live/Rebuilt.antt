-- ===== src/Live/Rebuilt.antt =====
-- What a session update builds (`rebuild_pipeline` of src/server.cpp), written down at once.

use asrcpp_gigam.Realtime.Events.{event_session_updated, event_error}
use asrcpp_gigam.Base.Bytes.{Bytes, codes}
use asrcpp_gigam.Realtime.Settings.{Served}
use asrcpp_gigam.Realtime.{RealtimeSessionConfig, make_realtime_vad_config, clear_current_item}
use asrcpp_gigam.Config.{Config}
use asrcpp_gigam.Base.{
  if◌then◌else◌, Bool-cases, is_some, is_some→some, ℕ, ◌≡◌, refl, inl, inr, Bool, true, false, ◌||◌,
  Option, none, some, [], ◌∷◌, ◌++◌,
}
use asrcpp_gigam.Base.Int.{ℤ, pos_part, ltb_ℤ, pos, negsuc}
use asrcpp_gigam.Base.Result.{Result, ok, err}
use asrcpp_gigam.Vad.Detector.{initial}
use asrcpp_gigam.Audio.Opus.{
  OpusPacketMode, OpusDecoder, is_supported_opus_sample_rate, create_with, create as create_decoder,
}
use asrcpp_gigam.Audio.Resampler.{StreamResampler, with_state, create as create_resampler}
use asrcpp_gigam.Realtime.Update.{
  is_opus_input_audio_format, is_supported_opus_output_sample_rate, Updated, updated_config,
}
use asrcpp_gigam.Session.{Session, create_session}
use asrcpp_gigam.Live.{Outside}
use asrcpp_gigam.Live.Events.{C}
use asrcpp_gigam.Live.Handlers.{is_realtime_opus_format, realtime_opus_packet_mode}
use asrcpp_gigam.Live.Pipeline.{
  turn_config, live_config, resampler_built, build_resampler, decoder_built, build_decoder,
}

module _ (o : Outside) where
  open o use {floats}

  -- The libraries set up what they are asked for: a resampler, and a decoder at the rates of Opus.
  pub record Willing : Type 0 where
    pub resamples : is_some (o.src.create) ≡ true
    pub decodes :
        (rate : ℕ)
        → is_supported_opus_sample_rate o.opus rate ≡ true
        → is_some (o.opus.create rate) ≡ true

  abbrev pub result_part {ℓ κ} : {E : Type ℓ} {A : Type κ} → Result E A → Option A
  result_part (ok a) = some a
  result_part (err e) = none

  -- The resampler and the decoder that a configuration asks for.
  abbrev pub resampler_for :
      RealtimeSessionConfig floats → Config floats → Option (StreamResampler o.src)
  resampler_for config runtime =
      if ltb_ℤ config.input_sample_rate runtime.sample_rate
        || ltb_ℤ runtime.sample_rate config.input_sample_rate
      then result_part (create_resampler o.src config.input_sample_rate runtime.sample_rate)
      else none

  abbrev pub decoder_for : RealtimeSessionConfig floats → Option (OpusDecoder o.opus)
  decoder_for config =
      if is_realtime_opus_format config.input_audio_format
      then result_part (
          create_decoder o.opus (pos_part config.input_sample_rate) 8 true
            (realtime_opus_packet_mode config.input_audio_format))
      else none

  abbrev pub rates_differ : RealtimeSessionConfig floats → Config floats → Bool
  rates_differ config runtime =
      ltb_ℤ config.input_sample_rate runtime.sample_rate
      || ltb_ℤ runtime.sample_rate config.input_sample_rate

  -- A resampler is made wherever one is asked for, and a decoder too.
  pub resampler_for-some :
      (config : RealtimeSessionConfig floats) (runtime : Config floats)
      → Willing
      → is_some (resampler_for config runtime) ≡ rates_differ config runtime
  unfolding create_resampler with_state
  resampler_for-some config runtime w =
      let (state, e) = is_some→some o.src.create w.resamples in
      elim (Bool-cases (rates_differ config runtime)) [ inl h ↦ rw (h, e) refl | inr h ↦ rw h refl ]

  created :
      (r : ℤ) (mode : OpusPacketMode)
      → Willing
      → is_supported_opus_output_sample_rate r ≡ true
      → is_some (result_part (create_decoder o.opus (pos_part r) 8 true mode)) ≡ true
  unfolding create_decoder create_with is_supported_opus_output_sample_rate
      is_supported_opus_sample_rate
  created (negsuc n) mode w h = cc
  created (pos r) mode w h =
      let (state, e) = is_some→some (o.opus.create r) (w.decodes r h) in rw (h, e) refl

  pub decoder_for-some :
      (config : RealtimeSessionConfig floats)
      → Willing
      → Served floats config
      → is_some (decoder_for config) ≡ is_realtime_opus_format config.input_audio_format
  unfolding is_realtime_opus_format is_opus_input_audio_format
  decoder_for-some config w v =
      elim (Bool-cases (is_realtime_opus_format config.input_audio_format)) [
        | inl h ↦ rw h (created config.input_sample_rate _ w (v.opus_rate h))
        | inr h ↦ rw h refl
      ]

  resampler_built_lem :
      (c : C o) (from to : ℤ)
      → Willing
      → resampler_built o c (create_resampler o.src from to)
        ≡ (record c { resampler = result_part (create_resampler o.src from to) }, ok tt)
  unfolding resampler_built create_resampler with_state
  resampler_built_lem c from to w =
      let (state, e) = is_some→some o.src.create w.resamples in rw e refl

  pub build_resampler_lem :
      (c : C o)
      → Willing
      → build_resampler o c
        ≡ (record c { resampler = resampler_for c.realtime.config c.runtime_config }, ok tt)
  unfolding build_resampler
  build_resampler_lem c w =
      let from = c.realtime.config.input_sample_rate in
      let to = c.runtime_config.sample_rate in
      elim (Bool-cases (ltb_ℤ from to || ltb_ℤ to from)) [
        | inl e ↦ rw e (resampler_built_lem c from to w)
        | inr e ↦ rw e refl
      ]

  decoder_built_lem :
      (c : C o) (r : ℤ)
      → Willing
      → is_supported_opus_output_sample_rate r ≡ true
      → let d =
          create_decoder o.opus
            (pos_part r)
            8
            true
            (realtime_opus_packet_mode c.realtime.config.input_audio_format) in
        decoder_built o c d ≡ (record c { opus_decoder = result_part d }, ok tt)
  unfolding decoder_built create_decoder create_with is_supported_opus_output_sample_rate
      is_supported_opus_sample_rate
  decoder_built_lem c (negsuc n) w h = cc
  decoder_built_lem c (pos r) w h =
      let (state, e) = is_some→some (o.opus.create r) (w.decodes r h) in rw (h, e) refl

  pub build_decoder_lem :
      (c : C o)
      → Willing
      → Served floats c.realtime.config
      → build_decoder o c ≡ (record c { opus_decoder = decoder_for c.realtime.config }, ok tt)
  unfolding build_decoder is_realtime_opus_format is_opus_input_audio_format
  build_decoder_lem c w v =
      let config = c.realtime.config in
      elim (Bool-cases (is_realtime_opus_format config.input_audio_format)) [
        | inl e ↦ rw e (decoder_built_lem c config.input_sample_rate w (v.opus_rate e))
        | inr e ↦ rw e refl
      ]

  -- The configuration of the server with the turns of a session's, and the detector and the session
  -- that are built for it.
  abbrev pub runtime_for : Config floats → RealtimeSessionConfig floats → Config floats
  runtime_for server next = turn_config o next.turn_detection (live_config o server)

  abbrev pub session_for :
      Config floats → RealtimeSessionConfig floats → o.engines.W → Session floats o.engines
  session_for server next world =
      let runtime = runtime_for server next in
      create_session floats o.engines
        (initial floats o.engines.silent (make_realtime_vad_config floats runtime next)) runtime
        world

  -- The connection `d` is `c` with everything built for the configuration `next`, told by one event.
  pub record Rebuilt (server : Config floats) (next : RealtimeSessionConfig floats) (c d : C o)
      : Type 0 where
    pub configured : d.realtime.config ≡ next
    pub runtime : d.runtime_config ≡ runtime_for server next
    pub session : d.session ≡ session_for server next c.session.world
    pub resampler : d.resampler ≡ resampler_for next (runtime_for server next)
    pub decoder : d.opus_decoder ≡ decoder_for next
    pub resamples : is_some d.resampler ≡ rates_differ next (runtime_for server next)
    pub decodes : is_some d.opus_decoder ≡ is_realtime_opus_format next.input_audio_format
    pub no_speech : d.speech_active ≡ false
    pub no_item : d.realtime.current_item_id ≡ []
    pub told :
        d.sent
        ≡ c.sent
          ++ ((event_session_updated floats o.json
                (clear_current_item floats (record (c.realtime) { config = next }))).0
              ∷ [])

  -- The connection `d` is `c` with nothing built, told by one error event.
  pub record Refused (code message : Bytes) (id : Bytes) (c d : C o) : Type 0 where
    pub configured : d.realtime.config ≡ c.realtime.config
    pub runtime : d.runtime_config ≡ c.runtime_config
    pub session : d.session ≡ c.session
    pub resampler : d.resampler ≡ c.resampler
    pub decoder : d.opus_decoder ≡ c.opus_decoder
    pub told :
        d.sent
        ≡ c.sent
          ++ ((event_error floats o.json code message (codes "session") id c.realtime).0 ∷ [])

  abbrev pub Reply : Config floats → Bytes → C o → C o → Updated floats o.json → Type 0
  Reply server id c d (ok next) = Rebuilt server next c d
  Reply server id c d (err message) = Refused (codes "invalid_session_update") message id c d

  -- The answer to the member 'session' of an update.
  abbrev pub Replied : Config floats → Bytes → C o → C o → Option o.json.Value → Type 0
  Replied server id c d none =
      Refused (codes "missing_session") (codes "Event must include 'session' object") id c d
  Replied server id c d (some u) =
      Reply server id c d (updated_config floats o.json u c.realtime.config)
