-- ===== src/Realtime/Served.antt =====
-- What every configuration of a realtime session satisfies (src/realtime_session.cpp), whatever
-- updates a client sends.
use asrcpp_gigam.Config.Ranges.{validate-Ranges}
use asrcpp_gigam.Config.{Config, validate}
use asrcpp_gigam.Base.{
  if_cases, is_empty, ℕ, ◌≡◌, not, ◌&&◌, ◌||◌, Option, none, some, List, [], ◌∷◌,
}
use asrcpp_gigam.Base.Int.{ltb_ℤ, pos}
use asrcpp_gigam.Base.Bytes.{Bytes, codes, bytes_eq, to_lower_ascii}
use asrcpp_gigam.Base.Result.{Result, ◌>>=◌, Ensures, Ensures->>=, Ensures-throw_if, ok, err}
use asrcpp_gigam.Base.Floats.{Floats}
use asrcpp_gigam.Json.Library.{JsonLibrary}
use asrcpp_gigam.Realtime.{
  InputAudioTranscription, TurnDetection, RealtimeSessionConfig, RealtimeSession,
  make_default_realtime_session_config, new_session,
}
use asrcpp_gigam.Realtime.Update.{
  is_opus_input_audio_format, is_supported_input_audio_format, is_supported_opus_output_sample_rate,
  store_model, store_language, store_prompt, Updated, if_given, get_int, update_format, update_rate,
  decided_rate, check_opus_rate, update_text, update_model, update_transcription, updated_turn,
  update_turn_detection, check_supported, updated_config, store_update, apply_session_update,
}
use asrcpp_gigam.Realtime.Settings.{
  rate_in_range, opus_rate_in_range, not-eq-false, default_or_empty, empty, Served, Audible,
  Decodable, default-Served,
}

module _ (fl : Floats) (js : JsonLibrary (fl.Float)) where
  open js use {Value, is_object, is_string, is_null, is_number, is_number_integer}

  Ensures-if_given {ℓ κ} :
      {A : Type ℓ} (P : A → Type κ) (o : Option Value) (step : Value → A → Result Bytes A) (a : A)
      → P a
      → ((v : Value) → P a → Ensures P (step v a))
      → Ensures P (if_given fl js o step a)
  unfolding if_given
  Ensures-if_given P none step a p k = p
  Ensures-if_given P (some v) step a p k = k v p

  update_format-Audible :
      (v : Value) (c : RealtimeSessionConfig fl)
      → Audible fl c
      → Ensures (Audible fl) (update_format fl js v c)
  unfolding Audible update_format
  update_format-Audible v c p = Ensures-throw_if (Audible fl) (not (is_string v)) _ _ λ _.
      let format = to_lower_ascii (js.get_string v) in
      Ensures-throw_if (Audible fl) (not (is_supported_input_audio_format format)) _ _
        λ e. (not-eq-false _ e, p.1, p.2)

  update_rate-Audible :
      (v : Value) (c : RealtimeSessionConfig fl)
      → Audible fl c
      → Ensures (Audible fl) (update_rate fl js v c)
  unfolding Audible update_rate
  update_rate-Audible v c p = Ensures-throw_if (Audible fl) (not (is_number_integer v)) _ _ λ _.
      let rate = get_int fl js v in
      Ensures-throw_if (Audible fl) (ltb_ℤ rate (pos 8000) || ltb_ℤ (pos 192000) rate) _ _
        λ e. let r = rate_in_range rate e in (p.0, r.0, r.1)

  check_opus_rate-Decodable :
      (update : Value) (old c : RealtimeSessionConfig fl)
      → Audible fl c
      → Ensures (Decodable fl) (check_opus_rate fl js update old c)
  unfolding Audible Decodable check_opus_rate
  check_opus_rate-Decodable update old c p =
      let rate = decided_rate fl js update old c in
      if_cases (Ensures (Decodable fl)) (is_opus_input_audio_format c.input_audio_format)
        (λ opus.
          Ensures-throw_if (Decodable fl) (not (is_supported_opus_output_sample_rate rate)) _ _ λ e.
            let r = opus_rate_in_range rate (not-eq-false _ e) in
            ((p.0, r.0, r.1), λ _. not-eq-false _ e))
        λ other. (p, λ opus. cc)

  update_text-Decodable :
      (message : Bytes) (store : Bytes → InputAudioTranscription → InputAudioTranscription)
      (v : Value) (c : RealtimeSessionConfig fl)
      → Decodable fl c
      → Ensures (Decodable fl) (update_text fl js message store v c)
  unfolding Decodable Audible update_text
  update_text-Decodable message store v c p =
      Ensures-throw_if (Decodable fl) (not (is_string v)) message _ λ _. p

  update_transcription-Decodable :
      (v : Value) (c : RealtimeSessionConfig fl)
      → Decodable fl c
      → Ensures (Decodable fl) (update_transcription fl js v c)
  unfolding update_transcription
  update_transcription-Decodable v c p =
      Ensures->>= (Decodable fl) (Decodable fl) _ _
        (Ensures->>= (Decodable fl) (Decodable fl) _ _
          (Ensures-throw_if (Decodable fl) (not (is_object v)) _ _
            λ _. texts _ store_model (js.find v (codes "model")) c p)
          (texts _ store_language (js.find v (codes "language"))))
        (texts _ store_prompt (js.find v (codes "prompt")))
    where
      texts :
          (message : Bytes) (store : Bytes → InputAudioTranscription → InputAudioTranscription)
          (o : Option Value) (d : RealtimeSessionConfig fl)
          → Decodable fl d
          → Ensures (Decodable fl) (if_given fl js o (update_text fl js message store) d)
      texts message store o d q =
          Ensures-if_given (Decodable fl) o (update_text fl js message store) d q
            λ v. update_text-Decodable message store v d

  update_turn_detection-Decodable :
      (v : Value) (c : RealtimeSessionConfig fl)
      → Decodable fl c
      → Ensures (Decodable fl) (update_turn_detection fl js v c)
  unfolding Decodable Audible update_turn_detection
  update_turn_detection-Decodable v c p =
      if_cases (Ensures (Decodable fl)) (is_null v) (λ _. p)
        λ _. stored (updated_turn fl js v c.turn_detection)
    where
      stored :
          (r : Result Bytes (Option (TurnDetection fl)))
          → Ensures (Decodable fl) (r >>= λ turn. ok (record c { turn_detection = turn }))
      stored (ok turn) = p
      stored (err message) = tt

  check_supported-Served :
      (c : RealtimeSessionConfig fl)
      → Decodable fl c
      → Ensures (Served fl) (check_supported fl js c)
  unfolding Decodable Audible check_supported
  check_supported-Served c p =
      let tr = c.input_audio_transcription in
      Ensures-throw_if (Served fl)
        (not (is_empty tr.model) && not (bytes_eq tr.model (codes "default"))) _ _
        λ m. Ensures-throw_if (Served fl) (not (is_empty tr.language)) _ _ λ l.
          Ensures-throw_if (Served fl) (not (is_empty tr.prompt)) _ _ λ t. record {
            format = p.0.0;
            rate_low = p.0.1;
            rate_high = p.0.2;
            opus_rate = p.1;
            model = default_or_empty tr.model m;
            language = empty tr.language l;
            prompt = empty tr.prompt t;
          }

  pub updated_config-Ensures :
      (update : Value) (c : RealtimeSessionConfig fl)
      → Served fl c
      → Ensures (Served fl) (updated_config fl js update c)
  unfolding updated_config Audible
  updated_config-Ensures update c v =
      Ensures->>= (Decodable fl) (Served fl) _ _
        (Ensures->>= (Decodable fl) (Decodable fl) _ _
          (Ensures->>= (Decodable fl) (Decodable fl) _ _
            (Ensures->>= (Decodable fl) (Decodable fl) _ _
              (Ensures->>= (Audible fl) (Decodable fl) _ _
                (Ensures->>= (Audible fl) (Audible fl) _ _
                  (Ensures-throw_if (Audible fl) (not (is_object update)) _ _ λ _.
                    Ensures-if_given (Audible fl) (js.find update (codes "input_audio_format"))
                      (update_format fl js) c (v.format, v.rate_low, v.rate_high)
                      λ f. update_format-Audible f c)
                  λ d p.
                    Ensures-if_given (Audible fl) _ (update_rate fl js) d p
                      λ r. update_rate-Audible r d)
                (check_opus_rate-Decodable update c))
              λ d p.
                Ensures-if_given (Decodable fl) _ (update_model fl js) d p
                  λ m. update_text-Decodable _ store_model m d)
            λ d p.
              Ensures-if_given (Decodable fl) _ (update_transcription fl js) d p
                λ t. update_transcription-Decodable t d)
          λ d p.
            Ensures-if_given (Decodable fl) _ (update_turn_detection fl js) d p
              λ t. update_turn_detection-Decodable t d)
        check_supported-Served

  store_update-Served :
      (s : RealtimeSession fl) (r : Updated fl js)
      → Served fl s.config
      → Ensures (Served fl) r
      → Served fl (store_update fl js s r).0.config
  unfolding store_update
  store_update-Served s (ok next) v e = e
  store_update-Served s (err message) v e = v

  -- The session after the updates, of which those that fail change nothing.
  unfoldable pub after_updates : List Value → RealtimeSession fl → RealtimeSession fl
  unfolding apply_session_update
  after_updates [] s = s
  after_updates (u ∷ us) s = after_updates us (apply_session_update fl js u s).0

  updates-keep-Served :
      (us : List Value) (s : RealtimeSession fl)
      → Served fl s.config
      → Served fl (after_updates us s).config
  unfolding after_updates apply_session_update
  updates-keep-Served [] s v = v
  updates-keep-Served (u ∷ us) s v = updates-keep-Served us (apply_session_update fl js u s).0 (
      store_update-Served s (updated_config fl js u s.config) v
        (updated_config-Ensures u s.config v))

  -- Whatever updates a client sends, in whatever order, the session of a validated configuration has
  -- a configuration that the server can serve: a known format, a rate from 8000 to 192000 that Opus
  -- has where the format is Opus, the model `default` or none, and neither a language nor a prompt.
  pub updates-Served :
      (connection_id : ℕ) (raw c : Config fl) (us : List Value)
      → validate fl raw ≡ ok c
      → Served fl
          (after_updates us
            (new_session fl connection_id (make_default_realtime_session_config fl c))).config
  unfolding new_session
  updates-Served connection_id raw c us e =
      let r = validate-Ranges fl raw c e in
      updates-keep-Served us _ (default-Served fl c r.rate_low r.rate_high)
