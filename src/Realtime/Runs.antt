-- ===== src/Realtime/Runs.antt =====
-- Realtime sessions at concrete inputs.
use mathlib.Core.List.{Nodup}
use asrcpp_gigam.Realtime.Items.{
  Call, call, run, Linked, commits-Linked, numbers, names, commits, clears, updates,
}
use asrcpp_gigam.Base.{◌≡◌, refl, List, [], ◌∷◌, map}
use asrcpp_gigam.Base.Int.{pos}
use asrcpp_gigam.Base.Bytes.{codes, bytes_eq, tolower}
use asrcpp_gigam.Base.Floats.{milli}
use asrcpp_gigam.Base.Decimal.{decimal}
use asrcpp_gigam.Json.Library.{low_int, to_int}
use asrcpp_gigam.Config.Runs.{given, repaired, validated}
use asrcpp_gigam.Json.Sample.{Sample, sample_json, fields, text, whole, field}
use asrcpp_gigam.Realtime.{
  make_default_realtime_session_config, new_session, S, next_event_id, next_item_id,
  ensure_current_item_id, commit_current_item, clear_current_item,
}
use asrcpp_gigam.Realtime.Update.{
  is_opus_input_audio_format, is_supported_input_audio_format, is_supported_opus_output_sample_rate,
  apply_session_update,
}
use asrcpp_gigam.Realtime.Settings.{Served}
use asrcpp_gigam.Realtime.Served.{after_updates, updates-Served}

-- To raw Opus, and its rate is 48000 from then on.
abbrev pub to_opus : Sample
to_opus = field (codes "input_audio_format") (text (codes "Opus_Raw")) fields

abbrev no_turns : Sample
no_turns = field (codes "turn_detection") (field (codes "type") (text (codes "none")) fields) fields

-- The rate is 2 ^ 32 + 8000, which a 32-bit integer holds as 8000.
abbrev huge_rate : Sample
huge_rate = field (codes "input_sample_rate") (whole (pos 4294975296)) fields

abbrev first : S milli
unfolding new_session make_default_realtime_session_config decimal
first = new_session milli 7 (make_default_realtime_session_config milli repaired)

huge_rate_taken :
    (apply_session_update milli sample_json huge_rate first).0.config.input_sample_rate ≡ pos 8000
unfolding first apply_session_update to_int low_int bytes_eq is_opus_input_audio_format
huge_rate_taken = refl

updates-Served_example :
    Served milli
      (after_updates milli sample_json
        (to_opus ∷ no_turns ∷ [])
        (new_session milli 7 (make_default_realtime_session_config milli repaired))).config
updates-Served_example =
    updates-Served milli sample_json 7 given repaired (to_opus ∷ no_turns ∷ []) validated

abbrev calls : List (Call Sample)
calls = numbers ∷ names ∷ commits ∷ updates to_opus ∷ commits ∷ clears ∷ names ∷ commits ∷ []

items_named :
    map (λ c. c.item_id) (run milli sample_json calls first).0
    ≡ codes "item_1" ∷ codes "item_2" ∷ codes "item_3" ∷ []
unfolding first run call next_event_id next_item_id ensure_current_item_id commit_current_item
    clear_current_item apply_session_update decimal bytes_eq is_supported_input_audio_format tolower
    is_supported_opus_output_sample_rate
items_named = refl

commits-Linked_example :
    Linked []
      (run milli sample_json calls
        (new_session milli 7 (make_default_realtime_session_config milli repaired))).0
    × Nodup (
        map
          (λ c. c.item_id)
          (run milli sample_json calls
            (new_session milli 7 (make_default_realtime_session_config milli repaired))).0)
commits-Linked_example =
    commits-Linked milli sample_json 7 (make_default_realtime_session_config milli repaired) calls
