-- ===== src/Audio/Files.antt =====
-- Which decoder an upload gets: the end of src/audio/decode.cpp. `has_opus` is whether the build has
-- opusfile; the decoders of the two containers are parameters.
use asrcpp_gigam.Base.{
  ◌==◌, if◌then◌else◌, is_empty, Bool, not, ◌&&◌, ◌||◌, Option, none, some, [], ◌∷◌, ◌++◌,
}
use asrcpp_gigam.Base.Bytes.{Bytes, codes, bytes_eq, to_lower_ascii}
use asrcpp_gigam.Base.Result.{Result, throw_if, ◌>>◌, ok, err}

-- What follows the last full stop.
abbrev pub after_last_stop : Bytes → Option Bytes
after_last_stop [] = none
after_last_stop (c ∷ cs) = elim (after_last_stop cs) [
  | none ↦ if c == b'.' then some cs else none
  | some extension ↦ some extension
]

unfoldable pub extension_from_filename : Bytes → Bytes
extension_from_filename file_name = elim (after_last_stop file_name) [
  | none ↦ []
  | some extension ↦ to_lower_ascii extension
]

abbrev pub supported_audio_extensions_list : Bool → Bytes
supported_audio_extensions_list has_opus = if has_opus then codes "opus, wav" else codes "wav"

abbrev pub without_stop : Bytes → Bytes
without_stop [] = []
without_stop (c ∷ cs) = if c == b'.' then cs else c ∷ cs

unfoldable pub is_supported_whisper_audio_extension : Bool → Bytes → Bool
unfolding bytes_eq
is_supported_whisper_audio_extension has_opus extension =
    let normalized = without_stop (to_lower_ascii extension) in
    bytes_eq normalized (codes "wav") || has_opus && bytes_eq normalized (codes "opus")

-- The dash of the message is three bytes.
abbrev pub unsupported_audio_format : Bool → Bytes → Bytes
unsupported_audio_format has_opus extension =
    codes "Unsupported audio format '."
    ++ extension
    ++ codes "' "
    ++ (226 ∷ (128 ∷ (148 ∷ codes " accepted: ")))
    ++ supported_audio_extensions_list has_opus

-- The text of an `AudioError`, or what the decoder gives. The last `throw` of the function is that of
-- an extension which the test before has refused.
unfoldable pub decode_audio_streamed {ℓ} :
    {A : Type ℓ} (has_opus : Bool) (decode_wav decode_opus : Bytes → A)
    (data_bytes file_name : Bytes)
    → Result Bytes A
unfolding extension_from_filename is_supported_whisper_audio_extension
decode_audio_streamed has_opus decode_wav decode_opus data_bytes file_name =
    let extension = extension_from_filename file_name in
    do
      throw_if (is_empty data_bytes) (codes "Empty audio data")
      throw_if
          (not (is_empty extension)
            && not (is_supported_whisper_audio_extension has_opus extension))
          (unsupported_audio_format has_opus extension)
      if is_empty extension || bytes_eq extension (codes "wav")
          then ok (decode_wav data_bytes)
          else if has_opus && bytes_eq extension (codes "opus")
          then ok (decode_opus data_bytes)
          else err (unsupported_audio_format has_opus extension)
