-- ===== src/Upload/Runs.antt =====
-- Uploads at concrete inputs, in thousandths.
use asrcpp_gigam.Slots.{try_acquire, release}
use asrcpp_gigam.Base.{
  ◌==◌, length, ℕ, ◌+◌, ◌≤◌, ◌≡◌, refl, true, false, none, some, List, [], ◌∷◌, ◌++◌, arith,
}
use asrcpp_gigam.Base.Int.{pos}
use asrcpp_gigam.Base.Bytes.{codes, bytes_eq, tolower}
use asrcpp_gigam.Base.Floats.{milli}
use asrcpp_gigam.Base.Result.{ok, err}
use asrcpp_gigam.Json.Sample.{sample_json}
use asrcpp_gigam.Offline.{trim_ascii, append_text}
use asrcpp_gigam.Audio.Files.{
  extension_from_filename, is_supported_whisper_audio_extension, decode_audio_streamed,
}
use asrcpp_gigam.Whisper.{Doubles}
use asrcpp_gigam.Upload.{
  UploadFile, unknown_fault, json_response, released, settle, admitted, with_permit, handle_upload,
  answered, finish_upload,
}
use asrcpp_gigam.Upload.Handlers.{
  append_transcription_chunk, check_size, admit_recognize, Engine, http_chunk_samples,
  transcribe_chunks, decoded_upload, transcribe_upload, Work, make_error, recognize_response,
  handle_recognize, run_work,
}
use asrcpp_gigam.Upload.Permits.{
  Step, Office, finished, step, steps, fresh_desk, permits_accounted, recognizes, finishes,
}

abbrev doubles : Doubles
doubles = record {
  floats = milli;
  stod = λ s. none;
  is_finite = λ x. true;
  equal = λ x y. x == y;
  milliseconds = λ x. x;
}

-- Every file has two chunks, of which each says a word.
abbrev engine : Engine ℕ
engine = record {
  has_opus = false;
  decode_wav_stream_memory = λ rate n bytes. ((1 ∷ []) ∷ ((2 ∷ []) ∷ []), ok 2000);
  decode_opus_file_streamed = λ rate n bytes. ([], err unknown_fault);
  recognize_chunk = λ chunk rate. ok (codes " yes ");
  dump_what = codes "invalid UTF-8 byte";
}

abbrev voice : UploadFile
voice = record { item_name = codes "file"; file_name = codes "a.b.WAV"; content = 1 ∷ [] }

-- The extension of its name is the byte 255.
abbrev odd_name : UploadFile
odd_name = record { item_name = codes "file"; file_name = b'.' ∷ (255 ∷ []); content = 1 ∷ [] }

abbrev visit : UploadFile → List Step
visit file = recognizes true (some (file ∷ [])) ∷ (finishes 0 ∷ [])

abbrev office : ℕ → Office (Work doubles)
office limit = record { desk = fresh_desk limit; works = []; lost = 0 }

two_words : transcribe_upload doubles engine (pos 16000) voice ≡ ok (codes "yes yes", 2000)
unfolding transcribe_upload decoded_upload transcribe_chunks append_transcription_chunk append_text
    trim_ascii decode_audio_streamed extension_from_filename is_supported_whisper_audio_extension
    bytes_eq tolower
two_words = refl

-- The permit of an upload that is answered is given back.
voice_returns :
    (steps doubles sample_json engine (pos 16000) 100 (visit voice) (office 1)).desk.sem.count ≡ 0
unfolding steps step finished handle_recognize handle_upload with_permit admitted admit_recognize
    check_size try_acquire run_work finish_upload answered settle released release make_error
    json_response recognize_response transcribe_upload decoded_upload transcribe_chunks
    append_transcription_chunk append_text trim_ascii decode_audio_streamed extension_from_filename
    is_supported_whisper_audio_extension bytes_eq tolower http_chunk_samples
voice_returns = refl

-- The message of an unsupported extension repeats it, and where it is not UTF-8 the permit stays out.
name_keeps_permit :
    (steps doubles sample_json engine (pos 16000) 100 (visit odd_name) (office 1)).desk.sem.count
    ≡ 1
unfolding steps step finished handle_recognize handle_upload with_permit admitted admit_recognize
    check_size try_acquire run_work finish_upload answered settle released release make_error
    json_response recognize_response transcribe_upload decoded_upload transcribe_chunks
    append_transcription_chunk append_text trim_ascii decode_audio_streamed extension_from_filename
    is_supported_whisper_audio_extension bytes_eq tolower http_chunk_samples
name_keeps_permit = refl

permits_accounted_example :
    let w =
      steps doubles sample_json engine (pos 16000) 100 (visit odd_name ++ visit voice) (office 2) in
    (w.desk.sem.count ≡ length w.works + w.lost) × (w.desk.sem.count ≤ 2)
permits_accounted_example =
    permits_accounted doubles sample_json engine (pos 16000) 100 2 (visit odd_name ++ visit voice)
      (omega arith)
