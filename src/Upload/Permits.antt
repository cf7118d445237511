-- ===== src/Upload/Permits.antt =====
-- Where the permits of the request semaphore of src/server.cpp are, whatever uploads come and whatever
-- their work gives.
use asrcpp_gigam.Whisper.{Doubles, Form}
use asrcpp_gigam.Json.Library.{JsonLibrary}
use asrcpp_gigam.Base.Int.{ℤ}
use asrcpp_gigam.Base.{
  length, length-append, ℕ, zero, suc, ◌+◌, ◌^◌, ◌≤◌, ◌<◌, ◌≡◌, refl, sym, ap, subst, Bool, Option,
  none, some, List, [], ◌∷◌, ◌++◌, arith,
}
use asrcpp_gigam.Upload.{UploadFile, Desk, Reply, turned_away, thrown, replied, taken}
use asrcpp_gigam.Upload.Handlers.{
  admit_recognize, Engine, transcribe_upload, Work, plain_job, admit_whisper, make_error,
  make_whisper_error, recognize_response, whisper_response, handle_recognize, handle_whisper,
  run_work, plain_work, whisper_work,
}
use asrcpp_gigam.Upload.Ends.{Given, Ends, handle_upload-Ends, finish_upload-Ends}

-- An upload that comes, with what the executor answers, or the end of the work at a place of the list.
pub data Step : Type 0 where
  recognizes : Bool → Option (List UploadFile) → Step
  transcribes : Bool → Option (Form × List UploadFile) → Step
  finishes : ℕ → Step

abbrev pub nth {ℓ} : {A : Type ℓ} → List A → ℕ → Option A
nth [] n = none
nth (x ∷ xs) zero = some x
nth (x ∷ xs) (suc n) = nth xs n

abbrev pub without {ℓ} : {A : Type ℓ} → List A → ℕ → List A
without [] n = []
without (x ∷ xs) zero = xs
without (x ∷ xs) (suc n) = x ∷ without xs n

length-without :
    {A : Type 0} (xs : List A) (n : ℕ) (x : A)
    → nth xs n ≡ some x
    → length xs ≡ suc (length (without xs n))
length-without [] n x e = cc
length-without (y ∷ ys) zero x e = refl
length-without (y ∷ ys) (suc n) x e = ap suc (length-without ys n x e)

-- The desk, the work that the executor holds, and how many handlers have ended by an exception.
pub record Office (J : Type 0) : Type 0 where
  pub desk : Desk
  pub works : List J
  pub lost : ℕ

module _ {J : Type 0} where
  abbrev pub after : List J → ℕ → Desk × Reply J → Office J
  after works lost (d, turned_away response) = record { desk = d; works = works; lost = lost }
  after works lost (d, thrown) = record { desk = d; works = works; lost = lost + 1 }
  after works lost (d, replied response) = record { desk = d; works = works; lost = lost }
  after works lost (d, taken job) = record { desk = d; works = works ++ (job ∷ []); lost = lost }

module _ (ds : Doubles) (js : JsonLibrary (ds.floats.Float)) (engine : Engine (ds.floats.Float))
    (sample_rate : ℤ) (max_upload_bytes : ℕ) where
  abbrev pub O : Type 0
  O = Office (Work ds)

  unfoldable pub finished : O → ℕ → Option (Work ds) → O
  unfolding run_work
  finished w n none = w
  finished w n (some job) =
      after (without w.works n) w.lost (run_work ds js engine sample_rate job w.desk)

  unfoldable pub step : Step → O → O
  unfolding handle_recognize handle_whisper finished
  step (recognizes accepts files) w =
      after w.works w.lost (handle_recognize ds js max_upload_bytes accepts files w.desk)
  step (transcribes accepts parts) w =
      after w.works w.lost (handle_whisper ds js max_upload_bytes accepts parts w.desk)
  step (finishes n) w = finished w n (nth w.works n)

  unfoldable pub steps : List Step → O → O
  unfolding step
  steps [] w = w
  steps (x ∷ xs) w = steps xs (step x w)

  -- A handler that has ended.
  after-Given :
      (limit n : ℕ) (works : List (Work ds)) (lost : ℕ) (r : Desk × Reply (Work ds))
      → n ≡ length works + lost
      → Ends limit n r
      → let w = after works lost r in Given limit (length w.works + w.lost) w.desk
  unfolding Ends
  after-Given limit n works lost (d, turned_away response) e g = subst (λ k. Given limit k d) e g
  after-Given limit n works lost (d, thrown) e g =
      subst (λ k. Given limit k d) {x = suc n} {y = length works + (lost + 1)} (omega (arith, e)) g
  after-Given limit n works lost (d, replied response) e g = subst (λ k. Given limit k d) e g
  after-Given limit n works lost (d, taken job) e g =
      subst (λ k. Given limit k d) {x = suc n} {y = length (works ++ (job ∷ [])) + lost}
        (omega (arith, e, length-append works (job ∷ []))) g

  run_work-Ends :
      (limit n : ℕ) (job : Work ds) (d : Desk)
      → limit < 2 ^ 64
      → Given limit (suc n) d
      → Ends limit n (run_work ds js engine sample_rate job d)
  unfolding run_work
  run_work-Ends limit n (plain_work file) d small =
      finish_upload-Ends (Work ds) limit n small (make_error ds js) engine.dump_what
        (recognize_response ds js) (transcribe_upload ds engine sample_rate file) d
  run_work-Ends limit n (whisper_work request file) d small =
      finish_upload-Ends (Work ds) limit n small (make_whisper_error ds js) engine.dump_what
        (whisper_response ds js request) (transcribe_upload ds engine sample_rate file) d

  finished-Given :
      (limit n : ℕ) (w : O) (o : Option (Work ds))
      → limit < 2 ^ 64
      → nth w.works n ≡ o
      → Given limit (length w.works + w.lost) w.desk
      → let v = finished w n o in Given limit (length v.works + v.lost) v.desk
  unfolding finished
  finished-Given limit n w none small e g = g
  finished-Given limit n w (some job) small e g =
      let k = length-without w.works n job e in
      after-Given limit (length (without w.works n) + w.lost) (without w.works n) w.lost _ refl (
        run_work-Ends limit (length (without w.works n) + w.lost) job w.desk small (
          subst (λ m. Given limit m w.desk) {x = length w.works + w.lost}
            {y = suc (length (without w.works n) + w.lost)} (omega (arith, k)) g))

  step-Given :
      (limit : ℕ) (x : Step) (w : O)
      → limit < 2 ^ 64
      → Given limit (length w.works + w.lost) w.desk
      → let v = step x w in Given limit (length v.works + v.lost) v.desk
  unfolding step handle_recognize handle_whisper
  step-Given limit (recognizes accepts files) w small g =
      after-Given limit (length w.works + w.lost) w.works w.lost _ refl (
        handle_upload-Ends (Work ds) limit (length w.works + w.lost) small (make_error ds js)
          accepts (plain_job ds (admit_recognize max_upload_bytes files)) w.desk g)
  step-Given limit (transcribes accepts parts) w small g =
      after-Given limit (length w.works + w.lost) w.works w.lost _ refl (
        handle_upload-Ends (Work ds) limit (length w.works + w.lost) small
          (make_whisper_error ds js) accepts (admit_whisper ds max_upload_bytes parts) w.desk g)
  step-Given limit (finishes n) w small g = finished-Given limit n w (nth w.works n) small refl g

  steps-Given :
      (limit : ℕ) (xs : List Step) (w : O)
      → limit < 2 ^ 64
      → Given limit (length w.works + w.lost) w.desk
      → let v = steps xs w in Given limit (length v.works + v.lost) v.desk
  unfolding steps
  steps-Given limit [] w small g = g
  steps-Given limit (x ∷ xs) w small g =
      steps-Given limit xs (step x w) small (step-Given limit x w small g)

abbrev pub fresh_desk : ℕ → Desk
fresh_desk max_count = record {
  sem = record { max_count = max_count; count = 0 };
  started_sessions = 0;
  ended_sessions = 0;
}

module _ (ds : Doubles) (js : JsonLibrary (ds.floats.Float)) (engine : Engine (ds.floats.Float))
    (sample_rate : ℤ) (max_upload_bytes : ℕ) where
  -- Whatever uploads come, whatever the executor answers and whatever the work gives, in any order:
  -- a permit is given out for each upload that is in work, and for each whose handler has ended by an
  -- exception, since the JSON library could not write its answer; and never more than there are.
  pub permits_accounted :
      (max_count : ℕ) (xs : List Step)
      → max_count < 2 ^ 64
      → let w =
          steps ds js engine sample_rate max_upload_bytes xs
            (record { desk = fresh_desk max_count; works = []; lost = 0 }) in
        (w.desk.sem.count ≡ length w.works + w.lost) × (w.desk.sem.count ≤ max_count)
  permits_accounted max_count xs small =
      let g =
        steps-Given ds js engine sample_rate max_upload_bytes max_count xs
          (record { desk = fresh_desk max_count; works = []; lost = 0 }) small
          (record { given = refl; limited = omega arith; same_limit = refl }) in
      (g.given, subst (λ n. n ≤ max_count) (sym g.given) g.limited)
