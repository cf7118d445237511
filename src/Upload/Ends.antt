-- ===== src/Upload/Ends.antt =====
-- What the end of a request does to the permits of the request semaphore (src/server.cpp).
use asrcpp_gigam.Base.{
  leb, Bool-cases, ℕ, suc, ◌+◌, ◌%◌, ◌^◌, ◌≤◌, ◌<◌, ◌≡◌, refl, ap, ◌∙◌, inl, inr, Bool, true, false,
  Option, none, some, arith,
}
use asrcpp_gigam.Base.Bytes.{Bytes}
use asrcpp_gigam.Base.Result.{Result, ok, err}
use asrcpp_gigam.Slots.{decrement, try_acquire, release}
use asrcpp_gigam.Upload.{
  Response, UploadError, Fault, Desk, Reply, turned_away, thrown, replied, taken, queue_full_error,
  fault_error, released, settle, admitted, with_permit, handle_upload, answered, finish_upload,
  failed_fault,
}

-- `n` permits of `limit` are given out.
pub record Given (limit n : ℕ) (d : Desk) : Type 0 where
  pub given : d.sem.count ≡ n
  pub limited : n ≤ limit
  pub same_limit : d.sem.max_count ≡ limit

-- `n` other permits are given out when a handler ends.
unfoldable pub Ends : {J : Type 0} (limit n : ℕ) → Desk × Reply J → Type 0
Ends limit n (d, turned_away response) = Given limit n d
Ends limit n (d, thrown) = Given limit (suc n) d
Ends limit n (d, replied response) = Given limit n d
Ends limit n (d, taken job) = Given limit (suc n) d

decrement-suc : (n limit : ℕ) → suc n ≤ limit → limit < 2 ^ 64 → decrement (suc n) ≡ n
decrement-suc n limit h k = omega (arith, h, k)

module _ (limit n : ℕ) (small : limit < 2 ^ 64) where
  release-Given : (d e : Desk) → e.sem ≡ release d.sem → Given limit (suc n) d → Given limit n e
  unfolding release
  release-Given d e h g = record {
    given = ap (λ s. s.count) h ∙ ap decrement g.given ∙ decrement-suc n limit g.limited small;
    limited = omega (arith, g.limited);
    same_limit = ap (λ s. s.max_count) h ∙ g.same_limit;
  }

module _ (J : Type 0) (limit n : ℕ) (small : limit < 2 ^ 64) where
  settle-Ends :
      (d : Desk) (o : Option Response) → Given limit (suc n) d → Ends {J = J} limit n (settle d o)
  unfolding settle Ends released
  settle-Ends d none g = g
  settle-Ends d (some response) g = release-Given limit n small d (released d) refl g

  admitted-Ends :
      (make : UploadError → Option Response) (accepts : Bool) (job : Result UploadError J)
      (d : Desk)
      → Given limit (suc n) d
      → Ends limit n (admitted make accepts job d)
  unfolding admitted Ends
  admitted-Ends make accepts (err e) d g = settle-Ends d (make e) g
  admitted-Ends make true (ok job) d g = g
  admitted-Ends make false (ok job) d g = settle-Ends d (make queue_full_error) g

  pub handle_upload-Ends :
      (make : UploadError → Option Response) (accepts : Bool) (job : Result UploadError J)
      (d : Desk)
      → Given limit n d
      → Ends limit n (handle_upload make accepts job d)
  unfolding handle_upload with_permit Ends try_acquire
  handle_upload-Ends make accepts job d g = elim (Bool-cases (leb d.sem.max_count d.sem.count)) [
    | inl e ↦ rw e g
    | inr e ↦ rw e (admitted-Ends make accepts job _ (acquired e))
  ]
    where
      acquired :
          leb d.sem.max_count d.sem.count ≡ false
          → Given limit (suc n) (record d {
            sem = record (d.sem) { count = (d.sem.count + 1) % 2 ^ 64 };
            started_sessions = d.started_sessions + 1;
          })
      acquired e = record {
        given = ground arith;
        limited = ground arith;
        same_limit = g.same_limit;
      }

  answered-Ends :
      (make : UploadError → Option Response) (dump_what : Bytes) (d : Desk) (o : Option Response)
      → Given limit (suc n) d
      → Ends {J = J} limit n (answered make dump_what d o)
  unfolding answered Ends
  answered-Ends make dump_what d none g =
      settle-Ends d (make (fault_error (failed_fault dump_what))) g
  answered-Ends make dump_what d (some response) g =
      release-Given limit n small d (record d { sem = release d.sem }) refl g

  pub finish_upload-Ends :
      {A : Type 0} (make : UploadError → Option Response) (dump_what : Bytes)
      (render : A → Option Response) (r : Result Fault A) (d : Desk)
      → Given limit (suc n) d
      → Ends {J = J} limit n (finish_upload make dump_what render r d)
  unfolding finish_upload answered Ends
  finish_upload-Ends make dump_what render (err fault) d g =
      settle-Ends d (make (fault_error fault)) g
  finish_upload-Ends make dump_what render (ok a) d g =
      answered-Ends make dump_what (record d { ended_sessions = d.ended_sessions + 1 }) (render a)
        (record { given = g.given; limited = g.limited; same_limit = g.same_limit })
