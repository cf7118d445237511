-- ===== src/Executor/System.antt =====
-- The executor with its threads: every interleaving of the critical sections, as a step relation.
use asrcpp_gigam.Base.{ℕ, suc, ◌+◌, ◌≡◌, true, some, List, [], ◌∷◌, ◌++◌}
use asrcpp_gigam.Executor.{Executor, try_submit, begin_shutdown, run, pick, done, leave}

-- `waiting` workers are between two rounds, `running` are the tasks that workers execute, `exited`
-- workers have left `worker_loop`. `accepted`, `taken` and `finished` are the history: the tasks
-- that `try_submit` accepted, that workers took, and that were executed, each oldest first.
pub record System {ℓ} (T : Type ℓ) : Type ℓ where
  pub executor : Executor T
  pub waiting : ℕ
  pub running : List T
  pub exited : ℕ
  pub accepted : List T
  pub taken : List T
  pub finished : List T

module _ {ℓ} {T : Type ℓ} where
  pub data Step : System T → System T → Type ℓ where
    submits :
        (s : System T) (t : T) (e : Executor T)
        → try_submit s.executor (some t) ≡ (e, true)
        → Step s (record s { executor = e; accepted = s.accepted ++ (t ∷ []) })
    takes :
        (s : System T) (t : T) (e : Executor T) (n : ℕ)
        → s.waiting ≡ suc n
        → pick s.executor ≡ (e, run t)
        → Step s (record s {
          executor = e;
          waiting = n;
          running = t ∷ s.running;
          taken = s.taken ++ (t ∷ []);
        })
    leaves :
        (s : System T) (e : Executor T) (n : ℕ)
        → s.waiting ≡ suc n
        → pick s.executor ≡ (e, leave)
        → Step s (record s { executor = e; waiting = n; exited = s.exited + 1 })
    -- Workers end their tasks in any order.
    ends :
        (s : System T) (before : List T) (t : T) (after : List T)
        → s.running ≡ before ++ (t ∷ after)
        → Step s (record s {
          executor = (done s.executor).0;
          waiting = s.waiting + 1;
          running = before ++ after;
          finished = s.finished ++ (t ∷ []);
        })
    shuts : (s : System T) → Step s (record s { executor = (begin_shutdown s.executor).0 })

  pub data Reach (s : System T) : System T → Type ℓ where
    here : Reach s s
    next : {t u : System T} → Reach s t → Step t u → Reach s u

  abbrev pub start : Executor T → ℕ → System T
  start e workers = record {
    executor = e;
    waiting = workers;
    running = [];
    exited = 0;
    accepted = [];
    taken = [];
    finished = [];
  }
