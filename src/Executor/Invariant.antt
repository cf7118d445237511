-- ===== src/Executor/Invariant.antt =====
-- What holds of the executor in every interleaving.
use mathlib.Core.List.{Perm, perm_middle, perm_append_singleton}
use mathlib.Core.List.Perm
use asrcpp_gigam.Base.{
  length, length-append, length-zero, ℕ, suc, ◌+◌, ◌^◌, ◌≤◌, ◌<◌, ◌≡◌, refl, sym, ap, ◌∙◌, subst,
  ◌↔◌, ◌⊎◌, inl, inr, true, false, some, List, [], ◌∷◌, ◌++◌, append_assoc, append-nil, arith,
}
use asrcpp_gigam.Base.Perms.{perm-length}
use asrcpp_gigam.Executor.{
  Executor, create, try_submit, begin_shutdown, is_idle, run, pick_from, pick, done, leave,
}
use asrcpp_gigam.Executor.System.{
  System, Step, Reach, start, submits, takes, leaves, ends, shuts, here, next,
}

module _ {ℓ} {T : Type ℓ} where
  try_submit_accepts :
      (e e' : Executor T) (t : T)
      → try_submit e (some t) ≡ (e', true)
      → (e.stopping ≡ false)
        × (length e.queue < e.queue_capacity)
        × (e' ≡ record e { queue = e.queue ++ (t ∷ []) })
  unfolding try_submit
  try_submit_accepts e e' t h = ground arith

  pick_from-run :
      (e e' : Executor T) (xs : List T) (t : T)
      → pick_from e xs ≡ (e', run t)
      → (rest : List T) × (xs ≡ t ∷ rest)
        × (e' ≡ record e { queue = rest; in_flight = e.in_flight + 1 })
  unfolding pick_from
  pick_from-run e e' [] t h = ground arith
  pick_from-run e e' (x ∷ rest) t h = (rest, ground arith, ground arith)

  pick_from_leave :
      (e e' : Executor T) (xs : List T)
      → pick_from e xs ≡ (e', leave)
      → (xs ≡ []) × (e' ≡ e) × (e.stopping ≡ true)
  unfolding pick_from
  pick_from_leave e e' [] h = ground arith
  pick_from_leave e e' (x ∷ rest) h = ground arith

module _ {ℓ} {T : Type ℓ} (workers capacity : ℕ) where
  -- No worker has left, or the executor is stopping with an empty queue.
  pub record Inv (s : System T) : Type ℓ where
    pub counted : s.executor.in_flight ≡ length s.running
    pub threads : s.waiting + length s.running + s.exited ≡ workers
    pub limit : s.executor.queue_capacity ≡ capacity
    pub bounded : length s.executor.queue ≤ capacity
    pub fifo : s.taken ++ s.executor.queue ≡ s.accepted
    pub kept : Perm s.taken (s.finished ++ s.running)
    pub drained : (s.exited ≡ 0) ⊎ ((s.executor.stopping ≡ true) × (s.executor.queue ≡ []))

  submits-Inv :
      (s : System T) (t : T) (e : Executor T)
      → try_submit s.executor (some t) ≡ (e, true)
      → Inv s
      → Inv (record s { executor = e; accepted = s.accepted ++ (t ∷ []) })
  submits-Inv s t e h v =
      let (live, space, eq) = try_submit_accepts s.executor e t h in
      record {
        counted = ground arith;
        threads = v.threads;
        limit = ground arith;
        bounded = ground (arith, length-append s.executor.queue (t ∷ []));
        fifo = ground (arith, append_assoc s.taken s.executor.queue (t ∷ []));
        kept = v.kept;
        drained = ground arith;
      }

  takes-Inv :
      (s : System T) (t : T) (e : Executor T) (n : ℕ)
      → s.waiting ≡ suc n
      → pick s.executor ≡ (e, run t)
      → Inv s
      → Inv (record s {
        executor = e;
        waiting = n;
        running = t ∷ s.running;
        taken = s.taken ++ (t ∷ []);
      })
  unfolding pick
  takes-Inv s t e n w h v =
      let (rest, q, eq) = pick_from-run s.executor e s.executor.queue t h in
      record {
        counted = ground arith;
        threads = ground arith;
        limit = ground arith;
        bounded = ground arith;
        fifo = ground (arith, append_assoc s.taken (t ∷ []) rest);
        kept =
            Perm.trans (perm_append_singleton t s.taken)
              (Perm.trans (Perm.cons t v.kept) (Perm.symm (perm_middle s.finished s.running)));
        drained = ground arith;
      }

  leaves-Inv :
      (s : System T) (e : Executor T) (n : ℕ)
      → s.waiting ≡ suc n
      → pick s.executor ≡ (e, leave)
      → Inv s
      → Inv (record s { executor = e; waiting = n; exited = s.exited + 1 })
  unfolding pick
  leaves-Inv s e n w h v =
      let (q, eq, st) = pick_from_leave s.executor e s.executor.queue h in
      record {
        counted = ground arith;
        threads = ground arith;
        limit = ground arith;
        bounded = ground arith;
        fifo = ground arith;
        kept = v.kept;
        drained = inr (ground arith, ground arith);
      }

  ends-Inv :
      (s : System T) (before : List T) (t : T) (after : List T)
      → workers < 2 ^ 64
      → s.running ≡ before ++ (t ∷ after)
      → Inv s
      → Inv (record s {
        executor = (done s.executor).0;
        waiting = s.waiting + 1;
        running = before ++ after;
        finished = s.finished ++ (t ∷ []);
      })
  unfolding done
  ends-Inv s before t after small r v = record {
    counted = ground (arith, length-append before after, length-append before (t ∷ after), v);
    threads = ground (arith, length-append before after, length-append before (t ∷ after), v);
    limit = v.limit;
    bounded = v.bounded;
    fifo = v.fifo;
    kept = Perm.trans v.kept (
        rw (r, append_assoc s.finished (t ∷ []) (before ++ after))
          (Perm.append (Perm.refl s.finished) (perm_middle before after)));
    drained = v.drained;
  }

  shuts-Inv : (s : System T) → Inv s → Inv (record s { executor = (begin_shutdown s.executor).0 })
  unfolding begin_shutdown
  shuts-Inv s v = record {
    counted = ground (arith, v);
    threads = v.threads;
    limit = ground (arith, v);
    bounded = ground (arith, v);
    fifo = ground (arith, v);
    kept = v.kept;
    drained = ground (arith, v.drained);
  }

  Step-Inv : {s u : System T} → workers < 2 ^ 64 → Step s u → Inv s → Inv u
  Step-Inv small (submits s t e h) v = submits-Inv s t e h v
  Step-Inv small (takes s t e n w h) v = takes-Inv s t e n w h v
  Step-Inv small (leaves s e n w h) v = leaves-Inv s e n w h v
  Step-Inv small (ends s before t after h) v = ends-Inv s before t after small h v
  Step-Inv small (shuts s) v = shuts-Inv s v

  create_positive : (e : Executor T) → create workers capacity ≡ inl (e, workers) → 0 < workers
  unfolding create
  create_positive e h = ground arith

  empty_queue : {s : System T} → Inv s → 0 < workers → s.exited ≡ workers → s.executor.queue ≡ []
  empty_queue v pos out = ground (arith, v.drained)

  all_finished :
      {s : System T} → Inv s → s.running ≡ [] → s.executor.queue ≡ [] → Perm s.accepted s.finished
  all_finished {s} v quiet drained =
      subst (λ x. Perm x s.finished) (ap (λ q. s.taken ++ q) (sym drained) ∙ v.fifo)
        (rw append-nil
          (subst (Perm s.taken) (ap (λ q. s.finished ++ q) quiet ∙ append-nil s.finished) v.kept))

  idle_finished : {s : System T} → Inv s → is_idle s.executor ≡ true → Perm s.accepted s.finished
  unfolding is_idle
  idle_finished {s} v h =
      all_finished v (length-zero s.running (ground (arith, v.counted))) (ground arith)

  finished_idle : {s : System T} → Inv s → Perm s.accepted s.finished → is_idle s.executor ≡ true
  unfolding is_idle
  finished_idle {s} v p = ground (
    arith,
    perm-length p,
    perm-length v.kept,
    ap length v.fifo,
    v.counted,
    length-append s.taken s.executor.queue,
    length-append s.finished s.running,
  )

  Reach-Inv : {s u : System T} → workers < 2 ^ 64 → Inv s → Reach s u → Inv u
  Reach-Inv small v here = v
  Reach-Inv small v (next r st) = Step-Inv small st (Reach-Inv small v r)

  start-Inv : (e : Executor T) → create workers capacity ≡ inl (e, workers) → Inv (start e workers)
  unfolding create
  start-Inv e h = record {
    counted = ground arith;
    threads = omega arith;
    limit = ground arith;
    bounded = ground arith;
    fifo = ground arith;
    kept = Perm.refl [];
    drained = inl refl;
  }

  -- In every interleaving of an executor that its constructor built: `in_flight_` is the number of
  -- tasks under execution and at most the number of workers, at most `queue_capacity` tasks wait,
  -- workers take the accepted tasks in the order of acceptance, and each task that was taken is
  -- finished or running, once.
  pub Reach-bounds :
      (e : Executor T) (s : System T)
      → workers < 2 ^ 64
      → create workers capacity ≡ inl (e, workers)
      → Reach (start e workers) s
      → (s.executor.in_flight ≡ length s.running)
        × (s.executor.in_flight ≤ workers)
        × (length s.executor.queue ≤ capacity)
        × (s.taken ++ s.executor.queue ≡ s.accepted)
        × Perm s.taken (s.finished ++ s.running)
  Reach-bounds e s small c r =
      let v = Reach-Inv small (start-Inv e c) r in
      (v.counted, omega (arith, v.counted, v.threads), v.bounded, v.fifo, v.kept)

  -- The joins of `shutdown` return when every worker has left. Then, in every interleaving, each
  -- task that `try_submit` accepted was executed exactly once, and none waits or runs.
  pub shutdown_drains :
      (e : Executor T) (s : System T)
      → workers < 2 ^ 64
      → create workers capacity ≡ inl (e, workers)
      → Reach (start e workers) s
      → s.exited ≡ workers
      → Perm s.accepted s.finished × (s.executor.queue ≡ []) × (s.running ≡ [])
  shutdown_drains e s small c r out =
      let v = Reach-Inv small (start-Inv e c) r in
      let quiet : s.running ≡ [] = length-zero s.running (omega (arith, v.threads)) in
      let drained : s.executor.queue ≡ [] = empty_queue v (create_positive e c) out in
      (all_finished v quiet drained, drained, quiet)

  -- `wait_for_idle` returns true exactly when every task that was accepted so far has finished
  -- (none waits, none runs), whatever the workers did before.
  pub idle_iff_finished :
      (e : Executor T) (s : System T)
      → workers < 2 ^ 64
      → create workers capacity ≡ inl (e, workers)
      → Reach (start e workers) s
      → (is_idle s.executor ≡ true) ↔ Perm s.accepted s.finished
  unfolding is_idle
  idle_iff_finished e s small c r =
      let v = Reach-Inv small (start-Inv e c) r in (λ h. idle_finished v h, λ p. finished_idle v p)
