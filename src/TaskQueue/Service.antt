-- ===== src/TaskQueue/Service.antt =====
-- How `SerializedTaskQueue` serves its tasks: one at a time, and all of them.
use asrcpp_gigam.Base.{
  ltb, if◌then◌else◌, length, ℕ, zero, suc, ◌≡◌, sym, ap, ◌∙◌, Bool, true, false, not, ◌&&◌, some,
  List, [], ◌∷◌, ◌++◌, map, append_assoc, append-nil, arith,
}
use asrcpp_gigam.TaskQueue.{TaskQueue, push_or_start, maybe_start_next, finish_current}
use asrcpp_gigam.TaskQueue.Order.{Call, Fate, Traced, step, run, finish, next, started}

module _ {ℓ κ} {S : Type ℓ} {W : Type κ} (call : S → W → Bool × W) where
  -- While a task is in flight, neither `push_or_start` nor `maybe_start_next` calls a start
  -- function (the world stays the same): a push waits at the back if there is room, is refused if
  -- there is none or the queue is stopped, and `maybe_start_next` changes nothing.
  one_at_a_time :
      (q : TaskQueue S) (w : W) (s : S)
      → q.in_flight ≡ true
      → (push_or_start call q w (some s) ≡ (
          if not q.stopped && ltb (length q.pending) q.max_pending
          then (record q { pending = q.pending ++ (s ∷ []) }, w, true)
          else (q, w, false)))
        × (maybe_start_next call q w ≡ (q, w, false))
  unfolding push_or_start maybe_start_next
  one_at_a_time q w s busy = (ground arith, ground arith)

  abbrev rounds : ℕ → List (Call S)
  rounds zero = []
  rounds (suc n) = finish ∷ next ∷ rounds n

  abbrev started_all : List S → List (S × Fate)
  started_all = map (λ s. (s, started))

  round_lem :
      (t : Traced S W) (s : S) (rest : List S)
      → ((s : S) (w : W) → (call s w).0 ≡ true)
      → t.queue.stopped ≡ false
      → t.queue.pending ≡ s ∷ rest
      → let t' = step call (step call t finish) next in
        (t'.queue.stopped ≡ false)
        × (t'.queue.pending ≡ rest)
        × (t'.left ≡ t.left ++ ((s, started) ∷ []))
  unfolding step finish_current maybe_start_next
  round_lem t s rest accepts live e = ground (arith, accepts s t.world)

  -- If the executor accepts every task that it is handed, then in a queue that is not stopped as
  -- many rounds of `finish_current` and `maybe_start_next` as tasks wait hand all of them on, in
  -- order, and leave none.
  pub rounds-drain :
      (t : Traced S W) (xs : List S)
      → ((s : S) (w : W) → (call s w).0 ≡ true)
      → t.queue.stopped ≡ false
      → t.queue.pending ≡ xs
      → ((run call t (rounds (length xs))).queue.pending ≡ [])
        × ((run call t (rounds (length xs))).left ≡ t.left ++ started_all xs)
  unfolding run
  rounds-drain t [] accepts live e = (e, sym (append-nil t.left))
  rounds-drain t (s ∷ rest) accepts live e =
      let (live', e', l) = round_lem t s rest accepts live e in
      let (none_left, ls) =
        rounds-drain (step call (step call t finish) next) rest accepts live' e' in
      (
        none_left,
        ls
            ∙ ap (λ k. k ++ started_all rest) l
            ∙ append_assoc t.left ((s, started) ∷ []) (started_all rest),
      )
