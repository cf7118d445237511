-- ===== src/TaskQueue/Order.antt =====
-- What `SerializedTaskQueue` guarantees over any sequence of its methods.
use asrcpp_gigam.Base.{
  if◌then◌else◌, Bool-cases, length, length-append, ℕ, ◌≤◌, ◌≡◌, refl, ap, ◌∙◌, subst, inl, inr,
  Bool, true, false, not, ◌&&◌, ◌||◌, some, List, [], ◌∷◌, ◌++◌, map, append_assoc, append-nil,
  arith,
}
use asrcpp_gigam.TaskQueue.{
  TaskQueue, create, enqueue, start_now, start_front, push_or_start, try_front, maybe_start_next,
  finish_current, stop, clear,
}

-- A call of one of the methods that change the queue.
pub data Call {ℓ} (S : Type ℓ) : Type ℓ where
  push : S → Call S
  finish next clears : Call S
  stops : Bool → Call S

-- How a task left the queue.
pub data Fate : Type 0 where
  started dropped : Fate

-- The queue with the history of its tasks: those that `push_or_start` accepted, oldest first, and
-- those that left, in the order in which they left.
pub record Traced {ℓ κ} (S : Type ℓ) (W : Type κ) : Type (ℓ ⊔ κ) where
  pub queue : TaskQueue S
  pub world : W
  pub accepted : List S
  pub left : List (S × Fate)

abbrev pub tasks {ℓ} : {S : Type ℓ} → List (S × Fate) → List S
tasks = map (λ e. e.0)

abbrev pub drop_all {ℓ} : {S : Type ℓ} → List S → List (S × Fate)
drop_all = map (λ s. (s, dropped))

module _ {ℓ κ} {S : Type ℓ} {W : Type κ} (call : S → W → Bool × W) where
  -- An accepted task was handed on at once if the queue went from idle to in flight.
  settle_push : TaskQueue S → S → TaskQueue S × W × Bool → Traced S W → Traced S W
  settle_push old s (q, w, false) t = record t { queue = q; world = w }
  settle_push old s (q, w, true) t = record {
    queue = q;
    world = w;
    accepted = t.accepted ++ (s ∷ []);
    left = if q.in_flight && not old.in_flight then t.left ++ ((s, started) ∷ []) else t.left;
  }

  settle_next : List S → TaskQueue S × W × Bool → Traced S W → Traced S W
  settle_next (s ∷ rest) (q, w, true) t = record t {
    queue = q;
    world = w;
    left = t.left ++ ((s, started) ∷ []);
  }
  settle_next _ (q, w, _) t = record t { queue = q; world = w }

  unfoldable pub step : Traced S W → Call S → Traced S W
  unfolding settle_push settle_next
  step t (push s) = settle_push t.queue s (push_or_start call t.queue t.world (some s)) t
  step t finish = record t { queue = finish_current t.queue }
  step t next = settle_next t.queue.pending (maybe_start_next call t.queue t.world) t
  step t clears = record t { queue = clear t.queue; left = t.left ++ drop_all t.queue.pending }
  step t (stops b) = record t {
    queue = stop t.queue b;
    left = t.left ++ drop_all (if b then t.queue.pending else []);
  }

  unfoldable pub run : Traced S W → List (Call S) → Traced S W
  run t [] = t
  run t (c ∷ cs) = run (step t c) cs

  abbrev pub start : ℕ → W → Traced S W
  start n w = record { queue = create n; world = w; accepted = []; left = [] }

  -- The tasks that left and those that wait are the accepted ones, in the order of acceptance.
  abbrev pub InOrder : Traced S W → Type ℓ
  InOrder t = tasks t.left ++ t.queue.pending ≡ t.accepted

  abbrev pub IsBounded : TaskQueue S → Type 0
  IsBounded q = length q.pending ≤ q.max_pending

  bool_not : (b : Bool) → (b && not b) ≡ false
  bool_not true = refl
  bool_not false = refl

  settle-one :
      (l : List (S × Fate)) (s : S) (f : Fate) → tasks (l ++ ((s, f) ∷ [])) ≡ tasks l ++ (s ∷ [])
  settle-one [] s f = refl
  settle-one (e ∷ l) s f = ap (λ r. e.0 ∷ r) (settle-one l s f)

  settle-dropped :
      (l : List (S × Fate)) (xs : List S) → tasks (l ++ drop_all xs) ++ [] ≡ tasks l ++ xs
  settle-dropped [] [] = refl
  settle-dropped [] (x ∷ xs) = ap (λ r. x ∷ r) (settle-dropped [] xs)
  settle-dropped (e ∷ l) xs = ap (λ r. e.0 ∷ r) (settle-dropped l xs)

  keep-none : (l : List (S × Fate)) (xs : List S) → tasks (l ++ []) ++ xs ≡ tasks l ++ xs
  keep-none l xs = rw append-nil

  enqueue-InOrder :
      (t : Traced S W) (s : S) (w : W)
      → InOrder t
      → InOrder (settle_push t.queue s (enqueue t.queue w s) t)
  unfolding settle_push enqueue
  enqueue-InOrder t s w h =
      ground
        (arith, append_assoc (tasks t.left) t.queue.pending (s ∷ []), bool_not t.queue.in_flight)

  start_now-InOrder :
      (t : Traced S W) (s : S) (r : Bool × W)
      → t.queue.in_flight ≡ false
      → t.queue.pending ≡ []
      → InOrder t
      → InOrder (settle_push t.queue s (start_now t.queue s r) t)
  unfolding settle_push start_now
  start_now-InOrder t s (true, w) idle e h = ground (
    arith,
    settle-one t.left s started,
    append-nil (tasks t.left),
    append-nil (tasks t.left ++ (s ∷ [])),
  )
  start_now-InOrder t s (false, w) idle e h = enqueue-InOrder t s w h

  push-InOrder : (t : Traced S W) (s : S) → InOrder t → InOrder (step t (push s))
  unfolding step push_or_start
  push-InOrder t s h =
      ground (arith, enqueue-InOrder t s t.world h, start_now-InOrder t s (call s t.world))

  start_front-InOrder :
      (t : Traced S W) (s : S) (rest : List S) (r : Bool × W)
      → t.queue.pending ≡ s ∷ rest
      → InOrder t
      → InOrder (settle_next (s ∷ rest) (start_front t.queue rest r) t)
  unfolding settle_next start_front
  start_front-InOrder t s rest (true, w) e h =
      ground (arith, settle-one t.left s started, append_assoc (tasks t.left) (s ∷ []) rest)
  start_front-InOrder t s rest (false, w) e h = h

  try_front-InOrder :
      (t : Traced S W) (xs : List S)
      → t.queue.pending ≡ xs
      → InOrder t
      → InOrder (settle_next xs (try_front call t.queue t.world xs) t)
  unfolding settle_next try_front
  try_front-InOrder t [] e h = h
  try_front-InOrder t (s ∷ rest) e h = start_front-InOrder t s rest (call s t.world) e h

  settle_idle-InOrder :
      (t : Traced S W) (xs : List S)
      → InOrder t
      → InOrder (settle_next xs (t.queue, t.world, false) t)
  unfolding settle_next
  settle_idle-InOrder t [] h = h
  settle_idle-InOrder t (s ∷ rest) h = h

  step-InOrder : (t : Traced S W) (c : Call S) → InOrder t → InOrder (step t c)
  unfolding step maybe_start_next finish_current stop clear
  step-InOrder t (push s) h = push-InOrder t s h
  step-InOrder t finish h = h
  step-InOrder t next h = elim (Bool-cases (t.queue.stopped || t.queue.in_flight)) [
    | inl busy ↦ rw busy (settle_idle-InOrder t t.queue.pending h)
    | inr idle ↦ rw idle (try_front-InOrder t t.queue.pending refl h)
  ]
  step-InOrder t clears h = settle-dropped t.left t.queue.pending ∙ h
  step-InOrder t (stops true) h = settle-dropped t.left t.queue.pending ∙ h
  step-InOrder t (stops false) h = keep-none t.left t.queue.pending ∙ h

  step-IsBounded : (t : Traced S W) (c : Call S) → IsBounded t.queue → IsBounded (step t c).queue
  unfolding step push_or_start maybe_start_next finish_current stop clear
  step-IsBounded t (push s) h = ground (arith, length-append t.queue.pending (s ∷ []))
  step-IsBounded t finish h = h
  step-IsBounded t next h = ground arith
  step-IsBounded t clears h = omega arith
  step-IsBounded t (stops b) h = ground arith

  step-max_pending :
      (t : Traced S W) (c : Call S) → (step t c).queue.max_pending ≡ t.queue.max_pending
  unfolding step push_or_start maybe_start_next finish_current stop clear
  step-max_pending t (push s) = ground arith
  step-max_pending t finish = refl
  step-max_pending t next = ground arith
  step-max_pending t clears = refl
  step-max_pending t (stops b) = refl

  run-max_pending :
      (t : Traced S W) (cs : List (Call S)) → (run t cs).queue.max_pending ≡ t.queue.max_pending
  unfolding run
  run-max_pending t [] = refl
  run-max_pending t (c ∷ cs) = run-max_pending (step t c) cs ∙ step-max_pending t c

  run-InOrder :
      (t : Traced S W) (cs : List (Call S))
      → InOrder t
      → IsBounded t.queue
      → InOrder (run t cs) × IsBounded (run t cs).queue
  unfolding run
  run-InOrder t [] h b = (h, b)
  run-InOrder t (c ∷ cs) h b = run-InOrder (step t c) cs (step-InOrder t c h) (step-IsBounded t c b)

  -- Whatever sequence of methods is called on a new queue, the tasks that left it (handed on or
  -- dropped, in that order) followed by those that wait are the accepted tasks in the order of
  -- acceptance, and no more than `max_pending` tasks wait.
  pub accepted-InOrder :
      (n : ℕ) (w : W) (cs : List (Call S))
      → InOrder (run (start n w) cs) × (length (run (start n w) cs).queue.pending ≤ n)
  accepted-InOrder n w cs =
      let (order, bound) = run-InOrder (start n w) cs refl (omega arith) in
      (
        order,
        subst (λ m. length (run (start n w) cs).queue.pending ≤ m) (run-max_pending (start n w) cs)
            bound,
      )
