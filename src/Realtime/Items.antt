-- ===== src/Realtime/Items.antt =====
-- The conversation's items (src/realtime_session.cpp): every commit names a new one, and the one that
-- was committed before it.
use mathlib.Core.List.{Nodup, Nodup-cons, Nodup-nil, Mem, not-mem-nil, eq-or-mem_of_mem-cons}
use mathlib.Core.Logic.Or
use mathlib.Core.HLevel.{⊥_prop}
use asrcpp_gigam.Base.{
  Bool-cases, is_empty, drop, ℕ, suc, ◌≤◌, ◌<◌, ◌≡◌, refl, ap, ◌∙◌, subst, ◌⊎◌, inl, inr, List, [],
  ◌∷◌, ◌++◌, map, arith,
}
use asrcpp_gigam.Base.Bytes.{Bytes, codes}
use asrcpp_gigam.Base.Decimal.{decimal, decimal_injective}
use asrcpp_gigam.Base.Result.{ok, err}
use asrcpp_gigam.Base.Floats.{Floats}
use asrcpp_gigam.Json.Library.{JsonLibrary}
use asrcpp_gigam.Realtime.{
  RealtimeCommittedItem, RealtimeSessionConfig, RealtimeSession, new_session, item_id_of,
  next_event_id, next_item_id, ensure_current_item_id, commit_current_item, clear_current_item,
}
use asrcpp_gigam.Realtime.Update.{Updated, updated_config, store_update, apply_session_update}

-- The calls that a connection makes of its session; `numbers` is an event of the kinds that only take
-- the next number, `names` one that also names the current item.
pub data Call (V : Type 0) : Type 0 where
  numbers names commits clears : Call V
  updates : V → Call V

module _ (fl : Floats) (js : JsonLibrary (fl.Float)) where
  abbrev pub and_commit :
      RealtimeCommittedItem × RealtimeSession fl → List RealtimeCommittedItem × RealtimeSession fl
  and_commit (item, s) = (item ∷ [], s)

  unfoldable pub call :
      Call (js.Value) → RealtimeSession fl → List RealtimeCommittedItem × RealtimeSession fl
  unfolding next_event_id ensure_current_item_id commit_current_item clear_current_item
      apply_session_update
  call numbers s = ([], (next_event_id fl s).1)
  call names s = ([], (ensure_current_item_id fl (next_event_id fl s).1).1)
  call commits s = and_commit (commit_current_item fl s)
  call clears s = ([], clear_current_item fl s)
  call (updates u) s = ([], (apply_session_update fl js u s).0)

  -- The commits of a run, and the session after it.
  unfoldable pub run :
      List (Call (js.Value)) → RealtimeSession fl → List RealtimeCommittedItem × RealtimeSession fl
  unfolding call
  run [] s = ([], s)
  run (c ∷ cs) s = let (items, t) = call c s in let (rest, u) = run cs t in (items ++ rest, u)

-- The commits after the item number `last`, whose name is `previous`.
abbrev pub Chain : ℕ → Bytes → List RealtimeCommittedItem → Type 0
Chain last previous [] = Unit {0}
Chain last previous (c ∷ cs) =
    (c.previous_item_id ≡ previous)
    × ((n : ℕ) × (last < n) × (c.item_id ≡ codes "item_" ++ decimal n) × Chain n c.item_id cs)

item_id_injective : (m n : ℕ) → codes "item_" ++ decimal m ≡ codes "item_" ++ decimal n → m ≡ n
item_id_injective m n h = decimal_injective m n (ap (drop 5) h)

module _ (fl : Floats) where
  -- `last` is the number of the last committed item.
  pub record Known (last : ℕ) (s : RealtimeSession fl) : Type 0 where
    pub below : last ≤ s.item_seq
    pub current :
        (s.current_item_id ≡ [])
        ⊎ ((n : ℕ) × (last < n) × (n ≤ s.item_seq) × (s.current_item_id ≡ item_id_of fl n))

  -- What a commit gives, and the state that it leaves.
  Committed : ℕ → RealtimeSession fl → RealtimeCommittedItem × RealtimeSession fl → Type 0
  Committed last s (c, t) =
      (c.previous_item_id ≡ s.previous_item_id)
      × (t.previous_item_id ≡ c.item_id)
      × ((n : ℕ) × (last < n) × (c.item_id ≡ item_id_of fl n) × Known n t)

  ensure-Known :
      (last : ℕ) (s : RealtimeSession fl)
      → Known last s
      → Known last (ensure_current_item_id fl s).1
  unfolding ensure_current_item_id next_item_id
  ensure-Known last s v = elim v.current [
    | inl e ↦ rw e (record {
      below = omega (arith, v.below);
      current = inr (suc s.item_seq, omega (arith, v.below), omega arith, refl);
    })
    | inr (n, above, below, e) ↦
        rw e (record { below = v.below; current = inr (n, above, below, refl) })
  ]

  commit-Committed :
      (last : ℕ) (s : RealtimeSession fl)
      → Known last s
      → Committed last s (commit_current_item fl s)
  unfolding Committed commit_current_item ensure_current_item_id next_item_id
  commit-Committed last s v = elim v.current [
    | inl e ↦ rw e (
      refl,
      refl,
      (
        suc s.item_seq,
        omega (arith, v.below),
        refl,
        record { below = omega arith; current = inl refl },
      ),
    )
    | inr (n, above, below, e) ↦
        rw e (refl, refl, (n, above, refl, record { below = below; current = inl refl }))
  ]

module _ (fl : Floats) (js : JsonLibrary (fl.Float)) where
  commits-Chain :
      (rest : RealtimeSession fl → List RealtimeCommittedItem) (last : ℕ) (s : RealtimeSession fl)
      (c : RealtimeCommittedItem × RealtimeSession fl)
      → ((n : ℕ) (t : RealtimeSession fl) → Known fl n t → Chain n t.previous_item_id (rest t))
      → Committed fl last s c
      → Chain last s.previous_item_id (c.0 ∷ rest c.1)
  unfolding Committed
  commits-Chain rest last s (c, t) k (previous, now, (n, above, e, v)) =
      (previous, (n, above, e, subst (λ p. Chain n p (rest t)) now (k n t v)))

  -- Calls that commit nothing keep what is known, and the last committed item.
  update-Known :
      (last : ℕ) (s : RealtimeSession fl) (r : Updated fl js)
      → Known fl last s
      → Known fl last (store_update fl js s r).0
        × ((store_update fl js s r).0.previous_item_id ≡ s.previous_item_id)
  unfolding store_update
  update-Known last s (ok next) v = (record { below = v.below; current = v.current }, refl)
  update-Known last s (err message) v = (v, refl)

  ensure-previous :
      (s : RealtimeSession fl)
      → (ensure_current_item_id fl s).1.previous_item_id ≡ s.previous_item_id
  unfolding ensure_current_item_id next_item_id
  ensure-previous s = elim (Bool-cases (is_empty s.current_item_id)) [
    | inl e ↦ rw e refl
    | inr e ↦ rw e refl
  ]

  run-Chain :
      (cs : List (Call (js.Value))) (last : ℕ) (s : RealtimeSession fl)
      → Known fl last s
      → Chain last s.previous_item_id (run fl js cs s).0
  unfolding run call next_event_id clear_current_item apply_session_update
  run-Chain [] last s v = tt
  run-Chain (numbers ∷ cs) last s v =
      run-Chain cs last (next_event_id fl s).1 (record { below = v.below; current = v.current })
  run-Chain (names ∷ cs) last s v =
      let t = (next_event_id fl s).1 in
      subst (λ p. Chain last p (run fl js (names ∷ cs) s).0) (ensure-previous t)
        (run-Chain cs last (ensure_current_item_id fl t).1
          (ensure-Known fl last t (record { below = v.below; current = v.current })))
  run-Chain (commits ∷ cs) last s v =
      commits-Chain (λ t. (run fl js cs t).0) last s (commit_current_item fl s)
        (λ n t. run-Chain cs n t) (commit-Committed fl last s v)
  run-Chain (clears ∷ cs) last s v =
      run-Chain cs last (clear_current_item fl s) (record { below = v.below; current = inl refl })
  run-Chain (updates u ∷ cs) last s v =
      let k = update-Known last s (updated_config fl js u s.config) v in
      subst (λ p. Chain last p (run fl js (updates u ∷ cs) s).0) k.1
        (run-Chain cs last (apply_session_update fl js u s).0 k.0)

not-Mem-below :
    (last n : ℕ) (previous : Bytes) (cs : List RealtimeCommittedItem)
    → n ≤ last
    → Chain last previous cs
    → ¬ Mem (codes "item_" ++ decimal n) (map (λ c. c.item_id) cs)
not-Mem-below last n previous [] h k m = not-mem-nil m
not-Mem-below last n previous (c ∷ cs) h (_, (i, above, e, k)) m =
    Or.elim ⊥_prop (eq-or-mem_of_mem-cons m)
      (λ same. omega (arith, item_id_injective n i (same ∙ e)))
      (not-Mem-below i n c.item_id cs (omega arith) k)

Chain-Nodup :
    (last : ℕ) (previous : Bytes) (cs : List RealtimeCommittedItem)
    → Chain last previous cs
    → Nodup (map (λ c. c.item_id) cs)
Chain-Nodup last previous [] k = Nodup-nil
Chain-Nodup last previous (c ∷ cs) (_, (i, above, e, k)) = Nodup-cons.1 (
  (λ m.
      not-Mem-below i i c.item_id cs (omega arith) k
        (subst (λ x. Mem x (map (λ c'. c'.item_id) cs)) e m)),
  Chain-Nodup i c.item_id cs k,
)

-- Every item names the one before it as its previous item; `previous` is that of the first.
abbrev pub Linked : Bytes → List RealtimeCommittedItem → Type 0
Linked previous [] = Unit {0}
Linked previous (c ∷ cs) = (c.previous_item_id ≡ previous) × Linked c.item_id cs

Chain-Linked :
    (last : ℕ) (previous : Bytes) (cs : List RealtimeCommittedItem)
    → Chain last previous cs
    → Linked previous cs
Chain-Linked last previous [] k = tt
Chain-Linked last previous (c ∷ cs) (p, (i, _, _, k)) = (p, Chain-Linked i c.item_id cs k)

-- Whatever a connection does with a new session, its commits form a chain: the first has no previous
-- item, each later one names the item committed just before it, and no two name the same item.
pub commits-Linked :
    (fl : Floats) (js : JsonLibrary (fl.Float)) (connection_id : ℕ)
    (config : RealtimeSessionConfig fl) (cs : List (Call (js.Value)))
    → let items = (run fl js cs (new_session fl connection_id config)).0 in
      Linked [] items × Nodup (map (λ c. c.item_id) items)
unfolding new_session
commits-Linked fl js connection_id config cs =
    let k =
      run-Chain fl js cs 0 (new_session fl connection_id config)
        (record { below = omega arith; current = inl refl }) in
    (Chain-Linked 0 [] _ k, Chain-Nodup 0 [] _ k)
