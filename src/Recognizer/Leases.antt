-- ===== src/Recognizer/Leases.antt =====
-- That no recognizer of the pool (src/recognizer.cpp) is leased twice.
use mathlib.Core.Bool.{Bool-set}
use native.Mathlib.Bridge.{le_prop}
use mathlib.Core.List.{
  Perm, Nodup, Nodup-cons, Nodup-nil, Mem, not-mem-nil, eq-or-mem_of_mem-cons, mem-cons_self,
}
use mathlib.Core.List.Perm
use mathlib.Core.Logic.Or
use asrcpp_gigam.Base.{
  if◌then◌else◌, Bool-cases, Option-cases, if_cases, length, All, ℕ, zero, suc, ◌+◌, ◌≤◌, ◌≡◌, refl,
  ap, subst, inl, inr, Bool, true, false, not, Option, none, some, List, [], ◌∷◌, arith,
}
use asrcpp_gigam.Recognizer.{Slot, find_free, set_use, take_slot, try_lease, end_lease}

-- An attempt, or the end of the lease at a position of the list of leases.
pub data Event : Type 0 where
  tries : Event
  ends : ℕ → Event

abbrev pub without : ℕ → List ℕ → List ℕ
without n [] = []
without zero (x ∷ xs) = xs
without (suc n) (x ∷ xs) = x ∷ without n xs

abbrev nth : List ℕ → ℕ → Option ℕ
nth [] n = none
nth (x ∷ xs) zero = some x
nth (x ∷ xs) (suc n) = nth xs n

abbrev Holds : (ℕ → Type 0) → Option ℕ → Type 0
Holds P none = Unit
Holds P (some i) = P i

-- A slot in front that is in use, or not, stands before the others.
skip-used :
    (i j : ℕ) (b : Bool) (xs ys : List ℕ)
    → Perm xs ((suc i + j) ∷ ys)
    → Perm (if b then i ∷ xs else xs) ((i + suc j) ∷ (if b then i ∷ ys else ys))
skip-used i j b xs ys p =
    placed b (subst (λ n. Perm xs (n ∷ ys)) {x = suc i + j} {y = i + suc j} (omega arith) p)
  where
    placed :
        (b : Bool)
        → Perm xs ((i + suc j) ∷ ys)
        → Perm (if b then i ∷ xs else xs) ((i + suc j) ∷ (if b then i ∷ ys else ys))
    placed true q = Perm.trans (Perm.cons' refl q) (Perm.swap (i + suc j) i ys)
    placed false q = q

front :
    {P : Type 0} (i n : ℕ) (b : Bool) (xs : List ℕ)
    → IsProp P
    → Mem n (if b then i ∷ xs else xs)
    → (b ≡ true → n ≡ i → P)
    → (Mem n xs → P)
    → P
front i n true xs prop m h k = Or.elim prop (eq-or-mem_of_mem-cons m) (h refl) k
front i n false xs prop m h k = k m

nth-without : (n : ℕ) (xs : List ℕ) (i : ℕ) → nth xs n ≡ some i → Perm xs (i ∷ without n xs)
nth-without n [] i e = cc
nth-without zero (x ∷ xs) i e = Perm.cons' (cc) Perm.rfl
nth-without (suc n) (x ∷ xs) i e =
    Perm.trans (Perm.cons' refl (nth-without n xs i e)) (Perm.swap i x (without n xs))

some-none : {A : Type 0} {a : A} → ¬ (some a ≡ none)
some-none h = cc

not-eq-true : (b : Bool) → not b ≡ true → b ≡ false
not-eq-true b h = ground arith

module _ (H : Type 0) where
  -- The slots, and the numbers of those that are leased, the last first.
  pub record Pool : Type 0 where
    pub slots : List (Slot H)
    pub leases : List ℕ

module _ {H : Type 0} where
  leased : Pool H → Option ℕ × List (Slot H) → Pool H
  leased p (none, slots) = record p { slots = slots }
  leased p (some i, slots) = record { slots = slots; leases = i ∷ p.leases }

  ended : ℕ → Pool H → Option ℕ → Pool H
  ended n p none = p
  ended n p (some i) = record { slots = end_lease i p.slots; leases = without n p.leases }

  unfoldable pub step : Event → Pool H → Pool H
  unfolding leased ended try_lease end_lease
  step tries p = leased p (try_lease p.slots)
  step (ends n) p = ended n p (nth p.leases n)

  unfoldable pub run : List Event → Pool H → Pool H
  unfolding step
  run [] p = p
  run (e ∷ es) p = run es (step e p)

  -- The numbers, from `i` on, of the slots in use.
  abbrev pub used : ℕ → List (Slot H) → List ℕ
  used i [] = []
  used i (s ∷ ss) = if s.in_use then i ∷ used (suc i) ss else used (suc i) ss

  abbrev in_use_at : ℕ → List (Slot H) → Bool
  in_use_at i [] = false
  in_use_at zero (s ∷ ss) = s.in_use
  in_use_at (suc i) (s ∷ ss) = in_use_at i ss

  -- A slot that is there and not in use.
  abbrev free_at : ℕ → List (Slot H) → Bool
  free_at i [] = false
  free_at zero (s ∷ ss) = not s.in_use
  free_at (suc i) (s ∷ ss) = free_at i ss

  find_free-Holds : (ss : List (Slot H)) → Holds (λ i. free_at i ss ≡ true) (find_free ss)
  unfolding find_free
  find_free-Holds [] = tt
  find_free-Holds (s ∷ ss) =
      if_cases (Holds (λ i. free_at i (s ∷ ss) ≡ true)) (not s.in_use) (λ e. e)
        λ _. later (find_free ss) (find_free-Holds ss)
    where
      later :
          (o : Option ℕ)
          → Holds (λ i. free_at i ss ≡ true) o
          → Holds (λ i. free_at i (s ∷ ss) ≡ true) (elim o [ none ↦ none | some i ↦ some (suc i) ])
      later none h = tt
      later (some i) h = h

  used-set_true :
      (i j : ℕ) (ss : List (Slot H))
      → free_at j ss ≡ true
      → Perm (used i (set_use j true ss)) ((i + j) ∷ used i ss)
  used-set_true i j [] e = cc
  used-set_true i zero (s ∷ ss) e = rw (not-eq-true s.in_use e) (Perm.cons' (omega arith) Perm.rfl)
  used-set_true i (suc j) (s ∷ ss) e = skip-used i j s.in_use _ _ (used-set_true (suc i) j ss e)

  used-set_false :
      (i j : ℕ) (ss : List (Slot H))
      → in_use_at j ss ≡ true
      → Perm (used i ss) ((i + j) ∷ used i (set_use j false ss))
  used-set_false i j [] e = cc
  used-set_false i zero (s ∷ ss) e = rw e (Perm.cons' (omega arith) Perm.rfl)
  used-set_false i (suc j) (s ∷ ss) e = skip-used i j s.in_use _ _ (used-set_false (suc i) j ss e)

  -- The numbers of the slots in use are at least the first, and those of slots in use.
  used-bound : (i n : ℕ) (ss : List (Slot H)) → Mem n (used i ss) → i ≤ n
  used-bound i n [] m = absurd (not-mem-nil m)
  used-bound i n (s ∷ ss) m =
      front i n s.in_use (used (suc i) ss) le_prop m (λ _ e. omega (arith, e))
        λ later. omega (arith, used-bound (suc i) n ss later)

  Mem-in_use_at : (i j : ℕ) (ss : List (Slot H)) → Mem (i + j) (used i ss) → in_use_at j ss ≡ true
  Mem-in_use_at i j [] m = absurd (not-mem-nil m)
  Mem-in_use_at i zero (s ∷ ss) m =
      front i (i + 0) s.in_use (used (suc i) ss) (Bool-set _ _) m (λ e _. e)
        λ later. absurd (omega (arith, used-bound (suc i) (i + 0) ss later))
  Mem-in_use_at i (suc j) (s ∷ ss) m =
      front i (i + suc j) s.in_use (used (suc i) ss) (Bool-set _ _) m
        (λ _ e. absurd (omega (arith, e)))
        λ later.
          Mem-in_use_at (suc i) j ss (
            subst (λ n. Mem n (used (suc i) ss)) {x = i + suc j} {y = suc i + j} (omega arith)
              later)

  used-Nodup : (i : ℕ) (ss : List (Slot H)) → Nodup (used i ss)
  used-Nodup i [] = Nodup-nil
  used-Nodup i (s ∷ ss) =
      if_cases Nodup s.in_use
        (λ _. Nodup-cons.1 ((λ m. omega (arith, used-bound (suc i) i ss m)), used-Nodup (suc i) ss))
        λ _. used-Nodup (suc i) ss

  abbrev Fair : Pool H → Type 0
  Fair p = Perm p.leases (used 0 p.slots)

  leased-Fair :
      (p : Pool H) (o : Option ℕ)
      → Holds (λ i. free_at i p.slots ≡ true) o
      → Fair p
      → Fair (leased p (take_slot p.slots o))
  unfolding leased
  leased-Fair p none h v = v
  leased-Fair p (some i) h v = Perm.trans (Perm.cons' refl v) (
      Perm.symm (
        subst (λ n. Perm (used 0 (set_use i true p.slots)) (n ∷ used 0 p.slots)) {x = 0 + i}
          (omega arith) (used-set_true 0 i p.slots h)))

  ended-Fair :
      (n : ℕ) (p : Pool H) (o : Option ℕ) → nth p.leases n ≡ o → Fair p → Fair (ended n p o)
  unfolding ended end_lease
  ended-Fair n p none e v = v
  ended-Fair n p (some i) e v =
      let k = nth-without n p.leases i e in
      let here = (Perm.mem_iff v).0 ((Perm.mem_iff (Perm.symm k)).0 mem-cons_self) in
      let u =
        Mem-in_use_at 0 i p.slots
          (subst (λ m. Mem m (used 0 p.slots)) {x = i} {y = 0 + i} (omega arith) here) in
      Perm.cons_inv (
        Perm.trans (Perm.symm k) (
          Perm.trans v (
            subst (λ m. Perm (used 0 p.slots) (m ∷ used 0 (set_use i false p.slots))) {x = 0 + i}
              (omega arith) (used-set_false 0 i p.slots u))))

  step-Fair : (e : Event) (p : Pool H) → Fair p → Fair (step e p)
  unfolding step try_lease
  step-Fair tries p v = leased-Fair p (find_free p.slots) (find_free-Holds p.slots) v
  step-Fair (ends n) p v = ended-Fair n p (nth p.leases n) refl v

  run-Fair : (es : List Event) (p : Pool H) → Fair p → Fair (run es p)
  unfolding run
  run-Fair [] p v = v
  run-Fair (e ∷ es) p v = run-Fair es (step e p) (step-Fair e p v)

  none_used : (i : ℕ) (ss : List (Slot H)) → All (λ s. s.in_use ≡ false) ss → used i ss ≡ []
  none_used i [] k = refl
  none_used i (s ∷ ss) k = rw k.0 (none_used (suc i) ss k.1)

  all_used : (i : ℕ) (ss : List (Slot H)) → find_free ss ≡ none → length (used i ss) ≡ length ss
  unfolding find_free
  all_used i [] e = refl
  all_used i (s ∷ ss) e = elim (Bool-cases s.in_use) [
    | inl u ↦ elim (Option-cases (find_free ss)) [
      | inl f ↦ rw u (ap suc (all_used (suc i) ss f))
      | inr (k, f) ↦ absurd (some-none (rw (u, f) at e))
    ]
    | inr u ↦ absurd (some-none (rw u at e))
  ]

  started :
      (slots : List (Slot H))
      → All (λ s. s.in_use ≡ false) slots
      → Fair (record { slots = slots; leases = [] })
  started slots k = rw (none_used 0 slots k) Perm.rfl

  -- Whoever tries for a recognizer and gives it back, in any order: no two leases at a time are of the
  -- same slot.
  pub leases_apart :
      (slots : List (Slot H)) (es : List Event)
      → All (λ s. s.in_use ≡ false) slots
      → Nodup (run es (record { slots = slots; leases = [] })).leases
  leases_apart slots es k =
      Perm.nodup (Perm.symm (run-Fair es _ (started slots k)))
        (used-Nodup 0 (run es (record { slots = slots; leases = [] })).slots)
