-- ===== src/Base/Result.antt =====
-- Results of functions that may throw.
use asrcpp_gigam.Base.{◌≡◌, refl, subst, Bool, true, false}

pub data Result {ℓ κ} (E : Type ℓ) (A : Type κ) : Type (ℓ ⊔ κ) where
  ok : A → Result E A
  err : E → Result E A

-- `if (test) throw e;`
abbrev pub throw_if {ℓ} : {E : Type ℓ} → Bool → E → Result E (Unit {0})
throw_if true e = err e
throw_if false e = ok tt

infixl 5 ◌>>=◌
abbrev pub ◌>>=◌ {ℓ κ ι} :
    {Thrown : Type ℓ} {A : Type κ} {B : Type ι} (step : Result Thrown A)
    (rest : A → Result Thrown B)
    → Result Thrown B
err thrown >>= rest = err thrown
ok a >>= rest = rest a

-- `P` holds of the result, if there is one.
abbrev pub Ensures {ℓ κ ι} : {E : Type ℓ} {A : Type κ} → (A → Type ι) → Result E A → Type ι
Ensures P (ok a) = P a
Ensures P (err e) = Unit

pub ok_injective {ℓ κ} :
    {E : Type ℓ} {A : Type κ} {a b : A} → ◌≡◌ {A = Result E A} (ok a) (ok b) → a ≡ b
ok_injective e = cc

pub err_injective {ℓ κ} :
    {E : Type ℓ} {A : Type κ} {d e : E} → ◌≡◌ {A = Result E A} (err d) (err e) → d ≡ e
err_injective h = cc

infixl 5 ◌>>◌
abbrev pub ◌>>◌ {ℓ ι} :
    {Thrown : Type ℓ} {B : Type ι} (check : Result Thrown (Unit {0})) (rest : Result Thrown B)
    → Result Thrown B
check >> rest = check >>= λ _. rest

pub Ensures-ok {ℓ κ ι} :
    {E : Type ℓ} {A : Type κ} (P : A → Type ι) (r : Result E A) {a : A}
    → r ≡ ok a
    → Ensures P r
    → P a
Ensures-ok P (ok b) e p = subst P (ok_injective e) p
Ensures-ok P (err x) e p = cc

pub Ensures->>= {ℓ κ ι θ μ} :
    {E : Type ℓ} {A : Type κ} {B : Type ι} (P : A → Type θ) (Q : B → Type μ) (r : Result E A)
    (f : A → Result E B)
    → Ensures P r
    → ((a : A) → P a → Ensures Q (f a))
    → Ensures Q (r >>= f)
Ensures->>= P Q (ok a) f p k = k a p
Ensures->>= P Q (err e) f p k = tt

pub >>=-eq-ok {ℓ κ ι} :
    {Thrown : Type ℓ} {A : Type κ} {B : Type ι} (step : Result Thrown A)
    (rest : A → Result Thrown B) {b : B}
    → (step >>= rest) ≡ ok b
    → (a : A) × (step ≡ ok a) × (rest a ≡ ok b)
>>=-eq-ok (err thrown) rest h = cc
>>=-eq-ok (ok a) rest h = (a, refl, h)

pub Ensures-throw_if {ℓ κ ι} :
    {Thrown : Type ℓ} {B : Type κ} (Q : B → Type ι) (test : Bool) (thrown : Thrown)
    (rest : Result Thrown B)
    → (test ≡ false → Ensures Q rest)
    → Ensures Q (throw_if test thrown >> rest)
Ensures-throw_if Q true thrown rest h = tt
Ensures-throw_if Q false thrown rest h = h refl
