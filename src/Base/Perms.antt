-- ===== src/Base/Perms.antt =====
-- Permutations and native lengths.
use mathlib.Core.Logic.{∥∥₁_elim}
use mathlib.Core.List.{Perm, Permᴰ}
use native.Mathlib.Nat.{ℕ_set}
use asrcpp_gigam.Base.{length, suc, ◌≡◌, refl, ap, ◌∙◌, List}

module _ {ℓ} {A : Type ℓ} where
  Permᴰ-length : {xs ys : List A} → Permᴰ xs ys → length xs ≡ length ys
  Permᴰ-length Permᴰ.nil = refl
  Permᴰ-length (Permᴰ.cons a p) = ap suc (Permᴰ-length p)
  Permᴰ-length (Permᴰ.swap e d) = refl
  Permᴰ-length (Permᴰ.trans p q) = Permᴰ-length p ∙ Permᴰ-length q

  pub perm-length : {xs ys : List A} → Perm xs ys → length xs ≡ length ys
  perm-length p = ∥∥₁_elim p (ℕ_set _ _) Permᴰ-length
