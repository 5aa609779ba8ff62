-- ===== src/Prelude/Perms.antt =====
-- Numbers without repetition, and lengths, do not depend on the order of a list.
use Prim.Native.Nat.{ℕ, suc}
use mathlib.Core.Path.{◌≡◌, refl, sym, ap, subst, ◌∙◌}
use mathlib.Core.Logic.{∥∥₁_elim}
use mathlib.Core.List.{List, [], ◌∷◌, Perm, Permᴰ}
use gast_co_co.Prelude.Lists.{length}
use gast_co_co.Prelude.Distinct.{Absent, Distinct}

Absent-Permᴰ : (n : ℕ) {xs ys : List ℕ} → Permᴰ xs ys → Absent n xs → Absent n ys
Absent-Permᴰ n Permᴰ.nil h = tt
Absent-Permᴰ n (Permᴰ.cons e d) h = ((λ q. h.0 (q ∙ sym e)), Absent-Permᴰ n d h.1)
Absent-Permᴰ n (Permᴰ.swap e e') h = ((λ q. h.1.0 (q ∙ sym e')), ((λ q. h.0 (q ∙ sym e)), h.1.1))
Absent-Permᴰ n (Permᴰ.trans d d') h = Absent-Permᴰ n d' (Absent-Permᴰ n d h)

Distinct-Permᴰ : {xs ys : List ℕ} → Permᴰ xs ys → Distinct xs → Distinct ys
Distinct-Permᴰ Permᴰ.nil h = tt
Distinct-Permᴰ (Permᴰ.cons {l₂ = ys} e d) h =
    (subst (λ x. Absent x ys) e (Absent-Permᴰ _ d h.0), Distinct-Permᴰ d h.1)
Distinct-Permᴰ (Permᴰ.swap {l} e e') h = (
  ((λ q. h.0.0 (e ∙ sym q ∙ sym e')), subst (λ x. Absent x l) e' h.1.0),
  (subst (λ x. Absent x l) e h.0.1, h.1.1),
)
Distinct-Permᴰ (Permᴰ.trans d d') h = Distinct-Permᴰ d' (Distinct-Permᴰ d h)

Absent-prop : (n : ℕ) (xs : List ℕ) → IsProp (Absent n xs)
Absent-prop n [] = hlevel
Absent-prop n (x ∷ xs) = let p = Absent-prop n xs in hlevel p

Distinct-prop : (xs : List ℕ) → IsProp (Distinct xs)
Distinct-prop [] = hlevel
Distinct-prop (x ∷ xs) = let p = Absent-prop x xs in let q = Distinct-prop xs in hlevel (p, q)

pub Distinct-Perm : {xs ys : List ℕ} → Perm xs ys → Distinct xs → Distinct ys
Distinct-Perm {ys} p h = ∥∥₁_elim p (Distinct-prop ys) (λ d. Distinct-Permᴰ d h)

length-Permᴰ {ℓ} : {A : Type ℓ} {xs ys : List A} → Permᴰ xs ys → length xs ≡ length ys
length-Permᴰ Permᴰ.nil = refl
length-Permᴰ (Permᴰ.cons e d) = ap suc (length-Permᴰ d)
length-Permᴰ (Permᴰ.swap e e') = refl
length-Permᴰ (Permᴰ.trans d d') = length-Permᴰ d ∙ length-Permᴰ d'

pub length-Perm {ℓ} : {A : Type ℓ} {xs ys : List A} → Perm xs ys → length xs ≡ length ys
length-Perm p = ∥∥₁_elim p (hlevel) length-Permᴰ
