-- ===== src/Prelude/Lists.antt =====
-- Lists measured by native numbers, and the list functions that the source writes as loops.
use Prim.Native.Nat.{ℕ, suc, ◌+◌}
use mathlib.Core.Path.{◌≡◌, refl, sym, ap, ◌∙◌, ap₂, subst}
use mathlib.Core.Bool.{Bool, true, false, not, ◌&&◌, ◌||◌}
use mathlib.Core.List.{List, [], ◌∷◌, ◌++◌, map, Perm, Permᴰ, perm_middle, Memᴰ}
use mathlib.Core.List.Perm
use mathlib.Core.Logic.{◌↔◌, ∥∥₁_elim}
use native.Mathlib.Omega.{arith}

module _ {ℓ} {A : Type ℓ} where
  abbrev pub length : List A → ℕ
  length [] = 0
  length (x ∷ xs) = suc (length xs)

  pub length-append : (xs ys : List A) → length (xs ++ ys) ≡ length xs + length ys
  length-append [] ys = omega arith
  length-append (x ∷ xs) ys = omega (arith, length-append xs ys)

  -- `len(xs) == 0`
  abbrev pub is_empty : List A → Bool
  is_empty [] = true
  is_empty (x ∷ xs) = false

  abbrev pub All {κ} : (A → Type κ) → List A → Type κ
  All P [] = Unit
  All P (x ∷ xs) = P x × All P xs

  pub All-append {κ} : (P : A → Type κ) (xs ys : List A) → All P xs → All P ys → All P (xs ++ ys)
  All-append P [] ys _ q = q
  All-append P (x ∷ xs) ys (p, ps) q = (p, All-append P xs ys ps q)

  abbrev pub any : (A → Bool) → List A → Bool
  any p [] = false
  any p (x ∷ xs) = p x || any p xs

  abbrev pub all : (A → Bool) → List A → Bool
  all p [] = true
  all p (x ∷ xs) = p x && all p xs

  pub is_empty-append_cons : (xs : List A) (y : A) (ys : List A) → is_empty (xs ++ y ∷ ys) ≡ false
  is_empty-append_cons [] y ys = refl
  is_empty-append_cons (x ∷ xs) y ys = refl

  pub is_empty_iff : (xs : List A) → (is_empty xs ≡ true) ↔ (xs ≡ [])
  is_empty_iff [] = (λ _. refl, λ _. refl)
  is_empty_iff (x ∷ xs) = (λ h. cc, λ h. cc)

  -- The elements that pass a Boolean test.
  abbrev pub keep : (A → Bool) → List A → List A
  keep p [] = []
  keep p (x ∷ xs) = elim (p x) [ true ↦ x ∷ keep p xs | false ↦ keep p xs ]

  pub keep-perm : (p : A → Bool) (xs : List A) → Perm (keep p xs ++ keep (λ x. not (p x)) xs) xs
  keep-perm p [] = Perm.nil
  keep-perm p (x ∷ xs) =
      elim (p x)
        as (λ b.
          Perm
            ((elim b [ true ↦ x ∷ keep p xs | false ↦ keep p xs ]) ++ (elim (not b) [
              | true ↦ x ∷ keep (λ y. not (p y)) xs
              | false ↦ keep (λ y. not (p y)) xs
            ]))
            (x ∷ xs)) [
              | true ↦ Perm.cons x (keep-perm p xs)
              | false ↦
                  Perm.trans (perm_middle (keep p xs) (keep (λ y. not (p y)) xs))
                    (Perm.cons x (keep-perm p xs))
            ]

  pub is_empty-append : (xs ys : List A) → is_empty (xs ++ ys) ≡ (is_empty xs && is_empty ys)
  is_empty-append [] ys = ground arith
  is_empty-append (x ∷ xs) ys = refl

module _ {ℓ κ} {A : Type ℓ} {B : Type κ} (f : A → B) where
  pub is_empty-map : (xs : List A) → is_empty (map f xs) ≡ is_empty xs
  is_empty-map [] = refl
  is_empty-map (x ∷ xs) = refl

module _ {ℓ κ} {A : Type ℓ} (P : A → Type κ) (prop : (x : A) → IsProp (P x)) where
  All-IsProp : (xs : List A) → IsProp (All P xs)
  All-IsProp [] p q = refl
  All-IsProp (x ∷ xs) (p, ps) (q, qs) = ap₂ (λ a b. (a, b)) (prop x p q) (All-IsProp xs ps qs)

  All-permᴰ : {xs ys : List A} → Permᴰ xs ys → All P xs → All P ys
  All-permᴰ Permᴰ.nil ps = ps
  All-permᴰ (Permᴰ.cons e p) ps = (subst P e ps.0, All-permᴰ p ps.1)
  All-permᴰ (Permᴰ.swap e f) ps = (subst P f ps.1.0, (subst P e ps.0, ps.1.1))
  All-permᴰ (Permᴰ.trans p q) ps = All-permᴰ q (All-permᴰ p ps)

  pub All-perm : {xs ys : List A} → Perm xs ys → All P xs → All P ys
  All-perm {ys} p ps = ∥∥₁_elim p (All-IsProp ys) (λ d. All-permᴰ d ps)

pub keep_mem {ℓ} :
    {A : Type ℓ} (p : A → Bool) {a : A} {xs : List A} → Memᴰ a xs → p a ≡ true → Memᴰ a (keep p xs)
keep_mem p (Memᴰ.head {xs} e) h = rw (ap p (sym e) ∙ h, keep) (Memᴰ.head e)
keep_mem p {a} (Memᴰ.tail {x} {xs} m) h =
    elim (p x) as (λ b. Memᴰ a (elim b [ true ↦ x ∷ keep p xs | false ↦ keep p xs ])) [
      | true ↦ Memᴰ.tail (keep_mem p m h)
      | false ↦ keep_mem p m h
    ]
