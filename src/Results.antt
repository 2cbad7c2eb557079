-- ===== src/Results.antt =====
-- Go's `(T, error)`: a value, or an error. Of an error the source uses its text, to which `%w` adds a
-- prefix, and whether `errors.Is(err, os.ErrNotExist)`, which `%w` keeps.
use cost_risk_aware_gitops_p.Prelude.{
  ◌≡◌, refl, ◌⊎◌, ◌↔◌, inl, inr, String, [], ◌∷◌, concat, Bool, true, false, arith,
}

pub record Error : Type 0 where
  pub message : String
  pub not_exist : Bool

-- What a call returns: `v, nil` or `_, err`.
pub data Result {κ} (Val : Type κ) : Type κ where
  ok : (value : Val) → Result Val
  err : (failure : Error) → Result Val

-- `fmt.Errorf` with no `%w`, and `errors.New`.
abbrev pub errorf : String → Error
errorf s = record { message = s; not_exist = false }

-- `fmt.Errorf("prefix: %w", err)`
abbrev pub wrap {ℓ} : {A : Type ℓ} → String → Result A → Result A
wrap prefix (ok a) = ok a
wrap prefix (err e) = err (record e { message = concat (prefix ∷ ": " ∷ e.message ∷ []) })

-- `if bad { return fmt.Errorf(text) }`
abbrev pub refuse_if : Bool → String → Result (Unit {0})
refuse_if true text = err (errorf text)
refuse_if false text = ok tt

-- `if err != nil { return err }` after a call, and the code below it.
module _ {ℓ κ} {A : Type ℓ} {Out : Type κ} where
  infixl 5 ◌>>=◌
  abbrev pub ◌>>=◌ : (call : Result A) (below : A → Result Out) → Result Out
  (err failure) >>= below = err failure
  (ok value) >>= below = below value

module _ {κ} {Out : Type κ} where
  infixl 5 ◌>>◌
  abbrev pub ◌>>◌ : (check : Result (Unit {0})) (below : Result Out) → Result Out
  (err failure) >> below = err failure
  (ok done) >> below = below

pub Result-cases {ℓ} :
    {A : Type ℓ} (r : Result A) → ((a : A) × (r ≡ ok a)) ⊎ ((e : Error) × (r ≡ err e))
Result-cases (ok a) = inl (a, refl)
Result-cases (err e) = inr (e, refl)

pub bind_same {ℓ κ} :
    {A : Type ℓ} {B : Type κ} (m : Result A) {k h : A → Result B}
    → ((a : A) → k a ≡ h a)
    → (m >>= k) ≡ (m >>= h)
bind_same (ok a) same = same a
bind_same (err e) same = refl

-- A chain that returns has a first step that returned.
pub bind_ok {ℓ κ} :
    {A : Type ℓ} {B : Type κ} (m : Result A) (k : A → Result B) (b : B)
    → (m >>= k) ≡ ok b
    → (a : A) × (m ≡ ok a) × (k a ≡ ok b)
bind_ok (ok a) k b e = (a, refl, e)
bind_ok (err x) k b e = ground arith

pub then_ok {ℓ} :
    {A : Type ℓ} (c : Result (Unit {0})) (m : Result A) (a : A)
    → (c >> m) ≡ ok a
    → (c ≡ ok tt) × (m ≡ ok a)
then_ok (ok x) m a h = (refl, h)
then_ok (err e) m a h = ground arith

-- A step that always returns adds no error.
pub bind_err_iff {ℓ κ} :
    {A : Type ℓ} {B : Type κ} (m : Result A) (f : A → B) (x : Error)
    → ((m >>= λ a. ok (f a)) ≡ err x) ↔ (m ≡ err x)
bind_err_iff (ok a) f x = ground arith
bind_err_iff (err y) f x = ground arith

pub ok_inj {ℓ} : {A : Type ℓ} (a b : A) → ok a ≡ ok b → a ≡ b
ok_inj a b e = ground arith

pub wrap_ok {ℓ} :
    {A : Type ℓ} (prefix : String) (m : Result A) (a : A) → wrap prefix m ≡ ok a → m ≡ ok a
wrap_ok prefix (ok x) a e = e
wrap_ok prefix (err x) a e = ground arith
