-- ===== src/Exec.antt =====
-- Python code that mutates state and may raise. What was written before a raise stays written,
-- so the state comes back beside the exception too.
pub mod Keeps
use ratinglift_backend_core.Common.{
  ⊤, ℕ, String, Bool, true, false, Option, none, some, ◌≡◌, refl, ◌⊎◌, inl, inr,
}

-- What the program raises: `HTTPException(status_code, detail)`, SQLAlchemy's `IntegrityError`
-- with the name of the violated constraint, a malformed bound parameter, and `ValueError`.
pub data Error : Type 0 where
  http : ℕ → String → Error
  integrity_error : String → Error
  data_error : Error
  value_error : String → Error

pub data Result {ℓ} (A : Type ℓ) : Type ℓ where
  ok : A → Result A
  err : Error → Result A

abbrev pub Exec : Type 0 → Type 0 → Type 0
Exec S A = S → Result A × S

module _ {S A : Type 0} where
  abbrev pub pure : A → Exec S A
  pure a s = (ok a, s)

  abbrev pub raise : Error → Exec S A
  raise e s = (err e, s)

  abbrev pub gets : (S → A) → Exec S A
  gets f s = (ok (f s), s)

  abbrev pub lift : Result A → Exec S A
  lift r s = (r, s)

  abbrev pub or_raise : Option A → Error → Exec S A
  or_raise none e s = (err e, s)
  or_raise (some a) e s = (ok a, s)

infixl 5 ◌>>=◌ ◌>>◌
abbrev pub ◌>>=◌ : {S A B : Type 0} → Exec S A → (A → Exec S B) → Exec S B
◌>>=◌ m f s = let (r, s') = m s in elim r [ ok a ↦ f a s' | err e ↦ (err e, s') ]

abbrev pub ◌>>◌ : {S A B : Type 0} → Exec S A → Exec S B → Exec S B
m >> k = m >>= λ _. k

abbrev pub modify : {S : Type 0} → (S → S) → Exec S ⊤
modify f s = (ok tt, f s)

abbrev pub raise_if : {S : Type 0} → Bool → Error → Exec S ⊤
raise_if true e s = (err e, s)
raise_if false e s = (ok tt, s)

abbrev pub is_ok {ℓ} : {A : Type ℓ} → Result A → Bool
is_ok (ok a) = true
is_ok (err e) = false

pub Result-cases {ℓ} :
    {A : Type ℓ} (r : Result A) → ((e : Error) × (r ≡ err e)) ⊎ ((a : A) × (r ≡ ok a))
Result-cases (ok a) = inr (a, refl)
Result-cases (err e) = inl (e, refl)

-- A chain whose first action returned and changed nothing, and one whose first action raised.
pub bind_ok :
    {S A B : Type 0} (m : Exec S A) (f : A → Exec S B) (s : S) (a : A)
    → (m s).0 ≡ ok a
    → (m s).1 ≡ s
    → (m >>= f) s ≡ f a s
bind_ok m f s a e e' = rw (e, ◌>>=◌, e') refl

pub bind_err :
    {S A B : Type 0} (m : Exec S A) (f : A → Exec S B) (s : S) (x : Error)
    → (m s).0 ≡ err x
    → (m s).1 ≡ s
    → (m >>= f) s ≡ (err x, s)
bind_err m f s x e e' = rw (e, ◌>>=◌, e') refl

-- A chain that returned, taken apart; and a chain whose first action returned.
pub bind_inv :
    {S A B : Type 0} (m : Exec S A) (f : A → Exec S B) (s : S) (b : B)
    → ((m >>= f) s).0 ≡ ok b
    → (a : A) × ((m s).0 ≡ ok a) × ((f a (m s).1).0 ≡ ok b)
bind_inv m f s b h = elim (Result-cases (m s).0) [
  | inl (x, e) ↦ let e' : err x ≡ ok b = rw (e, ◌>>=◌) at h in absurd (cc e')
  | inr (a, e) ↦ (a, e, rw (e, ◌>>=◌) at h)
]

pub bind_run :
    {S A B : Type 0} (m : Exec S A) (f : A → Exec S B) (s : S) (a : A)
    → (m s).0 ≡ ok a
    → (m >>= f) s ≡ f a (m s).1
bind_run m f s a e = rw (e, ◌>>=◌) refl

pub bind_fail :
    {S A B : Type 0} (m : Exec S A) (f : A → Exec S B) (s : S) (x : Error)
    → (m s).0 ≡ err x
    → (m >>= f) s ≡ (err x, (m s).1)
bind_fail m f s x e = rw (e, ◌>>=◌) refl
