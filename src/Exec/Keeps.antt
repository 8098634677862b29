-- ===== src/Exec/Keeps.antt =====
-- Predicates on the state through a chain of actions.
use ratinglift_backend_core.Common.{◌≡◌, refl}
use ratinglift_backend_core.Exec.{Result, ok, err, Exec, ◌>>=◌}

module _ {S A B : Type 0} (P : S → Type 0) where
  continues :
      (r : Result A) (s : S) (f : A → Exec S B)
      → P s
      → ((a : A) → r ≡ ok a → P (f a s).1)
      → P (((λ (_ : S). (r, s)) >>= f) s).1
  continues (ok a) s f h k = k a refl
  continues (err e) s f h k = h

  -- The rest of the block may use what the first action returned.
  pub bind_keeps :
      (m : Exec S A) (f : A → Exec S B) (s : S)
      → P (m s).1
      → ((a : A) → (m s).0 ≡ ok a → P (f a (m s).1).1)
      → P ((m >>= f) s).1
  bind_keeps m f s h k = continues (m s).0 (m s).1 f h k
