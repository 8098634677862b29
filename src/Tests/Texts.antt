-- ===== src/Tests/Texts.antt =====
-- Texts for tests: a UUID is written as so many `x`, and a cipher puts a `#` in front.
use Prim.Native.String.{String, [], ◌∷◌}
use Prim.Native.Char.{code}
use ratinglift_backend_core.Common.{
  ℕ, zero, suc, true, ◌≡◌, refl, Option, none, some, ◌==◌, if◌then◌else◌, truthy, str_eq, eq_iff,
  Bool-cases, inl, inr,
}

abbrev next : Option ℕ → Option ℕ
next none = none
next (some n) = some (suc n)

unfoldable pub show_bars : ℕ → String
show_bars zero = ""
show_bars (suc n) = "x" ∷ show_bars n

unfoldable pub read_bars : String → Option ℕ
read_bars [] = some 0
read_bars (c ∷ s) = if code c == 120 then next (read_bars s) else none

unfoldable pub seal : String → String
seal s = "#" ∷ s

pub unseal : String → Option String
unseal [] = none
unseal (c ∷ s) = some s

pub unseal-seal : (s : String) → unseal (seal s) ≡ some s
unfolding seal unseal
unseal-seal s = refl

pub seal-truthy : (s : String) → truthy (some (seal s)) ≡ true
unfolding seal
seal-truthy s = elim (Bool-cases (str_eq ("#" ∷ s) "")) [
  | inl empty ↦ absurd (cc ((eq_iff ("#" ∷ s) "").0 empty))
  | inr full ↦ rw full refl
]
