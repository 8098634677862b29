-- ===== src/Platform.antt =====
-- What the program takes from outside the repository and every part uses: UUIDs, the clock of a
-- request, the database's `gen_random_uuid()` and `ILIKE`, and Unicode text operations.
use ratinglift_backend_core.Common.{ℕ, String, Bool, Option, List, ◌≢◌}
use ratinglift_backend_core.Common.{All}

pub record Platform : Type 0 where
  pub parse_uuid : String → Option ℕ
  pub show_uuid : ℕ → String
  -- an identifier for a new row, given those in the table
  pub new_uuid : List ℕ → ℕ
  -- the time, which stands still during one request
  pub now : ℕ
  pub isoformat : ℕ → String
  pub ilike : String → String → Bool
  pub strip : String → String
  pub lower : String → String

-- The documented behaviour that the proofs rely on.
pub record PlatformLaws (os : Platform) : Type 0 where
  pub new_uuid_fresh : (us : List ℕ) → All (λ u. u ≢ os.new_uuid us) us
