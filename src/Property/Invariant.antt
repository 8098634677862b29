-- ===== src/Property/Invariant.antt =====
-- Well-formedness of the table of properties, and that every flush keeps it.
use ratinglift_backend_core.Common.{
  ⊤, ℕ, String, true, false, not, ◌&&◌, ◌≡◌, ◌≢◌, refl, Option, none, some, List, [], ◌∷◌, ◌++◌,
  arith, ◌==◌, eq_iff, Bool-cases, Option-cases, inl, inr, All, All-append, first, save, save_fresh,
  All-map₂, first-All_none, HasUniqueKeys, All-save, save-HasUniqueKeys, append-HasUniqueKeys,
}
use ratinglift_backend_core.Exec.{Result, ok, err, integrity_error}
use ratinglift_backend_core.Models.{Property, Database, DbSession, Db}
use ratinglift_backend_core.Property.Service.{
  same_place, clash, place_taken, tenant_known, flush_new, flush_changed, conflict,
  flush_or_conflict,
}

abbrev pub id_of : Property → ℕ
id_of r = r.id

-- No two rows of a tenant have the same place id.
abbrev pub HasUniquePlaces : List Property → Type 0
HasUniquePlaces [] = Unit
HasUniquePlaces (x ∷ xs) = All (λ y. clash x y ≡ false) xs × HasUniquePlaces xs

pub record IsValid (d : Database) : Type 0 where
  pub unique_ids : HasUniqueKeys id_of d.properties
  pub unique_places : HasUniquePlaces d.properties
  pub known_tenants : All (λ (p : Property). tenant_known p.tenant_id d.tenants ≡ true) d.properties

pub record IsValidSession (s : DbSession) : Type 0 where
  pub before : IsValid s.committed
  pub after : IsValid s.current

-- A row that `place_taken` lets through clashes with no other row.
abbrev pub Fits : Property → Property → Type 0
Fits row r = (not (r.id == row.id) && clash r row) ≡ false

place_taken-All :
    (row : Property) (rows : List Property) → place_taken row rows ≡ false → All (Fits row) rows
unfolding place_taken
place_taken-All row rows e = elim (Option-cases (first _ rows)) [
  | inl free ↦ first-All_none _ rows free
  | inr (r, taken) ↦ absurd (ground (arith, taken))
]

same_place_comm : (a b : Option String) → same_place a b ≡ same_place b a
same_place_comm none none = refl
same_place_comm none (some b) = refl
same_place_comm (some a) none = refl
same_place_comm (some a) (some b) = ground (arith, eq_iff a b, eq_iff b a)

pub clash_comm : (a b : Property) → clash a b ≡ clash b a
clash_comm a b = ground (arith, same_place_comm a.google_place_id b.google_place_id)

clash_of_Fits : (row : Property) (y : Property) → Fits row y → y.id ≢ row.id → clash row y ≡ false
clash_of_Fits row y fits ne = ground (arith, same_place_comm row.google_place_id y.google_place_id)

append-HasUniquePlaces :
    (row : Property) (rows : List Property)
    → All (λ y. y.id ≢ row.id) rows
    → All (Fits row) rows
    → HasUniquePlaces rows
    → HasUniquePlaces (rows ++ row ∷ [])
append-HasUniquePlaces row [] ne fits u = (tt, tt)
append-HasUniquePlaces row (x ∷ xs) (n, ne) (f, fits) (c, u) = (
  All-append (λ y. clash x y ≡ false) xs (row ∷ []) c (ground arith, tt),
  append-HasUniquePlaces row xs ne fits u,
)

save-HasUniquePlaces :
    (row : Property) (rows : List Property)
    → HasUniqueKeys id_of rows
    → All (Fits row) rows
    → HasUniquePlaces rows
    → HasUniquePlaces (save id_of row rows)
unfolding save
save-HasUniquePlaces row [] k fits u = tt
save-HasUniquePlaces row (x ∷ xs) (ne, k) (f, fits) (c, u) = elim (Bool-cases (x.id == row.id)) [
  | inl here ↦
      let e : x.id ≡ row.id = ground arith in
      let others : All (λ (y : Property). y.id ≢ row.id) xs = rw e at ne in
      rw (here, save_fresh id_of row xs others) (All-map₂ (clash_of_Fits row) xs fits others, u)
  | inr later ↦ rw later (
    All-save id_of (λ y. clash x y ≡ false) row xs (ground arith) c,
    save-HasUniquePlaces row xs k fits u,
  )
]

-- A flush that succeeds keeps a well-formed table well-formed; the identifier of a new row is free.
pub flush_new-IsValid :
    (row : Property) (s : DbSession)
    → IsValidSession s
    → All (λ (y : Property). y.id ≢ row.id) s.current.properties
    → IsValidSession (flush_new row s).1
unfolding flush_new
flush_new-IsValid row s v fresh = elim (Bool-cases (place_taken row s.current.properties)) [
  | inl taken ↦ rw taken v
  | inr free ↦ elim (Bool-cases (tenant_known row.tenant_id s.current.tenants)) [
    | inr missing ↦ rw (free, missing) v
    | inl known ↦
        rw (free, known)
          (record {
            before = v.before;
            after = record {
              unique_ids =
                  append-HasUniqueKeys id_of row s.current.properties fresh v.after.unique_ids;
              unique_places =
                  append-HasUniquePlaces row s.current.properties fresh
                    (place_taken-All row s.current.properties free) v.after.unique_places;
              known_tenants =
                  All-append (λ (p : Property). tenant_known p.tenant_id s.current.tenants ≡ true)
                    s.current.properties (row ∷ []) v.after.known_tenants (known, tt);
            };
          })
  ]
]

pub flush_changed-IsValid :
    (row : Property) (s : DbSession)
    → IsValidSession s
    → tenant_known row.tenant_id s.current.tenants ≡ true
    → IsValidSession (flush_changed row s).1
unfolding flush_changed
flush_changed-IsValid row s v known = elim (Bool-cases (place_taken row s.current.properties)) [
  | inl taken ↦ rw taken v
  | inr free ↦ rw free (record {
    before = v.before;
    after = record {
      unique_ids = save-HasUniqueKeys id_of row s.current.properties v.after.unique_ids;
      unique_places =
          save-HasUniquePlaces row s.current.properties v.after.unique_ids
            (place_taken-All row s.current.properties free) v.after.unique_places;
      known_tenants =
          All-save id_of (λ (p : Property). tenant_known p.tenant_id s.current.tenants ≡ true) row
            s.current.properties known v.after.known_tenants;
    };
  })
]

conflict-IsValid :
    (r : Result ⊤) (s : DbSession) → IsValidSession s → IsValidSession (conflict r s).1
conflict-IsValid (err (integrity_error name)) s v = record { before = v.before; after = v.before }
conflict-IsValid (err _) s v = v
conflict-IsValid (ok u) s v = v

pub flush_or_conflict-IsValid :
    (m : Db ⊤) (s : DbSession) → IsValidSession (m s).1 → IsValidSession (flush_or_conflict m s).1
unfolding flush_or_conflict
flush_or_conflict-IsValid m s v = conflict-IsValid (m s).0 (m s).1 v
