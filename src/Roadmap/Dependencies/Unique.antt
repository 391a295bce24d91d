-- ===== src/Roadmap/Dependencies/Unique.antt =====
-- The pair of task ids is the key of the dependency table.
use cofoundaz_api.Prelude.{
  ℕ, ◌≤◌, ◌≡◌, refl, ◌⊎◌, inl, inr, false, [], ◌∷◌, arith, Bool-cases, Option-cases, first, count,
  count-append, first-none_iff,
}
use cofoundaz_api.Roadmap.{Tables}
use cofoundaz_api.Roadmap.Dependencies.{add_dependency, is_edge}
use cofoundaz_api.Roadmap.Dependencies.Acyclic.{the_row}

-- No dependency is stored twice.
abbrev pub HasUniqueEdges : Tables → Type 0
HasUniqueEdges db = (t d : ℕ) → count (is_edge t d) db.dependencies ≤ 1

-- A key other than the row's does not count it.
same_key :
    (db : Tables) (x y t d : ℕ)
    → (count (is_edge x y) (the_row t d ∷ []) ≡ 0)
      ⊎ (count (is_edge x y) db.dependencies ≡ count (is_edge t d) db.dependencies)
        × (count (is_edge x y) (the_row t d ∷ []) ≡ 1)
same_key db x y t d = elim (Bool-cases (is_edge x y (the_row t d))) [
  | inl hit ↦
      let ex : x ≡ t = ground arith in
      let ey : y ≡ d = ground arith in inr (rw (ex, ey) refl, rw hit refl)
  | inr miss ↦ inl (rw miss refl)
]

-- Adding a row that is there changes nothing.
add_known :
    (db : Tables) (t d : ℕ)
    → count (is_edge t d) db.dependencies ≡ 1
    → add_dependency db t d ≡ (db, false)
unfolding add_dependency
add_known db t d one = elim (Option-cases (first (is_edge t d) db.dependencies)) [
  | inl absent ↦ absurd (omega (arith, (first-none_iff (is_edge t d) db.dependencies).0 absent))
  | inr (e, present) ↦ rw (present, add_dependency)
]

count-add_dependency :
    (db : Tables) (t d x y : ℕ)
    → HasUniqueEdges db
    → (count (is_edge t d) (add_dependency db t d).0.dependencies ≡ 1)
      × (count (is_edge x y) (add_dependency db t d).0.dependencies ≤ 1)
unfolding add_dependency
count-add_dependency db t d x y unique = elim (Option-cases (first (is_edge t d) db.dependencies)) [
  | inl absent ↦
      rw (absent, add_dependency)
        (
          ground (
            arith,
            count-append (is_edge t d) db.dependencies (the_row t d ∷ []),
            count-append (is_edge x y) db.dependencies (the_row t d ∷ []),
            (first-none_iff (is_edge t d) db.dependencies).0 absent,
            unique x y,
          ),
          ground (
            arith,
            count-append (is_edge x y) db.dependencies (the_row t d ∷ []),
            (first-none_iff (is_edge t d) db.dependencies).0 absent,
            unique x y,
            same_key db x y t d,
          ),
        )
  | inr (e, present) ↦
      let some_row = (first-none_iff (is_edge t d) db.dependencies).1 in
      rw (present, add_dependency) (ground (arith, unique t d, some_row), unique x y)
]

-- In tables where no pair of ids is stored twice, adding a dependency stores it exactly once, keeps
-- every pair of ids unique, and adding it again reports that nothing was created and leaves the
-- tables as they are.
pub add_dependency_once :
    (db : Tables) (t d : ℕ)
    → HasUniqueEdges db
    → let db' = (add_dependency db t d).0 in
      (count (is_edge t d) db'.dependencies ≡ 1)
      × HasUniqueEdges db'
      × (add_dependency db' t d ≡ (db', false))
add_dependency_once db t d unique =
    let db' = (add_dependency db t d).0 in
    let stored = (count-add_dependency db t d t d unique).0 in
    (stored, λ x y. (count-add_dependency db t d x y unique).1, add_known db' t d stored)
