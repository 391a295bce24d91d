-- ===== src/Roadmap/Replan/Order.antt =====
-- The order of `_toposort` (app/services/roadmap/replan.py).
use cofoundaz_api.Prelude.{
  ℕ, suc, ◌<◌, ◌≤◌, ◌≡◌, refl, ap, ◌∙◌, true, false, not, ◌||◌, List, [], ◌∷◌, ◌++◌, ◌==◌, All,
  All-imp, count, length, arith, inl, inr, Bool-cases,
}
use cofoundaz_api.Roadmap.Dependencies.{Adjacency, get, elem}
use cofoundaz_api.Roadmap.Replan.{append_new}

-- No entry twice.
abbrev pub IsUnique : List ℕ → Type 0
IsUnique [] = Unit
IsUnique (x ∷ xs) = (elem x xs ≡ false) × IsUnique xs

-- The predecessors of each entry stand before it, or are among the given ones.
abbrev pub IsOrdered : Adjacency → List ℕ → List ℕ → Type 0
IsOrdered preds before [] = Unit
IsOrdered preds before (n ∷ ns) =
    All (λ up. elem up before ≡ true) (get n preds) × IsOrdered preds (n ∷ before) ns

-- A rank that falls from each node to its predecessors: there is no cycle.
abbrev pub IsRanked : (ℕ → ℕ) → Adjacency → Type 0
IsRanked rank preds = (n : ℕ) → All (λ up. rank up < rank n) (get n preds)

pub elem-append : (u : ℕ) (xs ys : List ℕ) → elem u (xs ++ ys) ≡ (elem u xs || elem u ys)
elem-append u [] ys = refl
elem-append u (x ∷ xs) ys = ground (arith, elem-append u xs ys)

pub IsUnique-snoc :
    (n : ℕ) (xs : List ℕ) → elem n xs ≡ false → IsUnique xs → IsUnique (xs ++ n ∷ [])
IsUnique-snoc n [] e u = (refl, tt)
IsUnique-snoc n (x ∷ xs) e u =
    (ground (arith, elem-append x xs (n ∷ [])), IsUnique-snoc n xs (ground arith) u.1)

pub All-snoc : (P : ℕ → Type 0) (xs : List ℕ) (n : ℕ) → All P xs → P n → All P (xs ++ n ∷ [])
All-snoc P [] n h p = (p, tt)
All-snoc P (x ∷ xs) n h p = (h.0, All-snoc P xs n h.1 p)

pub IsOrdered-snoc :
    (preds : Adjacency) (n : ℕ) (before xs : List ℕ)
    → IsOrdered preds before xs
    → All (λ up. (elem up before || elem up xs) ≡ true) (get n preds)
    → IsOrdered preds before (xs ++ n ∷ [])
IsOrdered-snoc preds n before [] o h = (All-imp (get n preds) (λ u k. ground arith) h, tt)
IsOrdered-snoc preds n before (x ∷ xs) o h = (
  o.0,
  IsOrdered-snoc preds n (x ∷ before) xs o.1 (All-imp (get n preds) (λ u k. ground arith) h),
)

-- The nodes that are not on the stack.
abbrev pub left : List ℕ → List ℕ → ℕ
left nodes stack = count (λ n. not (elem n stack)) nodes

left-cons-le : (nodes stack : List ℕ) (n : ℕ) → left nodes (n ∷ stack) ≤ left nodes stack
left-cons-le [] stack n = omega arith
left-cons-le (x ∷ nodes) stack n = ground (arith, left-cons-le nodes stack n)

pub left-cons :
    (nodes stack : List ℕ) (n : ℕ)
    → elem n nodes ≡ true
    → elem n stack ≡ false
    → left nodes (n ∷ stack) < left nodes stack
left-cons [] stack n e f = cc
left-cons (x ∷ nodes) stack n e f = elim (Bool-cases (x == n)) [
  | inl t ↦
      let same : x ≡ n = ground arith in
      let off : elem x stack ≡ false = ap (λ y. elem y stack) same ∙ f in
      ground (arith, left-cons-le nodes stack n)
  | inr g ↦
      let h : elem n nodes ≡ true = ground arith in ground (arith, left-cons nodes stack n h f)
]

pub left-nil : (nodes : List ℕ) → left nodes [] ≡ length nodes
left-nil [] = refl
left-nil (x ∷ nodes) = ap suc (left-nil nodes)

pub elem-append_new : (x n : ℕ) (o : List ℕ) → elem x o ≡ true → elem x (append_new n o) ≡ true
elem-append_new x n o e = elim (Bool-cases (elem n o)) [
  | inl t ↦ rw t e
  | inr f ↦ rw f (ground (arith, elem-append x o (n ∷ [])))
]

pub elem-append_new_self : (n : ℕ) (o : List ℕ) → elem n (append_new n o) ≡ true
elem-append_new_self n o = elim (Bool-cases (elem n o)) [
  | inl t ↦ rw t t
  | inr f ↦ rw f (ground (arith, elem-append n o (n ∷ [])))
]
