-- ===== src/Roadmap/Replan/Toposort.antt =====
-- `_toposort` (app/services/roadmap/replan.py) gives an order of the nodes.
use mathlib.Core.Bool.{false≢true}
use cofoundaz_api.Prelude.{
  subst, ℕ, zero, suc, ◌+◌, ◌<◌, ◌≡◌, refl, sym, ap, ◌∙◌, true, false, ◌||◌, Option, some, List, [],
  ◌∷◌, ◌==◌, All, All-imp, length, arith, inl, inr, Bool-cases,
}
use cofoundaz_api.Roadmap.Dependencies.{Adjacency, get, elem}
use cofoundaz_api.Roadmap.Replan.{visit, visit_each, toposort, append_new}
use cofoundaz_api.Roadmap.Replan.Order.{
  IsUnique, IsOrdered, IsRanked, IsUnique-snoc, All-snoc, IsOrdered-snoc, left, left-cons, left-nil,
  elem-append_new, elem-append_new_self,
}

abbrev IsAbove : (ℕ → ℕ) → List ℕ → ℕ → Type 0
IsAbove rank stack n = All (λ s. rank n < rank s) stack

pub All-elem : (P : ℕ → Type 0) (n : ℕ) (xs : List ℕ) → All P xs → elem n xs ≡ true → P n
All-elem P n [] h e = cc
All-elem P n (x ∷ xs) h e = elim (Bool-cases (x == n)) [
  | inl t ↦ subst P (ground arith) h.0
  | inr f ↦ All-elem P n xs h.1 (ground arith)
]

pub every-elem : (xs : List ℕ) → All (λ n. elem n xs ≡ true) xs
every-elem [] = tt
every-elem (x ∷ xs) = (ground arith, All-imp xs (λ n k. ground arith) (every-elem xs))

module _ (nodes : List ℕ) (preds : Adjacency) (rank : ℕ → ℕ) where
  -- What is kept of the list of ordered nodes.
  record IsSound (ordered : List ℕ) : Type 0 where
    unique : IsUnique ordered
    known : All (λ n. elem n nodes ≡ true) ordered

  -- What visiting some nodes, below a stack, makes of the list.
  record IsVisited (stack ns ordered ordered' : List ℕ) : Type 0 where
    sound : IsSound ordered'
    grows : (x : ℕ) → elem x ordered ≡ true → elem x ordered' ≡ true
    listed : All (λ n. elem n stack ≡ false → elem n ordered' ≡ true) ns
    sorted :
        IsRanked rank preds
        → All (IsAbove rank stack) ns
        → IsOrdered preds [] ordered
        → IsOrdered preds [] ordered'

  IsSound-append_new :
      (n : ℕ) (ordered : List ℕ)
      → elem n nodes ≡ true
      → IsSound ordered
      → IsSound (append_new n ordered)
  IsSound-append_new n ordered e s = elim (Bool-cases (elem n ordered)) [
    | inl t ↦ rw t s
    | inr f ↦ rw f (record {
      unique = IsUnique-snoc n ordered f s.unique;
      known = All-snoc (λ x. elem x nodes ≡ true) ordered n s.known e;
    })
  ]

  IsOrdered-append_new :
      (n : ℕ) (ordered : List ℕ)
      → IsOrdered preds [] ordered
      → All (λ up. elem up ordered ≡ true) (get n preds)
      → IsOrdered preds [] (append_new n ordered)
  IsOrdered-append_new n ordered o h = elim (Bool-cases (elem n ordered)) [
    | inl t ↦ rw t o
    | inr f ↦ rw f (IsOrdered-snoc preds n [] ordered o h)
  ]

  visit_each_lem :
      (visitor : ℕ → List ℕ → Option (List ℕ)) (stack ns ordered : List ℕ)
      → ((n : ℕ) (o : List ℕ)
          → elem n nodes ≡ true
          → IsSound o
          → (o' : List ℕ) × (visitor n o ≡ some o') × IsVisited stack (n ∷ []) o o')
      → All (λ n. elem n nodes ≡ true) ns
      → IsSound ordered
      → (o' : List ℕ) × (visit_each visitor ns ordered ≡ some o') × IsVisited stack ns ordered o'
  visit_each_lem visitor stack [] ordered v known s =
      (ordered, refl, record { sound = s; grows = λ x e. e; listed = tt; sorted = λ r a o. o })
  visit_each_lem visitor stack (n ∷ ns) ordered v known s =
      let (o, e, first) = v n ordered known.0 s in
      let (o', e', rest) = visit_each_lem visitor stack ns o v known.1 first.sound in
      (
        o',
        rw (e, visit_each) e',
        record {
          sound = rest.sound;
          grows = λ x k. rest.grows x (first.grows x k);
          listed = (λ off. rest.grows n (first.listed.0 off), rest.listed);
          sorted = λ r a k. rest.sorted r a.1 (first.sorted r (a.0, tt) k);
        },
      )

  off_stack : (n : ℕ) (stack : List ℕ) → IsAbove rank stack n → elem n stack ≡ false
  off_stack n [] a = refl
  off_stack n (s ∷ stack) a = elim (Bool-cases (s == n)) [
    | inl t ↦
        let same : s ≡ n = ground arith in let r = ap rank same in absurd (omega (arith, a.0, r))
    | inr f ↦ rw f (off_stack n stack a.1)
  ]

  IsAbove-cons :
      (n up : ℕ) (stack : List ℕ)
      → rank up < rank n
      → IsAbove rank stack n
      → IsAbove rank (n ∷ stack) up
  IsAbove-cons n up stack l a = (l, All-imp stack (λ s k. omega (arith, k, l)) a)

  ups_listed :
      (n : ℕ) (stack o ups : List ℕ)
      → All (IsAbove rank (n ∷ stack)) ups
      → All (λ up. elem up (n ∷ stack) ≡ false → elem up o ≡ true) ups
      → All (λ up. elem up o ≡ true) ups
  ups_listed n stack o [] above h = tt
  ups_listed n stack o (up ∷ ups) above h =
      (h.0 (off_stack up (n ∷ stack) above.0), ups_listed n stack o ups above.1 h.1)

  -- A node that is visited for the first time, after its predecessors.
  finished :
      (n : ℕ) (stack ordered o : List ℕ)
      → elem n nodes ≡ true
      → IsVisited (n ∷ stack) (get n preds) ordered o
      → IsVisited stack (n ∷ []) ordered (append_new n o)
  finished n stack ordered o known v = record {
    sound = IsSound-append_new n o known v.sound;
    grows = λ x e. elem-append_new x n o (v.grows x e);
    listed = (λ off. elem-append_new_self n o, tt);
    sorted = λ r a k.
        let above = All-imp (get n preds) (λ up l. IsAbove-cons n up stack l a.0) (r n) in
        IsOrdered-append_new n o (v.sorted r above k)
          (ups_listed n stack o (get n preds) above v.listed);
  }

  -- A node that was listed before, or stands on the stack.
  skipped :
      (n : ℕ) (stack ordered : List ℕ)
      → (elem n ordered || elem n stack) ≡ true
      → IsSound ordered
      → IsVisited stack (n ∷ []) ordered ordered
  skipped n stack ordered e s = record {
    sound = s;
    grows = λ x k. k;
    listed = (λ off. ground arith, tt);
    sorted = λ r a k. k;
  }

  visit_lem :
      ((n : ℕ) → All (λ up. elem up nodes ≡ true) (get n preds))
      → (fuel : ℕ) (stack : List ℕ) (n : ℕ) (ordered : List ℕ) → left nodes stack < fuel
      → elem n nodes ≡ true
      → IsSound ordered
      → (o : List ℕ) × (visit preds fuel stack n ordered ≡ some o)
        × IsVisited stack (n ∷ []) ordered o
  unfolding visit
  visit_lem closed zero stack n ordered enough known s = absurd (omega arith)
  visit_lem closed (suc fuel) stack n ordered enough known s =
      elim (Bool-cases (elem n ordered || elem n stack)) [
        | inl t ↦ (ordered, rw t refl, skipped n stack ordered t s)
        | inr f ↦
            let off : elem n stack ≡ false = ground arith in
            let less = left-cons nodes stack n known off in
            let (o, e, v) =
              visit_each_lem (λ up o. visit preds fuel (n ∷ stack) up o) (n ∷ stack) (get n preds)
                ordered
                (λ up o k so.
                  visit_lem closed fuel (n ∷ stack) up o (omega (arith, less, enough)) k so)
                (closed n) s in
            (append_new n o, rw (f, e) refl, finished n stack ordered o known v)
      ]

  no_stack : (ns : List ℕ) → All (IsAbove rank []) ns
  no_stack [] = tt
  no_stack (n ∷ ns) = (tt, no_stack ns)

  same-elem :
      (o : List ℕ)
      → All (λ n. elem n nodes ≡ true) o
      → All (λ n. elem n [] ≡ false → elem n o ≡ true) nodes
      → (n : ℕ) → elem n o ≡ elem n nodes
  same-elem o known listed n = elim (Bool-cases (elem n o)) [
    | inl t ↦ t ∙ sym (All-elem (λ x. elem x nodes ≡ true) n o known t)
    | inr f ↦ elim (Bool-cases (elem n nodes)) [
      | inr g ↦ f ∙ sym g
      | inl t ↦
          let k = All-elem (λ x. elem x [] ≡ false → elem x o ≡ true) n nodes listed t refl in
          absurd (false≢true (sym f ∙ k))
    ]
  ]

  -- The sort of nodes whose predecessors are nodes ends with a list that has each node once and nothing
  -- else, also if there is a cycle; if there is none, each node's predecessors stand before it.
  pub toposort_lem :
      ((n : ℕ) → All (λ up. elem up nodes ≡ true) (get n preds))
      → (order : List ℕ) × (toposort nodes preds ≡ some order)
        × IsUnique order
        × ((n : ℕ) → elem n order ≡ elem n nodes)
        × (IsRanked rank preds → IsOrdered preds [] order)
  unfolding toposort
  toposort_lem closed =
      let (o, e, v) =
        visit_each_lem (visit preds (length nodes + 1) []) [] nodes []
          (λ n o k so.
            visit_lem closed (length nodes + 1) [] n o (omega (arith, left-nil nodes)) k so)
          (every-elem nodes) (record { unique = tt; known = tt }) in
      (
        o,
        e,
        v.sound.unique,
        same-elem o v.sound.known v.listed,
        λ r. v.sorted r (no_stack nodes) tt,
      )
