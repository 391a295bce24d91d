-- ===== src/Prelude/Sort.antt =====
-- `order_by` on a number: a stable sort, with the rows that it keeps.
use Prim.Native.Nat.{ℕ, zero, suc, ◌≤◌, min}
use mathlib.Core.Path.{◌≡◌, refl, ap, ◌∙◌}
use mathlib.Core.Logic.{◌⊎◌, inl, inr, ⊎_elim}
use mathlib.Core.Bool.{Bool}
use mathlib.Core.List.{List, [], ◌∷◌, map, Memᴰ}
use native.Mathlib.Omega.{arith}
use cofoundaz_api.Prelude.Tests.{if◌then◌else◌, leb, Bool-cases}
use cofoundaz_api.Prelude.Lists.{All, take, length, All-imp, All-both, All-Memᴰ}
use cofoundaz_api.Prelude.Rows.{count}

module _ {ℓ} {A : Type ℓ} where
  abbrev insert_by : (A → ℕ) → A → List A → List A
  insert_by key x [] = x ∷ []
  insert_by key x (y ∷ ys) = if leb (key x) (key y) then x ∷ y ∷ ys else y ∷ insert_by key x ys

  -- `query.order_by(key)`
  unfoldable pub order_by : (A → ℕ) → List A → List A
  order_by key [] = []
  order_by key (x ∷ xs) = insert_by key x (order_by key xs)

  -- Every row has a key at most that of each row behind it.
  abbrev pub IsSortedBy : (A → ℕ) → List A → Type 0
  IsSortedBy key [] = Unit
  IsSortedBy key (x ∷ xs) = All (λ y. key x ≤ key y) xs × IsSortedBy key xs

  All-insert_by {κ} :
      (P : A → Type κ) (key : A → ℕ) (x : A) (xs : List A)
      → P x
      → All P xs
      → All P (insert_by key x xs)
  All-insert_by P key x [] px h = (px, tt)
  All-insert_by P key x (y ∷ ys) px h = elim (Bool-cases (leb (key x) (key y))) [
    | inl t ↦ rw t (px, h)
    | inr f ↦ rw f (h.0, All-insert_by P key x ys px h.1)
  ]

  pub All-order_by {κ} :
      (P : A → Type κ) (key : A → ℕ) (xs : List A) → All P xs → All P (order_by key xs)
  unfolding order_by
  All-order_by P key [] h = tt
  All-order_by P key (x ∷ xs) h =
      All-insert_by P key x (order_by key xs) h.0 (All-order_by P key xs h.1)

  All-above :
      (key : A → ℕ) (a b : ℕ) (xs : List A)
      → a ≤ b
      → All (λ y. b ≤ key y) xs
      → All (λ y. a ≤ key y) xs
  All-above key a b [] h k = tt
  All-above key a b (x ∷ xs) h k = (omega arith, All-above key a b xs h k.1)

  IsSortedBy-insert_by :
      (key : A → ℕ) (x : A) (xs : List A) → IsSortedBy key xs → IsSortedBy key (insert_by key x xs)
  IsSortedBy-insert_by key x [] h = (tt, tt)
  IsSortedBy-insert_by key x (y ∷ ys) h = elim (Bool-cases (leb (key x) (key y))) [
    | inl t ↦
        let le : key x ≤ key y = ground arith in
        rw t ((le, All-above key (key x) (key y) ys le h.0), h)
    | inr f ↦ rw f (
      All-insert_by (λ z. key y ≤ key z) key x ys (ground arith) h.0,
      IsSortedBy-insert_by key x ys h.1,
    )
  ]

  pub IsSortedBy-order_by : (key : A → ℕ) (xs : List A) → IsSortedBy key (order_by key xs)
  unfolding order_by
  IsSortedBy-order_by key [] = tt
  IsSortedBy-order_by key (x ∷ xs) =
      IsSortedBy-insert_by key x (order_by key xs) (IsSortedBy-order_by key xs)

  count-insert_by :
      (p : A → Bool) (key : A → ℕ) (x : A) (xs : List A)
      → count p (insert_by key x xs) ≡ count p (x ∷ xs)
  count-insert_by p key x [] = refl
  count-insert_by p key x (y ∷ ys) = ground (arith, count-insert_by p key x ys)

  pub count-order_by :
      (p : A → Bool) (key : A → ℕ) (xs : List A) → count p (order_by key xs) ≡ count p xs
  unfolding order_by
  count-order_by p key [] = refl
  count-order_by p key (x ∷ xs) =
      count-insert_by p key x (order_by key xs)
      ∙ ap (λ n. if p x then suc n else n) (count-order_by p key xs)

module _ {ℓ} {A : Type ℓ} where
  pub All-take {κ} : (P : A → Type κ) (n : ℕ) (xs : List A) → All P xs → All P (take n xs)
  All-take P zero xs h = tt
  All-take P (suc n) [] h = tt
  All-take P (suc n) (x ∷ xs) h = (h.0, All-take P n xs h.1)

  pub IsSortedBy-take :
      (key : A → ℕ) (n : ℕ) (xs : List A) → IsSortedBy key xs → IsSortedBy key (take n xs)
  IsSortedBy-take key zero xs h = tt
  IsSortedBy-take key (suc n) [] h = tt
  IsSortedBy-take key (suc n) (x ∷ xs) h =
      (All-take (λ y. key x ≤ key y) n xs h.0, IsSortedBy-take key n xs h.1)

  pub All-map {κ μ} :
      {B : Type κ} (P : A → Type μ) (Q : B → Type μ) (f : A → B) (xs : List A)
      → ((x : A) → P x → Q (f x))
      → All P xs
      → All Q (map f xs)
  All-map P Q f [] k h = tt
  All-map P Q f (x ∷ xs) k h = (k x h.0, All-map P Q f xs k h.1)

  All-uninsert {κ} :
      (P : A → Type κ) (key : A → ℕ) (x : A) (xs : List A)
      → All P (insert_by key x xs)
      → P x × All P xs
  All-uninsert P key x [] h = h
  All-uninsert P key x (y ∷ ys) h = elim (Bool-cases (leb (key x) (key y))) [
    | inl t ↦ rw t at h
    | inr f ↦
        let h' = rw f at h in let (px, rest) = All-uninsert P key x ys h'.1 in (px, (h'.0, rest))
  ]

  -- What holds of the sorted rows holds of the rows.
  pub All-unorder {κ} :
      (P : A → Type κ) (key : A → ℕ) (xs : List A) → All P (order_by key xs) → All P xs
  unfolding order_by
  All-unorder P key [] h = tt
  All-unorder P key (x ∷ xs) h =
      let (px, rest) = All-uninsert P key x (order_by key xs) h in (px, All-unorder P key xs rest)

  length-insert_by :
      (key : A → ℕ) (x : A) (xs : List A) → length (insert_by key x xs) ≡ suc (length xs)
  length-insert_by key x [] = refl
  length-insert_by key x (y ∷ ys) = elim (Bool-cases (leb (key x) (key y))) [
    | inl t ↦ rw t refl
    | inr f ↦ rw f (ap suc (length-insert_by key x ys))
  ]

  pub length-order_by : (key : A → ℕ) (xs : List A) → length (order_by key xs) ≡ length xs
  unfolding order_by
  length-order_by key [] = refl
  length-order_by key (x ∷ xs) =
      length-insert_by key x (order_by key xs) ∙ ap suc (length-order_by key xs)

  pub length-take : (n : ℕ) (xs : List A) → length (take n xs) ≡ min n (length xs)
  length-take zero xs = omega arith
  length-take (suc n) [] = omega arith
  length-take (suc n) (x ∷ xs) = omega (arith, length-take n xs)

  -- Of sorted rows, one that is not among the first has a key at least that of each of these.
  pub take-or_above :
      (key : A → ℕ) (n : ℕ) (xs : List A)
      → IsSortedBy key xs
      → All (λ x. Memᴰ x (take n xs) ⊎ All (λ y. key y ≤ key x) (take n xs)) xs
  take-or_above key zero xs h = All-imp xs (λ x m. inr tt) (All-Memᴰ xs)
  take-or_above key (suc n) [] h = tt
  take-or_above key (suc n) (x ∷ xs) h = (
    inl (Memᴰ.head refl),
    All-imp xs (λ y (le, found). ⊎_elim (λ m. inl (Memᴰ.tail m)) (λ above. inr (le, above)) found)
        (All-both _ _ xs h.0 (take-or_above key n xs h.1)),
  )
