-- ===== src/Prelude/Rows.antt =====
-- A table as the list of its rows, with the queries that the services make of one.
use Prim.Native.Nat.{ℕ, suc, ◌+◌}
use mathlib.Core.Path.{◌≡◌, refl}
use mathlib.Core.Bool.{Bool, true, false, ◌&&◌, ◌||◌}
use mathlib.Core.Option.{Option, none, some}
use mathlib.Core.List.{List, [], ◌∷◌, ◌++◌, Memᴰ}
use mathlib.Core.List.Memᴰ
use mathlib.Core.Path.{subst}
use mathlib.Core.Logic.{◌⊎◌, ◌↔◌, inl, inr}
use native.Mathlib.Omega.{arith}
use cofoundaz_api.Prelude.Tests.{Bool-cases, if◌then◌else◌}
use cofoundaz_api.Prelude.Lists.{All, Pointwise, length}

module _ {ℓ} {A : Type ℓ} where
  -- `query.filter(p).first()`: the first row that fits.
  abbrev pub first : (A → Bool) → List A → Option A
  first p [] = none
  first p (x ∷ xs) = if p x then some x else first p xs

  -- `query.filter(p).all()`
  abbrev pub where_all : (A → Bool) → List A → List A
  where_all p [] = []
  where_all p (x ∷ xs) = if p x then x ∷ where_all p xs else where_all p xs

  -- `query.filter(p).count()`
  abbrev pub count : (A → Bool) → List A → ℕ
  count p [] = 0
  count p (x ∷ xs) = if p x then suc (count p xs) else count p xs

  -- The rows after `query.filter(p).update(f)`; the call returns `count p rows`.
  abbrev pub update_where : (A → Bool) → (A → A) → List A → List A
  update_where p f [] = []
  update_where p f (x ∷ xs) = (if p x then f x else x) ∷ update_where p f xs

  abbrev pub any : (A → Bool) → List A → Bool
  any p [] = false
  any p (x ∷ xs) = p x || any p xs

  abbrev pub all : (A → Bool) → List A → Bool
  all p [] = true
  all p (x ∷ xs) = p x && all p xs

  -- The first row that fits does fit.
  pub first-fits : (p : A → Bool) (xs : List A) (a : A) → first p xs ≡ some a → p a ≡ true
  first-fits p [] a e = cc
  first-fits p (x ∷ xs) a e = ground (arith, first-fits p xs a)

  -- What holds of every row holds of the first that fits.
  pub All-first :
      (P : A → Type 0) (p : A → Bool) (xs : List A) (a : A) → All P xs → first p xs ≡ some a → P a
  All-first P p [] a h e = cc
  All-first P p (x ∷ xs) a h e = elim (Bool-cases (p x)) [
    | inl t ↦ subst P (ground arith) h.0
    | inr f ↦ All-first P p xs a h.1 (ground arith)
  ]

  -- An update keeps a property that it keeps on the rows that it changes.
  pub All-update :
      (P : A → Type 0) (p : A → Bool) (f : A → A) (xs : List A)
      → ((x : A) → p x ≡ true → P x → P (f x))
      → All P xs
      → All P (update_where p f xs)
  All-update P p f [] k h = tt
  All-update P p f (x ∷ xs) k h = elim (Bool-cases (p x)) [
    | inl t ↦ (rw t (k x t h.0), All-update P p f xs k h.1)
    | inr e ↦ (rw e h.0, All-update P p f xs k h.1)
  ]

  pub All-append : (P : A → Type 0) (xs ys : List A) → All P xs → All P ys → All P (xs ++ ys)
  All-append P [] ys hx hy = hy
  All-append P (x ∷ xs) ys hx hy = (hx.0, All-append P xs ys hx.1 hy)

  -- Nothing fits exactly if the count is zero.
  pub first-none_iff : (p : A → Bool) (xs : List A) → (first p xs ≡ none) ↔ (count p xs ≡ 0)
  first-none_iff p [] = (λ _. refl, λ _. refl)
  first-none_iff p (x ∷ xs) = ground (arith, first-none_iff p xs)

  -- An update whose rows no longer fit leaves none that fit.
  pub count-update_zero :
      (p : A → Bool) (f : A → A) (xs : List A)
      → ((x : A) → p x ≡ true → p (f x) ≡ false)
      → count p (update_where p f xs) ≡ 0
  count-update_zero p f [] k = refl
  count-update_zero p f (x ∷ xs) k = ground (arith, k x, count-update_zero p f xs k)

  pub where_all-append :
      (p : A → Bool) (xs ys : List A) → where_all p (xs ++ ys) ≡ where_all p xs ++ where_all p ys
  where_all-append p [] ys = refl
  where_all-append p (x ∷ xs) ys = elim (Bool-cases (p x)) [
    | inl t ↦ rw (t, where_all-append p xs ys)
    | inr f ↦ rw (f, where_all-append p xs ys)
  ]

  pub count-append : (p : A → Bool) (xs ys : List A) → count p (xs ++ ys) ≡ count p xs + count p ys
  count-append p [] ys = omega arith
  count-append p (x ∷ xs) ys = ground (arith, count-append p xs ys)

  -- An update after which no row fits the other test.
  pub count-update :
      (p q : A → Bool) (f : A → A) (xs : List A)
      → ((x : A) → p x ≡ true → q (f x) ≡ false)
      → ((x : A) → p x ≡ false → q x ≡ false)
      → count q (update_where p f xs) ≡ 0
  count-update p q f [] k l = refl
  count-update p q f (x ∷ xs) k l = ground (arith, k x, l x, count-update p q f xs k l)

  -- An update that makes no unfit row fit leaves a count of zero at zero.
  pub count-update_none :
      (p q : A → Bool) (f : A → A) (xs : List A)
      → ((x : A) → q x ≡ false → q (f x) ≡ false)
      → count q xs ≡ 0
      → count q (update_where p f xs) ≡ 0
  count-update_none p q f [] k h = refl
  count-update_none p q f (x ∷ xs) k h = ground (arith, k x, count-update_none p q f xs k)

  -- A lookup by a column that an update leaves alone finds the same row, updated.
  pub first-update :
      (p q : A → Bool) (f : A → A) (xs : List A) (a : A)
      → ((x : A) → p (f x) ≡ p x)
      → first p xs ≡ some a
      → first p (update_where q f xs) ≡ some (if q a then f a else a)
  first-update p q f [] a same e = cc
  first-update p q f (x ∷ xs) a same e = ground (arith, same x, first-update p q f xs a same)

  -- Each row of an update is the row before it, updated if it fits.
  pub Pointwise-update :
      (R : A → A → Type 0) (p : A → Bool) (f : A → A) (xs : List A)
      → ((x : A) → p x ≡ true → R x (f x))
      → ((x : A) → p x ≡ false → R x x)
      → Pointwise R xs (update_where p f xs)
  Pointwise-update R p f [] k l = tt
  Pointwise-update R p f (x ∷ xs) k l = elim (Bool-cases (p x)) [
    | inl t ↦ rw t (k x t, Pointwise-update R p f xs k l)
    | inr e ↦ rw e (l x e, Pointwise-update R p f xs k l)
  ]

  pub All-where {κ} :
      (P : A → Type κ) (p : A → Bool) (xs : List A) → All P xs → All P (where_all p xs)
  All-where P p [] h = tt
  All-where P p (x ∷ xs) h = elim (Bool-cases (p x)) [
    | inl t ↦ rw t (h.0, All-where P p xs h.1)
    | inr e ↦ rw e (All-where P p xs h.1)
  ]

  pub All-fits : (p : A → Bool) (xs : List A) → All (λ x. p x ≡ true) (where_all p xs)
  All-fits p [] = tt
  All-fits p (x ∷ xs) = elim (Bool-cases (p x)) [
    | inl t ↦ rw t (t, All-fits p xs)
    | inr e ↦ rw e (All-fits p xs)
  ]

  -- What holds of the rows found holds of every row that fits.
  pub All-found {κ} :
      (P : A → Type κ) (p : A → Bool) (xs : List A)
      → All P (where_all p xs)
      → All (λ x. (p x ≡ false) ⊎ P x) xs
  All-found P p [] h = tt
  All-found P p (x ∷ xs) h = elim (Bool-cases (p x)) [
    | inl t ↦ let h' = rw t at h in (inr h'.0, All-found P p xs h'.1)
    | inr e ↦ let h' = rw e at h in (inl e, All-found P p xs h')
  ]

  pub length-where : (p : A → Bool) (xs : List A) → length (where_all p xs) ≡ count p xs
  length-where p [] = refl
  length-where p (x ∷ xs) = ground (arith, length-where p xs)

  pub any-update :
      (p q : A → Bool) (f : A → A) (xs : List A)
      → ((x : A) → p (f x) ≡ p x)
      → any p (update_where q f xs) ≡ any p xs
  any-update p q f [] same = refl
  any-update p q f (x ∷ xs) same = ground (arith, same x, any-update p q f xs same)

  pub any-append : (p : A → Bool) (xs ys : List A) → any p xs ≡ true → any p (xs ++ ys) ≡ true
  any-append p [] ys e = cc
  any-append p (x ∷ xs) ys e = ground (arith, any-append p xs ys)

  pub any-Memᴰ : (p : A → Bool) (a : A) (xs : List A) → Memᴰ a xs → p a ≡ true → any p xs ≡ true
  any-Memᴰ p a [] m t = absurd (Memᴰ.not-nil m)
  any-Memᴰ p a (x ∷ xs) m t = elim (Memᴰ.cases_cons m) [
    | inl e ↦ let t' : p x ≡ true = subst (λ z. p z ≡ true) e t in rw t' refl
    | inr m' ↦ let r = any-Memᴰ p a xs m' t in ground arith
  ]
