-- ===== src/Auth/Mfa/Codes.antt =====
-- How often a backup code is accepted (app/services/auth/mfa.py).
use cofoundaz_api.Prelude.{
  ℕ, zero, suc, ◌+◌, ◌≡◌, refl, ap, ◌∙◌, subst, Bool, true, false, not, some, List, [], ◌∷◌, ◌==◌,
  ◌&&◌, ltb, first, where_all, count, count-append, update_where, All, All-first, if◌then◌else◌,
  first-fits, first-none_iff, arith, inl, inr, Bool-cases, Option-cases, length,
}
use cofoundaz_api.Auth.{Crypto}
use cofoundaz_api.Auth.Mfa.{
  MfaBackupCode, drawn, code_rows, generate_backup_codes, is_usable, set_used, consume_backup_code,
}

-- The primary key.
unfoldable pub HasUniqueIds : List MfaBackupCode → Type 0
HasUniqueIds [] = Unit
HasUniqueIds (c ∷ rows) =
    All (λ (d : MfaBackupCode). (d.id == c.id) ≡ false) rows × HasUniqueIds rows

update_absent :
    (i now : ℕ) (rows : List MfaBackupCode)
    → All (λ (d : MfaBackupCode). (d.id == i) ≡ false) rows
    → update_where (λ (c : MfaBackupCode). c.id == i) (set_used now) rows ≡ rows
update_absent i now [] h = refl
update_absent i now (c ∷ rows) h = rw (h.0) (ap (λ l. c ∷ l) (update_absent i now rows h.1))

count-used_first :
    (q : MfaBackupCode → Bool) (now : ℕ) (c : MfaBackupCode) (rows : List MfaBackupCode)
    → ((d : MfaBackupCode) → q (set_used now d) ≡ false)
    → All (λ (d : MfaBackupCode). (d.id == c.id) ≡ false) rows
    → count q (update_where (λ (d : MfaBackupCode). d.id == c.id) (set_used now) (c ∷ rows))
        + (if q c then 1 else 0)
      ≡ count q (c ∷ rows)
count-used_first q now c rows used apart = ground (arith, used c, update_absent c.id now rows apart)

count-used_later :
    (q : MfaBackupCode → Bool) (now : ℕ) (c : MfaBackupCode) (rows : List MfaBackupCode)
    (r : MfaBackupCode)
    → (r.id == c.id) ≡ false
    → count q (update_where (λ (d : MfaBackupCode). d.id == r.id) (set_used now) rows)
        + (if q r then 1 else 0)
      ≡ count q rows
    → count q (update_where (λ (d : MfaBackupCode). d.id == r.id) (set_used now) (c ∷ rows))
        + (if q r then 1 else 0)
      ≡ count q (c ∷ rows)
count-used_later q now c rows r apart ih = ground arith

-- A test that no used code passes: the code used is the only row that it can lose.
count-used :
    (p q : MfaBackupCode → Bool) (now : ℕ) (rows : List MfaBackupCode) (r : MfaBackupCode)
    → ((c : MfaBackupCode) → q (set_used now c) ≡ false)
    → HasUniqueIds rows
    → first p rows ≡ some r
    → count q (update_where (λ (c : MfaBackupCode). c.id == r.id) (set_used now) rows)
        + (if q r then 1 else 0)
      ≡ count q rows
unfolding HasUniqueIds
count-used p q now [] r used unique e = cc
count-used p q now (c ∷ rows) r used unique e = elim (Bool-cases (p c)) [
  | inl t ↦
      let same : c ≡ r = ground arith in
      subst
        (λ (x : MfaBackupCode).
          count q (update_where (λ (d : MfaBackupCode). d.id == x.id) (set_used now) (c ∷ rows))
            + (if q x then 1 else 0)
          ≡ count q (c ∷ rows))
        same (count-used_first q now c rows used (unique.0))
  | inr f ↦
      let found : first p rows ≡ some r = ground arith in
      let apart = All-first _ p rows r unique.0 found in
      count-used_later q now c rows r apart (count-used p q now rows r used unique.1 found)
]

-- How many rows of a user hold the code unused.
abbrev pub uses_left : Crypto → ℕ → ℕ → List MfaBackupCode → ℕ
uses_left crypto user_id code rows = count (is_usable user_id (crypto.hash_token code)) rows

-- Consuming a code: it is accepted exactly if a row of the user holds it unused, and then it has one
-- use less, and otherwise as many; every other code, and every code of another user, has as many uses
-- as before. The ids of the rows are unique.
pub consume_backup_code_lem :
    (crypto : Crypto) (user_id code now : ℕ) (rows : List MfaBackupCode) (user_id' code' : ℕ)
    → HasUniqueIds rows
    → ((user_id == user_id') && (crypto.hash_token code == crypto.hash_token code')) ≡ false
    → let result = consume_backup_code crypto user_id code now rows in
      (result.0 ≡ ltb 0 (uses_left crypto user_id code rows))
      × (uses_left crypto user_id code result.1 + (if result.0 then 1 else 0)
          ≡ uses_left crypto user_id code rows)
      × (uses_left crypto user_id' code' result.1 ≡ uses_left crypto user_id' code' rows)
unfolding consume_backup_code
consume_backup_code_lem crypto user_id code now rows user_id' code' unique apart =
    let p = is_usable user_id (crypto.hash_token code) in
    let q = is_usable user_id' (crypto.hash_token code') in
    elim (Option-cases (first p rows)) [
      | inl e ↦
          let none_left = (first-none_iff p rows).0 e in
          rw e (ground (arith, none_left), omega arith, refl)
      | inr (r, e) ↦
          let fits = first-fits p rows r e in
          let off : q r ≡ false = ground arith in
          let mine = count-used p p now rows r (λ c. ground arith) unique e in
          let others = count-used p q now rows r (λ c. ground arith) unique e in
          rw e (ground (arith, mine, fits), ground (arith, mine, fits), ground (arith, others, off))
    ]

count-kept :
    (p q : MfaBackupCode → Bool) (rows : List MfaBackupCode)
    → ((c : MfaBackupCode) → q c ≡ true → p c ≡ true)
    → count q (where_all p rows) ≡ count q rows
count-kept p q [] h = refl
count-kept p q (c ∷ rows) h = ground (arith, h c, count-kept p q rows h)

count-dropped :
    (p q : MfaBackupCode → Bool) (rows : List MfaBackupCode)
    → ((c : MfaBackupCode) → q c ≡ true → p c ≡ false)
    → count q (where_all p rows) ≡ 0
count-dropped p q [] h = refl
count-dropped p q (c ∷ rows) h = ground (arith, h c, count-dropped p q rows h)

count-code_rows :
    (crypto : Crypto) (user_id hash : ℕ) (new_id : ℕ → ℕ) (place : ℕ) (codes : List ℕ)
    → count (is_usable user_id hash) (code_rows crypto user_id new_id place codes)
      ≡ count (λ c. crypto.hash_token c == hash) codes
unfolding code_rows
count-code_rows crypto user_id hash new_id place [] = refl
count-code_rows crypto user_id hash new_id place (c ∷ codes) =
    ground (arith, count-code_rows crypto user_id hash new_id (place + 1) codes)

count-code_rows_other :
    (crypto : Crypto) (user_id other hash : ℕ) (new_id : ℕ → ℕ) (place : ℕ) (codes : List ℕ)
    → (user_id == other) ≡ false
    → count (is_usable other hash) (code_rows crypto user_id new_id place codes) ≡ 0
unfolding code_rows
count-code_rows_other crypto user_id other hash new_id place [] apart = refl
count-code_rows_other crypto user_id other hash new_id place (c ∷ codes) apart =
    ground (arith, count-code_rows_other crypto user_id other hash new_id (place + 1) codes apart)

length-drawn : (draw : ℕ → ℕ) (place turns : ℕ) → length (drawn draw place turns) ≡ turns
unfolding drawn
length-drawn draw place zero = refl
length-drawn draw place (suc turns) = ground (arith, length-drawn draw (place + 1) turns)

-- Generating backup codes: ten are returned; every code of the user then has as many uses as it was
-- drawn, where codes of one hash are one; and the codes of another user have as many uses as before.
pub generate_backup_codes_lem :
    (crypto : Crypto) (user_id : ℕ) (draw new_id : ℕ → ℕ) (rows : List MfaBackupCode)
    (code other code' : ℕ)
    → (user_id == other) ≡ false
    → let (codes, rows') = generate_backup_codes crypto user_id draw new_id rows in
      (length codes ≡ 10)
      × (uses_left crypto user_id code rows'
          ≡ count (λ c. crypto.hash_token c == crypto.hash_token code) codes)
      × (uses_left crypto other code' rows' ≡ uses_left crypto other code' rows)
unfolding generate_backup_codes
generate_backup_codes_lem crypto user_id draw new_id rows code other code' apart =
    let codes = drawn draw 0 10 in
    let p = is_usable user_id (crypto.hash_token code) in
    let q = is_usable other (crypto.hash_token code') in
    let kept = λ (c : MfaBackupCode). not (c.user_id == user_id) in
    (
      length-drawn draw 0 10,
      count-append p (where_all kept rows) (code_rows crypto user_id new_id 0 codes)
          ∙ omega (
            arith,
            count-dropped kept p rows (λ c e. ground arith),
            count-code_rows crypto user_id (crypto.hash_token code) new_id 0 codes,
          ),
      count-append q (where_all kept rows) (code_rows crypto user_id new_id 0 codes)
          ∙ omega (
            arith,
            count-kept kept q rows (λ c e. ground arith),
            count-code_rows_other crypto user_id other (crypto.hash_token code') new_id 0 codes
                apart,
          ),
    )
