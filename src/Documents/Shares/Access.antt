-- ===== src/Documents/Shares/Access.antt =====
-- Who can open a shared document, and until when (app/services/documents/shares.py).
use Prim.Native.String.{String}
use cofoundaz_api.Prelude.{
  ℕ, ◌+◌, ◌-◌, ◌*◌, ◌≤◌, ◌<◌, ◌≡◌, ◌≢◌, refl, ap, ◌∙◌, ◌⊎◌, Bool, true, false, Option, none, some,
  List, [], ◌∷◌, ◌++◌, ◌==◌, leb, if◌then◌else◌, first, first-update, arith, ⊎_elim, inl, inr,
  Bool-cases,
}
use cofoundaz_api.Errors.{ok, err, not_found}
use cofoundaz_api.Documents.{ℤ, pos, negsuc, expiry}
use cofoundaz_api.Documents.Shares.{
  ShareAccess, DocumentShare, ShareDb, create_share, revoke_share, set_revoked, set_viewed,
  is_expired, is_closed, has_token, open_found, open_shared,
}

closed :
    (hash_token : ℕ → ℕ) (token now : ℕ) (db : ShareDb) (share : DocumentShare)
    → first (has_token hash_token token) db.shares ≡ some share
    → is_closed now share ≡ true
    → open_shared hash_token token now db ≡ (err not_found, db)
unfolding open_shared
closed hash_token token now db share e c = ap (open_found now db) e ∙ rw (c, open_found) refl

opened :
    (hash_token : ℕ → ℕ) (token now : ℕ) (db : ShareDb) (share : DocumentShare)
    → first (has_token hash_token token) db.shares ≡ some share
    → is_closed now share ≡ false
    → (open_shared hash_token token now db).0 ≡ ok (set_viewed now share)
unfolding open_shared
opened hash_token token now db share e c =
    ap (λ o. (open_found now db o).0) e ∙ rw (c, open_found) refl

-- A link that is revoked is refused at any later time.
pub revoked_closed :
    (hash_token : ℕ → ℕ) (token at later : ℕ) (db : ShareDb) (share : DocumentShare)
    → first (has_token hash_token token) db.shares ≡ some share
    → open_shared hash_token token later (revoke_share share at db)
      ≡ (err not_found, revoke_share share at db)
unfolding revoke_share
revoked_closed hash_token token at later db share e =
    let self : (share.id == share.id) ≡ true = ground arith in
    let found =
      first-update (has_token hash_token token) (λ (s : DocumentShare). s.id == share.id)
        (set_revoked at) db.shares share (λ x. refl) e
      ∙ ap (λ b. some (if b then set_revoked at share else share)) self in
    closed hash_token token later (revoke_share share at db) (set_revoked at share) found refl

first-snoc :
    (p : DocumentShare → Bool) (xs : List DocumentShare) (x : DocumentShare)
    → first p xs ≡ none
    → p x ≡ true
    → first p (xs ++ x ∷ []) ≡ some x
first-snoc p [] x n e = ground arith
first-snoc p (y ∷ xs) x n e = ground (arith, first-snoc p xs x)

-- No days were given, or they have not passed.
abbrev pub IsOpen : Option ℤ → ℕ → ℕ → Type 0
IsOpen none now later = Unit
IsOpen (some (pos days)) now later = (days ≡ 0) ⊎ (later < now + days * 86400)
IsOpen (some (negsuc n)) now later = ⊥

zero_no : (days : ℕ) → (days == 0) ≡ false → days ≢ 0
zero_no days f z = ground arith

IsOpen-lem :
    (days : Option ℤ) (now later : ℕ) (share : DocumentShare)
    → share.expires_at ≡ expiry now days
    → share.revoked_at ≡ none
    → IsOpen days now later
    → is_closed later share ≡ false
IsOpen-lem none now later share e r o = rw (r, e) refl
IsOpen-lem (some (negsuc n)) now later share e r o = absurd o
IsOpen-lem (some (pos days)) now later share e r o = elim (Bool-cases (days == 0)) [
  | inl t ↦ rw (r, e, t) refl
  | inr f ↦
      let early : leb (now + days * 86400) later ≡ false =
        ⊎_elim (λ z. absurd (zero_no days f z)) (λ l. ground (arith, l)) o in
      rw (r, e, f, early) refl
]

late_closed :
    (now later days : ℕ)
    → 0 < days
    → now + days * 86400 ≤ later
    → (share : DocumentShare) → share.expires_at ≡ expiry now (some (pos days))
    → is_closed later share ≡ true
late_closed now later days above late share e =
    let some_days : (days == 0) ≡ false = ground arith in
    let past : leb (now + days * 86400) later ≡ true = ground arith in
    let gone : is_expired later share ≡ true = rw (e, some_days, past) refl in ground (arith, gone)

negative_closed :
    (now later n : ℕ)
    → now ≤ later
    → (share : DocumentShare) → share.expires_at ≡ expiry now (some (negsuc n))
    → is_closed later share ≡ true
negative_closed now later n late share e =
    let past : leb (now - (n + 1) * 86400) later ≡ true = ground arith in
    let gone : is_expired later share ≡ true = rw (e, past) refl in ground (arith, gone)

-- A link made with a token that no other has: at any later time it opens the new share if no days were
-- given for it or if that many days have not passed, and is refused, with nothing written, if they
-- have or if the number is negative; and once revoked it is refused at any time.
pub create_share-opens :
    (hash_token : ℕ → ℕ) (startup_id document_id shared_by_id : ℕ) (email : String)
    (access_level : ShareAccess) (expires_in_days : Option ℤ) (raw new_id now : ℕ) (db : ShareDb)
    → first (has_token hash_token raw) db.shares ≡ none
    → let made =
        create_share hash_token startup_id document_id shared_by_id email access_level
          expires_in_days raw new_id now db in
      ((later : ℕ)
        → IsOpen expires_in_days now later
        → (open_shared hash_token raw later made.1).0 ≡ ok (set_viewed later made.0))
      × ((later days : ℕ)
          → expires_in_days ≡ some (pos days)
          → 0 < days
          → now + days * 86400 ≤ later
          → open_shared hash_token raw later made.1 ≡ (err not_found, made.1))
      × ((later n : ℕ)
          → expires_in_days ≡ some (negsuc n)
          → now ≤ later
          → open_shared hash_token raw later made.1 ≡ (err not_found, made.1))
      × ((at later : ℕ)
          → open_shared hash_token raw later (revoke_share made.0 at made.1)
            ≡ (err not_found, revoke_share made.0 at made.1))
unfolding create_share
create_share-opens hash_token startup_id document_id shared_by_id email access_level days raw new_id
      now db fresh =
    let made =
      create_share hash_token startup_id document_id shared_by_id email access_level days raw new_id
        now db in
    let self : has_token hash_token raw made.0 ≡ true = ground arith in
    let found = first-snoc (has_token hash_token raw) db.shares made.0 fresh self in
    (
      λ later o.
          opened hash_token raw later made.1 made.0 found
            (IsOpen-lem days now later made.0 refl refl o),
      λ later n e above late.
          closed hash_token raw later made.1 made.0 found
            (late_closed now later n above late made.0 (ap (expiry now) e)),
      λ later n e late.
          closed hash_token raw later made.1 made.0 found
            (negative_closed now later n late made.0 (ap (expiry now) e)),
      λ at later. revoked_closed hash_token raw at later made.1 made.0 found,
    )
