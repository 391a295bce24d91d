-- ===== src/Documents/Store/Versions.antt =====
-- The optimistic versions of a document (`update_document` of app/services/documents/service.py).
use Prim.Native.String.{String}
use cofoundaz_api.Prelude.{
  Option, ◌⊎◌, Pointwise, Pointwise-update, first-fits, ℕ, ◌+◌, ◌≡◌, refl, sym, ap, ◌∙◌, subst,
  true, false, none, some, List, [], ◌∷◌, ◌==◌, if◌then◌else◌, first, first-update, arith, inl, inr,
  Bool-cases, Option-cases,
}
use cofoundaz_api.Errors.{
  err-ne-ok, Result, ok, err, or_raise, ◌>>=◌, >>=-eq-ok, not_found, document_version_conflict,
}
use cofoundaz_api.Documents.Store.{
  section, no_object, text, no_text, Document, DocumentDb, DocumentUpdate, Section, PostedSection,
  check_section, validate_sections, in_workspace, get_document, set_update, finish_update,
  update_document, put_update,
}

-- A section that is stored for one that is posted: its texts, and its id if it has one.
abbrev pub IsStored : PostedSection → Section → Type 0
IsStored posted s =
    (id : Option String) × (posted ≡ section id (text s.heading) (text s.body))
    × ((id ≡ none) ⊎ (id ≡ some s.id))

abbrev pub AreStored : List PostedSection → List Section → Type 0
AreStored [] [] = Unit
AreStored (p ∷ posted) (s ∷ sections) = IsStored p s × AreStored posted sections
AreStored [] (s ∷ sections) = ⊥
AreStored (p ∷ posted) [] = ⊥

ok-injective {ℓ} : {A : Type ℓ} {a b : A} → ok a ≡ ok b → a ≡ b
ok-injective e = cc

check_section-IsStored :
    (new : String) (posted : PostedSection) (s : Section)
    → check_section new posted ≡ ok s
    → IsStored posted s
check_section-IsStored new no_object s e = absurd (err-ne-ok e)
check_section-IsStored new (section none (text heading) (text body)) s e =
    let same = ok-injective e in
    subst (IsStored (section none (text heading) (text body))) same (none, refl, inl refl)
check_section-IsStored new (section (some id) (text heading) (text body)) s e =
    let same = ok-injective e in
    subst (IsStored (section (some id) (text heading) (text body))) same (some id, refl, inr refl)
check_section-IsStored new (section id (text heading) no_text) s e = absurd (err-ne-ok e)
check_section-IsStored new (section id no_text body) s e = absurd (err-ne-ok e)

validate_sections-AreStored :
    (fresh : ℕ → String) (place : ℕ) (posted : List PostedSection) (checked : List Section)
    → validate_sections fresh place posted ≡ ok checked
    → AreStored posted checked
unfolding validate_sections
validate_sections-AreStored fresh place [] checked e = subst (AreStored []) (ok-injective e) tt
validate_sections-AreStored fresh place (sec ∷ posted) checked e =
    let (s, c, r) =
      >>=-eq-ok (check_section (fresh place) sec)
        (λ s. validate_sections fresh (place + 1) posted >>= (λ rest. ok (s ∷ rest))) e in
    let (rest, v, o) =
      >>=-eq-ok (validate_sections fresh (place + 1) posted) (λ rest. ok (s ∷ rest)) r in
    subst (AreStored (sec ∷ posted)) (ok-injective o) (
      check_section-IsStored (fresh place) sec s c,
      validate_sections-AreStored fresh (place + 1) posted rest v,
    )

-- What an update that succeeded leaves.
abbrev IsUpdated : ℕ → ℕ → DocumentUpdate → DocumentDb → Result Document × DocumentDb → Type 0
IsUpdated startup_id id update db (err e, db') = db' ≡ db
IsUpdated startup_id id update db (ok doc, db') =
    ((old : Document) × (get_document startup_id id db ≡ ok old)
      × (old.version ≡ update.expected_version)
      × (doc ≡ record old {
        title = update.title;
        sections = doc.sections;
        status = update.status;
        folder = update.folder;
        version = update.expected_version + 1;
      }))
    × AreStored update.sections doc.sections
    × (get_document startup_id id db' ≡ ok doc)
    × Pointwise (λ o n. (n ≡ o) ⊎ (o.id ≡ id)) db.documents db'.documents
    × ((fresh : ℕ → String) (other : DocumentUpdate)
        → other.expected_version ≡ update.expected_version
        → put_update fresh startup_id id other db' ≡ (err document_version_conflict, db'))

stale :
    (fresh : ℕ → String) (startup_id id : ℕ) (update : DocumentUpdate) (db : DocumentDb)
    (doc : Document)
    → get_document startup_id id db ≡ ok doc
    → (update.expected_version == doc.version) ≡ false
    → put_update fresh startup_id id update db ≡ (err document_version_conflict, db)
unfolding put_update
stale fresh startup_id id update db doc g v = rw (g, v, put_update) refl

finish_update-IsUpdated :
    (startup_id id : ℕ) (update : DocumentUpdate) (db : DocumentDb) (doc : Document)
    (checked : Result (List Section)) (fresh : ℕ → String)
    → first (in_workspace startup_id id) db.documents ≡ some doc
    → update.expected_version ≡ doc.version
    → validate_sections fresh 0 update.sections ≡ checked
    → IsUpdated startup_id id update db (finish_update update doc db checked)
unfolding get_document
finish_update-IsUpdated startup_id id update db doc (err e) fresh f v c = refl
finish_update-IsUpdated startup_id id update db doc (ok checked) fresh f v c =
    let self : (doc.id == doc.id) ≡ true = ground arith in
    let saved = set_update update checked doc in
    let db' = (finish_update update doc db (ok checked)).1 in
    let found : first (in_workspace startup_id id) db'.documents ≡ some saved =
      first-update (in_workspace startup_id id) (λ (d : Document). d.id == doc.id)
        (set_update update checked) db.documents doc (λ x. refl) f
      ∙ ap (λ b. some (if b then saved else doc)) self in
    let read : get_document startup_id id db' ≡ ok saved = ap (λ o. or_raise o not_found) found in
    let own : (doc.id == id) ≡ true =
      let fits = first-fits (in_workspace startup_id id) db.documents doc f in ground arith in
    (
      (
        doc,
        ap (λ o. or_raise o not_found) f,
        sym v,
        ap
            (λ n. record doc {
              title = update.title;
              sections = checked;
              status = update.status;
              folder = update.folder;
              version = n + 1;
            })
            (sym v),
      ),
      validate_sections-AreStored fresh 0 update.sections checked c,
      read,
      Pointwise-update _ (λ (d : Document). d.id == doc.id) (set_update update checked) db.documents
          (λ d t. inr (ground arith)) (λ d e. inl refl),
      λ fresh' other same.
          let old : (other.expected_version == saved.version) ≡ false = ground arith in
          stale fresh' startup_id id other db' saved read old,
    )

put_update-found :
    (fresh : ℕ → String) (startup_id id : ℕ) (update : DocumentUpdate) (db : DocumentDb)
    (doc : Document)
    → first (in_workspace startup_id id) db.documents ≡ some doc
    → put_update fresh startup_id id update db ≡ update_document fresh update doc db
unfolding get_document put_update update_document
put_update-found fresh startup_id id update db doc f =
    let g : get_document startup_id id db ≡ ok doc = ap (λ o. or_raise o not_found) f in
    rw (g, put_update) refl

put_update-missing :
    (fresh : ℕ → String) (startup_id id : ℕ) (update : DocumentUpdate) (db : DocumentDb)
    → first (in_workspace startup_id id) db.documents ≡ none
    → put_update fresh startup_id id update db ≡ (err not_found, db)
unfolding get_document put_update
put_update-missing fresh startup_id id update db f =
    let g : get_document startup_id id db ≡ err not_found = ap (λ o. or_raise o not_found) f in
    rw (g, put_update) refl

put_update-IsUpdated :
    (fresh : ℕ → String) (startup_id id : ℕ) (update : DocumentUpdate) (db : DocumentDb)
    → IsUpdated startup_id id update db (put_update fresh startup_id id update db)
unfolding update_document
put_update-IsUpdated fresh startup_id id update db =
    elim (Option-cases (first (in_workspace startup_id id) db.documents)) [
      | inl f ↦
          subst (IsUpdated startup_id id update db)
            (sym (put_update-missing fresh startup_id id update db f)) refl
      | inr (doc, f) ↦
          subst (IsUpdated startup_id id update db)
            (sym (put_update-found fresh startup_id id update db doc f))
            (elim (Bool-cases (update.expected_version == doc.version)) [
              | inr v ↦ rw (v, update_document) refl
              | inl v ↦
                  let same : update.expected_version ≡ doc.version = ground arith in
                  rw (v, update_document)
                    (finish_update-IsUpdated startup_id id update db doc
                      (validate_sections fresh 0 update.sections) fresh f same refl)
            ])
    ]

-- Of updates that are made one after the other: one that succeeds was made from the version that is
-- stored, and is what is read back, one version further, with the title, status, folder and the headings
-- and bodies that were posted, and with its other columns, and all other documents, as they were; and
-- any other update that was made from the same version is then refused as a conflict and writes nothing.
pub put_update_once :
    (fresh : ℕ → String) (startup_id document_id : ℕ) (update : DocumentUpdate)
    (db db' : DocumentDb) (doc : Document)
    → put_update fresh startup_id document_id update db ≡ (ok doc, db')
    → ((old : Document) × (get_document startup_id document_id db ≡ ok old)
        × (old.version ≡ update.expected_version)
        × (doc ≡ record old {
          title = update.title;
          sections = doc.sections;
          status = update.status;
          folder = update.folder;
          version = update.expected_version + 1;
        }))
      × AreStored update.sections doc.sections
      × (get_document startup_id document_id db' ≡ ok doc)
      × Pointwise (λ o n. (n ≡ o) ⊎ (o.id ≡ document_id)) db.documents db'.documents
      × ((fresh : ℕ → String) (other : DocumentUpdate)
          → other.expected_version ≡ update.expected_version
          → put_update fresh startup_id document_id other db'
            ≡ (err document_version_conflict, db'))
put_update_once fresh startup_id id update db db' doc e =
    subst (IsUpdated startup_id id update db) e (put_update-IsUpdated fresh startup_id id update db)
