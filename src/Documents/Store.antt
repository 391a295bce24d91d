-- ===== src/Documents/Store.antt =====
-- Documents with optimistic versions (app/services/documents/service.py). The ids drawn for sections
-- are arguments: `fresh` gives the one for the section at a place.
pub mod Versions
mod Tests
use Prim.Native.String.{String}
use package.text.Mathlib.Text.{◌==◌ as str_eq}
use cofoundaz_api.Prelude.{
  ℕ, suc, ◌+◌, Bool, true, false, ◌&&◌, not, Option, none, some, List, [], ◌∷◌, ◌++◌, ◌==◌,
  if◌then◌else◌, first, where_all, update_where,
}
use cofoundaz_api.Errors.{
  Result, ok, err, ◌>>=◌, ◌>>◌, raise_if, or_raise, not_found, validation_error,
  document_version_conflict,
}
use cofoundaz_api.Transaction.{Tx}

pub data DocumentKind : Type 0 where
  business_plan pitch_deck financial_model meeting_notes one_pager custom : DocumentKind

pub data DocumentStatus : Type 0 where
  draft final : DocumentStatus

-- A section as it is posted: an object whose parts have a text, another value or nothing, or no
-- object. The text of an id is that of Python's `str`, `none` if the id is absent or falsy.
pub data Part : Type 0 where
  text : String → Part
  no_text : Part

pub data PostedSection : Type 0 where
  section : Option String → Part → Part → PostedSection
  no_object : PostedSection

pub record Section : Type 0 where
  pub id : String
  pub heading : String
  pub body : String

pub record Document : Type 0 where
  pub id : ℕ
  pub startup_id : ℕ
  pub created_by_id : Option ℕ
  pub kind : DocumentKind
  pub status : DocumentStatus
  pub ai_generated : Bool
  pub folder : Option String
  pub template_key : Option String
  pub title : String
  pub sections : List Section
  pub version : ℕ

-- The event `document.created`.
pub record DocumentCreated : Type 0 where
  pub startup_id : ℕ
  pub document_id : ℕ
  pub kind : DocumentKind

pub record DocumentDb : Type 0 where
  pub documents : List Document
  pub events : List DocumentCreated

abbrev id_or : String → Option String → String
id_or new none = new
id_or new (some id) = id

abbrev pub check_section : String → PostedSection → Result Section
check_section new no_object = err validation_error
check_section new (section id (text heading) (text body)) =
    ok (record { id = id_or new id; heading = heading; body = body })
check_section new (section id (text heading) no_text) = err validation_error
check_section new (section id no_text body) = err validation_error

pub validate_sections : (ℕ → String) → ℕ → List PostedSection → Result (List Section)
validate_sections fresh place [] = ok []
validate_sections fresh place (sec ∷ sections) =
    check_section (fresh place) sec
    >>= (λ s. validate_sections fresh (place + 1) sections >>= (λ rest. ok (s ∷ rest)))

abbrev put_document : Document → DocumentDb → Document × DocumentDb
put_document doc db = (
  doc,
  record {
    documents = db.documents ++ doc ∷ [];
    events =
        db.events
        ++ record { startup_id = doc.startup_id; document_id = doc.id; kind = doc.kind } ∷ [];
  },
)

abbrev finish_create : DocumentDb → Result Document → Result Document × DocumentDb
finish_create db (err e) = (err e, db)
finish_create db (ok doc) = let (made, db') = put_document doc db in (ok made, db')

pub create_document :
    (ℕ → String)
    → ℕ
    → ℕ
    → DocumentKind
    → String
    → List PostedSection
    → Option String
    → Option String
    → Bool
    → ℕ
    → Tx DocumentDb Document
unfolding validate_sections
create_document fresh startup_id created_by_id kind title sections folder template_key ai_generated
      new_id db =
    finish_create db (
      validate_sections fresh 0 sections >>= (λ checked. ok (record {
        id = new_id;
        startup_id = startup_id;
        created_by_id = some created_by_id;
        kind = kind;
        status = draft;
        ai_generated = ai_generated;
        folder = folder;
        template_key = template_key;
        title = title;
        sections = checked;
        version = 1;
      })))

abbrev pub in_workspace : ℕ → ℕ → Document → Bool
in_workspace startup_id document_id d = (d.id == document_id) && (d.startup_id == startup_id)

pub get_document : ℕ → ℕ → DocumentDb → Result Document
get_document startup_id document_id db =
    or_raise (first (in_workspace startup_id document_id) db.documents) not_found

-- What the endpoint posts for an update.
pub record DocumentUpdate : Type 0 where
  pub title : String
  pub sections : List PostedSection
  pub status : DocumentStatus
  pub folder : Option String
  pub expected_version : ℕ

abbrev pub set_update : DocumentUpdate → List Section → Document → Document
set_update update checked d = record d {
  title = update.title;
  sections = checked;
  status = update.status;
  folder = update.folder;
  version = d.version + 1;
}

abbrev pub finish_update :
    DocumentUpdate → Document → DocumentDb → Result (List Section) → Result Document × DocumentDb
finish_update update doc db (err e) = (err e, db)
finish_update update doc db (ok checked) = (
  ok (set_update update checked doc),
  record db {
    documents =
        update_where (λ (d : Document). d.id == doc.id) (set_update update checked) db.documents;
  },
)

-- `update_document`; the title of a document whose sections are refused is set on the session's
-- object only, which the rollback of the request drops.
pub update_document : (ℕ → String) → DocumentUpdate → Document → Tx DocumentDb Document
unfolding validate_sections
update_document fresh update doc db =
    if update.expected_version == doc.version
    then finish_update update doc db (validate_sections fresh 0 update.sections)
    else (err document_version_conflict, db)

-- The update endpoint's two calls, with no other request between the read and the write; the source takes
-- no lock that would keep one out.
pub put_update : (ℕ → String) → ℕ → ℕ → DocumentUpdate → Tx DocumentDb Document
unfolding get_document update_document
put_update fresh startup_id document_id update db = elim (get_document startup_id document_id db) [
  | err e ↦ (err e, db)
  | ok doc ↦ update_document fresh update doc db
]

pub delete_document : Document → DocumentDb → DocumentDb
delete_document doc db = record db {
  documents = where_all (λ (d : Document). not (d.id == doc.id)) db.documents;
}
