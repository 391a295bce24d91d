-- ===== src/Documents/Store/Tests.antt =====
-- Two editors of the same version of a document.
use Prim.Native.String.{String}
use cofoundaz_api.Prelude.{◌⊎◌, Pointwise, ℕ, ◌+◌, ◌≡◌, refl, false, none, some, [], ◌∷◌}
use cofoundaz_api.Errors.{ok, err, document_version_conflict}
use cofoundaz_api.Documents.Store.{
  Document, DocumentDb, DocumentUpdate, DocumentKind, DocumentStatus, PostedSection, Part,
  get_document, put_update, create_document,
}
use cofoundaz_api.Documents.Store.Versions.{AreStored, put_update_once}

abbrev fresh : ℕ → String
fresh n = "new"

abbrev empty : DocumentDb
empty = record { documents = []; events = [] }

abbrev created : DocumentDb
created = (create_document fresh 7 1 DocumentKind.custom "plan" [] none none false 5 empty).1

abbrev update : DocumentUpdate
update = record {
  title = "pitch";
  sections = PostedSection.section none (Part.text "Why") (Part.text "Now") ∷ [];
  status = DocumentStatus.draft;
  folder = none;
  expected_version = 1;
}

abbrev saved : Document
saved = record {
  id = 5;
  startup_id = 7;
  created_by_id = some 1;
  kind = DocumentKind.custom;
  status = DocumentStatus.draft;
  ai_generated = false;
  folder = none;
  template_key = none;
  title = "pitch";
  sections = record { id = "new"; heading = "Why"; body = "Now" } ∷ [];
  version = 2;
}

abbrev updated : DocumentDb
updated = (put_update fresh 7 5 update created).1

put_update_once_example :
    ((old : Document) × (get_document 7 5 created ≡ ok old)
      × (old.version ≡ 1)
      × (saved ≡ record old {
        title = "pitch";
        sections = saved.sections;
        status = DocumentStatus.draft;
        folder = none;
        version = 1 + 1;
      }))
    × AreStored update.sections saved.sections
    × (get_document 7 5 updated ≡ ok saved)
    × Pointwise (λ o n. (n ≡ o) ⊎ (o.id ≡ 5)) created.documents updated.documents
    × ((fresh : ℕ → String) (other : DocumentUpdate)
        → other.expected_version ≡ update.expected_version
        → put_update fresh 7 5 other updated ≡ (err document_version_conflict, updated))
unfolding put_update create_document
put_update_once_example = put_update_once fresh 7 5 update created updated saved refl
