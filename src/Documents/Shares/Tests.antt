-- ===== src/Documents/Shares/Tests.antt =====
-- A document shared for two days.
use cofoundaz_api.Prelude.{ℕ, ◌+◌, ◌*◌, ◌≤◌, ◌<◌, ◌≡◌, refl, some, []}
use cofoundaz_api.Errors.{ok, err, not_found}
use cofoundaz_api.Documents.{pos, negsuc}
use cofoundaz_api.Documents.Shares.{
  view, DocumentShare, ShareDb, create_share, open_shared, revoke_share, set_viewed,
}
use cofoundaz_api.Documents.Shares.Access.{IsOpen, create_share-opens}

abbrev hash : ℕ → ℕ
hash n = n + 1000

abbrev db : ShareDb
db = record { shares = []; events = [] }

abbrev made : DocumentShare × ShareDb
made = create_share hash 7 5 1 "a@x" view (some (pos 2)) 3 20 100 db

opened_test : (open_shared hash 3 172899 made.1).0 ≡ ok (set_viewed 172899 made.0)
unfolding open_shared create_share
opened_test = refl

create_share-opens_example :
    ((later : ℕ)
      → IsOpen (some (pos 2)) 100 later
      → (open_shared hash 3 later made.1).0 ≡ ok (set_viewed later made.0))
    × ((later days : ℕ)
        → some (pos 2) ≡ some (pos days)
        → 0 < days
        → 100 + days * 86400 ≤ later
        → open_shared hash 3 later made.1 ≡ (err not_found, made.1))
    × ((later n : ℕ)
        → some (pos 2) ≡ some (negsuc n)
        → 100 ≤ later
        → open_shared hash 3 later made.1 ≡ (err not_found, made.1))
    × ((at later : ℕ)
        → open_shared hash 3 later (revoke_share made.0 at made.1)
          ≡ (err not_found, revoke_share made.0 at made.1))
create_share-opens_example =
    create_share-opens hash 7 5 1 "a@x" view (some (pos 2)) 3 20 100 db refl
