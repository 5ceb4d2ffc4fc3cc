-- ===== src/Sessions.antt =====
-- The sessions of multipart uploads (src/s3mer/state/protocol.py and the store of
-- src/s3mer/state/memory.py). A session is one object in the store; each operation holds the lock, so
-- operations follow one another.
pub mod Independence
use s3mer.Base.{ℕ, String, ◌==◌, Option, none, some, List, [], ◌∷◌, if◌then◌else◌}
use s3mer.Dict
use s3mer.Dict.{Dict}
use s3mer.Errors.{key_error}
use s3mer.Exec.{Result, ok, raised}
use s3mer.Pool.{exn}

pub record MultipartSession : Type 0 where
  pub bucket : String
  pub key : String
  pub canonical_upload_id : String
  pub backend_upload_ids : Dict String
  pub part_etags : List (ℕ × Dict String)

abbrev pub Store : Type 0
Store = Dict MultipartSession

abbrev pub new_session : String → String → String → MultipartSession
new_session bucket key id = record {
  bucket = bucket;
  key = key;
  canonical_upload_id = id;
  backend_upload_ids = [];
  part_etags = [];
}

-- `session.part_etags[part_number] = …`
unfoldable pub put_part : ℕ → Dict String → List (ℕ × Dict String) → List (ℕ × Dict String)
put_part n etags [] = (n, etags) ∷ []
put_part n etags ((m, old) ∷ parts) =
    if m == n then (m, etags) ∷ parts else (m, old) ∷ put_part n etags parts

-- `create_session`
unfoldable pub create_session : String → String → String → Store → MultipartSession × Store
create_session bucket key id store =
    (new_session bucket key id, Dict.put id (new_session bucket key id) store)

-- `get_session`
unfoldable pub get_session : String → Store → Option MultipartSession
get_session id store = Dict.get id store

-- a change of the session with this id; without one it is a KeyError
unfoldable pub change :
    (MultipartSession → MultipartSession) → String → Store → Result (Unit {0}) × Store
change f id store = elim (Dict.get id store) [
  | none ↦ (raised (exn key_error "Unknown multipart session"), store)
  | some session ↦ (ok tt, Dict.put id (f session) store)
]

abbrev pub with_upload_ids : Dict String → MultipartSession → MultipartSession
with_upload_ids ids session = record session { backend_upload_ids = ids }

unfoldable pub with_part : ℕ → Dict String → MultipartSession → MultipartSession
unfolding put_part
with_part n etags session = record session { part_etags = put_part n etags session.part_etags }

-- `set_backend_upload_ids`
unfoldable pub set_backend_upload_ids : String → Dict String → Store → Result (Unit {0}) × Store
unfolding change
set_backend_upload_ids id ids store = change (with_upload_ids ids) id store

-- `record_part_etags`
unfoldable pub record_part_etags : String → ℕ → Dict String → Store → Result (Unit {0}) × Store
unfolding change with_part
record_part_etags id n etags store = change (with_part n etags) id store

-- `delete_session`
unfoldable pub delete_session : String → Store → Store
delete_session id store = Dict.remove id store
