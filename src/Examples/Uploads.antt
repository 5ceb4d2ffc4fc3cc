-- ===== src/Examples/Uploads.antt =====
-- Two uploads whose calls alternate.
use s3mer.Base.{◌≡◌, List, [], ◌∷◌}
use s3mer.Sessions.{set_backend_upload_ids, record_part_etags, Store, get_session}
use s3mer.Sessions.Independence.{
  answer, Call, create, set_ids, record_part, delete, run, session_of, get_session-run,
}

abbrev calls : List Call
calls =
    create "photos" "cat" "u1"
    ∷ create "photos" "dog" "u2"
    ∷ set_ids "u1" (("a", "native") ∷ [])
    ∷ record_part "u2" 1 (("a", "etag") ∷ [])
    ∷ record_part "u1" 1 (("a", "etag") ∷ [])
    ∷ delete "u2"
    ∷ []

abbrev empty : Store
empty = []

get_session-run_example :
    (get_session "u1" (run calls empty) ≡ session_of "u1" calls (get_session "u1" empty))
    × ((set_backend_upload_ids "u1" (("b", "other") ∷ []) (run calls empty)).0
        ≡ answer (session_of "u1" calls (get_session "u1" empty)))
    × ((record_part_etags "u1" 2 (("b", "etag") ∷ []) (run calls empty)).0
        ≡ answer (session_of "u1" calls (get_session "u1" empty)))
get_session-run_example =
    get_session-run "u1" calls empty (("b", "other") ∷ []) (("b", "etag") ∷ []) 2
