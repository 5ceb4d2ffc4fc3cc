-- ===== src/Sessions/Independence.antt =====
-- The uploads do not see each other: each session is what its own calls make of it.
use mathlib.Core.Option
use s3mer.Base.{
  ℕ, String, ◌≡◌, refl, ◌∙◌, ap, Option, none, some, List, [], ◌∷◌, arith, if◌then◌else◌,
}
use s3mer.Base.Texts.{str_eq, eq_iff}
use s3mer.Dict
use s3mer.Dict.{Dict, get-put, get-remove}
use s3mer.Sessions.{
  MultipartSession, Store, new_session, create_session, get_session, change, with_upload_ids,
  with_part, set_backend_upload_ids, record_part_etags, delete_session, Result, raised, key_error,
  ok,
}

-- The calls that change the store.
pub data Call : Type 0 where
  create : (bucket key id : String) → Call
  set_ids : (id : String) → Dict String → Call
  record_part : (id : String) → ℕ → Dict String → Call
  delete : (id : String) → Call

unfoldable pub apply : Call → Store → Store
apply (create bucket key id) store = (create_session bucket key id store).1
apply (set_ids id ids) store = (set_backend_upload_ids id ids store).1
apply (record_part id n etags) store = (record_part_etags id n etags store).1
apply (delete id) store = delete_session id store

unfoldable pub run : List Call → Store → Store
unfolding apply
run [] store = store
run (c ∷ cs) store = run cs (apply c store)

-- The specification: one session, and what a call with its id does to it.
unfoldable pub session_after : String → Call → Option MultipartSession → Option MultipartSession
session_after id (create bucket key i) s =
    if str_eq i id then some (new_session bucket key i) else s
session_after id (set_ids i ids) s = if str_eq i id then Option.map (with_upload_ids ids) s else s
session_after id (record_part i n etags) s =
    if str_eq i id then Option.map (with_part n etags) s else s
session_after id (delete i) s = if str_eq i id then none else s

unfoldable pub session_of : String → List Call → Option MultipartSession → Option MultipartSession
unfolding session_after
session_of id [] s = s
session_of id (c ∷ cs) s = session_of id cs (session_after id c s)

changed : (MultipartSession → MultipartSession) → String → Store → Option MultipartSession → Store
changed f i store none = store
changed f i store (some s) = Dict.put i (f s) store

change-changed :
    (f : MultipartSession → MultipartSession) (i : String) (store : Store)
    (o : Option MultipartSession)
    → Dict.get i store ≡ o
    → (change f i store).1 ≡ changed f i store o
unfolding change changed
change-changed f i store none e = rw (change, e) refl
change-changed f i store (some s) e = rw (change, e) refl

get-changed :
    (f : MultipartSession → MultipartSession) (i id : String) (store : Store)
    → (o : Option MultipartSession) → Dict.get i store ≡ o
    → Dict.get id (changed f i store o)
      ≡ (if str_eq i id then Option.map f (Dict.get id store) else Dict.get id store)
unfolding changed
get-changed f i id store none e = ground (arith, eq_iff i id)
get-changed f i id store (some s) e = ground (arith, eq_iff i id, get-put i id (f s) store)

same_key :
    (f : MultipartSession → MultipartSession) (i id : String) (store : Store)
    → Dict.get id (change f i store).1
      ≡ (if str_eq i id then Option.map f (Dict.get id store) else Dict.get id store)
same_key f i id store =
    ap (Dict.get id) (change-changed f i store (Dict.get i store) refl)
    ∙ get-changed f i id store (Dict.get i store) refl

pub apply_lem :
    (id : String) (c : Call) (store : Store)
    → get_session id (apply c store) ≡ session_after id c (get_session id store)
unfolding apply session_after get_session create_session set_backend_upload_ids record_part_etags
    delete_session
apply_lem id (create bucket key i) store = get-put i id (new_session bucket key i) store
apply_lem id (set_ids i ids) store = same_key (with_upload_ids ids) i id store
apply_lem id (record_part i n etags) store = same_key (with_part n etags) i id store
apply_lem id (delete i) store = get-remove i id store

run-session_of :
    (id : String) (cs : List Call) (store : Store)
    → get_session id (run cs store) ≡ session_of id cs (get_session id store)
unfolding run session_of
run-session_of id [] store = refl
run-session_of id (c ∷ cs) store =
    run-session_of id cs (apply c store) ∙ ap (session_of id cs) (apply_lem id c store)

-- A change of a session that is not there raises KeyError.
abbrev pub answer : Option MultipartSession → Result (Unit {0})
answer none =
    raised record { class = key_error; response = none; text = "Unknown multipart session" }
answer (some session) = ok tt

answer_lem :
    (f : MultipartSession → MultipartSession) (id : String) (store : Store)
    (o : Option MultipartSession)
    → Dict.get id store ≡ o
    → (change f id store).0 ≡ answer o
unfolding change
answer_lem f id store none e = rw (change, e) refl
answer_lem f id store (some s) e = rw (change, e) refl

-- After any calls on the store, with any ids and in any order, the session of an id is what the
-- calls with this id alone make of it, one after the other, where a change without a session
-- changes nothing; and a change then succeeds if there is a session, and raises KeyError if there is none.
pub get_session-run :
    (id : String) (cs : List Call) (store : Store) (ids etags : Dict String) (n : ℕ)
    → (get_session id (run cs store) ≡ session_of id cs (get_session id store))
      × ((set_backend_upload_ids id ids (run cs store)).0
          ≡ answer (session_of id cs (get_session id store)))
      × ((record_part_etags id n etags (run cs store)).0
          ≡ answer (session_of id cs (get_session id store)))
unfolding get_session set_backend_upload_ids record_part_etags
get_session-run id cs store ids etags n =
    let e = run-session_of id cs store in
    (
      e,
      answer_lem (with_upload_ids ids) id (run cs store) _ e,
      answer_lem (with_part n etags) id (run cs store) _ e,
    )
