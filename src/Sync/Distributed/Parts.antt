-- ===== src/Sync/Distributed/Parts.antt =====
-- The parts that a backend is asked to assemble.
use s3mer.Base.{
  ℕ, ◌==◌, ◌≡◌, refl, ap, ◌∙◌, Option, none, some, List, [], ◌∷◌, arith, if◌then◌else◌, String,
}
use s3mer.Base.Texts.{str_eq}
use s3mer.Operations
use s3mer.Value.{str}
use s3mer.Dict
use s3mer.Dict.{Dict}
use s3mer.Value.{entries, Value, int, list, dict, Values, nil, cons, end, field, Params}
use s3mer.Operations.{complete_multipart_upload}
use s3mer.Exec.{ok}
use s3mer.Pool.{Client}
use s3mer.Sessions.{MultipartSession, put_part, with_part}
use s3mer.Sync.Distributed.{
  etags_of, etag_for, part_number_of, keep_part, backend_parts, client_parts, with_native_id,
  prepare_backend_params,
}

etags_of-put_part :
    (n m : ℕ) (etags : Dict String) (parts : List (ℕ × Dict String))
    → etags_of n (put_part m etags parts) ≡ (if m == n then etags else etags_of n parts)
unfolding etags_of put_part
etags_of-put_part n m etags [] = refl
etags_of-put_part n m etags ((k, old) ∷ parts) = ground (arith, etags_of-put_part n m etags parts)

-- A session after these uploads of parts, the last one last: the number of the part, and the ETags of the backends that have
-- accepted it.
pub uploads : List (ℕ × Dict String) → MultipartSession → MultipartSession
uploads [] session = session
uploads ((n, etags) ∷ rest) session = uploads rest (with_part n etags session)

-- The ETag that the backend gave in the last upload of the part, if it accepted that.
pub last_etag : String → ℕ → List (ℕ × Dict String) → Option String → Option String
last_etag name n [] before = before
last_etag name n ((m, etags) ∷ rest) before =
    last_etag name n rest (if m == n then Dict.get name etags else before)

etag_if :
    (name : String) (n m : ℕ) (etags : Dict String) (parts : List (ℕ × Dict String))
    → Dict.get name (etags_of n (put_part m etags parts))
      ≡ (if m == n then Dict.get name etags else Dict.get name (etags_of n parts))
etag_if name n m etags parts = ground (arith, etags_of-put_part n m etags parts)

held_etag :
    (name : String) (n : ℕ) (history : List (ℕ × Dict String)) (session : MultipartSession)
    → Dict.get name (etags_of n (uploads history session).part_etags)
      ≡ last_etag name n history (Dict.get name (etags_of n session.part_etags))
unfolding uploads last_etag with_part
held_etag name n [] session = refl
held_etag name n ((m, etags) ∷ rest) session =
    held_etag name n rest (with_part m etags session)
    ∙ ap (last_etag name n rest) (etag_if name n m etags session.part_etags)

-- the parts that a client lists, with any ETags
unfoldable pub client_list : List (ℕ × Value) → Values
client_list [] = nil
client_list ((n, etag) ∷ ps) =
    cons (dict (field "PartNumber" (int n) (field "ETag" etag end))) (client_list ps)

-- a part in the form of the request, if there is an ETag of it
abbrev listed : ℕ → Option String → Values → Values
listed n none rest = rest
listed n (some etag) rest =
    cons (dict (field "PartNumber" (int n) (field "ETag" (str etag) end))) rest

-- The listed parts of which there is an ETag, each with it.
pub own_parts : (ℕ → Option String) → List (ℕ × Value) → Values
own_parts etag [] = nil
own_parts etag ((n, e) ∷ ps) = listed n (etag n) (own_parts etag ps)

keep_part_lem :
    (n : ℕ) (etag : Option String) (rest : Values)
    → keep_part (int n) etag rest ≡ listed n etag rest
keep_part_lem n none rest = refl
keep_part_lem n (some etag) rest = refl

-- the parameters with the backend's own id of the upload, if it has one that is not empty
abbrev pub own_id : Option String → Params → Params
own_id none params = params
own_id (some id) params = if str_eq id "" then params else Dict.put "UploadId" (str id) params

own_id_lem :
    (id : Option String) (params : Params)
    → with_native_id id complete_multipart_upload params ≡ own_id id params
unfolding with_native_id Operations.is_multipart
own_id_lem none params = refl
own_id_lem (some id) params = refl

backend_parts_lem :
    (session : MultipartSession) (name : String) (ps : List (ℕ × Value))
    → backend_parts session name (client_list ps)
      ≡ ok (own_parts (λ n. Dict.get name (etags_of n session.part_etags)) ps)
unfolding backend_parts client_list own_parts part_number_of etag_for Dict.get entries
backend_parts_lem session name [] = refl
backend_parts_lem session name ((n, e) ∷ ps) = rw (backend_parts_lem session name ps) (
    ap ok (
      keep_part_lem n (Dict.get name (etags_of n session.part_etags))
        (own_parts (λ m. Dict.get name (etags_of m session.part_etags)) ps)))

own_parts-same :
    (f g : ℕ → Option String) (ps : List (ℕ × Value))
    → ((n : ℕ) → f n ≡ g n)
    → own_parts f ps ≡ own_parts g ps
unfolding own_parts
own_parts-same f g [] h = refl
own_parts-same f g ((n, e) ∷ ps) h = rw (h n, own_parts-same f g ps h) refl

-- For CompleteMultipartUpload a backend gets, in the order of the client's list, exactly those parts whose last upload
-- it has accepted, each with the ETag it gave then, and its own upload id: a part whose last upload it
-- has not accepted is left out.
pub prepare-own_parts :
    (c : Client) (params : Params) (session : MultipartSession)
    → (history : List (ℕ × Dict String)) (ps : List (ℕ × Value)) → session.part_etags ≡ []
    → client_parts params ≡ ok (client_list ps)
    → prepare_backend_params c complete_multipart_upload params (some (uploads history session))
      ≡ ok (
          Dict.put "MultipartUpload"
            (dict (field "Parts" (list (own_parts (λ n. last_etag c.name n history none) ps)) end))
            (own_id (Dict.get c.name (uploads history session).backend_upload_ids) params))
unfolding prepare_backend_params Dict.get
prepare-own_parts c params session history ps empty parts =
    rw
      (
        parts,
        backend_parts_lem (uploads history session) c.name ps,
        own_parts-same _ _ ps same,
        own_id_lem (Dict.get c.name (uploads history session).backend_upload_ids) params,
      )
      refl
  where
    same :
        (n : ℕ)
        → Dict.get c.name (etags_of n (uploads history session).part_etags)
          ≡ last_etag c.name n history none
    same n =
        held_etag c.name n history session
        ∙ ap (λ p. last_etag c.name n history (Dict.get c.name (etags_of n p))) empty
