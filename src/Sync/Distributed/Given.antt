-- ===== src/Sync/Distributed/Given.antt =====
-- What the backends have given in their responses, by name.
use s3mer.Base.{
  String, ◌≡◌, refl, ap, ◌∙◌, Bool, true, false, Option, none, some, List, [], ◌∷◌, if◌then◌else◌,
}
use s3mer.Base.Texts.{str_eq}
use s3mer.Dict
use s3mer.Dict.{Dict, get-put}
use s3mer.Value.{Value, null, str, int, bool, bytes, object, list, dict, Params}
use s3mer.Pool.{Client}
use s3mer.Sync.Distributed.Requests.{text, backend_etags, upload_ids, add_etag, add_id}

abbrev pub either : Option String → Option String → Option String
either none before = before
either (some t) before = some t

-- The last text that the successes of a backend have given, in their order; `given` reads it from a response.
pub last_given :
    (Params → Option String) → String → List (Client × Params) → Option String → Option String
last_given given name [] before = before
last_given given name ((c, response) ∷ rest) before =
    last_given given name rest
      (if str_eq c.name name then either (given response) before else before)

abbrev pub map_option : (Value → String) → Option Value → Option String
map_option f none = none
map_option f (some v) = some (f v)

-- a value that is not `None`
abbrev pub present : Option Value → Option Value
present none = none
present (some null) = none
present (some v) = some v

-- the ETag of a response, and its upload id, as texts
abbrev pub etag_in : (Value → String) → Params → Option String
etag_in render response = map_option (text render) (Dict.get "ETag" response)

abbrev pub id_in : (Value → String) → Params → Option String
id_in render response = map_option (text render) (present (Dict.get "UploadId" response))

module _ (render : Value → String) (name : String) where
  add_etag_lem :
      (t : Bool) (k : String) (o : Option Value) (d : Dict String)
      → (str_eq k name ≡ t)
      → Dict.get name (add_etag render k o d)
        ≡ (if t then either (map_option (text render) o) (Dict.get name d) else Dict.get name d)
  unfolding add_etag
  add_etag_lem true k none d e = refl
  add_etag_lem false k none d e = refl
  add_etag_lem true k (some v) d e = get-put k name (text render v) d ∙ rw e refl
  add_etag_lem false k (some v) d e = get-put k name (text render v) d ∙ rw e refl

  pub backend_etags-given :
      (xs : List (Client × Params)) (d : Dict String)
      → Dict.get name (backend_etags render xs d)
        ≡ last_given (etag_in render) name xs (Dict.get name d)
  unfolding backend_etags last_given
  backend_etags-given [] d = refl
  backend_etags-given ((c, response) ∷ rest) d =
      backend_etags-given rest (add_etag render c.name (Dict.get "ETag" response) d)
      ∙ ap (last_given (etag_in render) name rest)
          (add_etag_lem _ c.name (Dict.get "ETag" response) d refl)

  add_id_lem :
      (t : Bool) (k : String) (o : Option Value) (d : Dict String)
      → (str_eq k name ≡ t)
      → Dict.get name (add_id render k o d) ≡ (
          if t
          then either (map_option (text render) (present o)) (Dict.get name d)
          else Dict.get name d)
  unfolding add_id
  add_id_lem true k none d e = refl
  add_id_lem false k none d e = refl
  add_id_lem true k (some (null)) d e = refl
  add_id_lem true k (some (str x)) d e = get-put k name (text render (str x)) d ∙ rw e refl
  add_id_lem true k (some (int x)) d e = get-put k name (text render (int x)) d ∙ rw e refl
  add_id_lem true k (some (bool x)) d e = get-put k name (text render (bool x)) d ∙ rw e refl
  add_id_lem true k (some (bytes x)) d e = get-put k name (text render (bytes x)) d ∙ rw e refl
  add_id_lem true k (some (object x)) d e = get-put k name (text render (object x)) d ∙ rw e refl
  add_id_lem true k (some (list x)) d e = get-put k name (text render (list x)) d ∙ rw e refl
  add_id_lem true k (some (dict x)) d e = get-put k name (text render (dict x)) d ∙ rw e refl
  add_id_lem false k (some (null)) d e = refl
  add_id_lem false k (some (str x)) d e = get-put k name (text render (str x)) d ∙ rw e refl
  add_id_lem false k (some (int x)) d e = get-put k name (text render (int x)) d ∙ rw e refl
  add_id_lem false k (some (bool x)) d e = get-put k name (text render (bool x)) d ∙ rw e refl
  add_id_lem false k (some (bytes x)) d e = get-put k name (text render (bytes x)) d ∙ rw e refl
  add_id_lem false k (some (object x)) d e = get-put k name (text render (object x)) d ∙ rw e refl
  add_id_lem false k (some (list x)) d e = get-put k name (text render (list x)) d ∙ rw e refl
  add_id_lem false k (some (dict x)) d e = get-put k name (text render (dict x)) d ∙ rw e refl

  pub upload_ids-given :
      (xs : List (Client × Params)) (d : Dict String)
      → Dict.get name (upload_ids render xs d) ≡ last_given (id_in render) name xs (Dict.get name d)
  unfolding upload_ids last_given
  upload_ids-given [] d = refl
  upload_ids-given ((c, response) ∷ rest) d =
      upload_ids-given rest (add_id render c.name (Dict.get "UploadId" response) d)
      ∙ ap (last_given (id_in render) name rest)
          (add_id_lem _ c.name (Dict.get "UploadId" response) d refl)
