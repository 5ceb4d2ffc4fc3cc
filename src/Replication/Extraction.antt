-- ===== src/Replication/Extraction.antt =====
-- The parts of a message that the managers take from a write: operation, keys and metadata
-- (`BaseReplicationManager` of src/s3mer/kafka/manager.py). The parameters and the response are
-- dynamic values, so a read of a missing or ill-typed entry raises.
use s3mer.Base.{
  zero, suc, String, Bool, true, false, not, Option, none, some, List, [], ◌∷◌, if◌then◌else◌,
}
use s3mer.Base.Texts.{str_eq}
use s3mer.Dict
use s3mer.Dict.{contains}
use s3mer.Value.{
  Value, null, str, int, bool, bytes, object, list, dict, nil, cons, end, field, Params, items,
  entries,
}
use s3mer.Operations
use s3mer.Operations.{
  S3Operation, put_object, delete_object, delete_objects, copy_object, complete_multipart_upload,
  is_bucket_level,
}
use s3mer.Errors.{key_error, attribute_error, other}
use s3mer.Exec.{Result, ok, raised}
use s3mer.Pool.{exn}

-- `_map_operation`
unfoldable pub map_operation : S3Operation → String
map_operation complete_multipart_upload = Operations.value put_object
map_operation copy_object = Operations.value put_object
map_operation delete_objects = Operations.value delete_object
map_operation op = Operations.value op

-- `bool(v)`
unfoldable pub is_truthy : Value → Bool
is_truthy null = false
is_truthy (str s) = not (str_eq s "")
is_truthy (int zero) = false
is_truthy (int (suc n)) = true
is_truthy (bool b) = b
is_truthy (bytes []) = false
is_truthy (bytes (b ∷ bs)) = true
is_truthy (object id) = true
is_truthy (list nil) = false
is_truthy (list (cons v vs)) = true
is_truthy (dict end) = false
is_truthy (dict (field k v fs)) = true

-- `d.get(k, v)`
abbrev pub get_default : String → Value → Params → Value
get_default k v d = Dict.or_else (Dict.get k d) v

-- `d["Key"]` of an entry of a list
key_of : Value → Result Value
key_of (dict fs) = elim (Dict.get "Key" (entries fs)) [
  | none ↦ raised (exn key_error "Key")
  | some v ↦ ok v
]
key_of v = raised (exn other "object is not subscriptable by a string")

prepend : Result Value → Result (List Value) → Result (List Value)
prepend (ok k) (ok ks) = ok (k ∷ ks)
prepend (ok k) (raised e) = raised e
prepend (raised e) ks = raised e

-- `[d["Key"] for d in vs]`
unfoldable pub keys_of : List Value → Result (List Value)
unfolding key_of prepend
keys_of [] = ok []
keys_of (v ∷ vs) = prepend (key_of v) (keys_of vs)

keys_in : Value → Result (List Value)
keys_in (list vs) = keys_of (items vs)
keys_in v = raised (exn other "object is not a list")

-- `params.get("Delete", {}).get("Objects", [])`
requested : Params → Result (List Value)
unfolding keys_in
requested params = elim (get_default "Delete" (dict end) params) [
  | dict fs ↦ keys_in (get_default "Objects" (list nil) (entries fs))
  | _ ↦ raised (exn attribute_error "object has no attribute 'get'")
]

-- the keys of a `delete_objects`: those that the response reports, else those asked for
deleted_keys : Params → Params → Result (List Value)
unfolding keys_in requested is_truthy
deleted_keys params response =
    let deleted = get_default "Deleted" (list nil) response in
    if is_truthy deleted then keys_in deleted else requested params

single_key : Params → List Value
unfolding is_truthy
single_key params =
    let key = get_default "Key" null params in if is_truthy key then key ∷ [] else []

-- `_extract_keys`
unfoldable pub extract_keys : S3Operation → Params → Params → Result (List Value)
unfolding deleted_keys single_key
extract_keys delete_objects params response = deleted_keys params response
extract_keys op params response =
    if is_bucket_level op then ok (null ∷ []) else ok (single_key params)

-- "ETag", "ContentLength" and `REPLICATED_OBJECT_METADATA`
abbrev pub metadata_keys : List String
metadata_keys =
    "ETag" ∷ "ContentLength" ∷ "ContentType" ∷ "ContentEncoding" ∷ "CacheControl"
    ∷ "ContentDisposition" ∷ "ContentLanguage" ∷ "Expires" ∷ "Metadata" ∷ []

set_some : String → Option Value → Params → Params
set_some k none d = d
set_some k (some v) d = Dict.put k v d

first_of : Option Value → Option Value → Option Value
first_of none v = v
first_of (some v) w = some v

collect : List String → Params → Params → Params → Params
unfolding set_some first_of
collect [] params response metadata = metadata
collect (k ∷ ks) params response metadata =
    collect ks params response
      (set_some k (first_of (Dict.get k response) (Dict.get k params)) metadata)

-- `_build_metadata`
unfoldable pub build_metadata : Params → Params → Params
unfolding collect
build_metadata params response = collect metadata_keys params response []
