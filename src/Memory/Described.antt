-- ===== src/Memory/Described.antt =====
-- What a PutObject leaves, described apart from the code that stores it.
use Prim.Native.String.{◌++◌ as ◌^^◌}
use s3mer.Streaming.Bytes.{Bytes}
use s3mer.Base.{ℕ, String, List, length, ◌≡◌, refl, ◌∙◌, Option, none, some, [], ◌∷◌}
use s3mer.Dict
use s3mer.Dict.{Dict, get-put, get-remove, get-put_self}
use s3mer.Value.{Params, Value, str, int, bytes, object}
use s3mer.Exec.{Result, ok}
use s3mer.Memory.Values.{
  Readable, reader, read_value, read_object, copy_keys, new_etag, Call, read_body, new_object,
}

-- a key that the call gives is kept with the object
abbrev pub kept_key : String → Params → Params → Params
kept_key key params obj = elim (Dict.get key params) [ none ↦ obj | some v ↦ Dict.put key v obj ]

-- The object that a PutObject of this content leaves: the content, its length, the entity tag, the time and
-- the type, and the headers that the call gives.
abbrev pub described : Call → Bytes → Params
described call content =
    let p = call.params in
    kept_key "Metadata" p (
      kept_key "ContentLanguage" p (
        kept_key "ContentDisposition" p (
          kept_key "CacheControl" p (
            kept_key "ContentEncoding" p (
              ("Body", bytes content)
              ∷ ("ContentLength", int (length content))
              ∷ ("ETag", str ("\"" ^^ (call.hex ^^ "\"")))
              ∷ ("LastModified", call.now)
              ∷ (
                "ContentType",
                Dict.or_else (Dict.get "ContentType" p) (str "application/octet-stream"),
              )
              ∷ [])))))

copy_one :
    (key : String) (keys : List String) (params obj : Params)
    → copy_keys (key ∷ keys) params obj ≡ copy_keys keys params (kept_key key params obj)
unfolding copy_keys
copy_one key keys params obj = by_value (Dict.get key params)
  where
    by_value :
        (o : Option Value)
        → (elim o [
          | none ↦ copy_keys keys params obj
          | some v ↦ copy_keys keys params (Dict.put key v obj)
        ])
          ≡ copy_keys keys params (elim o [ none ↦ obj | some v ↦ Dict.put key v obj ])
    by_value none = refl
    by_value (some v) = refl

copy_five :
    (a b c d e : String) (params obj : Params)
    → copy_keys (a ∷ b ∷ c ∷ d ∷ e ∷ []) params obj
      ≡ kept_key e params
          (kept_key d params (kept_key c params (kept_key b params (kept_key a params obj))))
unfolding copy_keys
copy_five a b c d e params obj =
    copy_one a (b ∷ c ∷ d ∷ e ∷ []) params obj
    ∙ copy_one b (c ∷ d ∷ e ∷ []) params _
    ∙ copy_one c (d ∷ e ∷ []) params _
    ∙ copy_one d (e ∷ []) params _
    ∙ copy_one e [] params _

pub new_object-described :
    (call : Call) (content : Bytes) → new_object call content ≡ described call content
unfolding new_object new_etag
new_object-described call content = copy_five _ _ _ _ _ call.params _

abbrev pub given_reader : Readable → Result Bytes → Result Bytes
given_reader (reader content) r = ok content
given_reader _ r = r

-- The content of a body: its bytes, what its `read` returns, or nothing if there is none; of the rest, which
-- are no bodies, what `read_body` makes.
abbrev pub given : (ℕ → Readable) → Option Value → Result Bytes → Result Bytes
given readable none r = ok []
given readable (some (bytes content)) r = ok content
given readable (some (object n)) r = given_reader (readable n) r
given readable (some v) r = r

read_object-given : (x : Readable) → read_object x ≡ given_reader x (read_object x)
unfolding read_object
read_object-given (reader content) = refl
read_object-given _ = refl

read_value-given :
    (readable : ℕ → Readable) (o : Option Value)
    → read_value readable o ≡ given readable o (read_value readable o)
unfolding read_value read_object
read_value-given readable none = refl
read_value-given readable (some (bytes content)) = refl
read_value-given readable (some (object n)) = read_object-given (readable n)
read_value-given readable (some _) = refl

abbrev pub content_of : Call → Result Bytes
content_of call = given call.readable (Dict.get "Body" call.params) (read_body call)

pub read_body-given : (call : Call) → read_body call ≡ content_of call
unfolding read_body
read_body-given call = read_value-given call.readable (Dict.get "Body" call.params)
