-- ===== src/Memory/Values.antt =====
-- The calls of the backend in memory, and the object that PutObject keeps
-- (src/s3mer/backends/memory_backend.py).
use Prim.Native.String.{◌++◌ as ◌^^◌}
use s3mer.Base.{
  ℕ, zero, suc, String, true, false, ltb, Option, none, some, List, [], ◌∷◌, length, if◌then◌else◌,
}
use s3mer.Dict
use s3mer.Dict.{Dict}
use s3mer.Value.{
  Value, Values, Params, null, str, int, bool, bytes, object, list, dict, nil, cons, end,
}
use s3mer.Operations.{S3Operation}
use s3mer.Errors.{key_error, value_error, other}
use s3mer.Exec.{Result, ok, raised}
use s3mer.Pool.{exn}
use s3mer.Streaming.Bytes.{Bytes}

-- what an object can be read with: `read` that returns bytes, an asynchronous iteration, which wins
-- over `read`, an asynchronous `read` alone, or nothing
pub data Readable : Type 0 where
  reader : Bytes → Readable
  iterated awaited unreadable : Readable

-- A call of `_dispatch`, with what it takes from outside: the hexadecimal digits of `uuid4`, the
-- time, and how the objects among the values can be read.
pub record Call : Type 0 where
  pub name : String
  pub operation : S3Operation
  pub params : Params
  pub hex : String
  pub now : Value
  pub readable : ℕ → Readable

-- `params[name]` for a name of a bucket or an object, which is a text in all calls
text_of : String → Option Value → Result String
text_of name (some (str s)) = ok s
text_of name v = raised (exn key_error name)

unfoldable pub text_param : String → Params → Result String
unfolding text_of
text_param name params = text_of name (Dict.get name params)

zeros : ℕ → Bytes
zeros zero = []
zeros (suc n) = 0 ∷ zeros n

no_bytes : Result Bytes
no_bytes = raised (exn other "cannot convert object to bytes")

prefix : ℕ → Result Bytes → Result Bytes
prefix n (raised e) = raised e
prefix n (ok rest) = ok (n ∷ rest)

add_byte : ℕ → Result Bytes → Result Bytes
unfolding prefix
add_byte n rest =
    if ltb n 256 then prefix n rest else raised (exn value_error "bytes must be in range(0, 256)")

bytes_of_items : Values → Result Bytes
unfolding add_byte no_bytes
bytes_of_items nil = ok []
bytes_of_items (cons (int n) vs) = add_byte n (bytes_of_items vs)
bytes_of_items (cons (bool true) vs) = add_byte 1 (bytes_of_items vs)
bytes_of_items (cons (bool false) vs) = add_byte 0 (bytes_of_items vs)
bytes_of_items (cons v vs) = no_bytes

unfoldable pub read_object : Readable → Result Bytes
unfolding no_bytes
read_object (reader content) = ok content
read_object iterated = ok []
read_object awaited = raised (exn other "object of type 'coroutine' has no len()")
read_object unreadable = no_bytes

-- the bytes of `params.get("Body", b"")`
unfoldable pub read_value : (ℕ → Readable) → Option Value → Result Bytes
unfolding read_object bytes_of_items zeros no_bytes
read_value readable none = ok []
read_value readable (some null) = ok []
read_value readable (some (bytes content)) = ok content
read_value readable (some (object n)) = read_object (readable n)
read_value readable (some (int n)) = ok (zeros n)
read_value readable (some (bool true)) = ok (zeros 1)
read_value readable (some (bool false)) = ok []
read_value readable (some (list vs)) = bytes_of_items vs
read_value readable (some (dict end)) = ok []
read_value readable (some v) = no_bytes

unfoldable pub read_body : Call → Result Bytes
unfolding read_value
read_body call = read_value call.readable (Dict.get "Body" call.params)

-- `for meta_key in …: if meta_key in params: obj[meta_key] = params[meta_key]`
unfoldable pub copy_keys : List String → Params → Params → Params
copy_keys [] params obj = obj
copy_keys (key ∷ keys) params obj = elim (Dict.get key params) [
  | none ↦ copy_keys keys params obj
  | some v ↦ copy_keys keys params (Dict.put key v obj)
]

unfoldable pub new_etag : Call → String
new_etag call = "\"" ^^ call.hex ^^ "\""

-- `obj`
unfoldable pub new_object : Call → Bytes → Params
unfolding copy_keys new_etag
new_object call content =
    copy_keys
      ("ContentEncoding" ∷ "CacheControl" ∷ "ContentDisposition" ∷ "ContentLanguage" ∷ "Metadata"
        ∷ [])
      call.params
      (("Body", bytes content)
        ∷ ("ContentLength", int (length content))
        ∷ ("ETag", str (new_etag call))
        ∷ ("LastModified", call.now)
        ∷ (
          "ContentType",
          Dict.or_else (Dict.get "ContentType" call.params) (str "application/octet-stream"),
        )
        ∷ [])
