-- ===== src/Memory/Backend.antt =====
-- The store of the backend in memory and its operations (src/s3mer/backends/memory_backend.py).
use s3mer.Base.{ℕ, String, true, false, Option, none, some, List, [], ◌∷◌, if◌then◌else◌}
use s3mer.Dict
use s3mer.Dict.{Dict}
use s3mer.Value.{Value, Params, str, list, dict, end, field, of_items}
use s3mer.Operations.{
  S3Operation, create_bucket, delete_bucket, put_object, get_object, head_object, delete_object,
  list_buckets,
}
use s3mer.Errors.{Exn, client_error}
use s3mer.Exec.{Result, ok, raised, Exec}
use s3mer.Breaker
use s3mer.Breaker.{Breaker}
use s3mer.Node.{Metric, backend_request, backend_status}
use s3mer.Streaming.Bytes.{Bytes}
use s3mer.Operations
use s3mer.Memory.Values.{Call, text_param, read_body, new_object, new_etag}

-- `_MEMORY_STORE`: for each backend its buckets, and for each bucket its objects by key
abbrev pub Store : Type 0
Store = Dict (Dict (Dict Params))

-- `_client_error`
unfoldable pub memory_error : String → ℕ → Exn
memory_error code status = record {
  class = client_error;
  response = some (record { code = some code; message = some code; http_status = some status });
  text = code;
}

-- `d.setdefault(k, v)`, as what it leaves
unfoldable pub setdefault : {V : Type 0} → String → V → Dict V → Dict V
setdefault k v d = if Dict.contains k d then d else Dict.put k v d

-- `_MEMORY_STORE.get(self.name, {})`
abbrev pub buckets_of : String → Store → Dict (Dict Params)
buckets_of name store = Dict.or_else (Dict.get name store) []

abbrev pub objects_of : String → String → Store → Dict Params
objects_of name bucket store = Dict.or_else (Dict.get bucket (buckets_of name store)) []

-- `_bucket_objects`: the store with the bucket, whose objects are then `objects_of` it
unfoldable pub bucket_objects : String → String → Store → Store
unfolding setdefault
bucket_objects name bucket store =
    let store' = setdefault name [] store in
    Dict.put name (setdefault bucket [] (buckets_of name store')) store'

-- the same store after its objects in a bucket have changed
unfoldable pub with_objects : String → String → Dict Params → Store → Store
with_objects name bucket objects store =
    Dict.put name (Dict.put bucket objects (buckets_of name store)) store

-- `params["Key"]`, and what is done with it
unfoldable pub keyed : Result String → (String → Exec Store Params) → Exec Store Params
keyed (raised e) f store = (raised e, store)
keyed (ok key) f store = f key store

unfoldable pub with_key : Call → (String → Exec Store Params) → Exec Store Params
unfolding keyed text_param
with_key call f = keyed (text_param "Key" call.params) f

unfoldable pub delete : String → Option (Dict Params) → Call → Exec Store Params
unfolding memory_error
delete bucket none call store = (raised (memory_error "NoSuchBucket" 404), store)
delete bucket (some []) call store =
    (ok [], Dict.put call.name (Dict.remove bucket (buckets_of call.name store)) store)
delete bucket (some (o ∷ os)) call store = (raised (memory_error "BucketNotEmpty" 409), store)

-- the case PUT_OBJECT after the body is read
unfoldable pub put_bytes : String → Call → String → Result Bytes → Exec Store Params
unfolding with_objects bucket_objects new_object new_etag
put_bytes bucket call key (raised e) store = (raised e, store)
put_bytes bucket call key (ok content) store =
    let store' = bucket_objects call.name bucket store in
    let objects = Dict.put key (new_object call content) (objects_of call.name bucket store') in
    (ok (("ETag", str (new_etag call)) ∷ []), with_objects call.name bucket objects store')

unfoldable pub put : String → Call → String → Exec Store Params
unfolding put_bytes read_body
put bucket call key store = put_bytes bucket call key (read_body call) store

unfoldable pub found : Option Params → Result Params
unfolding memory_error
found none = raised (memory_error "NoSuchKey" 404)
found (some obj) = ok obj

without_body : Result Params → Result Params
without_body (raised e) = raised e
without_body (ok obj) = ok (Dict.remove "Body" obj)

unfoldable pub get : String → Call → String → Exec Store Params
unfolding bucket_objects found
get bucket call key store =
    let store' = bucket_objects call.name bucket store in
    (found (Dict.get key (objects_of call.name bucket store')), store')

unfoldable pub head : String → Call → String → Exec Store Params
unfolding get without_body
head bucket call key store = let (r, store') = get bucket call key store in (without_body r, store')

unfoldable pub remove : String → Call → String → Exec Store Params
unfolding bucket_objects with_objects memory_error
remove bucket call key store =
    let store' = bucket_objects call.name bucket store in
    let objects = objects_of call.name bucket store' in
    if Dict.contains key objects
    then (ok [], with_objects call.name bucket (Dict.remove key objects) store')
    else (raised (memory_error "NoSuchKey" 404), store')

-- `[{"Name": name} for name in …]`
names : List String → List Value
names [] = []
names (name ∷ rest) = dict (field "Name" (str name) end) ∷ names rest

-- the cases of `_dispatch`
unfoldable pub on_bucket : S3Operation → String → Call → Exec Store Params
unfolding bucket_objects with_key delete put get head remove names memory_error
on_bucket create_bucket bucket call store = (ok [], bucket_objects call.name bucket store)
on_bucket delete_bucket bucket call store =
    delete bucket (Dict.get bucket (buckets_of call.name store)) call store
on_bucket put_object bucket call store = with_key call (put bucket call) store
on_bucket get_object bucket call store = with_key call (get bucket call) store
on_bucket head_object bucket call store = with_key call (head bucket call) store
on_bucket delete_object bucket call store = with_key call (remove bucket call) store
on_bucket list_buckets bucket call store =
    (ok (("Buckets", list (of_items (names (Dict.keys (buckets_of call.name store))))) ∷ []), store)
on_bucket op bucket call store = (raised (memory_error "NotImplemented" 501), store)

unfoldable pub in_bucket : Result String → Call → Exec Store Params
unfolding on_bucket
in_bucket (raised e) call store = (raised e, store)
in_bucket (ok bucket) call store = on_bucket call.operation bucket call store

-- `_dispatch`
unfoldable pub dispatch : Call → Exec Store Params
unfolding in_bucket text_param
dispatch call store = in_bucket (text_param "Bucket" call.params) call store

-- The store, with the breaker and the calls on the metrics of one client.
pub record Memory : Type 0 where
  pub store : Store
  pub breaker : Option Breaker
  pub metrics : List Metric

-- `set_circuit_breaker`
set_circuit_breaker : Breaker → Memory → Memory
set_circuit_breaker b m = record m { breaker = some b }

-- `clear_memory_store`
clear_memory_store : Memory → Memory
clear_memory_store m = record m { store = [] }

-- `self._circuit_breaker.f()`, if there is a breaker
tell : (Breaker → Breaker) → Option Breaker → Option Breaker
tell f none = none
tell f (some b) = some (f b)

-- what `execute` does with the outcome
recorded : Call → ℕ → Result Params → List Metric → Option Breaker → List Metric × Option Breaker
unfolding tell
recorded call now (ok r) metrics breaker = (
  backend_status call.name true
      ∷ backend_request call.name (Operations.value call.operation) true
      ∷ metrics,
  tell Breaker.record_success breaker,
)
recorded call now (raised e) metrics breaker = (
  backend_status call.name false
      ∷ backend_request call.name (Operations.value call.operation) false
      ∷ metrics,
  tell (λ b. Breaker.record_failure now b) breaker,
)

-- `execute`, at the time `now` of the breaker's clock
unfoldable pub execute : Call → ℕ → Exec Memory Params
unfolding dispatch recorded
execute call now m =
    let (r, store) = dispatch call m.store in
    let (metrics, breaker) = recorded call now r m.metrics m.breaker in
    (r, record { store = store; breaker = breaker; metrics = metrics })
