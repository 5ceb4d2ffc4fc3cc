-- ===== src/Memory/Objects.antt =====
-- The objects that the backend in memory keeps: what any calls leave of one object, and that GetObject
-- answers it.
use s3mer.Base.{String, ◌≡◌, refl, ap, ◌∙◌, Option, none, some, List, [], ◌∷◌}
use s3mer.Dict
use s3mer.Dict.{Dict, get-put, get-remove, get-put_self}
use s3mer.Value.{Params}
use s3mer.Operations.{S3Operation, get_object}
use s3mer.Exec.{Result, ok, raised}
use s3mer.Errors.{client_error}
use s3mer.Memory.Values.{Call, text_param}
use s3mer.Memory.Backend.{
  Store, with_key, get, found, memory_error, on_bucket, dispatch, in_bucket, keyed,
}
use s3mer.Memory.Kept.{kept, objects-bucket_objects}
use s3mer.Memory.Changes.{effect}
use s3mer.Memory.Effects.{dispatch-effect}

pub effects : String → String → String → List Call → Option Params → Option Params
effects name bucket key [] o = o
effects name bucket key (call ∷ calls) o =
    effects name bucket key calls (effect name bucket key call o)

-- the store after the calls, one after the other, whatever they answer
unfoldable pub run : List Call → Store → Store
run [] store = store
run (call ∷ calls) store = run calls (dispatch call store).1

run-effects :
    (name bucket key : String) (calls : List Call) (store : Store)
    → kept name bucket key (run calls store)
      ≡ effects name bucket key calls (kept name bucket key store)
unfolding run effects
run-effects name bucket key [] store = refl
run-effects name bucket key (call ∷ calls) store =
    run-effects name bucket key calls (dispatch call store).1
    ∙ ap (effects name bucket key calls) (dispatch-effect name bucket key call store)

found-at :
    (op : S3Operation) (bucket key : String) (call : Call) (store : Store)
    → (op ≡ get_object)
    → (text_param "Key" call.params ≡ ok key)
    → (on_bucket op bucket call store).0 ≡ found (kept call.name bucket key store)
unfolding kept on_bucket with_key keyed get
found-at op bucket key call store e k =
    ap (λ o. (on_bucket o bucket call store).0) e
    ∙ ap (λ r. (keyed r (get bucket call) store).0) k
    ∙ ap (λ objects. found (Dict.get key objects))
        (objects-bucket_objects call.name bucket call.name bucket store)

-- the answer of GetObject for the object, or for none
abbrev pub answer_of : Option Params → Result Params
answer_of none = raised record {
  class = client_error;
  response =
      some record { code = some "NoSuchKey"; message = some "NoSuchKey"; http_status = some 404 };
  text = "NoSuchKey";
}
answer_of (some obj) = ok obj

found-answer_of : (o : Option Params) → found o ≡ answer_of o
unfolding found memory_error
found-answer_of none = refl
found-answer_of (some obj) = refl

-- After any calls, with any outcomes, GetObject answers the object that the calls on it have left,
-- or NoSuchKey, a client error of status 404, if they have left none. The object that a PutObject leaves has
-- the content, its length, the entity tag, the time, the type and the other headers of that call.
pub get-run :
    (name bucket key : String) (calls : List Call) (store : Store) (call : Call)
    → (call.name ≡ name)
    → (call.operation ≡ get_object)
    → (text_param "Bucket" call.params ≡ ok bucket)
    → (text_param "Key" call.params ≡ ok key)
    → (dispatch call (run calls store)).0
      ≡ answer_of (effects name bucket key calls (kept name bucket key store))
unfolding dispatch in_bucket
get-run name bucket key calls store call n op b k =
    let end = run calls store in
    ap (λ r. (in_bucket r call end).0) b
    ∙ found-at call.operation bucket key call end op k
    ∙ ap (λ m. found (kept m bucket key end)) n
    ∙ ap found (run-effects name bucket key calls store)
    ∙ found-answer_of (effects name bucket key calls (kept name bucket key store))
