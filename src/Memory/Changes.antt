-- ===== src/Memory/Changes.antt =====
-- What the calls on the backend in memory that change objects make of one of them.
use s3mer.Streaming.Bytes.{Bytes}
use s3mer.Base.{
  String, Bool, true, false, ◌&&◌, ◌≡◌, refl, sym, ap, ◌∙◌, Option, none, some, [], ◌∷◌,
  if◌then◌else◌,
}
use s3mer.Base.Texts.{str_eq}
use s3mer.Dict
use s3mer.Dict.{Dict, get-put, get-remove, get-put_self}
use s3mer.Value.{Params}
use s3mer.Operations.{S3Operation, put_object, delete_object}
use s3mer.Exec.{Result, ok, raised}
use s3mer.Memory.Described.{described, new_object-described, content_of, read_body-given}
use s3mer.Memory.Values.{Call, text_param, read_body, new_object}
use s3mer.Memory.Backend.{
  Store, buckets_of, objects_of, bucket_objects, with_objects, delete, put, remove, put_bytes,
}
use s3mer.Memory.Kept.{kept, kept-bucket_objects, removed_bucket, put_in, removed, absent}

-- The call is of this client, on this object.
pub is_on : String → String → String → Call → String → String → Bool
is_on name bucket key call b k = str_eq call.name name && (str_eq b bucket && str_eq k key)

abbrev pub stored : Call → Result Bytes → Option Params → Option Params
stored call (raised e) o = o
stored call (ok content) o = some (described call content)

-- what a call on an object makes of it
unfoldable pub change : S3Operation → Call → Option Params → Option Params
change put_object call o = stored call (content_of call) o
change delete_object call o = none
change op call o = o

unfoldable pub at_key : Bool → S3Operation → Call → Option Params → Option Params
at_key true op call o = change op call o
at_key false op call o = o

unfoldable pub with_names :
    String
    → String
    → String
    → Call
    → S3Operation
    → Result String
    → Result String
    → Option Params
    → Option Params
with_names name bucket key call op (ok b) (ok k) o =
    at_key (is_on name bucket key call b k) op call o
with_names name bucket key call op b k o = o

-- What a call leaves of one object, as a function of what there was of it.
unfoldable pub effect : String → String → String → Call → Option Params → Option Params
effect name bucket key call o =
    with_names name bucket key call call.operation (text_param "Bucket" call.params)
      (text_param "Key" call.params) o

second :
    {A B : Type 0} (t : Bool) (a c : A) (b d : B)
    → (let pair : A × B = if t then (a, b) else (c, d) in pair.1 ≡ (if t then b else d))
second true a c b d = refl
second false a c b d = refl

module _ (name bucket key : String) where
  pub delete-kept :
      (b : String) (o : Option (Dict Params)) (call : Call) (store : Store)
      → (Dict.get b (buckets_of call.name store) ≡ o)
      → kept name bucket key (delete b o call store).1 ≡ kept name bucket key store
  unfolding delete
  delete-kept b none call store e = refl
  delete-kept b (some []) call store e = removed_bucket name bucket key call.name b store e
  delete-kept b (some (o ∷ os)) call store e = refl

  stored-at :
      (t : Bool) (call : Call) (o : Option Params)
      → at_key t put_object call o ≡ (if t then stored call (content_of call) o else o)
  unfolding at_key change
  stored-at true call o = refl
  stored-at false call o = refl

  same_in : {A : Type 0} (t : Bool) (o : A) → o ≡ (if t then o else o)
  same_in true o = refl
  same_in false o = refl

  put_bytes-kept :
      (b k : String) (call : Call) (r : Result Bytes) (store : Store)
      → kept name bucket key (put_bytes b call k r store).1 ≡ (
          if is_on name bucket key call b k
          then stored call r (kept name bucket key store)
          else kept name bucket key store)
  unfolding put_bytes is_on
  put_bytes-kept b k call (raised e) store =
      same_in (is_on name bucket key call b k) (kept name bucket key store)
  put_bytes-kept b k call (ok content) store =
      put_in name bucket key call.name b k (new_object call content) store
      ∙ ap (λ obj. if is_on name bucket key call b k then some obj else kept name bucket key store)
          (new_object-described call content)

  pub put-kept :
      (b k : String) (call : Call) (store : Store)
      → kept name bucket key (put b call k store).1
        ≡ at_key (is_on name bucket key call b k) put_object call (kept name bucket key store)
  unfolding put
  put-kept b k call store =
      put_bytes-kept b k call (read_body call) store
      ∙ ap
          (λ c.
            if is_on name bucket key call b k
            then stored call c (kept name bucket key store)
            else kept name bucket key store)
          (read_body-given call)
      ∙ sym (stored-at (is_on name bucket key call b k) call (kept name bucket key store))

  none-at :
      (t : Bool) (call : Call) (o : Option Params)
      → at_key t delete_object call o ≡ (if t then none else o)
  unfolding at_key change
  none-at true call o = refl
  none-at false call o = refl

  remove_if :
      (t : Bool) (n b k : String) (call : Call) (store : Store) (o : Option Params)
      → (Dict.contains k (objects_of n b store) ≡ t)
      → (kept name bucket key store ≡ o)
      → kept name bucket key
          (if t then with_objects n b (Dict.remove k (objects_of n b store)) store else store)
        ≡ (if str_eq n name && (str_eq b bucket && str_eq k key) then none else o)
  remove_if true n b k call store o has e = removed name bucket key n b k store o e
  remove_if false n b k call store o lacks e = e ∙ absent name bucket key n b k store o e lacks

  pub remove-kept :
      (b k : String) (call : Call) (store : Store)
      → kept name bucket key (remove b call k store).1
        ≡ at_key (is_on name bucket key call b k) delete_object call (kept name bucket key store)
  unfolding remove is_on
  remove-kept b k call store =
      let store' = bucket_objects call.name b store in
      let o = kept name bucket key store in
      ap (kept name bucket key) (second (Dict.contains k (objects_of call.name b store')) _ _ _ _)
      ∙ remove_if (Dict.contains k (objects_of call.name b store')) call.name b k call store' o refl
          (kept-bucket_objects name bucket key call.name b store)
      ∙ sym (none-at (is_on name bucket key call b k) call o)
