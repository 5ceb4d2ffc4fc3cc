-- ===== src/Memory/Effects.antt =====
-- What a call on the backend in memory leaves of one object.
use s3mer.Base.{String, Bool, true, false, ◌≡◌, refl, sym, ◌∙◌, Option}
use s3mer.Dict
use s3mer.Dict.{Dict, get-put, get-remove, get-put_self}
use s3mer.Value.{Params}
use s3mer.Operations.{
  S3Operation, create_bucket, delete_bucket, head_bucket, list_buckets, delete_objects,
  list_objects, get_bucket_lifecycle, put_bucket_lifecycle, delete_bucket_lifecycle,
  get_bucket_policy, put_bucket_policy, delete_bucket_policy, put_object, get_object, delete_object,
  head_object, post_object, copy_object, put_object_tagging, get_object_tagging,
  delete_object_tagging, create_multipart_upload, upload_part, complete_multipart_upload,
  abort_multipart_upload, list_objects_v2,
}
use s3mer.Exec.{Result, ok, raised, Exec}
use s3mer.Memory.Values.{Call, text_param}
use s3mer.Memory.Backend.{
  Store, buckets_of, bucket_objects, with_key, put, get, head, remove, on_bucket, dispatch,
  in_bucket, keyed,
}
use s3mer.Memory.Kept.{kept, kept-bucket_objects}
use s3mer.Memory.Changes.{
  change, at_key, with_names, effect, is_on, delete-kept, put-kept, remove-kept,
}

module _ (name bucket key : String) where
  keyed-kept :
      (kr : Result String) (op : S3Operation) (b : String) (call : Call)
      (f : String → Exec Store Params) (store : Store)
      → ((k : String)
          → kept name bucket key (f k store).1
            ≡ at_key (is_on name bucket key call b k) op call (kept name bucket key store))
      → kept name bucket key (keyed kr f store).1
        ≡ with_names name bucket key call op (ok b) kr (kept name bucket key store)
  unfolding keyed with_names
  keyed-kept (raised e) op b call f store h = refl
  keyed-kept (ok k) op b call f store h = h k

  unchanged :
      (t : Bool) (op : S3Operation) (call : Call) (o : Option Params)
      → (change op call o ≡ o)
      → o ≡ at_key t op call o
  unfolding at_key
  unchanged true op call o h = sym h
  unchanged false op call o h = refl

  idle :
      (kr : Result String) (op : S3Operation) (b : String) (call : Call) (o : Option Params)
      → (change op call o ≡ o)
      → o ≡ with_names name bucket key call op (ok b) kr o
  unfolding with_names
  idle (raised e) op b call o h = refl
  idle (ok k) op b call o h = unchanged (is_on name bucket key call b k) op call o h

  read-kept :
      (op : S3Operation) (b : String) (call : Call) (store : Store)
      → (change op call (kept name bucket key store) ≡ kept name bucket key store)
      → (k : String)
      → kept name bucket key (bucket_objects call.name b store)
        ≡ at_key (is_on name bucket key call b k) op call (kept name bucket key store)
  read-kept op b call store h k =
      kept-bucket_objects name bucket key call.name b store
      ∙ unchanged (is_on name bucket key call b k) op call (kept name bucket key store) h

  idle_call :
      (op : S3Operation) (b : String) (call : Call) (store : Store)
      → (change op call (kept name bucket key store) ≡ kept name bucket key store)
      → kept name bucket key store
        ≡ with_names name bucket key call op
            (ok b)
            (text_param "Key" call.params)
            (kept name bucket key store)
  idle_call op b call store h =
      idle (text_param "Key" call.params) op b call (kept name bucket key store) h

  on_bucket-kept :
      (op : S3Operation) (b : String) (call : Call) (store : Store)
      → kept name bucket key (on_bucket op b call store).1
        ≡ with_names name bucket key call op
            (ok b)
            (text_param "Key" call.params)
            (kept name bucket key store)
  unfolding on_bucket with_key change get head
  on_bucket-kept create_bucket b call store =
      kept-bucket_objects name bucket key call.name b store
      ∙ idle_call create_bucket b call store refl
  on_bucket-kept delete_bucket b call store =
      delete-kept name bucket key b (Dict.get b (buckets_of call.name store)) call store refl
      ∙ idle_call delete_bucket b call store refl
  on_bucket-kept head_bucket b call store = idle_call head_bucket b call store refl
  on_bucket-kept list_buckets b call store = idle_call list_buckets b call store refl
  on_bucket-kept delete_objects b call store = idle_call delete_objects b call store refl
  on_bucket-kept list_objects b call store = idle_call list_objects b call store refl
  on_bucket-kept get_bucket_lifecycle b call store =
      idle_call get_bucket_lifecycle b call store refl
  on_bucket-kept put_bucket_lifecycle b call store =
      idle_call put_bucket_lifecycle b call store refl
  on_bucket-kept delete_bucket_lifecycle b call store =
      idle_call delete_bucket_lifecycle b call store refl
  on_bucket-kept get_bucket_policy b call store = idle_call get_bucket_policy b call store refl
  on_bucket-kept put_bucket_policy b call store = idle_call put_bucket_policy b call store refl
  on_bucket-kept delete_bucket_policy b call store =
      idle_call delete_bucket_policy b call store refl
  on_bucket-kept put_object b call store =
      keyed-kept (text_param "Key" call.params) put_object b call (put b call) store
        (λ k. put-kept name bucket key b k call store)
  on_bucket-kept get_object b call store =
      keyed-kept (text_param "Key" call.params) get_object b call (get b call) store
        (read-kept get_object b call store refl)
  on_bucket-kept delete_object b call store =
      keyed-kept (text_param "Key" call.params) delete_object b call (remove b call) store
        (λ k. remove-kept name bucket key b k call store)
  on_bucket-kept head_object b call store =
      keyed-kept (text_param "Key" call.params) head_object b call (head b call) store
        (read-kept head_object b call store refl)
  on_bucket-kept post_object b call store = idle_call post_object b call store refl
  on_bucket-kept copy_object b call store = idle_call copy_object b call store refl
  on_bucket-kept put_object_tagging b call store = idle_call put_object_tagging b call store refl
  on_bucket-kept get_object_tagging b call store = idle_call get_object_tagging b call store refl
  on_bucket-kept delete_object_tagging b call store =
      idle_call delete_object_tagging b call store refl
  on_bucket-kept create_multipart_upload b call store =
      idle_call create_multipart_upload b call store refl
  on_bucket-kept upload_part b call store = idle_call upload_part b call store refl
  on_bucket-kept complete_multipart_upload b call store =
      idle_call complete_multipart_upload b call store refl
  on_bucket-kept abort_multipart_upload b call store =
      idle_call abort_multipart_upload b call store refl
  on_bucket-kept list_objects_v2 b call store = idle_call list_objects_v2 b call store refl

  in_bucket-kept :
      (br : Result String) (call : Call) (store : Store)
      → kept name bucket key (in_bucket br call store).1
        ≡ with_names name bucket key call call.operation br
            (text_param "Key" call.params)
            (kept name bucket key store)
  unfolding in_bucket with_names
  in_bucket-kept (raised e) call store = refl
  in_bucket-kept (ok b) call store = on_bucket-kept call.operation b call store

  -- A call leaves of the object what it makes of it.
  pub dispatch-effect :
      (call : Call) (store : Store)
      → kept name bucket key (dispatch call store).1
        ≡ effect name bucket key call (kept name bucket key store)
  unfolding dispatch effect
  dispatch-effect call store = in_bucket-kept (text_param "Bucket" call.params) call store
