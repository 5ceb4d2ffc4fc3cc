-- ===== src/Operations.antt =====
-- The operations that the proxy serves (src/s3mer/routing/operations.py).
use s3mer.Base.{String, Bool, true, false, Option, none, some, List, [], ◌∷◌, if◌then◌else◌}
use s3mer.Base.Texts.{str_eq}

pub data S3Operation : Type 0 where
  create_bucket delete_bucket head_bucket list_buckets delete_objects list_objects : S3Operation
  get_bucket_lifecycle put_bucket_lifecycle delete_bucket_lifecycle : S3Operation
  get_bucket_policy put_bucket_policy delete_bucket_policy : S3Operation
  put_object get_object delete_object head_object post_object copy_object : S3Operation
  put_object_tagging get_object_tagging delete_object_tagging : S3Operation
  create_multipart_upload upload_part complete_multipart_upload abort_multipart_upload : S3Operation
  list_objects_v2 : S3Operation

-- `operation.value`, the name of the client's method
unfoldable pub value : S3Operation → String
value create_bucket = "create_bucket"
value delete_bucket = "delete_bucket"
value head_bucket = "head_bucket"
value list_buckets = "list_buckets"
value delete_objects = "delete_objects"
value list_objects = "list_objects"
value get_bucket_lifecycle = "get_bucket_lifecycle_configuration"
value put_bucket_lifecycle = "put_bucket_lifecycle_configuration"
value delete_bucket_lifecycle = "delete_bucket_lifecycle"
value get_bucket_policy = "get_bucket_policy"
value put_bucket_policy = "put_bucket_policy"
value delete_bucket_policy = "delete_bucket_policy"
value put_object = "put_object"
value get_object = "get_object"
value delete_object = "delete_object"
value head_object = "head_object"
value post_object = "post_object"
value copy_object = "copy_object"
value put_object_tagging = "put_object_tagging"
value get_object_tagging = "get_object_tagging"
value delete_object_tagging = "delete_object_tagging"
value create_multipart_upload = "create_multipart_upload"
value upload_part = "upload_part"
value complete_multipart_upload = "complete_multipart_upload"
value abort_multipart_upload = "abort_multipart_upload"
value list_objects_v2 = "list_objects_v2"

-- the members of the enumeration, in the order of declaration
abbrev pub members : List S3Operation
members =
    create_bucket ∷ delete_bucket ∷ head_bucket ∷ list_buckets ∷ delete_objects ∷ list_objects
    ∷ get_bucket_lifecycle ∷ put_bucket_lifecycle ∷ delete_bucket_lifecycle ∷ get_bucket_policy
    ∷ put_bucket_policy ∷ delete_bucket_policy ∷ put_object ∷ get_object ∷ delete_object
    ∷ head_object ∷ post_object ∷ copy_object ∷ put_object_tagging ∷ get_object_tagging
    ∷ delete_object_tagging ∷ create_multipart_upload ∷ upload_part ∷ complete_multipart_upload
    ∷ abort_multipart_upload ∷ list_objects_v2 ∷ []

find_value : String → List S3Operation → Option S3Operation
find_value s [] = none
find_value s (op ∷ ops) = if str_eq (value op) s then some op else find_value s ops

-- `S3Operation(s)`; `none` is its ValueError
unfoldable pub of_value : String → Option S3Operation
unfolding find_value value
of_value s = find_value s members

-- `MULTIPART_OPERATIONS` of backends/sync_executor.py
unfoldable pub is_multipart : S3Operation → Bool
is_multipart create_multipart_upload = true
is_multipart upload_part = true
is_multipart complete_multipart_upload = true
is_multipart abort_multipart_upload = true
is_multipart _ = false

-- `BUCKET_LEVEL_OPERATIONS` of kafka/manager.py
unfoldable pub is_bucket_level : S3Operation → Bool
is_bucket_level create_bucket = true
is_bucket_level delete_bucket = true
is_bucket_level put_bucket_lifecycle = true
is_bucket_level delete_bucket_lifecycle = true
is_bucket_level put_bucket_policy = true
is_bucket_level delete_bucket_policy = true
is_bucket_level _ = false
