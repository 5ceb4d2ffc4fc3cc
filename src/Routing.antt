-- ===== src/Routing.antt =====
-- From an HTTP request to an operation (src/s3mer/routing/classifier.py). Methods, paths and names of
-- buckets and keys are lists of code points. The query is what the standard library's `parse_qsl`
-- makes of the query string, as a dictionary.
pub mod Paths
pub mod Levels
use s3mer.Base.{
  ℕ, zero, suc, ◌+◌, ◌-◌, String, Bool, true, false, not, ◌&&◌, ◌||◌, ◌==◌, leb, Option, none, some,
  List, [], ◌∷◌, ◌++◌, map, if◌then◌else◌,
}
use s3mer.Base.Texts.{str_eq}
use s3mer.Dict
use s3mer.Dict.{Dict, contains}
use s3mer.Streaming.Bytes.{is_empty}
use s3mer.Operations.{
  S3Operation, create_bucket, delete_bucket, head_bucket, list_buckets, delete_objects,
  list_objects, get_bucket_lifecycle, put_bucket_lifecycle, delete_bucket_lifecycle,
  get_bucket_policy, put_bucket_policy, delete_bucket_policy, put_object, get_object, delete_object,
  head_object, post_object, copy_object, put_object_tagging, get_object_tagging,
  delete_object_tagging, create_multipart_upload, upload_part, complete_multipart_upload,
  abort_multipart_upload, list_objects_v2,
}
use s3mer.Errors.{value_error}
use s3mer.Exec.{Result, ok, raised}
use s3mer.Pool.{exn}

abbrev pub Text : Type 0
Text = List ℕ

pub record S3Request : Type 0 where
  pub operation : S3Operation
  pub bucket : Option Text
  pub key : Option Text

pub record RefinementRule : Type 0 where
  pub refined_op : S3Operation
  pub query_key : Option String
  pub header_key : Option String
  pub extra_query_key : Option String

-- `key is not None and key not in query`, negated
has_param : Option String → Dict String → Bool
has_param none query = true
has_param (some k) query = contains k query

has_header : Option String → Option (Dict String) → Bool
has_header none headers = true
has_header (some k) none = false
has_header (some k) (some headers) = contains k headers

-- `_RefinementRule.matches`
unfoldable pub matches : RefinementRule → Dict String → Option (Dict String) → Bool
unfolding has_param has_header
matches rule query headers =
    has_param rule.query_key query
    && (has_param rule.extra_query_key query && has_header rule.header_key headers)

-- `method.upper()`, of an ASCII token
upper : ℕ → ℕ
upper c = if leb b'a' c && leb c b'z' then c - 32 else c

text_eq : Text → Text → Bool
text_eq [] [] = true
text_eq [] (d ∷ ds) = false
text_eq (c ∷ cs) [] = false
text_eq (c ∷ cs) (d ∷ ds) = c == d && text_eq cs ds

-- `_ROUTING_TABLE`, a row for each method and a column for each depth
abbrev Row : Type 0
Row = Option S3Operation × Option S3Operation × Option S3Operation

abbrev pub routing_table : List (Text × Row)
routing_table =
    (b'G' ∷ b'E' ∷ b'T' ∷ [], (some list_buckets, some list_objects_v2, some get_object))
    ∷ (b'P' ∷ b'U' ∷ b'T' ∷ [], (none, some create_bucket, some put_object))
    ∷ (b'D' ∷ b'E' ∷ b'L' ∷ b'E' ∷ b'T' ∷ b'E' ∷ [], (none, some delete_bucket, some delete_object))
    ∷ (b'H' ∷ b'E' ∷ b'A' ∷ b'D' ∷ [], (none, some head_bucket, some head_object))
    ∷ (b'P' ∷ b'O' ∷ b'S' ∷ b'T' ∷ [], (none, some delete_objects, some post_object))
    ∷ []

-- service, bucket or object
pub data Depth : Type 0 where
  service bucket_level object_level : Depth

unfoldable pub column : Depth → Row → Option S3Operation
column service row = row.0
column bucket_level row = row.1
column object_level row = row.2

unfoldable pub route : List (Text × Row) → Text → Depth → Option S3Operation
unfolding text_eq column
route [] method depth = none
route ((m, row) ∷ rows) method depth =
    if text_eq m method then column depth row else route rows method depth

abbrev param : S3Operation → String → RefinementRule
param op k = record {
  refined_op = op;
  query_key = some k;
  header_key = none;
  extra_query_key = none;
}

-- `_REFINEMENT_TABLE`
unfoldable pub refinement_table : S3Operation → List RefinementRule
refinement_table put_object =
    param put_object_tagging "tagging"
    ∷ record {
      refined_op = upload_part;
      query_key = some "partNumber";
      header_key = none;
      extra_query_key = some "uploadId";
    }
    ∷ record {
      refined_op = copy_object;
      query_key = none;
      header_key = some "x-amz-copy-source";
      extra_query_key = none;
    }
    ∷ []
refinement_table post_object =
    param create_multipart_upload "uploads" ∷ param complete_multipart_upload "uploadId" ∷ []
refinement_table get_object = param get_object_tagging "tagging" ∷ []
refinement_table delete_object =
    param delete_object_tagging "tagging" ∷ param abort_multipart_upload "uploadId" ∷ []
refinement_table list_objects_v2 =
    param get_bucket_lifecycle "lifecycle" ∷ param get_bucket_policy "policy" ∷ []
refinement_table create_bucket =
    param put_bucket_lifecycle "lifecycle" ∷ param put_bucket_policy "policy" ∷ []
refinement_table delete_bucket =
    param delete_bucket_lifecycle "lifecycle" ∷ param delete_bucket_policy "policy" ∷ []
refinement_table op = []

-- the first rule that matches
unfoldable pub first_match :
    List RefinementRule → Dict String → Option (Dict String) → Option S3Operation
unfolding matches
first_match [] query headers = none
first_match (rule ∷ rules) query headers =
    if matches rule query headers then some rule.refined_op else first_match rules query headers

-- `query.get("list-type") != "2"`, negated
is_version_2 : Option String → Bool
is_version_2 none = false
is_version_2 (some v) = str_eq v "2"

-- what is left of an operation that no rule refines
unfoldable pub unrefined : S3Operation → Dict String → Result S3Operation
unfolding is_version_2
unrefined post_object query =
    raised (exn value_error "Cannot classify POST request without uploads or uploadId")
unrefined delete_objects query =
    if contains "delete" query
    then ok delete_objects
    else raised (exn value_error "Cannot classify POST request without 'delete' query param")
unrefined list_objects_v2 query =
    if is_version_2 (Dict.get "list-type" query) then ok list_objects_v2 else ok list_objects
unrefined op query = ok op

or_unrefined : Option S3Operation → S3Operation → Dict String → Result S3Operation
unfolding unrefined
or_unrefined none op query = unrefined op query
or_unrefined (some refined) op query = ok refined

-- `_refine_operation`
unfoldable pub refine_operation :
    S3Operation → Dict String → Option (Dict String) → Result S3Operation
unfolding or_unrefined
refine_operation op query headers =
    or_unrefined (first_match (refinement_table op) query headers) op query

-- `strip("/")`, from the left and from the right
strip_left : Text → Text
strip_left [] = []
strip_left (c ∷ cs) = let rest = strip_left cs in if c == b'/' then rest else c ∷ cs

put_back : ℕ → Text → Text
put_back c [] = if c == b'/' then [] else c ∷ []
put_back c (d ∷ ds) = c ∷ d ∷ ds

strip_right : Text → Text
unfolding put_back
strip_right [] = []
strip_right (c ∷ cs) = put_back c (strip_right cs)

-- `split("/", 1)`
split_once : Text → Text × Option Text
split_once [] = ([], none)
split_once (c ∷ cs) =
    let (first, rest) = split_once cs in if c == b'/' then ([], some cs) else (c ∷ first, rest)

of_parts : Text × Option Text → Option Text × Option Text
of_parts ([], key) = (none, none)
of_parts (c ∷ cs, key) = (some (c ∷ cs), key)

-- `_extract_parts`
unfoldable pub extract_parts : Text → Option Text × Option Text
unfolding strip_left strip_right split_once of_parts
extract_parts path = of_parts (split_once (strip_right (strip_left path)))

is_alnum : ℕ → Bool
is_alnum c = (leb b'a' c && leb c b'z') || (leb b'0' c && leb c b'9')

is_name_char : ℕ → Bool
unfolding is_alnum
is_name_char c = is_alnum c || (c == b'.' || c == b'-')

-- `[a-z0-9.-]{1,61}[a-z0-9]$` after `n` characters of the first class; `$` also stands before a
-- newline at the end
match_rest : ℕ → Text → Bool
unfolding is_alnum is_name_char
match_rest n [] = false
match_rest n (c ∷ []) = is_alnum c && (leb 1 n && leb n 61)
match_rest n (c ∷ d ∷ cs) =
    let rest = match_rest (suc n) (d ∷ cs) in
    (is_name_char c && rest) || (d == 10 && (is_empty cs && (is_alnum c && (leb 1 n && leb n 61))))

-- `_BUCKET_NAME_RE.match`
unfoldable pub is_bucket_name : Text → Bool
unfolding match_rest
is_bucket_name [] = false
is_bucket_name (c ∷ cs) = is_alnum c && match_rest 0 cs

-- `0 if not bucket else (2 if key else 1)`
unfoldable pub depth_of : Option Text → Option Text → Depth
depth_of none key = service
depth_of (some []) key = service
depth_of (some (c ∷ cs)) none = bucket_level
depth_of (some (c ∷ cs)) (some []) = bucket_level
depth_of (some (c ∷ cs)) (some (d ∷ ds)) = object_level

-- a bucket that is there has a valid name
unfoldable pub bucket_passes : Option Text → Bool
unfolding is_bucket_name
bucket_passes none = true
bucket_passes (some []) = true
bucket_passes (some (c ∷ cs)) = is_bucket_name (c ∷ cs)

with_operation : Option Text → Option Text → Result S3Operation → Result S3Request
with_operation bucket key (ok op) = ok record { operation = op; bucket = bucket; key = key }
with_operation bucket key (raised e) = raised e

classify_base :
    Option S3Operation
    → Option Text
    → Option Text
    → Dict String
    → Option (Dict String)
    → Result S3Request
unfolding with_operation
classify_base none bucket key query headers = raised (exn value_error "Cannot classify request")
classify_base (some op) bucket key query headers =
    if bucket_passes bucket
    then with_operation bucket key (refine_operation op query headers)
    else raised (exn value_error "Invalid bucket name")

-- `classify`
unfoldable pub classify : Text → Text → Dict String → Option (Dict String) → Result S3Request
unfolding upper classify_base
classify method path query headers =
    let (bucket, key) = extract_parts path in
    classify_base (route routing_table (map upper method) (depth_of bucket key)) bucket key query
      headers
