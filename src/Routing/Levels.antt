-- ===== src/Routing/Levels.antt =====
-- A classified request names what its operation works on.
use s3mer.Base.{
  subst, String, ◌≡◌, ◌≢◌, ◌⊎◌, inl, inr, refl, sym, Bool, true, false, Option, none, some, List,
  [], ◌∷◌, All, map, if◌then◌else◌,
}
use s3mer.Dict
use s3mer.Dict.{Dict, contains}
use s3mer.Errors.{Exn, value_error}
use s3mer.Pool.{exn}
use s3mer.Operations.{
  S3Operation, create_bucket, delete_bucket, head_bucket, list_buckets, delete_objects,
  list_objects, get_bucket_lifecycle, put_bucket_lifecycle, delete_bucket_lifecycle,
  get_bucket_policy, put_bucket_policy, delete_bucket_policy, put_object, get_object, delete_object,
  list_objects_v2, post_object,
}
use s3mer.Exec.{Result, ok, raised}
use s3mer.Routing.{
  Text, Row, S3Request, RefinementRule, matches, Depth, service, bucket_level, object_level, column,
  route, routing_table, refinement_table, first_match, unrefined, or_unrefined, refine_operation,
  depth_of, bucket_passes, with_operation, classify_base, classify, upper, extract_parts, text_eq,
  is_version_2,
}

-- what an operation of the S3 interface works on
unfoldable pub level : S3Operation → Depth
level list_buckets = service
level create_bucket = bucket_level
level delete_bucket = bucket_level
level head_bucket = bucket_level
level delete_objects = bucket_level
level list_objects = bucket_level
level list_objects_v2 = bucket_level
level get_bucket_lifecycle = bucket_level
level put_bucket_lifecycle = bucket_level
level delete_bucket_lifecycle = bucket_level
level get_bucket_policy = bucket_level
level put_bucket_policy = bucket_level
level delete_bucket_policy = bucket_level
level _ = object_level

rules_level : (op : S3Operation) → All (λ r. level r.refined_op ≡ level op) (refinement_table op)
unfolding refinement_table level
rules_level put_object = (refl, (refl, (refl, tt)))
rules_level post_object = (refl, (refl, tt))
rules_level get_object = (refl, tt)
rules_level delete_object = (refl, (refl, tt))
rules_level list_objects_v2 = (refl, (refl, tt))
rules_level create_bucket = (refl, (refl, tt))
rules_level delete_bucket = (refl, (refl, tt))
rules_level _ = tt

-- the operation of a result, if there is one, has this level
abbrev HasLevel : Depth → Option S3Operation → Type 0
HasLevel d none = Unit
HasLevel d (some op) = level op ≡ d

abbrev Reaches : Depth → Result S3Operation → Type 0
Reaches d (raised e) = Unit
Reaches d (ok op) = level op ≡ d

HasLevel-if :
    (d : Depth) (t : Bool) (x y : Option S3Operation)
    → HasLevel d x
    → HasLevel d y
    → HasLevel d (if t then x else y)
HasLevel-if d true x y h k = h
HasLevel-if d false x y h k = k

Reaches-if :
    (d : Depth) (t : Bool) (x y : Result S3Operation)
    → Reaches d x
    → Reaches d y
    → Reaches d (if t then x else y)
Reaches-if d true x y h k = h
Reaches-if d false x y h k = k

first_match-HasLevel :
    (d : Depth) (rules : List RefinementRule) (query : Dict String) (headers : Option (Dict String))
    → All (λ r. level r.refined_op ≡ d) rules
    → HasLevel d (first_match rules query headers)
unfolding first_match
first_match-HasLevel d [] query headers h = tt
first_match-HasLevel d (r ∷ rules) query headers h =
    HasLevel-if d (matches r query headers) (some r.refined_op) (first_match rules query headers)
      h.0 (first_match-HasLevel d rules query headers h.1)

unrefined-Reaches :
    (op : S3Operation) (query : Dict String) → Reaches (level op) (unrefined op query)
unfolding unrefined level
unrefined-Reaches post_object query = tt
unrefined-Reaches delete_objects query =
    Reaches-if bucket_level (contains "delete" query) (ok delete_objects)
      (raised (exn value_error "Cannot classify POST request without 'delete' query param")) refl tt
unrefined-Reaches list_objects_v2 query =
    Reaches-if bucket_level (is_version_2 (Dict.get "list-type" query)) (ok list_objects_v2)
      (ok list_objects) refl refl
unrefined-Reaches _ query = refl

or_unrefined-Reaches :
    (o : Option S3Operation) (op : S3Operation) (query : Dict String)
    → HasLevel (level op) o
    → Reaches (level op) (or_unrefined o op query)
unfolding or_unrefined
or_unrefined-Reaches none op query h = unrefined-Reaches op query
or_unrefined-Reaches (some r) op query h = h

refine-Reaches :
    (op : S3Operation) (query : Dict String) (headers : Option (Dict String))
    → Reaches (level op) (refine_operation op query headers)
unfolding refine_operation
refine-Reaches op query headers =
    or_unrefined-Reaches _ op query
      (first_match-HasLevel (level op) (refinement_table op) query headers (rules_level op))

Columns : Row → Type 0
Columns row = (d : Depth) → HasLevel d (column d row)

three :
    (row : Row)
    → HasLevel service row.0
    → HasLevel bucket_level row.1
    → HasLevel object_level row.2
    → Columns row
unfolding Columns column
three row a b c service = a
three row a b c bucket_level = b
three row a b c object_level = c

rows_level : All (λ row. Columns row.1) routing_table
unfolding Columns column level
rows_level = (
  three _ refl refl refl,
  (
    three _ tt refl refl,
    (three _ tt refl refl, (three _ tt refl refl, (three _ tt refl refl, tt))),
  ),
)

route-HasLevel :
    (rows : List (Text × Row)) (method : Text) (d : Depth)
    → All (λ row. Columns row.1) rows
    → HasLevel d (route rows method d)
unfolding route Columns
route-HasLevel [] method d h = tt
route-HasLevel ((m, row) ∷ rows) method d h =
    HasLevel-if d (text_eq m method) (column d row) (route rows method d) (h.0 d)
      (route-HasLevel rows method d h.1)

-- A path without a bucket names the service, one with a bucket and no key the bucket, and one
-- with both the object.
abbrev pub Named : Option Text → Option Text → Depth → Type 0
Named bucket key service = (bucket ≡ none) ⊎ (bucket ≡ some [])
Named bucket key bucket_level =
    ((b : Text) × ((bucket ≡ some b) × (b ≢ []))) × ((key ≡ none) ⊎ (key ≡ some []))
Named bucket key object_level =
    ((b : Text) × ((bucket ≡ some b) × (b ≢ []))) × ((k : Text) × ((key ≡ some k) × (k ≢ [])))

depth_of-Named : (bucket key : Option Text) → Named bucket key (depth_of bucket key)
unfolding depth_of
depth_of-Named none key = inl refl
depth_of-Named (some []) key = inr refl
depth_of-Named (some (c ∷ cs)) none = ((c ∷ cs, (refl, λ e. cc)), inl refl)
depth_of-Named (some (c ∷ cs)) (some []) = ((c ∷ cs, (refl, λ e. cc)), inr refl)
depth_of-Named (some (c ∷ cs)) (some (d ∷ ds)) =
    ((c ∷ cs, (refl, λ e. cc)), (d ∷ ds, (refl, λ e. cc)))

-- What a result says of the bucket and the key of a path.
abbrev pub Fits : Option Text → Option Text → Result S3Request → Type 0
Fits bucket key (raised e) = Unit
Fits bucket key (ok r) =
    (r.bucket ≡ bucket)
    × (r.key ≡ key)
    × (bucket_passes bucket ≡ true)
    × Named bucket key (level r.operation)

with_operation-Fits :
    (bucket key : Option Text) (r : Result S3Operation)
    → bucket_passes bucket ≡ true
    → Reaches (depth_of bucket key) r
    → Fits bucket key (with_operation bucket key r)
unfolding with_operation
with_operation-Fits bucket key (raised e) p h = tt
with_operation-Fits bucket key (ok op) p h =
    (refl, refl, p, subst (Named bucket key) (sym h) (depth_of-Named bucket key))

passes_if :
    (bucket key : Option Text) (t : Bool) (x : Result S3Request) (e : Exn)
    → bucket_passes bucket ≡ t
    → (bucket_passes bucket ≡ true → Fits bucket key x)
    → Fits bucket key (if t then x else raised e)
passes_if bucket key true x e p h = h p
passes_if bucket key false x e p h = tt

classify_base-Fits :
    (o : Option S3Operation) (bucket key : Option Text) (query : Dict String)
    → (headers : Option (Dict String)) → HasLevel (depth_of bucket key) o
    → Fits bucket key (classify_base o bucket key query headers)
unfolding classify_base
classify_base-Fits none bucket key query headers h = tt
classify_base-Fits (some op) bucket key query headers h =
    passes_if bucket key (bucket_passes bucket) _ (exn value_error "Invalid bucket name") refl (λ p.
      with_operation-Fits bucket key (refine_operation op query headers) p (
        subst (λ d. Reaches d (refine_operation op query headers)) h
          (refine-Reaches op query headers)))

-- A classified request has the bucket and the key of its path, its bucket passes the name pattern, if
-- it has one, and its operation works on what the path names: the service, a bucket or an object.
pub classify-Fits :
    (method path : Text) (query : Dict String) (headers : Option (Dict String))
    → let (bucket, key) = extract_parts path in Fits bucket key (classify method path query headers)
unfolding classify
classify-Fits method path query headers =
    let (bucket, key) = extract_parts path in
    classify_base-Fits (route routing_table (map upper method) (depth_of bucket key)) bucket key
      query headers
      (route-HasLevel routing_table (map upper method) (depth_of bucket key) rows_level)
