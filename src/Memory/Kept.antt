-- ===== src/Memory/Kept.antt =====
-- One object in the store of the backend in memory, and what changes of the store make of it.
-- The objects that the backend in memory keeps: what any calls leave of one object, and that GetObject
-- answers it.
use s3mer.Base.{
  String, Bool, true, false, ◌&&◌, ◌≡◌, refl, ap, ◌∙◌, Option, none, some, [], arith, if◌then◌else◌,
}
use s3mer.Base.{Bool-cases, inl, inr}
use s3mer.Base.Texts.{str_eq, eq_iff}
use s3mer.Dict
use s3mer.Dict.{Dict, get-put, get-remove, get-put_self}
use s3mer.Value.{Params}
use s3mer.Memory.Backend.{Store, buckets_of, objects_of, setdefault, bucket_objects, with_objects}

-- the object with this key in a bucket of a backend
unfoldable pub kept : String → String → String → Store → Option Params
kept name bucket key store = Dict.get key (objects_of name bucket store)

pub kept-with_objects :
    (name bucket key n b : String) (objects : Dict Params) (store : Store)
    → kept name bucket key (with_objects n b objects store) ≡ (
        if str_eq n name && str_eq b bucket
        then Dict.get key objects
        else kept name bucket key store)
unfolding kept with_objects
kept-with_objects name bucket key n b objects store = ground (
  arith,
  get-put n name (Dict.put b objects (buckets_of n store)) store,
  get-put b bucket objects (buckets_of n store),
  eq_iff n name,
  eq_iff b bucket,
)

new_default :
    {V : Type 0} (t : Bool) (v : V) (o p : Option V)
    → (t ≡ true → o ≡ p)
    → (Dict.is_some o ≡ false)
    → Dict.or_else (if t then some v else p) v ≡ Dict.or_else p v
new_default true v none p h e = ap (λ q. Dict.or_else q v) (h refl)
new_default true v (some w) p h e = absurd cc
new_default false v o p h e = refl

default-setdefault :
    {V : Type 0} (j k : String) (v : V) (d : Dict V)
    → Dict.or_else (Dict.get k (setdefault j v d)) v ≡ Dict.or_else (Dict.get k d) v
unfolding setdefault
default-setdefault j k v d = elim (Bool-cases (Dict.contains j d)) [
  | inl has ↦ ap (λ t. Dict.or_else (Dict.get k (if t then d else Dict.put j v d)) v) has
  | inr lacks ↦
      ap (λ t. Dict.or_else (Dict.get k (if t then d else Dict.put j v d)) v) lacks
      ∙ ap (λ o. Dict.or_else o v) (get-put j k v d)
      ∙ new_default (str_eq j k) v (Dict.get j d) (Dict.get k d)
          (λ same. ap (λ i. Dict.get i d) ((eq_iff j k).0 same)) lacks
]

by_name :
    (t : Bool) (buckets : Dict (Dict Params)) (bucket : String) (o : Option (Dict (Dict Params)))
    → (t ≡ true
        → Dict.or_else (Dict.get bucket buckets) []
          ≡ Dict.or_else (Dict.get bucket (Dict.or_else o [])) [])
    → Dict.or_else (Dict.get bucket (Dict.or_else (if t then some buckets else o) [])) []
      ≡ Dict.or_else (Dict.get bucket (Dict.or_else o [])) []
by_name true buckets bucket o h = h refl
by_name false buckets bucket o h = refl

pub objects-bucket_objects :
    (name bucket n b : String) (store : Store)
    → objects_of name bucket (bucket_objects n b store) ≡ objects_of name bucket store
unfolding bucket_objects
objects-bucket_objects name bucket n b store =
    let store' = setdefault n [] store in
    let buckets = setdefault b [] (buckets_of n store') in
    ap (λ o. Dict.or_else (Dict.get bucket (Dict.or_else o [])) []) (get-put n name buckets store')
    ∙ by_name (str_eq n name) buckets bucket (Dict.get name store') (λ same.
      default-setdefault b bucket [] (buckets_of n store')
      ∙ ap (λ m. objects_of m bucket store') ((eq_iff n name).0 same))
    ∙ ap (λ d. Dict.or_else (Dict.get bucket d) []) (default-setdefault n name [] store)

pub kept-bucket_objects :
    (name bucket key n b : String) (store : Store)
    → kept name bucket key (bucket_objects n b store) ≡ kept name bucket key store
unfolding kept
kept-bucket_objects name bucket key n b store =
    ap (Dict.get key) (objects-bucket_objects name bucket n b store)

is_some-false : {A : Type 0} (o : Option A) → (Dict.is_some o ≡ false) → o ≡ none
is_some-false none e = refl
is_some-false (some a) e = absurd cc

module _ (name bucket key : String) where
  pub removed_bucket :
      (n b : String) (store : Store)
      → (Dict.get b (buckets_of n store) ≡ some [])
      → kept name bucket key (Dict.put n (Dict.remove b (buckets_of n store)) store)
        ≡ kept name bucket key store
  unfolding kept Dict.get
  removed_bucket n b store empty = ground (
    arith,
    get-put n name (Dict.remove b (buckets_of n store)) store,
    get-remove b bucket (buckets_of n store),
    eq_iff n name,
    eq_iff b bucket,
    empty,
  )

  merged :
      (n b k : String) (obj : Params) (store : Store) (o : Option Params)
      → (kept name bucket key store ≡ o)
      → (if str_eq n name && str_eq b bucket
          then Dict.get key (Dict.put k obj (objects_of n b store))
          else kept name bucket key store)
        ≡ (if str_eq n name && (str_eq b bucket && str_eq k key) then some obj else o)
  unfolding kept
  merged n b k obj store o e =
      ground (arith, get-put k key obj (objects_of n b store), eq_iff n name, eq_iff b bucket, e)

  pub put_in :
      (n b k : String) (obj : Params) (store : Store)
      → kept name bucket key (
          with_objects n b
            (Dict.put k obj (objects_of n b (bucket_objects n b store)))
            (bucket_objects n b store))
        ≡ (if str_eq n name && (str_eq b bucket && str_eq k key)
            then some obj
            else kept name bucket key store)
  put_in n b k obj store =
      let store' = bucket_objects n b store in
      kept-with_objects name bucket key n b (Dict.put k obj (objects_of n b store')) store'
      ∙ merged n b k obj store' (kept name bucket key store)
          (kept-bucket_objects name bucket key n b store)

  pub removed :
      (n b k : String) (store : Store) (o : Option Params)
      → (kept name bucket key store ≡ o)
      → kept name bucket key (with_objects n b (Dict.remove k (objects_of n b store)) store)
        ≡ (if str_eq n name && (str_eq b bucket && str_eq k key) then none else o)
  unfolding kept
  removed n b k store o e =
      kept-with_objects name bucket key n b (Dict.remove k (objects_of n b store)) store
      ∙ ground (arith, get-remove k key (objects_of n b store), eq_iff n name, eq_iff b bucket, e)

  pub absent :
      (n b k : String) (store : Store) (o : Option Params)
      → (kept name bucket key store ≡ o)
      → (Dict.contains k (objects_of n b store) ≡ false)
      → o ≡ (if str_eq n name && (str_eq b bucket && str_eq k key) then none else o)
  unfolding kept
  absent n b k store o e lacks = ground (
    arith,
    eq_iff n name,
    eq_iff b bucket,
    eq_iff k key,
    e,
    is_some-false (Dict.get k (objects_of n b store)) lacks,
  )
