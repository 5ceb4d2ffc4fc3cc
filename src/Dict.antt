-- ===== src/Dict.antt =====
-- Python's `dict` with string keys, in insertion order, as an association list.
use s3mer.Base.{
  String, ◌≡◌, Bool, true, false, Option, none, some, List, [], ◌∷◌, arith, if◌then◌else◌,
}
use s3mer.Base.Texts.{str_eq, eq_iff, eq_refl}

abbrev pub Dict {ℓ} : Type ℓ → Type ℓ
Dict V = List (String × V)

module _ {ℓ} {V : Type ℓ} where
  -- `d.get(k)`
  unfoldable pub get : String → Dict V → Option V
  get k [] = none
  get k ((j, v) ∷ d) = if str_eq j k then some v else get k d

  -- `k in d`
  abbrev pub is_some : Option V → Bool
  is_some none = false
  is_some (some v) = true

  abbrev pub contains : String → Dict V → Bool
  contains k d = is_some (get k d)

  -- `d.get(k, v)`
  abbrev pub or_else : Option V → V → V
  or_else none v = v
  or_else (some w) v = w

  -- `d[k] = v`: an old key keeps its place.
  unfoldable pub put : String → V → Dict V → Dict V
  put k v [] = (k, v) ∷ []
  put k v ((j, w) ∷ d) = if str_eq j k then (j, v) ∷ d else (j, w) ∷ put k v d

  -- `del d[k]`, `d.pop(k, None)`
  unfoldable pub remove : String → Dict V → Dict V
  remove k [] = []
  remove k ((j, v) ∷ d) = let rest = remove k d in if str_eq j k then rest else (j, v) ∷ rest

  -- `list(d.keys())`, `list(d.values())`
  unfoldable pub keys : Dict V → List String
  keys [] = []
  keys ((k, v) ∷ d) = k ∷ keys d

  unfoldable pub values : Dict V → List V
  values [] = []
  values ((k, v) ∷ d) = v ∷ values d

  pub get-put :
      (k j : String) (v : V) (d : Dict V)
      → get j (put k v d) ≡ (if str_eq k j then some v else get j d)
  unfolding get put
  get-put k j v [] = ground arith
  get-put k j v ((i, w) ∷ d) = ground (arith, eq_iff k j, eq_iff i k, eq_iff i j, get-put k j v d)

  pub get-put_self : (k : String) (v : V) (d : Dict V) → get k (put k v d) ≡ some v
  get-put_self k v d = simp (get-put, eq_refl)

  pub get-remove :
      (k j : String) (d : Dict V) → get j (remove k d) ≡ (if str_eq k j then none else get j d)
  unfolding get remove
  get-remove k j [] = ground arith
  get-remove k j ((i, w) ∷ d) = ground (arith, eq_iff k j, eq_iff i k, eq_iff i j, get-remove k j d)

pub ruleset dict_laws = (get-put, get-remove)
