-- ===== src/Value.antt =====
-- Values of the dynamic dictionaries that the program passes to and gets from the S3 client library.
use s3mer.Base.{ℕ, String, Bool, List, [], ◌∷◌}
use s3mer.Dict.{Dict}

mutual
  pub data Value : Type 0 where
    -- `None`
    null : Value
    str : String → Value
    int : ℕ → Value
    bool : Bool → Value
    bytes : List ℕ → Value
    -- an object that is no plain value, such as a body stream, by its identity
    object : ℕ → Value
    list : Values → Value
    dict : Fields → Value

  pub data Values : Type 0 where
    nil : Values
    cons : Value → Values → Values

  pub data Fields : Type 0 where
    end : Fields
    field : String → Value → Fields → Fields

-- keyword arguments of a call, and response dictionaries
abbrev pub Params : Type 0
Params = Dict Value

unfoldable pub items : Values → List Value
items nil = []
items (cons v vs) = v ∷ items vs

unfoldable pub of_items : List Value → Values
of_items [] = nil
of_items (v ∷ vs) = cons v (of_items vs)

unfoldable pub entries : Fields → Params
entries end = []
entries (field k v fs) = (k, v) ∷ entries fs

unfoldable pub of_entries : Params → Fields
of_entries [] = end
of_entries ((k, v) ∷ d) = field k v (of_entries d)
