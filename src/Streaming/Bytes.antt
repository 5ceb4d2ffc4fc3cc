-- ===== src/Streaming/Bytes.antt =====
-- Bytes as lists of numbers, with the searches of Python's `bytes` that the decoder uses.
use s3mer.Base.{ℕ, Bool, true, false, List, [], ◌∷◌}

abbrev pub Bytes : Type 0
Bytes = List ℕ

-- `not xs`
abbrev pub is_empty : Bytes → Bool
is_empty [] = true
is_empty (b ∷ bs) = false

-- the size argument of `read`: -1, or a number
pub data Amount : Type 0 where
  everything : Amount
  at_most : ℕ → Amount
