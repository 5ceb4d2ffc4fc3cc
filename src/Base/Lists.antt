-- ===== src/Base/Lists.antt =====
-- Lists measured by native numbers, and the list functions of Python that the program uses.
use Prim.Native.Nat.{ℕ, zero, suc, ◌+◌, ◌-◌, ◌≤◌, min}
use Prim.Native.Nat.add
use mathlib.Core.Path.{◌≡◌, refl}
use mathlib.Core.Bool.{Bool, false, ◌||◌}
use mathlib.Core.List.{List, [], ◌∷◌, ◌++◌}
use native.Mathlib.Omega.{arith}
use s3mer.Base.Tests.{if◌then◌else◌}

module _ {ℓ} {A : Type ℓ} where
  abbrev pub length : List A → ℕ
  length [] = 0
  length (x ∷ xs) = suc (length xs)

  abbrev pub take : ℕ → List A → List A
  take zero xs = []
  take (suc n) [] = []
  take (suc n) (x ∷ xs) = x ∷ take n xs

  abbrev pub drop : ℕ → List A → List A
  drop zero xs = xs
  drop (suc n) [] = []
  drop (suc n) (x ∷ xs) = drop n xs

  -- `b"".join(xs)`
  abbrev pub concat : List (List A) → List A
  concat [] = []
  concat (x ∷ xs) = x ++ concat xs

  -- `[x for x in xs if p(x)]`
  abbrev pub keep_if : (A → Bool) → List A → List A
  keep_if p [] = []
  keep_if p (x ∷ xs) = let rest = keep_if p xs in if p x then x ∷ rest else rest

  -- `any(p(x) for x in xs)`
  abbrev pub any : (A → Bool) → List A → Bool
  any p [] = false
  any p (x ∷ xs) = p x || any p xs

  abbrev pub All {κ} : (A → Type κ) → List A → Type κ
  All P [] = Unit
  All P (x ∷ xs) = P x × All P xs

  pub length-append : (xs ys : List A) → length (xs ++ ys) ≡ length xs + length ys
  length-append [] ys = omega arith
  length-append (x ∷ xs) ys = omega (arith, length-append xs ys)

  pub take-append-drop : (n : ℕ) (xs : List A) → take n xs ++ drop n xs ≡ xs
  take-append-drop zero xs = refl
  take-append-drop (suc n) [] = refl
  take-append-drop (suc n) (x ∷ xs) = rw (take-append-drop n xs)

  pub length-take : (n : ℕ) (xs : List A) → length (take n xs) ≡ min n (length xs)
  length-take zero xs = omega arith
  length-take (suc n) [] = omega arith
  length-take (suc n) (x ∷ xs) = omega (arith, length-take n xs)

  pub length-drop : (n : ℕ) (xs : List A) → length (drop n xs) ≡ length xs - n
  length-drop zero xs = omega arith
  length-drop (suc n) [] = omega arith
  length-drop (suc n) (x ∷ xs) = omega (arith, length-drop n xs)

  pub drop-append : (xs ys : List A) → drop (length xs) (xs ++ ys) ≡ ys
  drop-append [] ys = refl
  drop-append (x ∷ xs) ys = drop-append xs ys

  pub take-append : (xs ys : List A) → take (length xs) (xs ++ ys) ≡ xs
  take-append [] ys = refl
  take-append (x ∷ xs) ys = rw (take-append xs ys)

  pub take-append_le : (n : ℕ) (xs ys : List A) → n ≤ length xs → take n (xs ++ ys) ≡ take n xs
  take-append_le zero xs ys h = refl
  take-append_le (suc n) [] ys h = absurd (omega arith)
  take-append_le (suc n) (x ∷ xs) ys h = rw (take-append_le n xs ys (omega arith))

  pub drop-append_le :
      (n : ℕ) (xs ys : List A) → n ≤ length xs → drop n (xs ++ ys) ≡ drop n xs ++ ys
  drop-append_le zero xs ys h = refl
  drop-append_le (suc n) [] ys h = absurd (omega arith)
  drop-append_le (suc n) (x ∷ xs) ys h = drop-append_le n xs ys (omega arith)

  pub drop-nil : (n : ℕ) → drop n [] ≡ []
  drop-nil zero = refl
  drop-nil (suc n) = refl

  pub take_ge : (n : ℕ) (xs : List A) → length xs ≤ n → take n xs ≡ xs
  take_ge zero [] h = refl
  take_ge zero (x ∷ xs) h = absurd (omega arith)
  take_ge (suc n) [] h = refl
  take_ge (suc n) (x ∷ xs) h = rw (take_ge n xs (omega arith))

  pub drop_ge : (n : ℕ) (xs : List A) → length xs ≤ n → drop n xs ≡ []
  drop_ge zero [] h = refl
  drop_ge zero (x ∷ xs) h = absurd (omega arith)
  drop_ge (suc n) [] h = refl
  drop_ge (suc n) (x ∷ xs) h = drop_ge n xs (omega arith)

  pub drop-eq-nil : (n : ℕ) (xs : List A) → drop n xs ≡ [] → length xs ≤ n
  drop-eq-nil zero [] h = omega arith
  drop-eq-nil zero (x ∷ xs) h = cc
  drop-eq-nil (suc n) [] h = omega arith
  drop-eq-nil (suc n) (x ∷ xs) h = omega (arith, drop-eq-nil n xs h)

  pub drop-drop : (m n : ℕ) (xs : List A) → drop m (drop n xs) ≡ drop (n + m) xs
  drop-drop m zero xs = rw (add.zero m) refl
  drop-drop m (suc n) [] = rw (drop-nil m, drop-nil (suc n + m)) refl
  drop-drop m (suc n) (x ∷ xs) = rw (drop-drop m n xs, add.suc n m) refl

  pub take-eq-nil : (n : ℕ) (xs : List A) → take (suc n) xs ≡ [] → xs ≡ []
  take-eq-nil n [] h = refl
  take-eq-nil n (x ∷ xs) h = cc

  -- what `take` returns is a prefix, and the rest is what its length leaves
  pub take_prefix : (n : ℕ) (xs : List A) → take n xs ++ drop (length (take n xs)) xs ≡ xs
  take_prefix zero xs = refl
  take_prefix (suc n) [] = refl
  take_prefix (suc n) (x ∷ xs) = rw (take_prefix n xs)
