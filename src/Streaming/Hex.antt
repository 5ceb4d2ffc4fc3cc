-- ===== src/Streaming/Hex.antt =====
-- `int(s, 16)` on bytes, which reads the size of a chunk; `none` is its ValueError.
use s3mer.Base.{
  ℕ, zero, suc, ◌+◌, ◌-◌, ◌*◌, Bool, true, false, ◌&&◌, ◌||◌, ◌==◌, leb, ◌≡◌, refl, Option, none,
  some, [], ◌∷◌, if◌then◌else◌,
}
use s3mer.Base.Int.{ℤ, pos, negsuc}
use s3mer.Streaming.Bytes.{Bytes}

is_space : ℕ → Bool
is_space c = c == 32 || (leb 9 c && leb c 13)

skip_spaces : Bytes → Bytes
unfolding is_space
skip_spaces [] = []
skip_spaces (c ∷ cs) = let rest = skip_spaces cs in if is_space c then rest else c ∷ cs

digit_of : ℕ → Option ℕ
digit_of c =
    if leb b'0' c && leb c b'9'
    then some (c - b'0')
    else if leb b'a' c && leb c b'f'
    then some (c - b'a' + 10)
    else if leb b'A' c && leb c b'F'
    then some (c - b'A' + 10)
    else none

-- Digits with single underscores between them; `gap` says that the last character was one.
digits : ℕ → Bool → Bytes → Option (ℕ × Bytes)
unfolding digit_of
digits acc gap [] = if gap then none else some (acc, [])
digits acc gap (c ∷ cs) = elim (digit_of c) [
  | some d ↦ digits (acc * 16 + d) false cs
  | none ↦ elim (c == b'_') [
    | true ↦ elim gap [ true ↦ none | false ↦ digits acc true cs ]
    | false ↦ if gap then none else some (acc, c ∷ cs)
  ]
]

-- a number begins with a digit
number : Bytes → Option (ℕ × Bytes)
unfolding digits
number [] = none
number (c ∷ cs) = elim (digit_of c) [ some d ↦ digits d false cs | none ↦ none ]

skip_underscore : Bytes → Bytes
skip_underscore [] = []
skip_underscore (c ∷ cs) = if c == b'_' then cs else c ∷ cs

-- the optional prefix `0x` or `0X`
skip_prefix : Bytes → Bytes
unfolding skip_underscore
skip_prefix (z ∷ x ∷ cs) =
    if z == b'0' && (x == b'x' || x == b'X') then skip_underscore cs else z ∷ x ∷ cs
skip_prefix cs = cs

abbrev to_end : (ℕ → ℤ) → Option (ℕ × Bytes) → Option ℤ
to_end sign none = none
to_end sign (some (n, rest)) = elim (skip_spaces rest) [ [] ↦ some (sign n) | _ ↦ none ]

minus : ℕ → ℤ
minus zero = pos zero
minus (suc n) = negsuc n

signed : Bytes → Option ℤ
unfolding skip_spaces number skip_prefix minus
signed [] = none
signed (c ∷ cs) =
    if c == b'-'
    then to_end minus (number (skip_prefix cs))
    else if c == b'+'
    then to_end pos (number (skip_prefix cs))
    else to_end pos (number (skip_prefix (c ∷ cs)))

unfoldable pub int_16 : Bytes → Option ℤ
unfolding signed
int_16 cs = signed (skip_spaces cs)

-- " +0x1_0 " is 16, "-5" is -5, and "1__0", "0x" and "" are errors.
int_16_tests :
    (int_16 (32 ∷ b'+' ∷ b'0' ∷ b'x' ∷ b'1' ∷ b'_' ∷ b'0' ∷ 32 ∷ []) ≡ some (pos 16))
    × (int_16 (b'-' ∷ b'5' ∷ []) ≡ some (negsuc 4))
    × (int_16 (b'1' ∷ b'_' ∷ b'_' ∷ b'0' ∷ []) ≡ none)
    × (int_16 (b'0' ∷ b'x' ∷ []) ≡ none)
    × (int_16 [] ≡ none)
unfolding int_16
int_16_tests = (refl, refl, refl, refl, refl)
