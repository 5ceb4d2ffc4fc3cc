-- ===== src/Responses/Escape.antt =====
-- What an XML reader makes of an escaped text.
use Prim.Native.Char.{Char, code}
use s3mer.Base.{
  ℕ, String, Bool, true, false, ◌==◌, ◌||◌, ◌≡◌, refl, sym, ap, ◌∙◌, Option, none, some, List, [],
  ◌∷◌, ◌++◌, arith, if◌then◌else◌,
}
use mathlib.Core.List.{append_assoc}
use s3mer.Base.{Bool-cases, inl, inr, subst}
use text.Mathlib.TextEquality.{Char-path}
use s3mer.Base.Texts.{str_eq}
use s3mer.Responses.{letters, text_of, replace, escape, xml_escape}

-- the characters that stand for themselves nowhere in an escaped text
is_markup : Char → Bool
is_markup c = code c == b'<' || (code c == b'>' || (code c == b'"' || code c == b'\''))

-- the predefined entities of XML, by name
entity : String → Option Char
entity name =
    if str_eq name "amp"
    then some "&"
    else if str_eq name "lt"
    then some "<"
    else if str_eq name "gt"
    then some ">"
    else if str_eq name "quot"
    then some "\""
    else if str_eq name "apos"
    then some "'"
    else none

abbrev push : Option Char → Option (List Char) → Option (List Char)
push none rest = none
push (some c) none = none
push (some c) (some cs) = some (c ∷ cs)

-- A reader of XML text, which is in an entity's name, of which it has these characters, or not. It
-- refuses raw markup, unknown entities and a text that ends within an entity.
pub read_xml : Option (List Char) → List Char → Option (List Char)
unfolding is_markup entity
read_xml none [] = some []
read_xml (some name) [] = none
read_xml none (c ∷ cs) =
    let raw = push (some c) (read_xml none cs) in
    let named = read_xml (some []) cs in
    if is_markup c then none else if code c == b'&' then named else raw
read_xml (some name) (c ∷ cs) =
    let done = push (entity (text_of name)) (read_xml none cs) in
    let more = read_xml (some (name ++ (c ∷ []))) cs in if code c == b';' then done else more

either_append :
    (t : Bool) (new : List Char) (c : Char) (whole first second : List Char)
    → (whole ≡ first ++ second)
    → (if t then new ++ whole else c ∷ whole) ≡ (if t then new ++ first else c ∷ first) ++ second
either_append true new c whole first second e =
    ap (λ r. new ++ r) e ∙ sym (append_assoc new first second)
either_append false new c whole first second e = ap (λ r. c ∷ r) e

replace-append :
    (old : ℕ) (new cs ds : List Char)
    → replace old new (cs ++ ds) ≡ replace old new cs ++ replace old new ds
unfolding replace
replace-append old new [] ds = refl
replace-append old new (c ∷ cs) ds =
    either_append (code c == old) new c _ _ _ (replace-append old new cs ds)

escape-append : (cs ds : List Char) → escape (cs ++ ds) ≡ escape cs ++ escape ds
unfolding escape
escape-append cs ds = simp (replace-append)

replace-other :
    (old : ℕ) (new : List Char) (c : Char)
    → ((code c == old) ≡ false)
    → replace old new (c ∷ []) ≡ c ∷ []
unfolding replace
replace-other old new c e = ap (λ t. if t then new ++ [] else c ∷ []) e

-- What the reader makes of one escaped character, whatever follows.
Reads : Char → Type 0
Reads c =
    (rest : List Char)
    → read_xml none (escape (c ∷ []) ++ rest) ≡ push (some c) (read_xml none rest)

read-amp : Reads "&"
unfolding Reads escape read_xml letters replace entity
read-amp rest = refl

read-lt : Reads "<"
unfolding Reads escape read_xml letters replace entity
read-lt rest = refl

read-gt : Reads ">"
unfolding Reads escape read_xml letters replace entity
read-gt rest = refl

read-quot : Reads "\""
unfolding Reads escape read_xml letters replace entity
read-quot rest = refl

read-apos : Reads "'"
unfolding Reads escape read_xml letters replace entity
read-apos rest = refl

same_char : (c d : Char) → ((code c == code d) ≡ true) → Reads d → Reads c
same_char c d e h = subst Reads (sym (Char-path c d (ground (arith, e)))) h

escape-plain :
    (c : Char)
    → ((code c == b'&') ≡ false)
    → ((code c == b'<') ≡ false)
    → ((code c == b'>') ≡ false)
    → ((code c == b'"') ≡ false)
    → ((code c == b'\'') ≡ false)
    → escape (c ∷ []) ≡ c ∷ []
unfolding escape
escape-plain c e1 e2 e3 e4 e5 =
    let amp = replace-other b'&' (letters "&amp;") c e1 in
    let lt = replace-other b'<' (letters "&lt;") c e2 in
    let gt = replace-other b'>' (letters "&gt;") c e3 in
    let quot = replace-other b'"' (letters "&quot;") c e4 in
    let apos = replace-other b'\'' (letters "&apos;") c e5 in rw (amp, lt, gt, quot, apos) refl

plain_step :
    {A : Type 0} (markup amp : Bool) (x y z : A)
    → (markup ≡ false)
    → (amp ≡ false)
    → (if markup then x else if amp then y else z) ≡ z
plain_step true amp x y z e f = absurd cc
plain_step false true x y z e f = absurd cc
plain_step false false x y z e f = refl

no_markup :
    (c : Char)
    → ((code c == b'<') ≡ false)
    → ((code c == b'>') ≡ false)
    → ((code c == b'"') ≡ false)
    → ((code c == b'\'') ≡ false)
    → is_markup c ≡ false
unfolding is_markup
no_markup c e2 e3 e4 e5 = rw (e2, e3, e4, e5) refl

read-plain :
    (c : Char)
    → ((code c == b'&') ≡ false)
    → ((code c == b'<') ≡ false)
    → ((code c == b'>') ≡ false)
    → ((code c == b'"') ≡ false)
    → ((code c == b'\'') ≡ false)
    → Reads c
unfolding Reads read_xml is_markup
read-plain c e1 e2 e3 e4 e5 rest =
    ap (λ cs. read_xml none (cs ++ rest)) (escape-plain c e1 e2 e3 e4 e5)
    ∙ plain_step (is_markup c) (code c == b'&') _ _ _ (no_markup c e2 e3 e4 e5) e1

read-char : (c : Char) → Reads c
read-char c = elim (Bool-cases (code c == b'&')) [
  | inl e ↦ same_char c "&" e read-amp
  | inr e1 ↦ elim (Bool-cases (code c == b'<')) [
    | inl e ↦ same_char c "<" e read-lt
    | inr e2 ↦ elim (Bool-cases (code c == b'>')) [
      | inl e ↦ same_char c ">" e read-gt
      | inr e3 ↦ elim (Bool-cases (code c == b'"')) [
        | inl e ↦ same_char c "\"" e read-quot
        | inr e4 ↦ elim (Bool-cases (code c == b'\'')) [
          | inl e ↦ same_char c "'" e read-apos
          | inr e5 ↦ read-plain c e1 e2 e3 e4 e5
        ]
      ]
    ]
  ]
]

read_xml-escape : (cs : List Char) → read_xml none (escape cs) ≡ some cs
unfolding escape replace read_xml Reads
read_xml-escape [] = refl
read_xml-escape (c ∷ cs) =
    ap (read_xml none) (escape-append (c ∷ []) cs)
    ∙ read-char c (escape cs)
    ∙ ap (push (some c)) (read_xml-escape cs)

letters-text_of : (cs : List Char) → letters (text_of cs) ≡ cs
unfolding letters
letters-text_of [] = refl
letters-text_of (c ∷ cs) = ap (λ r. c ∷ r) (letters-text_of cs)

-- An XML reader, which refuses markup characters and unknown entities, accepts every escaped text
-- and reads the original text from it.
pub xml_escape-read_xml :
    (text : String) → read_xml none (letters (xml_escape text)) ≡ some (letters text)
unfolding xml_escape
xml_escape-read_xml text =
    ap (read_xml none) (letters-text_of (escape (letters text))) ∙ read_xml-escape (letters text)
