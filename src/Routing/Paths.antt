-- ===== src/Routing/Paths.antt =====
-- The bucket and the key of a path.
use s3mer.Base.{ℕ, zero, suc, ◌≡◌, refl, ◌∙◌, ap, false, ◌==◌, some, [], ◌∷◌, ◌++◌, All}
use mathlib.Core.List.{append_assoc}
use s3mer.Routing.{Text, extract_parts, strip_left, strip_right, put_back, split_once, of_parts}

abbrev pub IsNotSlash : ℕ → Type 0
IsNotSlash c = (c == b'/') ≡ false

abbrev pub slashes : ℕ → Text
slashes zero = []
slashes (suc n) = b'/' ∷ slashes n

put_back_append : (x : ℕ) (xs : Text) (c : ℕ) → put_back x (xs ++ (c ∷ [])) ≡ x ∷ (xs ++ (c ∷ []))
unfolding put_back
put_back_append x [] c = refl
put_back_append x (y ∷ ys) c = refl

strip_right-slashes : (n : ℕ) → strip_right (slashes n) ≡ []
unfolding strip_right put_back
strip_right-slashes zero = refl
strip_right-slashes (suc n) = rw (strip_right-slashes n) refl

strip_right-append :
    (xs : Text) (c n : ℕ) → IsNotSlash c → strip_right (xs ++ (c ∷ slashes n)) ≡ xs ++ (c ∷ [])
unfolding strip_right
strip_right-append [] c n h = unfold put_back in rw (strip_right-slashes n, h) refl
strip_right-append (x ∷ xs) c n h = rw (strip_right-append xs c n h) (put_back_append x xs c)

split_once-append :
    (bucket key : Text)
    → All IsNotSlash bucket
    → split_once (bucket ++ (b'/' ∷ key)) ≡ (bucket, some key)
unfolding split_once
split_once-append [] key h = refl
split_once-append (c ∷ cs) key h = rw (split_once-append cs key h.1, h.0) refl

-- A path of a bucket and a key gives that bucket and that key, if the bucket has no slash in it
-- and the key does not end in one; any number of slashes after the key is dropped, so that a key which
-- ends in a slash cannot be addressed.
pub extract_parts-key :
    (b : ℕ) (bs ks : Text) (c n : ℕ)
    → All IsNotSlash (b ∷ bs)
    → IsNotSlash c
    → extract_parts (b'/' ∷ ((b ∷ bs) ++ (b'/' ∷ (ks ++ (c ∷ slashes n)))))
      ≡ (some (b ∷ bs), some (ks ++ (c ∷ [])))
unfolding extract_parts
extract_parts-key b bs ks c n h k =
    let text : Text = (b ∷ bs) ++ (b'/' ∷ ks) in
    let left : strip_left (b'/' ∷ ((b ∷ bs) ++ (b'/' ∷ (ks ++ (c ∷ slashes n)))))
        ≡ text ++ (c ∷ slashes n) =
      unfold strip_left in rw (h.0, append_assoc) refl in
    let right : strip_right (text ++ (c ∷ slashes n)) ≡ (b ∷ bs) ++ (b'/' ∷ (ks ++ (c ∷ []))) =
      strip_right-append text c n k ∙ append_assoc (b ∷ bs) _ _ in
    ap (λ t. of_parts (split_once (strip_right t))) left
    ∙ ap (λ t. of_parts (split_once t)) right
    ∙ ap of_parts (split_once-append (b ∷ bs) (ks ++ (c ∷ [])) h)
    ∙ unfold of_parts in refl
