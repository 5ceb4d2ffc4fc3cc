-- ===== src/Examples/Routes.antt =====
-- A request for the object "k" of the bucket "abc".
use s3mer.Base.{◌≡◌, refl, none, some, [], ◌∷◌, ◌++◌}
use s3mer.Routing.{Text, classify, extract_parts}
use s3mer.Routing.Paths.{slashes, extract_parts-key}
use s3mer.Routing.Levels.{Fits, classify-Fits}

abbrev path : Text
path = b'/' ∷ b'a' ∷ b'b' ∷ b'c' ∷ b'/' ∷ b'k' ∷ []

classify-Fits_example :
    Fits
      (extract_parts path).0
      (extract_parts path).1
      (classify (b'p' ∷ b'u' ∷ b't' ∷ []) path (("tagging", "") ∷ []) none)
classify-Fits_example = classify-Fits (b'p' ∷ b'u' ∷ b't' ∷ []) path (("tagging", "") ∷ []) none

-- the path "/abc/x/k//"
extract_parts-key_example :
    extract_parts
      (b'/' ∷ ((b'a' ∷ b'b' ∷ b'c' ∷ []) ++ (b'/' ∷ ((b'x' ∷ b'/' ∷ []) ++ (b'k' ∷ slashes 2)))))
    ≡ (some (b'a' ∷ b'b' ∷ b'c' ∷ []), some ((b'x' ∷ b'/' ∷ []) ++ (b'k' ∷ [])))
extract_parts-key_example =
    extract_parts-key b'a' (b'b' ∷ b'c' ∷ []) (b'x' ∷ b'/' ∷ []) b'k' 2 (refl, (refl, (refl, tt)))
      refl
