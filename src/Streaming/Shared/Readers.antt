-- ===== src/Streaming/Shared/Readers.antt =====
-- What the readers of one buffered body return.
use mathlib.Core.List.{append_assoc, append-nil}
use s3mer.Base.{
  ℕ, sym, ◌<◌, take_ge, length-drop, leb→le, ◌+◌, ◌-◌, ◌≤◌, ◌≡◌, refl, ◌∙◌, ap, subst, Bool, true,
  false, List, [], ◌∷◌, ◌++◌, length, take, drop, concat, min, leb, leb→lt, drop_ge, drop-drop,
  take-append-drop, take_prefix, arith,
}
use s3mer.Streaming.Bytes.{Bytes, Amount, everything, at_most}
use s3mer.Streaming.Shared.{
  AsyncBytesReader, BodyReader, in_memory, on_disk, position, read_bytes, read_at, read_file, read,
}

-- what a reader has not yet returned
unfoldable pub ahead : BodyReader → Bytes
ahead (in_memory r) = drop r.offset r.held
ahead (on_disk r) = drop (position r.file) r.content

-- A sequence of reads, with what they returned.
unfoldable pub reads : List Amount → BodyReader → List Bytes × BodyReader
reads [] r = ([], r)
reads (n ∷ ns) r =
    let (chunk, r') = read n r in let (chunks, end) = reads ns r' in (chunk ∷ chunks, end)

drop_more : (m p : ℕ) (xs : Bytes) → drop (p + m) xs ≡ drop m (drop p xs)
drop_more m p xs = rw (drop-drop m p xs) refl

split : (m p : ℕ) (xs : Bytes) → take m (drop p xs) ++ drop (p + m) xs ≡ drop p xs
split m p xs = rw (drop_more m p xs) (take-append-drop m (drop p xs))

-- from `p` to the end `q`, which is not before it
split_to : (p q : ℕ) (xs : Bytes) → p ≤ q → take (q - p) (drop p xs) ++ drop q xs ≡ drop p xs
split_to p q xs h =
    subst (λ t. take (q - p) (drop p xs) ++ drop t xs ≡ drop p xs) same (split (q - p) p xs)
  where
    same : p + (q - p) ≡ q
    same = omega arith

bytes_if :
    (n : Amount) (r : AsyncBytesReader) (finished : Bool)
    → leb (length r.held) r.offset ≡ finished
    → (read_bytes n r).0 ++ drop (read_bytes n r).1.offset (read_bytes n r).1.held
      ≡ drop r.offset r.held
unfolding read_bytes
bytes_if everything r true e = rw e refl
bytes_if everything r false e = rw (e, drop_ge (length r.held) r.held (omega arith)) (append-nil _)
bytes_if (at_most n) r true e = rw e refl
bytes_if (at_most n) r false e = rw e (
    split_to r.offset (min (r.offset + n) (length r.held)) r.held
      (omega (arith, leb→lt (length r.held) r.offset e)))

file_chunk :
    (n : Amount) (p : ℕ) (xs : Bytes)
    → read_at n p xs ++ drop (p + length (read_at n p xs)) xs ≡ drop p xs
unfolding read_at
file_chunk everything p xs =
    rw (drop_more (length (drop p xs)) p xs, drop_ge (length (drop p xs)) (drop p xs) (omega arith))
      (append-nil _)
file_chunk (at_most n) p xs =
    rw (drop_more (length (take n (drop p xs))) p xs) (take_prefix n (drop p xs))

read-ahead : (n : Amount) (r : BodyReader) → (read n r).0 ++ ahead (read n r).1 ≡ ahead r
unfolding read ahead read_file
read-ahead n (in_memory r) = bytes_if n r (leb (length r.held) r.offset) refl
read-ahead n (on_disk r) = file_chunk n (position r.file) r.content

-- what a read of this size is to return of the bytes that are ahead
abbrev pub next : Amount → Bytes → Bytes
next everything xs = xs
next (at_most n) xs = take n xs

up_to :
    (n p : ℕ) (xs : Bytes)
    → p < length xs
    → (t : Bool) → leb (p + n) (length xs) ≡ t
    → take (min (p + n) (length xs) - p) (drop p xs) ≡ take n (drop p xs)
up_to n p xs h true e = ap (λ m. take m (drop p xs)) (omega (arith, leb→le (p + n) (length xs) e))
up_to n p xs h false e =
    let short : length (drop p xs) ≤ n =
      omega (arith, length-drop p xs, leb→lt (p + n) (length xs) e) in
    take_ge (min (p + n) (length xs) - p) (drop p xs)
      (omega (arith, length-drop p xs, leb→lt (p + n) (length xs) e))
    ∙ sym (take_ge n (drop p xs) short)

take_nil : (n : ℕ) → take {A = ℕ} n [] ≡ []
take_nil n = take_ge n [] (omega arith)

bytes-next :
    (n : Amount) (r : AsyncBytesReader) (finished : Bool)
    → leb (length r.held) r.offset ≡ finished
    → (read_bytes n r).0 ≡ next n (drop r.offset r.held)
unfolding read_bytes
bytes-next everything r true e =
    rw (e, drop_ge r.offset r.held (leb→le (length r.held) r.offset e)) refl
bytes-next everything r false e = rw e refl
bytes-next (at_most n) r true e =
    rw (e, drop_ge r.offset r.held (leb→le (length r.held) r.offset e), take_nil n) refl
bytes-next (at_most n) r false e =
    rw e (up_to n r.offset r.held (leb→lt (length r.held) r.offset e) _ refl)

-- A read returns all that is ahead, or as much of it as was asked for.
pub read-next : (n : Amount) (r : BodyReader) → (read n r).0 ≡ next n (ahead r)
unfolding read ahead read_file read_at
read-next n (in_memory r) = bytes-next n r _ refl
read-next everything (on_disk r) = refl
read-next (at_most n) (on_disk r) = refl

-- Whatever sizes are asked for, a reader returns the bytes that were ahead of it in order, none twice and
-- none left out: what it has returned is followed by what is still ahead.
pub reads-ahead :
    (ns : List Amount) (r : BodyReader)
    → let (chunks, end) = reads ns r in concat chunks ++ ahead end ≡ ahead r
unfolding reads
reads-ahead [] r = refl
reads-ahead (n ∷ ns) r =
    append_assoc (read n r).0 _ _
    ∙ ap (λ t. (read n r).0 ++ t) (reads-ahead ns (read n r).1)
    ∙ read-ahead n r
