-- ===== src/Streaming/Decoder/RoundTrip.antt =====
-- Decoding what a client encoded gives the bytes that it sent.
use s3mer.Base.{
  ℕ, zero, suc, ◌≤◌, ◌<◌, ◌≡◌, ◌⊎◌, inl, inr, refl, sym, subst, ap, ◌∙◌, true, false, ltb,
  Bool-cases, ltb→lt, le→leb, List, [], ◌∷◌, length, take, drop, All, take-append_le,
  drop-append_le, take_ge, arith, if◌then◌else◌,
}
use s3mer.Streaming.Bytes.{Bytes, at_most, is_empty}
use s3mer.Streaming.Encoding.{Stream, encode, decoded, IsStream}
use s3mer.Streaming.Reader
use s3mer.Streaming.Reader.{Reader}
use s3mer.Streaming.Reader.Laws.{remaining, read_at_most}
use s3mer.Streaming.Decoder.{
  Decoder, init, fill, fill_raw_buffer, go_on, with_header, handle, finish, step, loop, rounds,
  read,
}
use s3mer.Streaming.Decoder.Losses.{fill_enough, loop-round, loop-eof}
use s3mer.Streaming.Decoder.Termination.{chunk_size-read, loop_ends, loop-full}
use s3mer.Streaming.Decoder.Rounds.{
  Decodes, at_header, at_data, at_crlf, Goes, ended, onwards, step-Goes, one_byte_encode,
}
use mathlib.Core.Path.{ap₂}

-- The loop keeps what is decoded and to come.
loop-Goes : (f n : ℕ) (d : Decoder) (whole : Bytes) → Goes whole d → Goes whole (loop f n d)
loop-Goes zero n d whole g = unfold loop in g
loop-Goes (suc f) n d whole (ended e same) = rw (loop-eof (suc f) n d e) (ended e same)
loop-Goes (suc f) n d whole (onwards rest o ds same) =
    elim (Bool-cases (ltb (length d.decoded_buffer) n)) [
      | inr full ↦ rw (loop-full f n d full) (onwards rest o ds same)
      | inl short ↦
          rw (loop-round f n d (ltb→lt (length d.decoded_buffer) n short) o) (
            loop-Goes f n (step d) whole
              (subst (λ w. Goes w (step d)) same (step-Goes d rest o ds)))
    ]

-- the decoded bytes that a read takes away are no part of what is to come
taken-Decodes :
    (d : Decoder) (kept rest : Bytes)
    → Decodes d rest
    → Decodes (record d { decoded_buffer = kept }) rest
taken-Decodes d kept rest (at_header s v st raw e) = at_header s v st raw e
taken-Decodes d kept rest (at_data p s ne v st cur raw e) = at_data p s ne v st cur raw e
taken-Decodes d kept rest (at_crlf s v st raw e) = at_crlf s v st raw e

-- What a read gives out of the bytes to come, and what it leaves.
abbrev Gives : ℕ → Bytes → Bytes × Decoder → Type 0
Gives n whole r = (r.0 ≡ take n whole) × Goes (drop n whole) r.1

taken :
    (n : ℕ) (d : Decoder) (whole : Bytes)
    → Goes whole d
    → (n ≤ length d.decoded_buffer) ⊎ (d.eof ≡ true)
    → Gives n whole (take n d.decoded_buffer, record d { decoded_buffer = drop n d.decoded_buffer })
taken n d whole (ended e same) stop = (ap (take n) same, ended e (ap (drop n) same))
taken n d whole (onwards rest o ds same) (inl enough) = (
  sym (take-append_le n d.decoded_buffer rest enough) ∙ ap (take n) same,
  onwards rest o (taken-Decodes d _ rest ds)
      (sym (drop-append_le n d.decoded_buffer rest enough) ∙ ap (drop n) same),
)
taken n d whole (onwards rest o ds same) (inr e) = cc

read-Gives :
    (n : ℕ) (d : Decoder) (whole : Bytes)
    → 0 < d.chunk_size
    → Goes whole d
    → Gives n whole (read n d)
unfolding read
read-Gives n d whole p g =
    taken n (loop (suc (rounds d)) n d) whole (loop-Goes (suc (rounds d)) n d whole g)
      (loop_ends (suc (rounds d)) n d p (omega arith))

-- The first round, whose fill gets the whole encoded stream in one read.
loaded : Reader → ℕ → Decoder
loaded r size =
    let (chunk, r') = Reader.read (at_most size) r in
    record (init r size) { reader = r'; raw_buffer = chunk }

filled_once :
    (all chunk : Bytes) (d : Decoder)
    → chunk ≡ all
    → 1 ≤ length all
    → d.raw_buffer ≡ chunk
    → (if is_empty chunk then (false, record d { raw_buffer = [] }) else fill (length all) 1 d)
      ≡ (true, d)
unfolding fill
filled_once [] chunk d e h raw = absurd (omega arith)
filled_once (a ∷ all) [] d e h raw = cc
filled_once (a ∷ all) (b ∷ bs) d e h raw =
    rw (le→leb 1 (length d.raw_buffer) (omega (arith, ap length raw))) refl

fill-init :
    (r : Reader) (size : ℕ)
    → length (remaining r) ≤ size
    → 1 ≤ length (remaining r)
    → fill_raw_buffer 1 (init r size) ≡ (true, loaded r size)
unfolding fill_raw_buffer fill init loaded
fill-init r size h one =
    filled_once (remaining r) (Reader.read (at_most size) r).0 (loaded r size)
      ((read_at_most size r).0 ∙ take_ge size (remaining r) h) one refl

loaded_raw :
    (r : Reader) (size : ℕ) → length (remaining r) ≤ size → (loaded r size).raw_buffer ≡ remaining r
unfolding loaded
loaded_raw r size h = (read_at_most size r).0 ∙ take_ge size (remaining r) h

step-init :
    (r : Reader) (size : ℕ)
    → length (remaining r) ≤ size
    → 1 ≤ length (remaining r)
    → step (init r size) ≡ step (loaded r size)
unfolding step handle init loaded
step-init r size h one =
    ap (λ o. finish (go_on with_header o))
      (fill-init r size h one
        ∙ sym (fill_enough 1 (loaded r size) (omega (arith, ap length (loaded_raw r size h)))))

loaded-Goes :
    (r : Reader) (size : ℕ) (s : Stream)
    → length (remaining r) ≤ size
    → remaining r ≡ encode s
    → IsStream s
    → Goes (decoded s) (step (loaded r size))
unfolding loaded init
loaded-Goes r size s h e v =
    step-Goes (loaded r size) (decoded s) refl (at_header s v refl (loaded_raw r size h ∙ e) refl)

loop_from_init :
    (f n : ℕ) (d : Decoder) (whole : Bytes)
    → 0 < n
    → d.decoded_buffer ≡ []
    → d.eof ≡ false
    → Goes whole (step d)
    → Goes whole (loop (suc f) n d)
loop_from_init f n d whole p empty o g =
    rw (loop-round f n d (omega (arith, ap length empty)) o) (loop-Goes f n (step d) whole g)

first_read :
    (n : ℕ) (r : Reader) (size : ℕ) (s : Stream)
    → 0 < n
    → length (encode s) ≤ size
    → remaining r ≡ encode s
    → IsStream s
    → Gives n (decoded s) (read n (init r size))
unfolding read
first_read n r size s p h e v =
    let one : 1 ≤ length (remaining r) = omega (arith, ap length e, one_byte_encode s) in
    let fits : length (remaining r) ≤ size = omega (arith, ap length e) in
    let d = init r size in
    taken n (loop (suc (rounds d)) n d) (decoded s)
      (loop_from_init (rounds d) n d (decoded s) p (unfold init in refl) (unfold init in refl) (
        subst (Goes (decoded s)) (sym (step-init r size fits one)) (loaded-Goes r size s fits e v)))
      (loop_ends (suc (rounds d)) n d (unfold init in omega arith) (omega arith))

-- A sequence of reads, with what they returned.
pub reads : List ℕ → Decoder → List Bytes × Decoder
reads [] d = ([], d)
reads (n ∷ ns) d = let (bytes, d') = read n d in let (all, end) = reads ns d' in (bytes ∷ all, end)

-- the pieces that reads of these sizes cut a sequence of bytes into
abbrev pub pieces : List ℕ → Bytes → List Bytes
pieces [] bytes = []
pieces (n ∷ ns) bytes = take n bytes ∷ pieces ns (drop n bytes)

later_reads :
    (ns : List ℕ) (d : Decoder) (whole : Bytes)
    → 0 < d.chunk_size
    → Goes whole d
    → (reads ns d).0 ≡ pieces ns whole
unfolding reads
later_reads [] d whole p g = refl
later_reads (n ∷ ns) d whole p g =
    let (got, next_) = read-Gives n d whole p g in
    ap₂ ◌∷◌ got (later_reads ns (read n d).1 (drop n whole) (rw (chunk_size-read n d p) p) next_)

-- Whatever positive sizes are asked for, reads of a well-formed aws-chunked stream give out exactly
-- the bytes that the client encoded, in order, with nothing of the headers and delimiters, when the
-- decoder's chunk size is at least the length of the encoded stream.
pub reads-encode :
    (ns : List ℕ) (r : Reader) (size : ℕ) (s : Stream)
    → All (λ n. 0 < n) ns
    → length (encode s) ≤ size
    → remaining r ≡ encode s
    → IsStream s
    → (reads ns (init r size)).0 ≡ pieces ns (decoded s)
unfolding reads
reads-encode [] r size s p h e v = refl
reads-encode (n ∷ ns) r size s p h e v =
    let d = init r size in
    let (got, rest) = first_read n r size s p.0 h e v in
    let sized : 0 < d.chunk_size = unfold init in omega (arith, one_byte_encode s) in
    ap₂ ◌∷◌ got
      (later_reads ns (read n d).1 (drop n (decoded s)) (rw (chunk_size-read n d sized) sized) rest)
