-- ===== src/Streaming/Decoder/Termination.antt =====
-- The loop of `read` ends with the bytes that were asked for, or at the end of the stream.
use s3mer.Base.{
  ℕ, zero, suc, ◌+◌, ◌-◌, ◌≤◌, ◌<◌, ◌≡◌, ◌⊎◌, inl, inr, refl, sym, ap, ◌∙◌, min, Bool, true, false,
  not, ◌&&◌, ◌==◌, ltb, Bool-cases, Option-cases, ltb→le, ltb→lt, length-take, Option, none, some,
  [], ◌∷◌, length, drop, length-append, length-drop, arith,
}
use s3mer.Base.Int.{ℤ, pos, negsuc}
use s3mer.Streaming.Bytes.{Bytes}
use s3mer.Streaming.Reader.Laws.{remaining}
use s3mer.Streaming.Decoder.{
  Decoder, DecoderState, read_header, read_data, read_crlf, fill_raw_buffer, find_crlf, start_chunk,
  parse_header, go_on, handle_read_header, take_data, handle_read_data, handle_read_crlf,
  with_header, with_data, with_crlf, handle, finish, step, loop, rank, rounds, read,
}
use s3mer.Streaming.Decoder.Progress.{Filled, fill_raw_buffer-Filled}
use s3mer.Streaming.Decoder.Losses.{loop-round, loop-eof}

ne_zero : (n : ℕ) → (n == 0) ≡ false → 0 < n
ne_zero n h = ground arith

-- A handler that succeeds brings the decoder closer to its end.
abbrev Advances : Decoder → Bool × Decoder → Type 0
Advances d r = r.0 ≡ true → rounds r.1 < rounds d

-- the bytes that are left, in the buffer and in the reader
abbrev left : Decoder → ℕ
left d = length d.raw_buffer + length (remaining d.reader)

left-Filled : (n : ℕ) (d : Decoder) (r : Bool × Decoder) → Filled n d r → left r.1 ≡ left d
left-Filled n d (ok, d') f = omega (
  arith,
  ap length f.total,
  length-append d'.raw_buffer (remaining d'.reader),
  length-append d.raw_buffer (remaining d.reader),
)

find_crlf-le : (xs : Bytes) (p : ℕ) → find_crlf xs ≡ some p → p + 2 ≤ length xs
unfolding find_crlf
find_crlf-le [] p e = cc
find_crlf-le (a ∷ []) p e = cc
find_crlf-le (a ∷ b ∷ cs) p e = elim (Option-cases (find_crlf (b ∷ cs))) [
  | inl never ↦ ground arith
  | inr (q, found) ↦ ground (arith, find_crlf-le (b ∷ cs) q found)
]

start_chunk-Advances :
    (o : Option ℤ) (d d' : Decoder)
    → d'.state ≡ read_header
    → left d' + 2 ≤ left d
    → length (remaining d'.reader) ≤ length (remaining d.reader)
    → Advances d (start_chunk o d')
unfolding start_chunk
start_chunk-Advances none d d' st l r h = cc
start_chunk-Advances (some (pos zero)) d d' st l r h = cc
start_chunk-Advances (some (pos (suc n))) d d' st l r h = omega arith
start_chunk-Advances (some (negsuc n)) d d' st l r h = omega arith

take_data-Advances :
    (z : ℤ) (d d' : Decoder)
    → d.state ≡ read_data
    → d'.state ≡ read_data
    → 1 ≤ length d'.raw_buffer
    → left d' ≡ left d
    → length (remaining d'.reader) ≤ length (remaining d.reader)
    → rounds (take_data z d') < rounds d
unfolding take_data
take_data-Advances (pos n) d d' st st' some_left l r =
    elim (Bool-cases (n - min (length d'.raw_buffer) n == 0)) [
      | inl all ↦
          rw all
            (omega (arith, ap rank st, length-drop (min (length d'.raw_buffer) n) d'.raw_buffer))
      | inr more ↦ rw more (
          omega (
            arith,
            ap rank st,
            ap rank st',
            length-drop (min (length d'.raw_buffer) n) d'.raw_buffer,
            ne_zero (n - min (length d'.raw_buffer) n) more,
          ))
    ]
take_data-Advances (negsuc n) d d' st st' some_left l r =
    omega (arith, ap rank st, length-drop (length d'.raw_buffer - suc n) d'.raw_buffer)

parse_header-Advances :
    (o : Option ℕ) (d d' : Decoder)
    → o ≡ find_crlf d'.raw_buffer
    → 0 < d'.chunk_size
    → d.state ≡ read_header
    → d'.state ≡ read_header
    → left d' ≡ left d
    → length (remaining d'.reader) ≤ length (remaining d.reader)
    → Advances d (parse_header o d')
unfolding parse_header
parse_header-Advances none d d' e p st st' l r h =
    let filled = fill_raw_buffer-Filled (length d'.raw_buffer + 128) d' p in
    omega (
      arith,
      left-Filled (length d'.raw_buffer + 128) d' _ filled,
      filled.success h,
      ap rank filled.state,
      ap rank st',
    )
parse_header-Advances (some q) d d' e p st st' l r h =
    start_chunk-Advances _ d (record d' { raw_buffer = drop (q + 2) d'.raw_buffer }) st'
      (omega (arith, find_crlf-le d'.raw_buffer q (sym e), length-drop (q + 2) d'.raw_buffer)) r h

-- After a fill of at least one byte, or two, the rest of a handler advances.
go_on-Advances :
    (n : ℕ) (d : Decoder) (handler : Decoder → Bool × Decoder) (r : Bool × Decoder)
    → Filled n d r
    → ((d' : Decoder)
        → n ≤ length d'.raw_buffer
        → left d' ≡ left d
        → length (remaining d'.reader) ≤ length (remaining d.reader)
        → d'.state ≡ d.state
        → d'.chunk_size ≡ d.chunk_size
        → Advances d (handler d'))
    → Advances d (go_on handler r)
unfolding go_on
go_on-Advances n d handler (true, d') f next h =
    next d' (f.success refl) (left-Filled n d (true, d') f)
      (omega (arith, left-Filled n d (true, d') f, f.grows)) f.state f.chunk_size h
go_on-Advances n d handler (false, d') f next h = cc

handle-Advances :
    (s : DecoderState) (d : Decoder) → d.state ≡ s → 0 < d.chunk_size → Advances d (handle s d)
unfolding handle handle_read_header handle_read_data handle_read_crlf
handle-Advances read_header d st p =
    go_on-Advances 1 d with_header (fill_raw_buffer 1 d) (fill_raw_buffer-Filled 1 d p)
      λ d' some_left l r same size.
        parse_header-Advances (find_crlf d'.raw_buffer) d d' refl (rw size p) st (same ∙ st) l r
handle-Advances read_data d st p =
    go_on-Advances 1 d with_data (fill_raw_buffer 1 d) (fill_raw_buffer-Filled 1 d p)
      λ d' some_left l r same size h.
        take_data-Advances d'.current_chunk_remaining d d' st (same ∙ st) some_left l r
handle-Advances read_crlf d st p =
    go_on-Advances 2 d with_crlf (fill_raw_buffer 2 d) (fill_raw_buffer-Filled 2 d p)
      λ d' some_left l r same size h. omega (arith, length-drop 2 d'.raw_buffer)

finish-Advances :
    (d : Decoder) (r : Bool × Decoder)
    → Advances d r
    → (finish r).eof ≡ false
    → rounds (finish r) < rounds d
unfolding finish
finish-Advances d (true, d') adv e = adv refl
finish-Advances d (false, d') adv e = cc

-- The chunk size stays.
abbrev SameSize : Decoder → Bool × Decoder → Type 0
SameSize d r = r.1.chunk_size ≡ d.chunk_size

parse_header-SameSize :
    (o : Option ℕ) (d : Decoder) → 0 < d.chunk_size → SameSize d (parse_header o d)
unfolding parse_header start_chunk
parse_header-SameSize none d p = (fill_raw_buffer-Filled (length d.raw_buffer + 128) d p).chunk_size
parse_header-SameSize (some q) d p = ground arith

take_data-SameSize : (z : ℤ) (d : Decoder) → (take_data z d).chunk_size ≡ d.chunk_size
unfolding take_data
take_data-SameSize (pos n) d = refl
take_data-SameSize (negsuc n) d = refl

go_on-SameSize :
    (n : ℕ) (d : Decoder) (handler : Decoder → Bool × Decoder) (r : Bool × Decoder)
    → Filled n d r
    → ((d' : Decoder) → d'.chunk_size ≡ d.chunk_size → SameSize d (handler d'))
    → SameSize d (go_on handler r)
unfolding go_on
go_on-SameSize n d handler (true, d') f next = next d' f.chunk_size
go_on-SameSize n d handler (false, d') f next = f.chunk_size

handle-SameSize : (s : DecoderState) (d : Decoder) → 0 < d.chunk_size → SameSize d (handle s d)
unfolding handle handle_read_header handle_read_data handle_read_crlf
handle-SameSize read_header d p =
    go_on-SameSize 1 d with_header (fill_raw_buffer 1 d) (fill_raw_buffer-Filled 1 d p)
      λ d' same. parse_header-SameSize (find_crlf d'.raw_buffer) d' (rw same p) ∙ same
handle-SameSize read_data d p =
    go_on-SameSize 1 d with_data (fill_raw_buffer 1 d) (fill_raw_buffer-Filled 1 d p)
      λ d' same. take_data-SameSize d'.current_chunk_remaining d' ∙ same
handle-SameSize read_crlf d p =
    go_on-SameSize 2 d with_crlf (fill_raw_buffer 2 d) (fill_raw_buffer-Filled 2 d p)
      λ d' same. same

finish-SameSize :
    (d : Decoder) (r : Bool × Decoder) → SameSize d r → (finish r).chunk_size ≡ d.chunk_size
unfolding finish
finish-SameSize d (true, d') h = h
finish-SameSize d (false, d') h = h

pub chunk_size-step : (d : Decoder) → 0 < d.chunk_size → (step d).chunk_size ≡ d.chunk_size
unfolding step
chunk_size-step d p = finish-SameSize d (handle d.state d) (handle-SameSize d.state d p)

pub rounds-step :
    (d : Decoder) → 0 < d.chunk_size → (step d).eof ≡ false → rounds (step d) < rounds d
unfolding step
rounds-step d p e = finish-Advances d (handle d.state d) (handle-Advances d.state d refl p) e

chunk_size-loop :
    (f n : ℕ) (d : Decoder) → 0 < d.chunk_size → (loop f n d).chunk_size ≡ d.chunk_size
unfolding loop
chunk_size-loop zero n d p = refl
chunk_size-loop (suc f) n d p = elim (Bool-cases (ltb (length d.decoded_buffer) n && not d.eof)) [
  | inl more ↦
      rw more (chunk_size-loop f n (step d) (rw (chunk_size-step d p) p) ∙ chunk_size-step d p)
  | inr stop ↦ rw stop refl
]

pub chunk_size-read :
    (n : ℕ) (d : Decoder) → 0 < d.chunk_size → (read n d).1.chunk_size ≡ d.chunk_size
unfolding read
chunk_size-read n d p = chunk_size-loop (suc (rounds d)) n d p

pub loop-full :
    (f n : ℕ) (d : Decoder) → ltb (length d.decoded_buffer) n ≡ false → loop (suc f) n d ≡ d
unfolding loop
loop-full f n d h = ground arith

pub loop_ends :
    (f n : ℕ) (d : Decoder)
    → 0 < d.chunk_size
    → rounds d < f
    → (n ≤ length (loop f n d).decoded_buffer) ⊎ ((loop f n d).eof ≡ true)
loop_ends zero n d p h = absurd (omega arith)
loop_ends (suc f) n d p h = elim (Bool-cases (ltb (length d.decoded_buffer) n)) [
  | inr full ↦ rw (loop-full f n d full) (inl (ltb→le (length d.decoded_buffer) n full))
  | inl short ↦ elim (Bool-cases d.eof) [
    | inl ended ↦ rw (loop-eof (suc f) n d ended) (inr ended)
    | inr open_ ↦
        rw (loop-round f n d (ltb→lt (length d.decoded_buffer) n short) open_)
          (elim (Bool-cases (step d).eof) [
            | inl ended ↦ rw (loop-eof f n (step d) ended) (inr ended)
            | inr on ↦
                loop_ends f n (step d) (rw (chunk_size-step d p) p)
                  (omega (arith, rounds-step d p on))
          ])
  ]
]

-- With a positive chunk size the loop of every read ends by its own test: the read returns as many
-- bytes as were asked for, or the decoder has met the end of its stream.
pub read_ends :
    (n : ℕ) (d : Decoder) → 0 < d.chunk_size → (length (read n d).0 ≡ n) ⊎ ((read n d).1.eof ≡ true)
unfolding read
read_ends n d p = elim (loop_ends (suc (rounds d)) n d p (omega arith)) [
  | inl enough ↦ inl (omega (arith, length-take n (loop (suc (rounds d)) n d).decoded_buffer))
  | inr ended ↦ inr ended
]
