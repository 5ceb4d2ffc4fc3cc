-- ===== src/Streaming/Decoder/Losses.antt =====
-- A header that is split between two reads near the end of the stream loses what follows it.
use s3mer.Base.{
  ℕ, zero, suc, ◌+◌, ◌≤◌, ◌<◌, ◌≡◌, ◌≢◌, refl, sym, ap, ◌∙◌, Bool, true, false, le→leb, none, [],
  ◌∷◌, ◌++◌, length, take_ge, drop_ge, length-append, arith,
}
use mathlib.Core.List.{append-nil}
use s3mer.Streaming.Reader.Laws.{remaining}
use s3mer.Streaming.Bytes.{Bytes}
use s3mer.Streaming.Decoder.{
  Decoder, read_header, fill_raw_buffer, go_on, finish, find_crlf, parse_header, with_header,
  handle_read_header, handle, step, loop, rounds, read,
}
use s3mer.Streaming.Decoder.Progress.{Filled, fill_raw_buffer-Filled}

pub fill_enough : (n : ℕ) (d : Decoder) → n ≤ length d.raw_buffer → fill_raw_buffer n d ≡ (true, d)
unfolding fill_raw_buffer
fill_enough n d h = rw (le→leb n (length d.raw_buffer) h) refl

pub loop-eof : (f n : ℕ) (d : Decoder) → d.eof ≡ true → loop f n d ≡ d
unfolding loop
loop-eof zero n d e = refl
loop-eof (suc f) n d e = ground arith

pub loop-round :
    (f n : ℕ) (d : Decoder)
    → length d.decoded_buffer < n
    → d.eof ≡ false
    → loop (suc f) n d ≡ loop f n (step d)
unfolding loop
loop-round f n d h e = ground arith

loop-last :
    (f n : ℕ) (d : Decoder)
    → length d.decoded_buffer < n
    → d.eof ≡ false
    → (step d).eof ≡ true
    → loop (suc f) n d ≡ step d
loop-last f n d h e ended = loop-round f n d h e ∙ loop-eof f n (step d) ended

-- what a round leaves that gives up
abbrev GivesUp : Decoder → Decoder → Type 0
GivesUp d d' =
    (d'.eof ≡ true)
    × (d'.decoded_buffer ≡ d.decoded_buffer)
    × (d'.raw_buffer ≡ d.raw_buffer ++ remaining d.reader)

nonempty : (xs : Bytes) → xs ≢ [] → 1 ≤ length xs
nonempty [] ne = absurd (ne refl)
nonempty (x ∷ xs) ne = omega arith

unfilled :
    (n : ℕ) (d : Decoder) (r : Bool × Decoder)
    → Filled n d r
    → length d.raw_buffer + length (remaining d.reader) < n
    → GivesUp d (finish r)
unfolding finish
unfilled n d (true, d') f h = absurd (
    omega (
      arith,
      f.success refl,
      ap length f.total,
      length-append d'.raw_buffer (remaining d'.reader),
      length-append d.raw_buffer (remaining d.reader),
    ))
unfilled n d (false, d') f h = (
  refl,
  f.decoded,
  sym (append-nil d'.raw_buffer) ∙ ap (λ t. d'.raw_buffer ++ t) (sym (f.failure refl).1) ∙ f.total,
)

split_header :
    (d : Decoder)
    → 0 < d.chunk_size
    → d.state ≡ read_header
    → d.raw_buffer ≢ []
    → find_crlf d.raw_buffer ≡ none
    → length (remaining d.reader) < 128
    → GivesUp d (step d)
unfolding step handle handle_read_header with_header go_on parse_header
split_header d p st ne no_end few =
    let asked : handle d.state d ≡ fill_raw_buffer (length d.raw_buffer + 128) d =
      ap (λ s. handle s d) st
      ∙ ap (go_on with_header) (fill_enough 1 d (nonempty d.raw_buffer ne))
      ∙ ap (λ o. parse_header o d) no_end in
    rw asked (
      unfilled (length d.raw_buffer + 128) d (fill_raw_buffer (length d.raw_buffer + 128) d)
        (fill_raw_buffer-Filled (length d.raw_buffer + 128) d p) (omega arith))

-- Where the raw buffer holds the beginning of a chunk header and no end of line, and fewer than
-- 128 bytes are still to come, a read of more bytes than were decoded before returns only these, and
-- the decoder is then at its end, whatever the bytes to come are: they are taken into the raw buffer and
-- dropped.
pub read-split_header :
    (n : ℕ) (d : Decoder)
    → 0 < d.chunk_size
    → d.state ≡ read_header
    → d.eof ≡ false
    → d.raw_buffer ≢ []
    → find_crlf d.raw_buffer ≡ none
    → length (remaining d.reader) < 128
    → length d.decoded_buffer < n
    → let (bytes, d') = read n d in
      (bytes ≡ d.decoded_buffer)
      × (d'.eof ≡ true)
      × (d'.decoded_buffer ≡ [])
      × (d'.raw_buffer ≡ d.raw_buffer ++ remaining d.reader)
unfolding read
read-split_header n d p st open_ ne no_end few short =
    let (ended, same, raw) = split_header d p st ne no_end few in
    rw (loop-last (rounds d) n d short open_ ended) (
      rw same (take_ge n d.decoded_buffer (omega arith)),
      ended,
      rw same (drop_ge n d.decoded_buffer (omega arith)),
      raw,
    )
