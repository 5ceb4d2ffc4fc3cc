-- ===== src/Streaming/Decoder/Rounds.antt =====
-- One round of the decoder on a well-formed stream.
use s3mer.Base.{
  ◌-◌, ◌≤◌, ◌≡◌, ◌≢◌, refl, sym, subst, ap, ◌∙◌, min, true, false, some, [], ◌∷◌, ◌++◌, length,
  drop, take-append, drop-append, length-append, arith,
}
use mathlib.Core.List.{append-nil, append_assoc}
use s3mer.Base.Int.{pos}
use s3mer.Streaming.Bytes.{Bytes}
use s3mer.Streaming.Encoding.{Stream, final, chunk, crlf, header, encode, decoded, IsStream}
use s3mer.Streaming.Decoder.{
  Decoder, read_header, read_data, read_crlf, start_chunk, go_on, with_header, with_data, with_crlf,
  take_data, handle, handle_read_header, handle_read_data, handle_read_crlf, finish, step,
}
use s3mer.Streaming.Decoder.Headers.{with_header-encode}
use s3mer.Streaming.Decoder.Losses.{fill_enough}

-- What the raw buffer of a decoder holds, by its state, and the bytes that it is still to decode.
pub data Decodes (d : Decoder) (rest : Bytes) : Type 0 where
  at_header :
      (s : Stream)
      → IsStream s
      → d.state ≡ read_header
      → d.raw_buffer ≡ encode s
      → rest ≡ decoded s
      → Decodes d rest
  at_data :
      (payload : Bytes) (s : Stream)
      → payload ≢ []
      → IsStream s
      → d.state ≡ read_data
      → d.current_chunk_remaining ≡ pos (length payload)
      → d.raw_buffer ≡ payload ++ crlf (encode s)
      → rest ≡ payload ++ decoded s
      → Decodes d rest
  at_crlf :
      (s : Stream)
      → IsStream s
      → d.state ≡ read_crlf
      → d.raw_buffer ≡ crlf (encode s)
      → rest ≡ decoded s
      → Decodes d rest

-- A round keeps what was decoded and what is to come together the same; the decoder gives up only
-- when nothing is to come.
pub data Goes (whole : Bytes) (d : Decoder) : Type 0 where
  ended : d.eof ≡ true → d.decoded_buffer ≡ whole → Goes whole d
  onwards :
      (rest : Bytes)
      → d.eof ≡ false
      → Decodes d rest
      → d.decoded_buffer ++ rest ≡ whole
      → Goes whole d

one_byte : (size extension rest : Bytes) → 1 ≤ length (header size extension ++ crlf rest)
one_byte size extension rest = omega (arith, length-append (header size extension) (crlf rest))

pub one_byte_encode : (s : Stream) → 1 ≤ length (encode s)
one_byte_encode (final size extension trailer) = one_byte size extension trailer
one_byte_encode (chunk size extension payload s) = one_byte size extension _

header_round :
    (d : Decoder)
    → d.state ≡ read_header
    → 1 ≤ length d.raw_buffer
    → step d ≡ finish (with_header d)
unfolding step handle handle_read_header go_on
header_round d st h =
    ap (λ s. finish (handle s d)) st ∙ ap (λ r. finish (go_on with_header r)) (fill_enough 1 d h)

data_round :
    (d : Decoder) → d.state ≡ read_data → 1 ≤ length d.raw_buffer → step d ≡ finish (with_data d)
unfolding step handle handle_read_data go_on
data_round d st h =
    ap (λ s. finish (handle s d)) st ∙ ap (λ r. finish (go_on with_data r)) (fill_enough 1 d h)

crlf_round :
    (d : Decoder) → d.state ≡ read_crlf → 2 ≤ length d.raw_buffer → step d ≡ finish (with_crlf d)
unfolding step handle handle_read_crlf go_on
crlf_round d st h =
    ap (λ s. finish (handle s d)) st ∙ ap (λ r. finish (go_on with_crlf r)) (fill_enough 2 d h)

final_header :
    (d : Decoder) (rest trailer : Bytes)
    → rest ≡ []
    → Goes
        (d.decoded_buffer ++ rest)
        (finish (start_chunk (some (pos 0)) (record d { raw_buffer = trailer })))
unfolding finish start_chunk
final_header d rest trailer e =
    ended refl (sym (ap (λ r. d.decoded_buffer ++ r) e ∙ append-nil d.decoded_buffer))

chunk_header :
    (d : Decoder) (rest payload : Bytes) (s : Stream)
    → d.eof ≡ false
    → payload ≢ []
    → IsStream s
    → rest ≡ payload ++ decoded s
    → Goes (d.decoded_buffer ++ rest) (
        finish (
          start_chunk
            (some (pos (length payload)))
            (record d { raw_buffer = payload ++ crlf (encode s) })))
unfolding finish start_chunk
chunk_header d rest [] s o ne v e = absurd (ne refl)
chunk_header d rest (b ∷ bs) s o ne v e =
    onwards rest o (at_data (b ∷ bs) s ne v refl refl refl e) refl

take_data-all :
    (d : Decoder) (payload rest : Bytes)
    → d.raw_buffer ≡ payload ++ rest
    → take_data (pos (length payload)) d ≡ record d {
      decoded_buffer = d.decoded_buffer ++ payload;
      raw_buffer = rest;
      current_chunk_remaining = pos 0;
      state = read_crlf;
    }
unfolding take_data
take_data-all d payload rest e =
    let all : min (length d.raw_buffer) (length payload) ≡ length payload =
      omega (arith, ap length e, length-append payload rest) in
    let none_left : length payload - length payload ≡ 0 = omega arith in
    rw (all, none_left, e, take-append payload rest, drop-append payload rest) refl

data_taken :
    (d : Decoder) (rest payload : Bytes) (s : Stream)
    → d.eof ≡ false
    → IsStream s
    → d.current_chunk_remaining ≡ pos (length payload)
    → d.raw_buffer ≡ payload ++ crlf (encode s)
    → rest ≡ payload ++ decoded s
    → Goes (d.decoded_buffer ++ rest) (finish (with_data d))
unfolding finish with_data
data_taken d rest payload s o v cur raw e =
    rw (ap (λ z. take_data z d) cur ∙ take_data-all d payload (crlf (encode s)) raw) (
      onwards (decoded s) o (at_crlf s v refl refl refl) (
        append_assoc d.decoded_buffer payload (decoded s)
        ∙ sym (ap (λ r. d.decoded_buffer ++ r) e)))

delimiter_taken :
    (d : Decoder) (rest : Bytes) (s : Stream)
    → d.eof ≡ false
    → IsStream s
    → d.raw_buffer ≡ crlf (encode s)
    → rest ≡ decoded s
    → Goes (d.decoded_buffer ++ rest) (finish (with_crlf d))
unfolding finish with_crlf
delimiter_taken d rest s o v raw e = onwards rest o (at_header s v refl (ap (drop 2) raw) e) refl

pub step-Goes :
    (d : Decoder) (rest : Bytes)
    → d.eof ≡ false
    → Decodes d rest
    → Goes (d.decoded_buffer ++ rest) (step d)
step-Goes d rest o (at_header (final size extension trailer) v st raw e) =
    let one : 1 ≤ length d.raw_buffer =
      subst (λ r. 1 ≤ length r) (sym raw) (one_byte size extension trailer) in
    rw (header_round d st one ∙ ap finish (with_header-encode d size extension 0 trailer v raw))
      (final_header d rest trailer e)
step-Goes d rest o (at_header (chunk size extension payload s) v st raw e) =
    let body = payload ++ crlf (encode s) in
    let one : 1 ≤ length d.raw_buffer =
      subst (λ r. 1 ≤ length r) (sym raw) (one_byte size extension body) in
    rw
      (header_round d st one
        ∙ ap finish (with_header-encode d size extension (length payload) body v.0 raw))
      (chunk_header d rest payload s o v.1 v.2 e)
step-Goes d rest o (at_data payload s ne v st cur raw e) =
    let one : 1 ≤ length d.raw_buffer =
      omega (arith, ap length raw, length-append payload (crlf (encode s))) in
    rw (data_round d st one) (data_taken d rest payload s o v cur raw e)
step-Goes d rest o (at_crlf s v st raw e) =
    let two : 2 ≤ length d.raw_buffer = omega (arith, ap length raw) in
    rw (crlf_round d st two) (delimiter_taken d rest s o v raw e)
