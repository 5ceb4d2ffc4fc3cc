-- ===== src/Streaming/Decoder.antt =====
-- `AWSChunkedDecoder`: aws-chunked bodies, decoded as they are read.
pub mod Progress
pub mod Termination
pub mod Headers
pub mod Rounds
pub mod RoundTrip
pub mod Losses
use s3mer.Base.{
  ℕ, zero, suc, ◌+◌, ◌-◌, ◌*◌, min, Bool, true, false, not, ◌&&◌, ◌||◌, ◌==◌, ltb, leb, Option,
  none, some, List, [], ◌∷◌, ◌++◌, length, take, drop, concat, if◌then◌else◌,
}
use mathlib.Core.Option
use s3mer.Base.Int.{ℤ, pos, negsuc}
use s3mer.Streaming.Bytes.{Bytes, Amount, everything, at_most, is_empty}
use s3mer.Streaming.Hex.{int_16}
use s3mer.Streaming.Reader
use s3mer.Streaming.Reader.{Reader}
use s3mer.Streaming.Reader.Laws.{remaining}

pub data DecoderState : Type 0 where
  read_header read_data read_crlf : DecoderState

pub record Decoder : Type 0 where
  pub reader : Reader
  pub raw_buffer : Bytes
  pub decoded_buffer : Bytes
  pub eof : Bool
  pub current_chunk_remaining : ℤ
  pub state : DecoderState
  pub chunk_size : ℕ

unfoldable pub init : Reader → ℕ → Decoder
init r size = record {
  reader = r;
  raw_buffer = [];
  decoded_buffer = [];
  eof = false;
  current_chunk_remaining = pos 0;
  state = read_header;
  chunk_size = size;
}

-- The loop of `_fill_raw_buffer`, on fuel. `fill_raw_buffer` gives it more than the bytes that the reader
-- still has, and every round but the last takes at least one of them, so the first clause, where the fuel
-- has run out, is no end of the stream and is not reached from there.
pub fill : ℕ → ℕ → Decoder → Bool × Decoder
fill zero n d = (false, d)
fill (suc f) n d =
    let (chunk, r) = Reader.read (at_most d.chunk_size) d.reader in
    let rest = fill f n (record d { reader = r; raw_buffer = d.raw_buffer ++ chunk }) in
    if leb n (length d.raw_buffer)
    then (true, d)
    else if is_empty chunk
    then (false, record d { reader = r })
    else rest

-- `_fill_raw_buffer`; each round but the last takes a byte from the reader
unfoldable pub fill_raw_buffer : ℕ → Decoder → Bool × Decoder
unfolding fill
fill_raw_buffer n d = fill (suc (length (remaining d.reader))) n d

-- `find(b"\r\n")`
unfoldable pub find_crlf : Bytes → Option ℕ
find_crlf [] = none
find_crlf (a ∷ []) = none
find_crlf (a ∷ b ∷ cs) =
    let later = Option.map suc (find_crlf (b ∷ cs)) in if a == 13 && b == 10 then some 0 else later

-- `header.split(b";")[0]`
pub before_semicolon : Bytes → Bytes
before_semicolon [] = []
before_semicolon (c ∷ cs) = let rest = c ∷ before_semicolon cs in if c == b';' then [] else rest

-- the part of `_handle_read_header` after the size has been read
pub start_chunk : Option ℤ → Decoder → Bool × Decoder
start_chunk none d = (false, d)
start_chunk (some (pos zero)) d = (false, record d { current_chunk_remaining = pos 0 })
start_chunk (some n) d = (true, record d { current_chunk_remaining = n; state = read_data })

pub parse_header : Option ℕ → Decoder → Bool × Decoder
unfolding start_chunk before_semicolon
parse_header none d = fill_raw_buffer (length d.raw_buffer + 128) d
parse_header (some p) d =
    start_chunk (int_16 (before_semicolon (take p d.raw_buffer)))
      (record d { raw_buffer = drop (p + 2) d.raw_buffer })

-- a handler goes on after its fill, if that succeeded
pub go_on : (Decoder → Bool × Decoder) → Bool × Decoder → Bool × Decoder
go_on handler (done, d) = if done then handler d else (false, d)

pub with_header : Decoder → Bool × Decoder
unfolding parse_header find_crlf
with_header d = parse_header (find_crlf d.raw_buffer) d

pub handle_read_header : Decoder → Bool × Decoder
unfolding go_on with_header
handle_read_header d = go_on with_header (fill_raw_buffer 1 d)

-- `take = min(len(raw), remaining)`, also for a negative number of remaining bytes, where Python
-- slices off the end
pub take_data : ℤ → Decoder → Decoder
take_data (pos n) d =
    let taken = min (length d.raw_buffer) n in
    record d {
      decoded_buffer = d.decoded_buffer ++ take taken d.raw_buffer;
      raw_buffer = drop taken d.raw_buffer;
      current_chunk_remaining = pos (n - taken);
      state = if n - taken == 0 then read_crlf else d.state;
    }
take_data (negsuc n) d =
    let kept = length d.raw_buffer - suc n in
    record d {
      decoded_buffer = d.decoded_buffer ++ take kept d.raw_buffer;
      raw_buffer = drop kept d.raw_buffer;
      current_chunk_remaining = pos 0;
      state = read_crlf;
    }

pub with_data : Decoder → Bool × Decoder
unfolding take_data
with_data d = (true, take_data d.current_chunk_remaining d)

pub handle_read_data : Decoder → Bool × Decoder
unfolding go_on with_data
handle_read_data d = go_on with_data (fill_raw_buffer 1 d)

pub with_crlf : Decoder → Bool × Decoder
with_crlf d = (true, record d { raw_buffer = drop 2 d.raw_buffer; state = read_header })

pub handle_read_crlf : Decoder → Bool × Decoder
unfolding go_on with_crlf
handle_read_crlf d = go_on with_crlf (fill_raw_buffer 2 d)

pub handle : DecoderState → Decoder → Bool × Decoder
unfolding handle_read_header handle_read_data handle_read_crlf
handle read_header = handle_read_header
handle read_data = handle_read_data
handle read_crlf = handle_read_crlf

pub finish : Bool × Decoder → Decoder
finish (done, d) = if done then d else record d { eof = true }

-- one round of the loop in `read`
pub step : Decoder → Decoder
unfolding handle finish
step d = finish (handle d.state d)

-- The loop of `read(n)`, on fuel.
pub loop : ℕ → ℕ → Decoder → Decoder
unfolding step
loop zero n d = d
loop (suc f) n d =
    let rest = loop f n (step d) in if ltb (length d.decoded_buffer) n && not d.eof then rest else d

abbrev pub rank : DecoderState → ℕ
rank read_header = 0
rank read_data = 1
rank read_crlf = 0

-- No round can be made more often than this: a round takes bytes from what is left, or from the
-- reader into the buffer, or goes on from the data to the delimiter.
abbrev pub rounds : Decoder → ℕ
rounds d =
    4 * (length d.raw_buffer + length (remaining d.reader))
    + length (remaining d.reader)
    + rank d.state

-- `read(n)`
unfoldable pub read : ℕ → Decoder → Bytes × Decoder
read n d =
    let d' = loop (suc (rounds d)) n d in
    (take n d'.decoded_buffer, record d' { decoded_buffer = drop n d'.decoded_buffer })

-- `__anext__`; `none` is StopAsyncIteration
unfoldable pub next : Decoder → Option Bytes × Decoder
next d = let (chunk, d') = read d.chunk_size d in (if is_empty chunk then none else some chunk, d')
