-- ===== src/Examples/Streams.antt =====
-- Bodies of a few bytes.
use s3mer.Base.{◌≡◌, ◌≢◌, ◌⊎◌, refl, true, false, List, [], ◌∷◌, ◌++◌, All, length, concat, arith}
use s3mer.Base.Int.{pos}
use s3mer.Streaming.Bytes.{Bytes, at_most, everything, Amount}
use s3mer.Streaming.Receive.{Messages, request}
use s3mer.Streaming.Reader.{Reader}
use s3mer.Streaming.Reader.Laws.{remaining, drain, Drained, drain-Drained}
use s3mer.Streaming.Buffered
use s3mer.Streaming.Buffered.{Buffered}
use s3mer.Streaming.Buffered.Replay
use s3mer.Streaming.Buffered.Replay.{
  IsPositive, Reads, ahead, read-Reads, init-IsValid, reads-seek_to_start,
}
use s3mer.Streaming.Encoding.{Stream, final, chunk, encode, decoded, IsStream}
use s3mer.Streaming.Hex.{int_16}
use s3mer.Streaming.Decoder
use s3mer.Streaming.Decoder.{Decoder, read_header}
use s3mer.Streaming.Decoder.Termination.{read_ends}
use s3mer.Streaming.Decoder.RoundTrip
use s3mer.Streaming.Decoder.RoundTrip.{pieces, reads-encode}
use s3mer.Streaming.Decoder.Losses.{read-split_header}

abbrev messages : Messages
messages = request (1 ∷ 2 ∷ 3 ∷ []) true ∷ request (4 ∷ []) false ∷ []

abbrev reader : Reader
reader = record {
  receive = messages;
  buffer = [];
  more_body = true;
  transferred = 0;
  chunk_size = 2;
}

drain-Drained_example : Drained reader (drain 5 reader)
drain-Drained_example = drain-Drained 5 reader (omega arith) (omega arith)

abbrev source : List Bytes
source = (1 ∷ 2 ∷ 3 ∷ []) ∷ (4 ∷ []) ∷ []

source_full : All (λ c. c ≢ []) source
source_full = ((λ e. cc), ((λ e. cc), tt))

read-Reads_example :
    Reads (Buffered.init source 4) (Buffered.read (at_most 2) (Buffered.init source 4))
read-Reads_example =
    read-Reads (at_most 2) (Buffered.init source 4) (omega arith)
      (init-IsValid source 4 source_full)

reads-seek_to_start_example :
    let (first, b) = Replay.reads (at_most 2 ∷ []) (Buffered.init source 4) in
    let (second, end) = Replay.reads (at_most 2 ∷ everything ∷ []) (Buffered.seek_to_start b) in
    (concat first ++ ahead b ≡ concat source)
    × (concat second ++ ahead end ≡ concat source)
    × ((n : Amount) → IsPositive n → (Buffered.read n end).0 ≡ [] → concat second ≡ concat source)
reads-seek_to_start_example =
    reads-seek_to_start source 4 (at_most 2 ∷ []) (at_most 2 ∷ everything ∷ []) source_full
      (omega arith, tt) (omega arith, (tt, tt))

-- three bytes, and the chunk that ends them
abbrev stream : Stream
stream = chunk (b'3' ∷ []) [] (65 ∷ 66 ∷ 67 ∷ []) (final (b'0' ∷ []) [] (13 ∷ 10 ∷ []))

abbrev encoded : Reader
encoded = record {
  receive = request (encode stream) false ∷ [];
  buffer = [];
  more_body = true;
  transferred = 0;
  chunk_size = 13;
}

stream-IsStream : IsStream stream
unfolding int_16
stream-IsStream = (
  record { reads = refl; size_plain = (refl, tt); extension_starts = tt; one_line = (refl, tt) },
  (λ e. cc),
  record { reads = refl; size_plain = (refl, tt); extension_starts = tt; one_line = (refl, tt) },
)

reads-encode_example :
    (RoundTrip.reads (2 ∷ 2 ∷ []) (Decoder.init encoded 13)).0
    ≡ pieces (2 ∷ 2 ∷ []) (decoded stream)
reads-encode_example =
    reads-encode (2 ∷ 2 ∷ []) encoded 13 stream (omega arith, (omega arith, tt)) (omega arith) refl
      stream-IsStream

-- the raw buffer holds the first two bytes of a header, and the rest of the stream is to come
abbrev split : Decoder
split = record {
  reader = record {
    receive = request (115 ∷ 13 ∷ 10 ∷ 65 ∷ 66 ∷ 67 ∷ 13 ∷ 10 ∷ b'0' ∷ 13 ∷ 10 ∷ []) false ∷ [];
    buffer = [];
    more_body = true;
    transferred = 0;
    chunk_size = 2;
  };
  raw_buffer = b'3' ∷ b';' ∷ [];
  decoded_buffer = [];
  eof = false;
  current_chunk_remaining = pos 0;
  state = read_header;
  chunk_size = 2;
}

read_ends_example : (length (Decoder.read 3 split).0 ≡ 3) ⊎ ((Decoder.read 3 split).1.eof ≡ true)
read_ends_example = read_ends 3 split (omega arith)

read-split_header_example :
    let (bytes, d') = Decoder.read 3 split in
    (bytes ≡ [])
    × (d'.eof ≡ true)
    × (d'.decoded_buffer ≡ [])
    × (d'.raw_buffer ≡ (b'3' ∷ b';' ∷ []) ++ remaining split.reader)
unfolding Decoder.find_crlf
read-split_header_example =
    read-split_header 3 split (omega arith) refl refl (λ e. cc) refl (omega arith) (omega arith)
