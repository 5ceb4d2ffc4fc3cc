-- ===== src/Streaming/Buffered.antt =====
-- `BufferedStreamReader`: a stream that keeps what it reads in a spooled file, to replay it.
pub mod Replay
use s3mer.Base.{
  ℕ, zero, suc, ◌+◌, ◌-◌, Bool, true, false, not, Option, none, some, List, [], ◌∷◌, ◌++◌, length,
  take, drop, if◌then◌else◌,
}
use s3mer.Streaming.Bytes.{Bytes, Amount, everything, at_most, is_empty}

-- `source` holds the chunks that the wrapped iterator will yield; `content` and `position` are
-- those of the spooled file; `active` is what this reader adds to the gauge of active readers. The program
-- does not read a reader that it has closed.
pub record Buffered : Type 0 where
  pub source : List Bytes
  pub content : Bytes
  pub position : ℕ
  pub read_from_tmp : Bool
  pub eof_reached : Bool
  pub chunk_size : ℕ
  pub active : ℕ
  pub is_closed : Bool

unfoldable pub init : List Bytes → ℕ → Buffered
init source size = record {
  source = source;
  content = [];
  position = 0;
  read_from_tmp = false;
  eof_reached = false;
  chunk_size = size;
  active = 1;
  is_closed = false;
}

unfoldable pub seek_to_start : Buffered → Buffered
seek_to_start b = record b { read_from_tmp = true; position = 0 }

-- the origins of a file's `seek`
pub data Whence : Type 0 where
  from_start from_position from_end : Whence

file_seek : ℕ → Whence → Buffered → ℕ
file_seek offset from_start b = offset
file_seek offset from_position b = b.position + offset
file_seek offset from_end b = length b.content + offset

-- `seek`, for offsets that are not negative
unfoldable pub seek : ℕ → Whence → Buffered → ℕ × Buffered
unfolding seek_to_start file_seek
seek zero from_start b = (0, seek_to_start b)
seek offset whence b = let p = file_seek offset whence b in (p, record b { position = p })

amount_of : Amount → Bytes → Bytes
amount_of everything bs = bs
amount_of (at_most n) bs = take n bs

-- the file's `read` and `write`, at its position
file_read : Amount → Buffered → Bytes
file_read n b = amount_of n (drop b.position b.content)

zeros : ℕ → Bytes
zeros zero = []
zeros (suc n) = 0 ∷ zeros n

-- Past the end of the file a write first fills the gap with zeros; without any bytes it does nothing.
file_write : Bytes → Buffered → Buffered
unfolding zeros
file_write [] b = b
file_write (c ∷ cs) b =
    let chunk = c ∷ cs in
    record b {
      content =
          take b.position b.content
          ++ (zeros (b.position - length b.content)
              ++ (chunk ++ drop (b.position + length chunk) b.content));
      position = b.position + length chunk;
    }

read_live : List Bytes → Buffered → Bytes × Buffered
read_live [] b = ([], record b { eof_reached = true })
read_live (chunk ∷ rest) b = (chunk, file_write chunk (record b { source = rest }))

-- the part of `read` after the buffer
read_source : Buffered → Bytes × Buffered
read_source b = if b.eof_reached then ([], b) else read_live b.source b

-- the part of `read` that serves from the buffer, where it found `chunk` there
read_tmp : Bytes → Buffered → Bytes × Buffered
read_tmp [] b = if b.eof_reached then ([], b) else read_source (record b { read_from_tmp = false })
read_tmp (c ∷ cs) b = (c ∷ cs, record b { position = b.position + length (c ∷ cs) })

-- `read`; a live read yields the next chunk of the source, whatever the size asked for
unfoldable pub read : Amount → Buffered → Bytes × Buffered
unfolding amount_of file_read file_write read_live read_source read_tmp
read n b = if b.read_from_tmp then read_tmp (file_read n b) b else read_source b

-- `__anext__`; `none` is StopAsyncIteration
unfoldable pub next : Buffered → Option Bytes × Buffered
next b =
    let (chunk, b') = read (at_most b.chunk_size) b in
    (if is_empty chunk then none else some chunk, b')

-- `tell`
unfoldable pub tell : Buffered → ℕ
tell b = b.position

unfoldable pub close : Buffered → Buffered
close b = record b { is_closed = true; active = b.active - 1 }
