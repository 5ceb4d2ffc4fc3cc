-- ===== src/Streaming/Shared.antt =====
-- `MultiSyncBodyBuffer` and its readers: one body for several backends
-- (src/s3mer/common/streaming.py). A reader is used by the one call it was opened for.
pub mod Readers
pub mod Materialize
use s3mer.Base.{
  ℕ, zero, suc, ◌+◌, ◌-◌, Bool, true, false, Option, none, some, List, [], ◌∷◌, ◌++◌, length, take,
  drop, leb, concat, min, if◌then◌else◌,
}
use s3mer.Errors.{Exn, runtime_error}
use s3mer.Exec.{Result, ok, raised}
use s3mer.Pool.{exn}
use s3mer.Streaming.Bytes.{Bytes, Amount, everything, at_most, is_empty}
use s3mer.Streaming.Buffered.{Whence, from_start, from_position, from_end}

-- `StreamConfig`, without the directory of the temporary files
pub record StreamConfig : Type 0 where
  pub chunk_size : ℕ
  pub max_memory_size : ℕ

-- `held` is `_data`.
pub record AsyncBytesReader : Type 0 where
  pub held : Bytes
  pub offset : ℕ
  pub chunk_size : ℕ

-- `content` is that of the file at `filepath`, which nobody changes while it is read; `file` is the
-- position of the open handle.
pub record ConcurrentFileStream : Type 0 where
  pub content : Bytes
  pub chunk_size : ℕ
  pub file : Option ℕ

-- the readers that `open_reader` returns
pub data BodyReader : Type 0 where
  in_memory : AsyncBytesReader → BodyReader
  on_disk : ConcurrentFileStream → BodyReader

-- `AsyncBytesReader.read`
unfoldable pub read_bytes : Amount → AsyncBytesReader → Bytes × AsyncBytesReader
read_bytes everything r =
    if leb (length r.held) r.offset
    then ([], r)
    else (drop r.offset r.held, record r { offset = length r.held })
read_bytes (at_most n) r =
    let end = min (r.offset + n) (length r.held) in
    if leb (length r.held) r.offset
    then ([], r)
    else (take (end - r.offset) (drop r.offset r.held), record r { offset = end })

-- `AsyncBytesReader.__anext__`; `none` is StopAsyncIteration
unfoldable pub next_bytes : AsyncBytesReader → Option Bytes × AsyncBytesReader
unfolding read_bytes
next_bytes r =
    let (chunk, r') = read_bytes (at_most r.chunk_size) r in
    (if is_empty chunk then none else some chunk, r')

-- `_ensure_file`: the position of the handle, which is opened at the start
abbrev pub position : Option ℕ → ℕ
position none = 0
position (some p) = p

unfoldable pub ensure_file : ConcurrentFileStream → ConcurrentFileStream
ensure_file r = record r { file = some (position r.file) }

-- the `read` of the open file, at the position `p`
unfoldable pub read_at : Amount → ℕ → Bytes → Bytes
read_at everything p content = drop p content
read_at (at_most n) p content = take n (drop p content)

-- `ConcurrentFileStream.read`
unfoldable pub read_file : Amount → ConcurrentFileStream → Bytes × ConcurrentFileStream
unfolding ensure_file read_at
read_file n r =
    let p = position r.file in
    let chunk = read_at n p r.content in (chunk, record r { file = some (p + length chunk) })

-- `seek`, for offsets that are not negative
unfoldable pub seek_file : ℕ → Whence → ConcurrentFileStream → ℕ × ConcurrentFileStream
seek_file offset from_start r = (offset, record r { file = some offset })
seek_file offset from_position r =
    let p = position r.file + offset in (p, record r { file = some p })
seek_file offset from_end r = let p = length r.content + offset in (p, record r { file = some p })

unfoldable pub tell_file : ConcurrentFileStream → ℕ × ConcurrentFileStream
unfolding ensure_file
tell_file r = (position r.file, ensure_file r)

unfoldable pub close_file : ConcurrentFileStream → ConcurrentFileStream
close_file r = record r { file = none }

-- `ConcurrentFileStream.__anext__`, which closes the file at its end
unfoldable pub next_file : ConcurrentFileStream → Option Bytes × ConcurrentFileStream
unfolding read_file close_file
next_file r =
    let (chunk, r') = read_file (at_most r.chunk_size) r in
    if is_empty chunk then (none, close_file r') else (some chunk, r')

unfoldable pub read : Amount → BodyReader → Bytes × BodyReader
unfolding read_bytes read_file
read n (in_memory r) = let (chunk, r') = read_bytes n r in (chunk, in_memory r')
read n (on_disk r) = let (chunk, r') = read_file n r in (chunk, on_disk r')

-- `held` is `_data`; `path` is the content of the file at `_path`; `readers` are those it has opened.
pub record MultiSyncBodyBuffer : Type 0 where
  pub held : Option Bytes
  pub path : Option Bytes
  pub chunk_size : ℕ
  pub readers : List BodyReader

-- The body of a request: a stream yields its chunks and then ends, or raises.
pub data RequestBody : Type 0 where
  absent opaque : RequestBody
  raw : Bytes → RequestBody
  stream : List Bytes → Option Exn → RequestBody

-- The number of temporary files comes and goes with the calls.
abbrev pub Files : Type 0
Files = ℕ

abbrev of_data : Bytes → ℕ → MultiSyncBodyBuffer
of_data bs size = record { held = some bs; path = none; chunk_size = size; readers = [] }

abbrev of_path : Bytes → ℕ → MultiSyncBodyBuffer
of_path bs size = record { held = none; path = some bs; chunk_size = size; readers = [] }

-- The chunk that does not fit, once the temporary file is made: the rest of the stream is read, then
-- all is written.
spill :
    StreamConfig
    → Bytes
    → List Bytes
    → Option Exn
    → Files
    → Result (Option MultiSyncBodyBuffer) × Files
spill config before rest none files =
    (ok (some (of_path (before ++ concat rest) config.chunk_size)), suc files)
spill config before rest (some e) files = (raised e, suc files)

at_end : StreamConfig → Bytes → Option Exn → Files → Result (Option MultiSyncBodyBuffer) × Files
at_end config chunks none files = (ok (some (of_data chunks config.chunk_size)), files)
at_end config chunks (some e) files = (raised e, files)

-- the loop of `from_body`: `chunks` are kept, joined, and `total` is their size
collect :
    StreamConfig
    → Bytes
    → ℕ
    → List Bytes
    → Option Exn
    → Files
    → Result (Option MultiSyncBodyBuffer) × Files
unfolding spill at_end
collect config chunks total [] end files = at_end config chunks end files
collect config chunks total (chunk ∷ rest) end files =
    let more = collect config (chunks ++ chunk) (total + length chunk) rest end files in
    if leb (total + length chunk) config.max_memory_size
    then more
    else spill config (chunks ++ chunk) rest end files

-- `from_body`
unfoldable pub from_body :
    RequestBody → StreamConfig → Files → Result (Option MultiSyncBodyBuffer) × Files
unfolding collect
from_body absent config files = (ok none, files)
from_body opaque config files = (ok none, files)
from_body (raw bs) config files = (ok (some (of_data bs config.chunk_size)), files)
from_body (stream chunks end) config files = collect config [] 0 chunks end files

-- the reader that `open_reader` makes
unfoldable pub new_reader : MultiSyncBodyBuffer → Result BodyReader
new_reader b = elim b.held [
  | some bs ↦ ok (in_memory (record { held = bs; offset = 0; chunk_size = b.chunk_size }))
  | none ↦ elim b.path [
    | some bs ↦ ok (on_disk (record { content = bs; chunk_size = b.chunk_size; file = none }))
    | none ↦ raised (exn runtime_error "MultiSyncBodyBuffer has no data")
  ]
]

-- `open_reader`
unfoldable pub open_reader : MultiSyncBodyBuffer → Result BodyReader × MultiSyncBodyBuffer
unfolding new_reader
open_reader b = elim (new_reader b) [
  | ok r ↦ (ok r, record b { readers = b.readers ++ (r ∷ []) })
  | raised e ↦ (raised e, b)
]

-- `close`, where the file at `_path` is still there
unfoldable pub close : MultiSyncBodyBuffer → Files → MultiSyncBodyBuffer × Files
close b files = (record b { readers = [] }, elim b.path [ none ↦ files | some bs ↦ files - 1 ])
