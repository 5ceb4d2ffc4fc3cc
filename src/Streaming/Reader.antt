-- ===== src/Streaming/Reader.antt =====
-- `ASGIStreamReader`: a reader over the receive channel.
pub mod Laws
use s3mer.Base.{
  ℕ, zero, suc, ◌+◌, Bool, true, false, not, ltb, Option, none, some, List, [], ◌∷◌, ◌++◌, length,
  take, drop, if◌then◌else◌,
}
use s3mer.Streaming.Bytes.{Bytes, Amount, everything, at_most, is_empty}
use s3mer.Streaming.Receive.{Message, Messages, request, disconnect, other, body_of}

-- `transferred` is the sum of the sizes that the `on_read` callback was called with.
pub record Reader : Type 0 where
  pub receive : Messages
  pub buffer : Bytes
  pub more_body : Bool
  pub transferred : ℕ
  pub chunk_size : ℕ

unfoldable pub init : Messages → ℕ → Reader
init ms size = record {
  receive = ms;
  buffer = [];
  more_body = true;
  transferred = 0;
  chunk_size = size;
}

-- What the reads take from the channel: the messages left, the bytes gathered and `more_body`.
abbrev pub Channel : Type 0
Channel = Messages × Bytes × Bool

-- the loop of `read(-1)`
receive_all : Messages → Bytes → Bool → Channel
receive_all ms buffer false = (ms, buffer, false)
receive_all [] buffer true = ([], buffer, false)
receive_all (request body more ∷ ms) buffer true = receive_all ms (buffer ++ body) more
receive_all (disconnect ∷ ms) buffer true = (ms, buffer, false)
receive_all (other ∷ ms) buffer true = receive_all ms buffer true

-- the loop of `read(n)`: `while len(buffer) < n and more_body`
receive_until : ℕ → Messages → Bytes → Bool → Channel
receive_until n ms buffer false = (ms, buffer, false)
receive_until n [] buffer true = ([], buffer, not (ltb (length buffer) n))
receive_until n (request body more ∷ ms) buffer true =
    let rest = receive_until n ms (buffer ++ body) more in
    if ltb (length buffer) n then rest else (request body more ∷ ms, buffer, true)
receive_until n (disconnect ∷ ms) buffer true =
    if ltb (length buffer) n then (ms, buffer, false) else (disconnect ∷ ms, buffer, true)
receive_until n (other ∷ ms) buffer true =
    let rest = receive_until n ms buffer true in
    if ltb (length buffer) n then rest else (other ∷ ms, buffer, true)

-- `read`
unfoldable pub read : Amount → Reader → Bytes × Reader
unfolding receive_all receive_until
read everything r =
    let (ms, result, more) = receive_all r.receive r.buffer r.more_body in
    (
      result,
      record r {
        receive = ms;
        buffer = [];
        more_body = more;
        transferred = r.transferred + length result;
      },
    )
read (at_most n) r =
    let (ms, buffer, more) = receive_until n r.receive r.buffer r.more_body in
    (
      take n buffer,
      record r {
        receive = ms;
        buffer = drop n buffer;
        more_body = more;
        transferred = r.transferred + length (take n buffer);
      },
    )

-- `__anext__`; `none` is StopAsyncIteration
unfoldable pub next : Reader → Option Bytes × Reader
next r =
    let (chunk, r') = read (at_most r.chunk_size) r in
    (if is_empty chunk then none else some chunk, r')
