-- ===== src/Streaming/Reader/Laws.antt =====
-- The reader refines a plain sequence of bytes: the body that is still to come.
use s3mer.Base.{
  ℕ, zero, suc, ◌+◌, ◌≤◌, ◌≡◌, refl, Bool, true, false, ltb, Option, none, some, List, [], ◌∷◌,
  ◌++◌, length, take, drop, sym, ◌∙◌, ◌<◌, ap, drop-nil, take-append-drop, concat, length-append,
  take-append_le, drop-append_le, arith, ◌⊎◌, inl, inr, Bool-cases, ltb→le, if◌then◌else◌,
}
use mathlib.Core.List.{append-nil, append_assoc}
use s3mer.Streaming.Bytes.{Bytes, everything, at_most, is_empty}
use s3mer.Streaming.Receive.{Messages, request, disconnect, other, body_of}
use s3mer.Streaming.Reader.{Reader, Channel, receive_all, receive_until, read, next}
use mathlib.Core.Option

-- The bytes that the reader has yet to give out.
abbrev pub pending : Channel → Bytes
pending (ms, buffer, more) = buffer ++ (if more then body_of ms else [])

abbrev pub remaining : Reader → Bytes
remaining r = pending (r.receive, r.buffer, r.more_body)

receive_all_lem :
    (ms : Messages) (buffer : Bytes) (more : Bool)
    → ((receive_all ms buffer more).1 ≡ pending (ms, buffer, more))
      × ((receive_all ms buffer more).2 ≡ false)
unfolding receive_all
receive_all_lem ms buffer false = (rw append-nil, refl)
receive_all_lem [] buffer true = (rw append-nil, refl)
receive_all_lem (request body true ∷ ms) buffer true =
    simp (append_assoc) at (receive_all_lem ms (buffer ++ body) true)
receive_all_lem (request body false ∷ ms) buffer true =
    simp (append-nil) at (receive_all_lem ms (buffer ++ body) false)
receive_all_lem (disconnect ∷ ms) buffer true = (rw append-nil, refl)
receive_all_lem (other ∷ ms) buffer true = receive_all_lem ms buffer true

-- The loop of `read(n)` loses no byte, and ends with `n` bytes at hand or at the end of the body.
abbrev Filled : ℕ → Channel → Channel → Type 0
Filled n before after =
    (pending after ≡ pending before) × ((n ≤ length after.1) ⊎ (after.2 ≡ false))

receive_until-Filled :
    (n : ℕ) (ms : Messages) (buffer : Bytes) (more : Bool)
    → Filled n (ms, buffer, more) (receive_until n ms buffer more)
unfolding receive_until
receive_until-Filled n ms buffer false = (refl, inr refl)
receive_until-Filled n [] buffer true = elim (Bool-cases (ltb (length buffer) n)) [
  | inl short ↦ rw short (refl, inr refl)
  | inr full ↦ rw full (refl, inl (ltb→le (length buffer) n full))
]
receive_until-Filled n (request body true ∷ ms) buffer true =
    elim (Bool-cases (ltb (length buffer) n)) [
      | inl short ↦
          rw short (simp append_assoc at (receive_until-Filled n ms (buffer ++ body) true))
      | inr full ↦ rw full (refl, inl (ltb→le (length buffer) n full))
    ]
receive_until-Filled n (request body false ∷ ms) buffer true =
    elim (Bool-cases (ltb (length buffer) n)) [
      | inl short ↦ rw short (append-nil (buffer ++ body), inr refl)
      | inr full ↦ rw full (refl, inl (ltb→le (length buffer) n full))
    ]
receive_until-Filled n (disconnect ∷ ms) buffer true = elim (Bool-cases (ltb (length buffer) n)) [
  | inl short ↦ rw short (refl, inr refl)
  | inr full ↦ rw full (refl, inl (ltb→le (length buffer) n full))
]
receive_until-Filled n (other ∷ ms) buffer true = elim (Bool-cases (ltb (length buffer) n)) [
  | inl short ↦ rw short (receive_until-Filled n ms buffer true)
  | inr full ↦ rw full (refl, inl (ltb→le (length buffer) n full))
]

split_channel :
    (n : ℕ) (before after : Channel)
    → Filled n before after
    → (take n after.1 ≡ take n (pending before))
      × (pending (after.0, drop n after.1, after.2) ≡ drop n (pending before))
split_channel n before (ms, buffer, true) (same, inl full) =
    rw (← same) (sym (take-append_le n buffer _ full), sym (drop-append_le n buffer _ full))
split_channel n before (ms, buffer, true) (same, inr e) = cc
split_channel n before (ms, buffer, false) (same, done) =
    rw (← same) (rw append-nil refl, rw (append-nil, append-nil) refl)

-- `read(n)` returns exactly the next `n` bytes of the body that is still to come, or all of it
-- where it is shorter, and leaves the rest to come.
pub read_at_most :
    (n : ℕ) (r : Reader)
    → let (chunk, r') = read (at_most n) r in
      (chunk ≡ take n (remaining r)) × (remaining r' ≡ drop n (remaining r))
unfolding read
read_at_most n r =
    split_channel n (r.receive, r.buffer, r.more_body)
      (receive_until n r.receive r.buffer r.more_body)
      (receive_until-Filled n r.receive r.buffer r.more_body)

-- `read()` returns all that is still to come, and leaves nothing.
pub read_everything :
    (r : Reader) → let (body, r') = read everything r in (body ≡ remaining r) × (remaining r' ≡ [])
unfolding read
read_everything r =
    let (all, done) = receive_all_lem r.receive r.buffer r.more_body in (all, rw done)

pub transferred-read :
    (n : ℕ) (r : Reader)
    → (read (at_most n) r).1.transferred ≡ r.transferred + length (read (at_most n) r).0
unfolding read
transferred-read n r = refl

pub chunk_size-read : (n : ℕ) (r : Reader) → (read (at_most n) r).1.chunk_size ≡ r.chunk_size
unfolding read
chunk_size-read n r = refl

-- The loop `async for chunk in reader`; `none` means that the fuel ran out.
pub drain : ℕ → Reader → Option (List Bytes × Reader)
drain zero r = none
drain (suc f) r =
    let (o, r') = next r in
    elim o [
      | none ↦ some ([], r')
      | some chunk ↦ Option.map (λ (chunks, end). (chunk ∷ chunks, end)) (drain f r')
    ]

-- The outcome of an iteration over a reader: the chunks join to the whole body to come, and the
-- callback has been told of each byte.
abbrev pub Drained : Reader → Option (List Bytes × Reader) → Type 0
Drained r none = ⊥
Drained r (some (chunks, end)) =
    (concat chunks ≡ remaining r)
    × (remaining end ≡ [])
    × (end.transferred ≡ r.transferred + length (remaining r))

drain_step :
    (r : Reader) (chunk : Bytes) (r' : Reader) (rest : Option (List Bytes × Reader))
    → chunk ++ remaining r' ≡ remaining r
    → r'.transferred ≡ r.transferred + length chunk
    → Drained r' rest
    → Drained r (Option.map (λ (chunks, end). (chunk ∷ chunks, end)) rest)
drain_step r chunk r' none e t d = d
drain_step r chunk r' (some (chunks, end)) e t (joined, done, told) =
    (rw (joined, e), done, rw (← e) (omega (arith, length-append chunk (remaining r'))))

pub nothing_taken : (n : ℕ) (xs : Bytes) → 0 < n → take n xs ≡ [] → xs ≡ []
nothing_taken (suc n) [] h e = refl
nothing_taken (suc n) (x ∷ xs) h e = cc
nothing_taken zero xs h e = absurd (omega arith)

drain_round :
    (r : Reader) (f : ℕ) (chunk : Bytes) (r' : Reader)
    → 0 < r.chunk_size
    → chunk ≡ take r.chunk_size (remaining r)
    → remaining r' ≡ drop r.chunk_size (remaining r)
    → r'.transferred ≡ r.transferred + length chunk
    → length (remaining r) < suc f
    → (length (remaining r') < f → Drained r' (drain f r'))
    → Drained r (elim (if is_empty chunk then none else some chunk) [
      | none ↦ some ([], r')
      | some c ↦ Option.map (λ (chunks, end). (c ∷ chunks, end)) (drain f r')
    ])
drain_round r f [] r' pos e d t h ih =
    let nothing = nothing_taken r.chunk_size (remaining r) pos (sym e) in
    (sym nothing, rw (d, nothing) (drop-nil r.chunk_size), omega (arith, ap length nothing))
drain_round r f (b ∷ bs) r' pos e d t h ih =
    let whole : (b ∷ bs) ++ remaining r' ≡ remaining r =
      ap (λ c. c ++ remaining r') e ∙ rw d (take-append-drop r.chunk_size (remaining r)) in
    drain_step r (b ∷ bs) r' (drain f r') whole t
      (ih (omega (arith, ap length whole, length-append (b ∷ bs) (remaining r'))))

-- Iteration over a reader with a positive chunk size ends, gives out the whole body that is still
-- to come, in chunks, and tells the callback of each byte; fuel above the body's length is enough.
pub drain-Drained :
    (f : ℕ) (r : Reader) → 0 < r.chunk_size → length (remaining r) < f → Drained r (drain f r)
unfolding drain next
drain-Drained zero r pos h = absurd (omega arith)
drain-Drained (suc f) r pos h =
    let (chunk, r') = read (at_most r.chunk_size) r in
    drain_round r f chunk r' pos (read_at_most r.chunk_size r).0 (read_at_most r.chunk_size r).1
      (transferred-read r.chunk_size r) h
      (drain-Drained f r' (rw (chunk_size-read r.chunk_size r) pos))
