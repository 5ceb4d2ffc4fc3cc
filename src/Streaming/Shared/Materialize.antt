-- ===== src/Streaming/Shared/Materialize.antt =====
-- What `from_body` keeps, where, and what it leaves behind.
use mathlib.Core.List.{append_assoc, append-nil}
use s3mer.Base.{
  ℕ, suc, ◌-◌, ◌≡◌, refl, sym, ap, ◌∙◌, Bool, true, false, Option, none, some, List, [], ◌∷◌, ◌++◌,
  length, length-append, concat, leb, le→leb, arith, if◌then◌else◌,
}
use s3mer.Errors.{Exn}
use s3mer.Exec.{Result, ok, raised}
use s3mer.Streaming.Bytes.{Bytes, Amount}
use s3mer.Streaming.Shared.{
  StreamConfig, MultiSyncBodyBuffer, BodyReader, stream, Files, of_data, of_path, spill, at_end,
  collect, from_body, new_reader, close, read,
}
use s3mer.Streaming.Shared.Readers.{next, read-next, ahead, reads, reads-ahead}

-- The specification: by the size of the whole body, it stays in memory or goes to a file.
unfoldable pub stored : StreamConfig → Bytes → MultiSyncBodyBuffer
stored config body =
    if leb (length body) config.max_memory_size
    then of_data body config.chunk_size
    else of_path body config.chunk_size

unfoldable pub files_after : StreamConfig → Bytes → Files → Files
files_after config body files =
    if leb (length body) config.max_memory_size then files else suc files

unfoldable pub outcome : StreamConfig → Bytes → Option Exn → Result (Option MultiSyncBodyBuffer)
unfolding stored
outcome config body none = ok (some (stored config body))
outcome config body (some e) = raised e

at_end_lem :
    (config : StreamConfig) (body : Bytes) (end : Option Exn) (files : Files)
    → leb (length body) config.max_memory_size ≡ true
    → at_end config body end files ≡ (outcome config body end, files_after config body files)
unfolding at_end outcome stored files_after
at_end_lem config body none files h = rw h refl
at_end_lem config body (some e) files h = rw h refl

spill_lem :
    (config : StreamConfig) (before : Bytes) (rest : List Bytes) (end : Option Exn) (files : Files)
    → leb (length (before ++ concat rest)) config.max_memory_size ≡ false
    → spill config before rest end files ≡ (
      outcome config (before ++ concat rest) end,
      files_after config (before ++ concat rest) files,
    )
unfolding spill outcome stored files_after
spill_lem config before rest none files h = rw h refl
spill_lem config before rest (some e) files h = rw h refl

longer :
    (limit : ℕ) (xs ys : Bytes)
    → leb (length xs) limit ≡ false
    → leb (length (xs ++ ys)) limit ≡ false
longer limit xs ys h = ground (arith, length-append xs ys)

module _ (config : StreamConfig) (end : Option Exn) where
  Fits : Bytes → List Bytes → Files → Type 0
  Fits before rest files =
      leb (length before) config.max_memory_size ≡ true
      → collect config before (length before) rest end files ≡ (
        outcome config (before ++ concat rest) end,
        files_after config (before ++ concat rest) files,
      )

  collect_if :
      (before chunk : Bytes) (rest : List Bytes) (files : Files) (fits : Bool)
      → leb (length (before ++ chunk)) config.max_memory_size ≡ fits
      → Fits (before ++ chunk) rest files
      → (if fits
          then collect config (before ++ chunk) (length (before ++ chunk)) rest end files
          else spill config (before ++ chunk) rest end files)
        ≡ (
          outcome config ((before ++ chunk) ++ concat rest) end,
          files_after config ((before ++ chunk) ++ concat rest) files,
        )
  unfolding Fits
  collect_if before chunk rest files true e next = next e
  collect_if before chunk rest files false e next =
      spill_lem config (before ++ chunk) rest end files (longer _ (before ++ chunk) (concat rest) e)

  collect_lem : (before : Bytes) (rest : List Bytes) (files : Files) → Fits before rest files
  unfolding Fits collect
  collect_lem before [] files h = rw append-nil (at_end_lem config before end files h)
  collect_lem before (chunk ∷ rest) files h =
      rw (sym (length-append before chunk), sym (append_assoc before chunk (concat rest)))
        (collect_if before chunk rest files _ refl (collect_lem (before ++ chunk) rest files))

-- A streamed body that ends is kept whole, in memory exactly if all of it has at most the configured size, and
-- otherwise in one new temporary file; if reading it fails, the error is raised, and a temporary file
-- stays behind exactly if more than the configured size had been read before.
pub from_body_lem :
    (config : StreamConfig) (chunks : List Bytes) (end : Option Exn) (files : Files)
    → from_body (stream chunks end) config files
      ≡ (outcome config (concat chunks) end, files_after config (concat chunks) files)
unfolding from_body Fits
from_body_lem config chunks end files =
    collect_lem config end [] chunks files (le→leb 0 config.max_memory_size (omega arith))

-- The buffer has a reader, whose reads will return the body.
unfoldable pub Serves : MultiSyncBodyBuffer → Bytes → Type 0
Serves b body = (r : BodyReader) × ((new_reader b ≡ ok r) × (ahead r ≡ body))

pub of_data-Serves : (body : Bytes) (size : ℕ) → Serves (of_data body size) body
unfolding Serves new_reader ahead
of_data-Serves body size = (_, (refl, refl))

of_path-Serves : (body : Bytes) (size : ℕ) → Serves (of_path body size) body
unfolding Serves new_reader ahead
of_path-Serves body size = (_, (refl, refl))

pub stored-Serves : (config : StreamConfig) (body : Bytes) → Serves (stored config body) body
unfolding stored
stored-Serves config body = either (leb (length body) config.max_memory_size)
  where
    either :
        (b : Bool)
        → Serves (if b then of_data body config.chunk_size else of_path body config.chunk_size) body
    either true = of_data-Serves body config.chunk_size
    either false = of_path-Serves body config.chunk_size

close-stored :
    (config : StreamConfig) (body : Bytes) (files : Files)
    → (close (stored config body) (files_after config body files)).1 ≡ files
unfolding stored files_after close
close-stored config body files = either (leb (length body) config.max_memory_size)
  where
    either :
        (b : Bool)
        → (elim (if b
            then of_data body config.chunk_size
            else of_path body config.chunk_size).path [
              | none ↦ if b then files else suc files
              | some bs ↦ (if b then files else suc files) - 1
            ])
          ≡ files
    either true = refl
    either false = omega arith

-- A buffer made of a stream that ends gives every reader the whole body from its first byte, whatever sizes are read
-- and wherever the body is kept: what was read is followed by what is ahead, and after any reads another
-- one returns all that is ahead, or as much of it as it asks for. Closing the buffer removes the temporary file that
-- was made for it.
pub from_body-readers :
    (config : StreamConfig) (chunks : List Bytes) (files : Files) (ns : List Amount)
    → (b : MultiSyncBodyBuffer) × ((r : BodyReader) × (((from_body
              (stream chunks none)
              config
              files).0
            ≡ ok (some b))
          × (new_reader b ≡ ok r)
          × (concat (reads ns r).0 ++ ahead (reads ns r).1 ≡ concat chunks)
          × ((n : Amount) → (read n (reads ns r).1).0 ≡ next n (ahead (reads ns r).1))
          × ((close b (from_body (stream chunks none) config files).1).1 ≡ files)))
unfolding outcome Serves
from_body-readers config chunks files ns =
    let made = from_body_lem config chunks none files in
    let (r, (open_r, body)) = stored-Serves config (concat chunks) in
    (
      stored config (concat chunks),
      (
        r,
        (
          ap (λ p. p.0) made,
          open_r,
          reads-ahead ns r ∙ body,
          λ n. read-next n (reads ns r).1,
          ap (λ p. (close (stored config (concat chunks)) p.1).1) made
              ∙ close-stored config (concat chunks) files,
        ),
      ),
    )
