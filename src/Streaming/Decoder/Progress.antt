-- ===== src/Streaming/Decoder/Progress.antt =====
-- What a fill of the raw buffer does, and why the loop of `read` ends.
use s3mer.Base.{
  ℕ, zero, suc, ◌≤◌, ◌<◌, ◌≡◌, refl, sym, ap, ◌∙◌, Bool, true, false, leb, leb→le, leb→lt, ◌≢◌, [],
  ◌∷◌, ◌++◌, length, take, length-append, take-append-drop, arith, if◌then◌else◌,
}
use mathlib.Core.List.{append_assoc}
use s3mer.Streaming.Bytes.{Bytes, at_most, is_empty}
use s3mer.Streaming.Reader
use s3mer.Streaming.Reader.{Reader}
use s3mer.Streaming.Reader.Laws.{remaining, read_at_most, nothing_taken}
use s3mer.Streaming.Decoder.{Decoder, fill, fill_raw_buffer}

-- A fill of at least `n` bytes moves bytes from the reader to the raw buffer, in order, and
-- changes nothing else; it fails exactly when fewer than `n` bytes are left in all.
pub record Filled (n : ℕ) (d : Decoder) (r : Bool × Decoder) : Type 0 where
  pub total : r.1.raw_buffer ++ remaining r.1.reader ≡ d.raw_buffer ++ remaining d.reader
  pub success : r.0 ≡ true → n ≤ length r.1.raw_buffer
  pub failure : r.0 ≡ false → (length r.1.raw_buffer < n) × (remaining r.1.reader ≡ [])
  pub grows : length d.raw_buffer ≤ length r.1.raw_buffer
  pub decoded : r.1.decoded_buffer ≡ d.decoded_buffer
  pub eof : r.1.eof ≡ d.eof
  pub current : r.1.current_chunk_remaining ≡ d.current_chunk_remaining
  pub state : r.1.state ≡ d.state
  pub chunk_size : r.1.chunk_size ≡ d.chunk_size

Filled-if :
    (n : ℕ) (d : Decoder) (t : Bool) (x y : Bool × Decoder)
    → (t ≡ true → Filled n d x)
    → (t ≡ false → Filled n d y)
    → Filled n d (if t then x else y)
Filled-if n d true x y p q = p refl
Filled-if n d false x y p q = q refl

shorter : (xs ys zs : Bytes) (f : ℕ) → xs ≢ [] → xs ++ ys ≡ zs → length zs < suc f → length ys < f
shorter [] ys zs f ne e h = absurd (ne refl)
shorter (x ∷ xs) ys zs f ne e h = omega (arith, ap length e, length-append (x ∷ xs) ys)

-- one round of the loop, which got `chunk` from the reader
fill_round :
    (n f : ℕ) (d : Decoder) (chunk : Bytes) (r : Reader)
    → 0 < d.chunk_size
    → chunk ++ remaining r ≡ remaining d.reader
    → (chunk ≡ [] → remaining d.reader ≡ [])
    → length d.raw_buffer < n
    → (chunk ≢ []
        → Filled n
            (record d { reader = r; raw_buffer = d.raw_buffer ++ chunk })
            (fill f n (record d { reader = r; raw_buffer = d.raw_buffer ++ chunk })))
    → Filled n d (
        if is_empty chunk
        then (false, record d { reader = r })
        else fill f n (record d { reader = r; raw_buffer = d.raw_buffer ++ chunk }))
fill_round n f d [] r p e none_left short ih = record {
  total = ap (λ t. d.raw_buffer ++ t) e;
  success = λ h. cc;
  failure = λ h. (short, e ∙ none_left refl);
  grows = omega arith;
  decoded = refl;
  eof = refl;
  current = refl;
  state = refl;
  chunk_size = refl;
}
fill_round n f d (c ∷ cs) r p e none_left short ih =
    let rest = ih (λ h. cc) in
    record {
      total =
          rest.total
          ∙ append_assoc d.raw_buffer (c ∷ cs) (remaining r)
          ∙ ap (λ t. d.raw_buffer ++ t) e;
      success = rest.success;
      failure = rest.failure;
      grows = omega (arith, rest.grows, length-append d.raw_buffer (c ∷ cs));
      decoded = rest.decoded;
      eof = rest.eof;
      current = rest.current;
      state = rest.state;
      chunk_size = rest.chunk_size;
    }

fill-Filled :
    (f n : ℕ) (d : Decoder)
    → 0 < d.chunk_size
    → length (remaining d.reader) < f
    → Filled n d (fill f n d)
unfolding fill
fill-Filled zero n d p h = absurd (omega arith)
fill-Filled (suc f) n d p h =
    Filled-if n d (leb n (length d.raw_buffer)) _ _
      (λ enough. record {
        total = refl;
        success = λ _. leb→le n (length d.raw_buffer) enough;
        failure = λ e. cc;
        grows = omega arith;
        decoded = refl;
        eof = refl;
        current = refl;
        state = refl;
        chunk_size = refl;
      })
      (λ short.
        let (chunk, r) = Reader.read (at_most d.chunk_size) d.reader in
        let (got, left) = read_at_most d.chunk_size d.reader in
        let whole : chunk ++ remaining r ≡ remaining d.reader =
          ap (λ c. c ++ remaining r) got
          ∙ ap (λ t. take d.chunk_size (remaining d.reader) ++ t) left
          ∙ take-append-drop d.chunk_size (remaining d.reader) in
        fill_round n f d chunk r p whole
          (λ e. nothing_taken d.chunk_size (remaining d.reader) p (sym got ∙ e))
          (leb→lt n (length d.raw_buffer) short)
          (λ ne.
            fill-Filled f n (record d { reader = r; raw_buffer = d.raw_buffer ++ chunk }) p
              (shorter chunk (remaining r) (remaining d.reader) f ne whole h)))

-- The fuel of `fill_raw_buffer` is enough.
pub fill_raw_buffer-Filled :
    (n : ℕ) (d : Decoder) → 0 < d.chunk_size → Filled n d (fill_raw_buffer n d)
unfolding fill_raw_buffer
fill_raw_buffer-Filled n d p = fill-Filled (suc (length (remaining d.reader))) n d p (omega arith)
