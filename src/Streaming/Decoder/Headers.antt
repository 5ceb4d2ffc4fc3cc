-- ===== src/Streaming/Decoder/Headers.antt =====
-- How the decoder reads the header of a well-formed chunk.
use mathlib.Core.Option
use s3mer.Base.{
  ℕ, suc, ◌+◌, ◌≡◌, refl, sym, ap, ◌∙◌, false, ◌==◌, some, [], ◌∷◌, ◌++◌, length, take, drop,
  take-append, drop-append, drop-drop,
}
use s3mer.Base.Int.{pos}
use s3mer.Streaming.Bytes.{Bytes}
use s3mer.Streaming.Hex.{int_16}
use s3mer.Streaming.Encoding.{crlf, header, IsExtension, HasNo, IsHeader}
use s3mer.Streaming.Decoder.{
  Decoder, find_crlf, before_semicolon, start_chunk, parse_header, with_header,
}

no_cr_first :
    (c x : ℕ) (xs : Bytes)
    → (c == 13) ≡ false
    → find_crlf (c ∷ x ∷ xs) ≡ Option.map suc (find_crlf (x ∷ xs))
unfolding find_crlf
no_cr_first c x xs h = rw h refl

pub find_crlf-crlf : (h rest : Bytes) → HasNo 13 h → find_crlf (h ++ crlf rest) ≡ some (length h)
find_crlf-crlf [] rest n = unfold find_crlf in refl
find_crlf-crlf (c ∷ []) rest n =
    no_cr_first c 13 (10 ∷ rest) n.0 ∙ ap (Option.map suc) (find_crlf-crlf [] rest tt)
find_crlf-crlf (c ∷ x ∷ xs) rest n =
    no_cr_first c x (xs ++ crlf rest) n.0 ∙ ap (Option.map suc) (find_crlf-crlf (x ∷ xs) rest n.1)

pub before_semicolon-header :
    (size extension : Bytes)
    → HasNo b';' size
    → IsExtension extension
    → before_semicolon (header size extension) ≡ size
unfolding before_semicolon
before_semicolon-header [] [] n e = refl
before_semicolon-header [] (c ∷ cs) n e = rw e refl
before_semicolon-header (c ∷ cs) extension n e =
    rw n.0 (ap (λ t. c ∷ t) (before_semicolon-header cs extension n.1 e))

drop_line : (h rest : Bytes) → drop (length h + 2) (h ++ crlf rest) ≡ rest
drop_line h rest =
    sym (drop-drop 2 (length h) (h ++ crlf rest)) ∙ ap (drop 2) (drop-append h (crlf rest))

-- A header at the front of the raw buffer is read, and taken off with its end of line.
pub with_header-encode :
    (d : Decoder) (size extension : Bytes) (n : ℕ) (rest : Bytes)
    → IsHeader size extension n
    → d.raw_buffer ≡ header size extension ++ crlf rest
    → with_header d ≡ start_chunk (some (pos n)) (record d { raw_buffer = rest })
unfolding with_header parse_header
with_header-encode d size extension n rest h e =
    let line = header size extension in
    let p = length line in
    let size_read : int_16 (before_semicolon (take p (line ++ crlf rest))) ≡ some (pos n) =
      ap (λ t. int_16 (before_semicolon t)) (take-append line (crlf rest))
      ∙ ap int_16 (before_semicolon-header size extension h.size_plain h.extension_starts)
      ∙ h.reads in
    ap (λ o. parse_header o d) (ap find_crlf e ∙ find_crlf-crlf line rest h.one_line)
    ∙ ap
        (λ t.
          start_chunk (int_16 (before_semicolon (take p t)))
            (record d { raw_buffer = drop (p + 2) t }))
        e
    ∙ ap (λ o. start_chunk o (record d { raw_buffer = drop (p + 2) (line ++ crlf rest) })) size_read
    ∙ ap (λ t. start_chunk (some (pos n)) (record d { raw_buffer = t })) (drop_line line rest)
