-- ===== src/Streaming/Encoding.antt =====
-- The aws-chunked format, as its clients write it: chunks with a header, their bytes and a
-- delimiter, then a header of size 0. It does not mention the decoder.
use s3mer.Base.{ℕ, ◌≡◌, ◌≢◌, false, ◌==◌, some, [], ◌∷◌, ◌++◌, length, All}
use s3mer.Base.Int.{pos}
use s3mer.Streaming.Bytes.{Bytes}
use s3mer.Streaming.Hex.{int_16}

-- A header is the size and an extension, such as `;chunk-signature=…`.
pub data Stream : Type 0 where
  final : (size extension trailer : Bytes) → Stream
  chunk : (size extension payload : Bytes) → Stream → Stream

abbrev pub crlf : Bytes → Bytes
crlf rest = 13 ∷ 10 ∷ rest

abbrev pub header : Bytes → Bytes → Bytes
header size extension = size ++ extension

abbrev pub encode : Stream → Bytes
encode (final size extension trailer) = header size extension ++ crlf trailer
encode (chunk size extension payload s) = header size extension ++ crlf (payload ++ crlf (encode s))

abbrev pub decoded : Stream → Bytes
decoded (final size extension trailer) = []
decoded (chunk size extension payload s) = payload ++ decoded s

abbrev pub IsExtension : Bytes → Type 0
IsExtension [] = Unit
IsExtension (c ∷ cs) = c ≡ b';'

abbrev pub HasNo : ℕ → Bytes → Type 0
HasNo b cs = All (λ c. (c == b) ≡ false) cs

-- The size field reads as the number of bytes; no header holds a carriage return.
pub record IsHeader (size extension : Bytes) (n : ℕ) : Type 0 where
  pub reads : int_16 size ≡ some (pos n)
  pub size_plain : HasNo b';' size
  pub extension_starts : IsExtension extension
  pub one_line : HasNo 13 (header size extension)

abbrev pub IsStream : Stream → Type 0
IsStream (final size extension trailer) = IsHeader size extension 0
IsStream (chunk size extension payload s) =
    IsHeader size extension (length payload) × (payload ≢ []) × IsStream s
