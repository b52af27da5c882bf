-- ===== src/Reply.antt =====
-- src/reply.c: the encoders of replies. Each appends to the text of an output buffer.
use pulse_db.Prelude.{
  zero, suc, [], ◌∷◌, none, some, true, false, pos, negsuc, Bool-cases, Option-cases, inl, inr, ℕ,
  ◌==◌, ◌||◌, ℤ, Bool, List, ◌++◌, map, if◌then◌else◌, length, take,
}
pub mod Lines
pub mod RoundTrip
use pulse_db.Prelude.Bytes.{Bytes}
use pulse_db.Prelude.Decimal.{decimal, signed_decimal}

abbrev pub crlf : Bytes
crlf = b'\r' ∷ b'\n' ∷ []

unfoldable pub reply_simple : Bytes → Bytes → Bytes
reply_simple out msg = out ++ b'+' ∷ (msg ++ crlf)

-- Error lines cannot contain CR or LF.
abbrev pub error_byte : ℕ → ℕ
error_byte c = if c == b'\r' || c == b'\n' then b' ' else c

unfoldable pub reply_error : Bytes → Bytes → Bytes
reply_error out msg = out ++ b'-' ∷ (map error_byte msg ++ crlf)

-- `reply_errorf`, with the text that the format gives: the buffer takes 511 bytes.
unfoldable pub reply_errorf : Bytes → Bytes → Bytes
reply_errorf out text = reply_error out (take 511 text)

unfoldable pub reply_integer : Bytes → ℤ → Bytes
reply_integer out val = out ++ b':' ∷ (signed_decimal val ++ crlf)

unfoldable pub reply_bulk : Bytes → Bytes → Bytes
reply_bulk out data_bytes =
    out ++ b'$' ∷ (decimal (length data_bytes) ++ (crlf ++ (data_bytes ++ crlf)))

unfoldable pub reply_null : Bytes → Bytes
reply_null out = out ++ b'$' ∷ b'-' ∷ b'1' ∷ crlf

unfoldable pub reply_null_array : Bytes → Bytes
reply_null_array out = out ++ b'*' ∷ b'-' ∷ b'1' ∷ crlf

unfoldable pub reply_array : Bytes → ℕ → Bytes
reply_array out count = out ++ b'*' ∷ (decimal count ++ crlf)
