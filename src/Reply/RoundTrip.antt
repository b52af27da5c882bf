-- ===== src/Reply/RoundTrip.antt =====
-- The parser of src/resp.c reads back the replies of src/reply.c, and the requests of its clients.
use pulse_db.Prelude.{
  zero, suc, [], ◌∷◌, true, false, pos, ℕ, ◌+◌, ◌≤◌, ◌≡◌, ◌≢◌, refl, ◌∙◌, ltb, ℤ, ◌++◌, map, length,
  arith, length-append, All, append_assoc, take-length, drop-length, length-map,
}
use pulse_db.Prelude.Bytes.{Bytes}
use pulse_db.Prelude.Decimal.{decimal, signed_decimal}
use pulse_db.Resp.{
  RespValue, Elements, nil, cons, array, null, simple_string, error_string, integer, bulk_string,
  Parse, ok, after_cr, line_end, find_line_end, number_from, number_digits, number_text,
  parse_number, line_number, read_number_line, end_payload, bulk_payload, parse_bulk,
  parse_elements, array_elements, parse_array, parse_typed, parse_value, max_depth, max_inline_len,
  max_bulk_len, max_array_len, resp_parse_reply, resp_parse_command, request_count,
}
use pulse_db.Reply.{
  crlf, error_byte, reply_simple, reply_error, reply_integer, reply_bulk, reply_null, reply_array,
}
use pulse_db.Reply.Lines.{
  NotCr, line_end-line, IsSymmetric, read_number_line-decimal, count-RoundTrip,
}

payload-RoundTrip :
    (b rest : Bytes)
    → length b ≤ max_bulk_len
    → bulk_payload (pos (length b)) (b ++ (crlf ++ rest)) ≡ ok (bulk_string b) rest
unfolding bulk_payload end_payload
payload-RoundTrip b rest h =
    let small : ltb max_bulk_len (length b) ≡ false = ground arith in
    let all : ltb (length (b ++ (crlf ++ rest))) (length b + 2) ≡ false =
      ground (arith, length-append b (crlf ++ rest)) in
    rw (small, all, take-length b (crlf ++ rest), drop-length b (crlf ++ rest)) refl

bulk_text-RoundTrip :
    (b rest : Bytes)
    → length b ≤ max_bulk_len
    → parse_bulk ((decimal (length b) ++ (crlf ++ (b ++ crlf))) ++ rest) ≡ ok (bulk_string b) rest
unfolding parse_bulk
bulk_text-RoundTrip b rest h =
    let text = append_assoc (decimal (length b)) (crlf ++ (b ++ crlf)) rest in
    let line = count-RoundTrip (length b) ((b ++ crlf) ++ rest) (omega arith) in
    rw (text, line, append_assoc b crlf rest) (payload-RoundTrip b rest h)

error_byte-NotCr : (s : Bytes) → All NotCr (map error_byte s)
error_byte-NotCr [] = tt
error_byte-NotCr (c ∷ s) = (ground arith, error_byte-NotCr s)

-- Neither a carriage return nor a newline.
abbrev pub InLine : ℕ → Type 0
InLine c = (c ≢ b'\r') × (c ≢ b'\n')

error_byte_same : (c : ℕ) → InLine c → error_byte c ≡ c
error_byte_same c h = ground arith

map-error_byte : (s : Bytes) → All InLine s → map error_byte s ≡ s
map-error_byte [] h = refl
map-error_byte (c ∷ s) h = rw (error_byte_same c h.0, map-error_byte s h.1) refl

module _ (levels : ℕ) (rest : Bytes) where
  simple-RoundTrip :
      (s : Bytes)
      → All NotCr s
      → length s ≤ max_inline_len
      → parse_value false (suc levels) (reply_simple [] s ++ rest) ≡ ok (simple_string s) rest
  unfolding parse_value reply_simple parse_typed find_line_end
  simple-RoundTrip s h l =
      rw (append_assoc s crlf rest, line_end-line max_inline_len 0 s rest h (omega arith)) refl

  error-RoundTrip :
      (s : Bytes)
      → length s ≤ max_inline_len
      → parse_value false (suc levels) (reply_error [] s ++ rest)
        ≡ ok (error_string (map error_byte s)) rest
  unfolding parse_value reply_error parse_typed find_line_end
  error-RoundTrip s l =
      rw
        (
          append_assoc (map error_byte s) crlf rest,
          line_end-line max_inline_len 0 (map error_byte s) rest (error_byte-NotCr s)
              (rw length-map (omega arith)),
        )
        refl

  integer-RoundTrip :
      (z : ℤ)
      → IsSymmetric z
      → parse_value false (suc levels) (reply_integer [] z ++ rest) ≡ ok (integer z) rest
  unfolding parse_value reply_integer parse_typed
  integer-RoundTrip z h =
      rw (append_assoc (signed_decimal z) crlf rest, read_number_line-decimal z rest h) refl

  bulk-RoundTrip :
      (b : Bytes)
      → length b ≤ max_bulk_len
      → parse_value false (suc levels) (reply_bulk [] b ++ rest) ≡ ok (bulk_string b) rest
  unfolding parse_value reply_bulk parse_typed
  bulk-RoundTrip b h = bulk_text-RoundTrip b rest h

  null-RoundTrip : parse_value false (suc levels) (reply_null [] ++ rest) ≡ ok null rest
  unfolding parse_value reply_null parse_typed parse_bulk read_number_line find_line_end line_end
      after_cr parse_number number_text number_digits number_from line_number bulk_payload
  null-RoundTrip = refl

-- The number of elements.
abbrev pub size : Elements → ℕ
size nil = 0
size (cons v vs) = suc (size vs)

-- A reply as the encoders write it: an array is its head and then its elements.
unfoldable mutual
  pub encode : RespValue → Bytes
  encode (simple_string s) = reply_simple [] s
  encode (error_string s) = reply_error [] s
  encode (integer z) = reply_integer [] z
  encode (bulk_string s) = reply_bulk [] s
  encode null = reply_null []
  encode (array vs) = reply_array [] (size vs) ++ encode_all vs

  pub encode_all : Elements → Bytes
  encode_all nil = []
  encode_all (cons v vs) = encode v ++ encode_all vs

abbrev pub AllElements : (RespValue → Type 0) → Elements → Type 0
AllElements P nil = Unit
AllElements P (cons v vs) = P v × AllElements P vs

-- The replies that the limits of the parser let through, with `levels` of nesting left.
abbrev pub Fits : ℕ → RespValue → Type 0
Fits zero v = ⊥
Fits (suc levels) (simple_string s) = All NotCr s × (length s ≤ max_inline_len)
Fits (suc levels) (error_string s) = All InLine s × (length s ≤ max_inline_len)
Fits (suc levels) (integer z) = IsSymmetric z
Fits (suc levels) (bulk_string s) = length s ≤ max_bulk_len
Fits (suc levels) null = Unit
Fits (suc levels) (array vs) = (size vs ≤ max_array_len) × AllElements (Fits levels) vs

elements-RoundTrip :
    (parse : Bytes → Parse RespValue) (P : RespValue → Type 0)
    → ((v : RespValue) (rest : Bytes) → P v → parse (encode v ++ rest) ≡ ok v rest)
    → (vs : Elements) (rest : Bytes) → AllElements P vs
    → parse_elements parse (size vs) (encode_all vs ++ rest) ≡ ok vs rest
unfolding parse_elements encode_all
elements-RoundTrip parse P back nil rest h = refl
elements-RoundTrip parse P back (cons v vs) rest h =
    rw
      (
        append_assoc (encode v) (encode_all vs) rest,
        back v (encode_all vs ++ rest) h.0,
        elements-RoundTrip parse P back vs rest h.1,
      )
      refl

array_text :
    (n : ℕ) (vs rest : Bytes)
    → (reply_array [] n ++ vs) ++ rest ≡ b'*' ∷ (decimal n ++ b'\r' ∷ b'\n' ∷ (vs ++ rest))
unfolding reply_array
array_text n vs rest =
    rw (append_assoc (decimal n) crlf vs, append_assoc (decimal n) (crlf ++ vs) rest) refl

array-RoundTrip :
    (levels : ℕ) (vs : Elements) (rest : Bytes)
    → size vs ≤ max_array_len
    → parse_elements (parse_value false levels) (size vs) (encode_all vs ++ rest) ≡ ok vs rest
    → parse_value false (suc levels) (encode (array vs) ++ rest) ≡ ok (array vs) rest
unfolding encode parse_value parse_typed parse_array array_elements
array-RoundTrip levels vs rest h e =
    let line = count-RoundTrip (size vs) (encode_all vs ++ rest) (omega arith) in
    let small : ltb max_array_len (size vs) ≡ false = ground arith in
    rw (array_text (size vs) (encode_all vs) rest, line, small, e) refl

-- Reading a reply back.
pub parse_value-encode :
    (levels : ℕ) (v : RespValue) (rest : Bytes)
    → Fits levels v
    → parse_value false levels (encode v ++ rest) ≡ ok v rest
unfolding encode
parse_value-encode zero v rest h = absurd h
parse_value-encode (suc levels) (simple_string s) rest h = simple-RoundTrip levels rest s h.0 h.1
parse_value-encode (suc levels) (error_string s) rest h =
    error-RoundTrip levels rest s h.1 ∙ rw (map-error_byte s h.0) refl
parse_value-encode (suc levels) (integer z) rest h = integer-RoundTrip levels rest z h
parse_value-encode (suc levels) (bulk_string s) rest h = bulk-RoundTrip levels rest s h
parse_value-encode (suc levels) null rest h = null-RoundTrip levels rest
parse_value-encode (suc levels) (array vs) rest h = array-RoundTrip levels vs rest h.0 (
    elements-RoundTrip (parse_value false levels) (Fits levels) (parse_value-encode levels) vs rest
      h.1)

-- A reply within the limits of the parser (lengths, counts, 17 levels, lines without line breaks,
-- integers other than the least one), as the encoders write it, is read back by
-- `resp_parse_reply` with exactly the bytes behind it left over.
pub resp_parse_reply-encode :
    (v : RespValue) (rest : Bytes)
    → Fits (max_depth + 1) v
    → resp_parse_reply (encode v ++ rest) ≡ ok v rest
unfolding resp_parse_reply
resp_parse_reply-encode v rest h = parse_value-encode (max_depth + 1) v rest h

-- An argument of a request.
abbrev pub IsArgument : RespValue → Type 0
IsArgument (simple_string s) = ⊥
IsArgument (error_string s) = ⊥
IsArgument (integer z) = ⊥
IsArgument (bulk_string s) = length s ≤ max_bulk_len
IsArgument null = ⊥
IsArgument (array vs) = ⊥

argument-RoundTrip :
    (levels : ℕ) (v : RespValue) (rest : Bytes)
    → IsArgument v
    → parse_value true (suc levels) (encode v ++ rest) ≡ ok v rest
unfolding encode parse_value reply_bulk parse_typed
argument-RoundTrip levels (simple_string s) rest h = absurd h
argument-RoundTrip levels (error_string s) rest h = absurd h
argument-RoundTrip levels (integer z) rest h = absurd h
argument-RoundTrip levels (bulk_string s) rest h = bulk_text-RoundTrip s rest h
argument-RoundTrip levels null rest h = absurd h
argument-RoundTrip levels (array vs) rest h = absurd h

-- A request of bulk strings within the limits, as `reply_array` and `reply_bulk` write it, is
-- read back by `resp_parse_command` with exactly the bytes behind it left over, whatever bytes
-- its arguments hold.
pub resp_parse_command-encode :
    (vs : Elements) (rest : Bytes)
    → size vs ≤ max_array_len
    → AllElements IsArgument vs
    → resp_parse_command (encode (array vs) ++ rest) ≡ ok (array vs) rest
unfolding encode resp_parse_command request_count parse_array array_elements
resp_parse_command-encode vs rest h args =
    let line = count-RoundTrip (size vs) (encode_all vs ++ rest) (omega arith) in
    let small : ltb max_array_len (size vs) ≡ false = ground arith in
    let elements =
      elements-RoundTrip (parse_value true max_depth) IsArgument (argument-RoundTrip 15) vs rest
        args in
    rw (array_text (size vs) (encode_all vs) rest, line, line, small, elements) refl
