-- ===== src/Resp.antt =====
-- src/resp.c and src/resp.h: the parser of the Redis protocol. A position in the buffer is the text
-- from there to the end of what has arrived.
pub mod Stable
pub mod Shorter
use pulse_db.Prelude.{
  ℕ, zero, suc, ◌+◌, ◌-◌, ◌*◌, ◌==◌, ltb, leb, ℤ, pos, negsuc, Bool, true, false, not, ◌&&◌, ◌||◌,
  List, [], ◌∷◌, ◌++◌, if◌then◌else◌, length, take, drop, Option, none, some,
}
use pulse_db.Prelude.Bytes.{Bytes}
use pulse_db.Prelude.Decimal.{is_digit, int64_max}

-- A value, with the list of the elements of an array.
mutual
  pub data RespValue : Type 0 where
    simple_string : Bytes → RespValue
    error_string : Bytes → RespValue
    integer : ℤ → RespValue
    bulk_string : Bytes → RespValue
    array : Elements → RespValue
    null : RespValue

  pub data Elements : Type 0 where
    nil : Elements
    cons : RespValue → Elements → Elements

-- The outcome of parsing: a result and the text behind it, or one of the other two statuses.
-- `undefined` stands for a signed overflow in `parse_number`, which C leaves undefined.
pub data Parse {ℓ} (A : Type ℓ) : Type ℓ where
  ok : A → Bytes → Parse A
  incomplete : Parse A
  error : Parse A
  undefined : Parse A

abbrev pub bind {ℓ κ} : {A : Type ℓ} {B : Type κ} → Parse A → (A → Bytes → Parse B) → Parse B
bind (ok a s) f = f a s
bind incomplete f = incomplete
bind error f = error
bind undefined f = undefined

abbrev pub max_bulk_len : ℕ
max_bulk_len = 64 * 1024 * 1024

abbrev pub max_array_len : ℕ
max_array_len = 1024 * 1024

abbrev pub max_inline_len : ℕ
max_inline_len = 64 * 1024

abbrev pub max_depth : ℕ
max_depth = 16

-- The byte behind a `\r`.
unfoldable pub after_cr : Bytes → Parse Bytes
after_cr [] = incomplete
after_cr (d ∷ s) = if d == b'\n' then ok [] s else error

-- The loop of `find_line_end` with `n` bytes of the line behind it: the rest of the line, and the
-- text behind its end.
unfoldable pub line_end : ℕ → ℕ → Bytes → Parse Bytes
line_end max_line n [] = if ltb max_line n then error else incomplete
line_end max_line n (c ∷ s) =
    let rest = bind (line_end max_line (n + 1) s) (λ line s'. ok (c ∷ line) s') in
    if c == b'\r' then after_cr s else if ltb max_line n then error else rest

unfoldable pub find_line_end : ℕ → Bytes → Parse Bytes
find_line_end max_line s = line_end max_line 0 s

pub data Number : Type 0 where
  number : ℤ → Number
  malformed : Number
  overflow : Number

-- The loop of `parse_number`; a `long long` that overflows is undefined.
unfoldable pub number_from : ℕ → Bytes → Number
number_from v [] = number (pos v)
number_from v (c ∷ s) =
    let rest = number_from (v * 10 + (c - 48)) s in
    if is_digit c then (if ltb int64_max (v * 10 + (c - 48)) then overflow else rest) else malformed

-- `-v`
abbrev pub negate : Number → Number
negate (number (pos zero)) = number (pos 0)
negate (number (pos (suc n))) = number (negsuc n)
negate (number (negsuc n)) = number (pos (suc n))
negate malformed = malformed
negate overflow = overflow

-- The digits behind the sign: there is at least one.
unfoldable pub number_digits : Bytes → Number
number_digits [] = malformed
number_digits (c ∷ s) = number_from 0 (c ∷ s)

unfoldable pub number_text : Bytes → Number
number_text [] = malformed
number_text (c ∷ s) = if c == b'-' then negate (number_digits s) else number_digits (c ∷ s)

unfoldable pub parse_number : Bytes → Number
parse_number s = if ltb 20 (length s) then malformed else number_text s

unfoldable pub line_number : Number → Bytes → Parse ℤ
line_number (number z) s = ok z s
line_number malformed s = error
line_number overflow s = undefined

unfoldable pub read_number_line : Bytes → Parse ℤ
read_number_line s = bind (find_line_end 32 s) (λ line s'. line_number (parse_number line) s')

-- The two bytes behind a payload.
unfoldable pub end_payload : Bytes → Bytes → Parse RespValue
end_payload payload [] = incomplete
end_payload payload (c ∷ []) = incomplete
end_payload payload (c ∷ d ∷ s) =
    if not (c == b'\r') || not (d == b'\n') then error else ok (bulk_string payload) s

unfoldable pub bulk_payload : ℤ → Bytes → Parse RespValue
bulk_payload (negsuc zero) s = ok null s
bulk_payload (negsuc (suc n)) s = error
bulk_payload (pos blen) s =
    if ltb max_bulk_len blen
    then error
    else if ltb (length s) (blen + 2)
    then incomplete
    else end_payload (take blen s) (drop blen s)

unfoldable pub parse_bulk : Bytes → Parse RespValue
parse_bulk s = bind (read_number_line s) bulk_payload

-- The loop of `parse_array`, with `parse` for an element.
unfoldable pub parse_elements : (Bytes → Parse RespValue) → ℕ → Bytes → Parse Elements
parse_elements parse zero s = ok nil s
parse_elements parse (suc n) s =
    bind (parse s) (λ v s'. bind (parse_elements parse n s') (λ vs s''. ok (cons v vs) s''))

unfoldable pub array_elements : (Bytes → Parse RespValue) → ℤ → Bytes → Parse RespValue
array_elements parse (negsuc zero) s = ok null s
array_elements parse (negsuc (suc n)) s = error
array_elements parse (pos count) s =
    if ltb max_array_len count
    then error
    else bind (parse_elements parse count s) (λ vs s'. ok (array vs) s')

unfoldable pub parse_array : (Bytes → Parse RespValue) → Bytes → Parse RespValue
parse_array parse s = bind (read_number_line s) (array_elements parse)

-- The `switch` of `parse_value`, on the byte and the text behind it.
unfoldable pub parse_typed : (Bytes → Parse RespValue) → ℕ → Bytes → Parse RespValue
parse_typed parse type s =
    if type == b'$'
    then parse_bulk s
    else if type == b'*'
    then parse_array parse s
    else if type == b'+'
    then bind (find_line_end max_inline_len s) (λ line s'. ok (simple_string line) s')
    else if type == b'-'
    then bind (find_line_end max_inline_len s) (λ line s'. ok (error_string line) s')
    else if type == b':'
    then bind (read_number_line s) (λ z s'. ok (integer z) s')
    else error

-- `levels` is `RESP_MAX_DEPTH + 1 - depth`, so none is left where `depth > RESP_MAX_DEPTH`.
unfoldable pub parse_value : Bool → ℕ → Bytes → Parse RespValue
parse_value bulk_only zero s = error
parse_value bulk_only (suc levels) [] = incomplete
parse_value bulk_only (suc levels) (type ∷ s) =
    if bulk_only && not (type == b'$')
    then error
    else parse_typed (parse_value bulk_only levels) type s

-- `memchr(buf, '\n', len)`: the line before it, and the text behind it.
unfoldable pub split_newline : Bytes → Option (Bytes × Bytes)
split_newline [] = none
split_newline (c ∷ s) =
    let rest = split_newline s in
    if c == b'\n' then some ([], s) else elim rest [ none ↦ none | some (a, b) ↦ some (c ∷ a, b) ]

-- The line without a final `\r`.
unfoldable pub strip_cr : Bytes → Bytes
strip_cr [] = []
strip_cr (c ∷ []) = if c == b'\r' then [] else c ∷ []
strip_cr (c ∷ d ∷ s) = c ∷ strip_cr (d ∷ s)

abbrev pub is_blank : ℕ → Bool
is_blank c = c == b' ' || c == 9

-- The loop over the words, with the bytes of the word before the position.
unfoldable pub split_words : Bytes → Bytes → Elements
split_words [] [] = nil
split_words (w ∷ word) [] = cons (bulk_string (w ∷ word)) nil
split_words [] (c ∷ s) = split_words (if is_blank c then [] else c ∷ []) s
split_words (w ∷ word) (c ∷ s) =
    let rest = split_words (if is_blank c then [] else (w ∷ word) ++ c ∷ []) s in
    if is_blank c then cons (bulk_string (w ∷ word)) rest else rest

unfoldable pub parse_inline : Bytes → Parse RespValue
parse_inline buf = elim (split_newline buf) [
  | none ↦ if ltb max_inline_len (length buf) then error else incomplete
  | some (line, rest) ↦
      if ltb max_inline_len (length line)
      then error
      else ok (array (split_words [] (strip_cr line))) rest
]

-- A request array: its count is not negative, and its elements are bulk strings.
unfoldable pub request_count : Bytes → ℤ → Bytes → Parse RespValue
request_count s (negsuc n) _ = error
request_count s (pos n) _ = parse_array (parse_value true max_depth) s

unfoldable pub resp_parse_command : Bytes → Parse RespValue
resp_parse_command [] = incomplete
resp_parse_command (c ∷ s) =
    if not (c == b'*') then parse_inline (c ∷ s) else bind (read_number_line s) (request_count s)

unfoldable pub resp_parse_reply : Bytes → Parse RespValue
resp_parse_reply buf = parse_value false (max_depth + 1) buf
