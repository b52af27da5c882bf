-- ===== src/Cli.antt =====
-- tools/cli.c, the command line client: the request it sends, how it prints a reply, and how it
-- splits a line into words.
use pulse_db.Resp.{
  RespValue, nil, simple_string, error_string, integer, bulk_string, array, cons, Elements, null,
}
use pulse_db.Prelude.{
  ◌%◌, Bool, ◌&&◌, ◌/◌, List, Option, [], if◌then◌else◌, length, ltb, map, none, some, suc, zero, ℕ,
  ◌++◌, ◌+◌, ◌-◌, ◌==◌, ◌||◌, ◌∷◌,
}
use pulse_db.Prelude.Bytes.{codes, Bytes}
use pulse_db.Prelude.Decimal.{decimal, signed_decimal}
use pulse_db.Reply.{crlf}
pub mod Lines
pub mod Ends
pub mod Requests
use mathlib.Core.Option
use pulse_db.Commands.Process.{c_str}

-- What `send_command` writes to the socket.
unfoldable pub bulk_words : List Bytes → Bytes
bulk_words [] = []
bulk_words (w ∷ ws) = b'$' ∷ (decimal (length w) ++ (crlf ++ (w ++ (crlf ++ bulk_words ws))))

unfoldable pub send_command : List Bytes → Bytes
send_command argv = b'*' ∷ (decimal (length argv) ++ (crlf ++ bulk_words argv))

-- A digit of `%02x`.
abbrev pub hex_digit : ℕ → ℕ
hex_digit n = if ltb n 10 then 48 + n else 87 + n

abbrev pub printed_byte : ℕ → Bytes
printed_byte c =
    if c == b'"' || c == b'\\'
    then b'\\' ∷ c ∷ []
    else if c == b'\n'
    then b'\\' ∷ b'n' ∷ []
    else if c == b'\r'
    then b'\\' ∷ b'r' ∷ []
    else if ltb c 32 || ltb 126 c
    then b'\\' ∷ b'x' ∷ hex_digit (c / 16) ∷ hex_digit (c % 16) ∷ []
    else c ∷ []

unfoldable pub printed_bytes : Bytes → Bytes
printed_bytes [] = []
printed_bytes (c ∷ s) = printed_byte c ++ printed_bytes s

-- `%*s` of the empty text.
unfoldable pub spaces : ℕ → Bytes
spaces zero = []
spaces (suc n) = b' ' ∷ spaces n

abbrev pub label : ℕ → Bytes
label i = decimal (i + 1) ++ codes ") "

-- What `print_reply` prints, and its loop over the elements from the one at `i` on.
unfoldable mutual
  pub print_reply : RespValue → ℕ → Bytes
  print_reply (simple_string s) indent = c_str s ++ b'\n' ∷ []
  print_reply (error_string s) indent = codes "(error) " ++ (c_str s ++ b'\n' ∷ [])
  print_reply (integer z) indent = codes "(integer) " ++ (signed_decimal z ++ b'\n' ∷ [])
  print_reply (bulk_string s) indent = b'"' ∷ (printed_bytes s ++ b'"' ∷ b'\n' ∷ [])
  print_reply (array nil) indent = codes "(empty array)" ++ b'\n' ∷ []
  print_reply (array (cons v vs)) indent = print_elements (cons v vs) indent 0
  print_reply null indent = codes "(nil)" ++ b'\n' ∷ []

  pub print_elements : Elements → ℕ → ℕ → Bytes
  print_elements nil indent i = []
  print_elements (cons v vs) indent i =
      (if i == 0 then [] else spaces indent)
      ++ (label i
          ++ (print_reply v (indent + length (label i)) ++ print_elements vs indent (i + 1)))

abbrev pub max_args : ℕ
max_args = 1024

-- The state of the inner loop of `split_line`: `quote`, and whether a backslash came before.
pub data Mode : Type 0 where
  plain : Mode
  quoted : ℕ → Mode
  escape : Mode

-- What the inner loop does at a byte: it ends before it, passes it, or writes a byte to `out`.
pub data WordStep : Type 0 where
  ends : WordStep
  passes : Mode → WordStep
  puts : ℕ → Mode → WordStep

abbrev pub is_separator : ℕ → Bool
is_separator c = c == b' ' || c == b'\t' || c == b'\r' || c == b'\n'

-- The byte that stands behind a backslash.
abbrev pub unescape : ℕ → ℕ
unescape c =
    if c == b'n' then b'\n' else if c == b't' then b'\t' else if c == b'r' then b'\r' else c

unfoldable pub word_step : Mode → ℕ → WordStep
word_step plain c =
    if is_separator c
    then ends
    else if c == b'"' || c == b'\''
    then passes (quoted c)
    else puts c plain
word_step (quoted q) c =
    if c == q
    then passes plain
    else if q == b'"' && c == b'\\'
    then passes escape
    else puts c (quoted q)
word_step escape c = puts (unescape c) (quoted b'"')

-- The inner loop, to the end of the word: the word and the text behind it, or none where a quote
-- is open at the end of the line. A backslash that ends the line leaves its quote open.
unfoldable pub word_from : Mode → Bytes → Option (Bytes × Bytes)
word_from plain [] = some ([], [])
word_from (quoted q) [] = none
word_from escape [] = none
word_from m (c ∷ s) = elim (word_step m c) [
  | ends ↦ some ([], c ∷ s)
  | passes m' ↦ word_from m' s
  | puts b m' ↦ Option.map (λ (r : Bytes × Bytes). (b ∷ r.0, r.1)) (word_from m' s)
]

unfoldable pub skip_blanks : Bytes → Bytes
skip_blanks [] = []
skip_blanks (c ∷ s) = let rest = skip_blanks s in if is_separator c then rest else c ∷ s

-- What `split_line` returns with `argv`; -1 is `invalid`.
pub data Split : Type 0 where
  words : List Bytes → Split
  invalid : Split
  unfinished : Split

abbrev pub add_word : Bytes → Split → Split
add_word w (words ws) = words (w ∷ ws)
add_word w invalid = invalid
add_word w unfinished = unfinished

-- The outer loop on fuel, with room for so many words.
unfoldable pub split_loop : ℕ → ℕ → Bytes → Split
split_loop zero room s = unfinished
split_loop (suc fuel) room s = elim (skip_blanks s) [
  | [] ↦ words []
  | c ∷ t ↦ if room == 0 then invalid else elim (word_from plain (c ∷ t)) [
    | none ↦ invalid
    | some (w, rest) ↦ add_word w (split_loop fuel (room - 1) rest)
  ]
]

unfoldable pub split_line : Bytes → ℕ → Split
split_line line room = split_loop (length line + 1) room line
