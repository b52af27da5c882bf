-- ===== src/Resp/Shorter.antt =====
-- What the parser of src/resp.c reads it takes off the text: the text behind a value is shorter.
use pulse_db.Resp.{
  array, max_depth, request_count, resp_parse_command, split_words, strip_cr, Number, Parse,
  RespValue, after_cr, array_elements, bind, bulk_payload, bulk_string, end_payload, find_line_end,
  incomplete, line_end, line_number, malformed, max_array_len, max_bulk_len, max_inline_len,
  parse_array, parse_bulk, parse_elements, parse_inline, parse_number, parse_typed, parse_value,
  read_number_line, split_newline, error, undefined, ok, number,
}
use pulse_db.Prelude.{
  Option, none, subst, Bool, [], arith, drop, false, if◌then◌else◌, length, length-drop, ltb,
  negsuc, not, pos, some, suc, take, true, zero, ℕ, ℤ, ◌&&◌, ◌+◌, ◌<◌, ◌==◌, ◌||◌, ◌∷◌, ◌≡◌, ◌≤◌,
}
use pulse_db.Prelude.Bytes.{Bytes}

-- A result that leaves at most `n` bytes.
abbrev pub Leaves : {A : Type 0} → ℕ → Parse A → Type 0
Leaves n (ok a s) = length s ≤ n
Leaves n _ = Unit

bind-Leaves :
    {A B : Type 0} (n : ℕ) (p : Parse A) (k : A → Bytes → Parse B)
    → Leaves n p
    → ((a : A) (s : Bytes) → length s ≤ n → Leaves n (k a s))
    → Leaves n (bind p k)
bind-Leaves n (ok a s) k h t = t a s h
bind-Leaves n incomplete k h t = tt
bind-Leaves n error k h t = tt
bind-Leaves n undefined k h t = tt

if-Leaves :
    {A : Type 0} (n : ℕ) (b : Bool) (x y : Parse A)
    → Leaves n x
    → Leaves n y
    → Leaves n (if b then x else y)
if-Leaves n true x y h k = h
if-Leaves n false x y h k = k

-- A parser that leaves no more than it is given.
abbrev Reads : {A : Type 0} → (Bytes → Parse A) → Type 0
Reads parse = (n : ℕ) (s : Bytes) → length s ≤ n → Leaves n (parse s)

after_cr-Reads : Reads after_cr
unfolding after_cr
after_cr-Reads n [] h = tt
after_cr-Reads n (c ∷ s) h = if-Leaves n (c == b'\n') (ok [] s) error (omega arith) tt

line_end-Reads : (max_line m : ℕ) → Reads (line_end max_line m)
unfolding line_end
line_end-Reads max_line m n [] h = if-Leaves n (ltb max_line m) error incomplete tt tt
line_end-Reads max_line m n (c ∷ s) h =
    if-Leaves n (c == b'\r') _ _ (after_cr-Reads n s (omega arith)) (
      if-Leaves n (ltb max_line m) error _ tt (
        bind-Leaves n (line_end max_line (m + 1) s) _
          (line_end-Reads max_line (m + 1) n s (omega arith)) (λ line s' k. k)))

line_number-Leaves : (n : ℕ) (z : Number) (s : Bytes) → length s ≤ n → Leaves n (line_number z s)
unfolding line_number
line_number-Leaves n (number z) s h = h
line_number-Leaves n malformed s h = tt
line_number-Leaves n Number.overflow s h = tt

find_line_end-Reads : (max_line : ℕ) → Reads (find_line_end max_line)
unfolding find_line_end
find_line_end-Reads max_line = line_end-Reads max_line 0

read_number_line-Reads : Reads read_number_line
unfolding read_number_line
read_number_line-Reads n s h =
    bind-Leaves n (find_line_end 32 s) _ (find_line_end-Reads 32 n s h)
      (λ line s' k. line_number-Leaves n (parse_number line) s' k)

end_payload-Leaves : (payload : Bytes) → Reads (end_payload payload)
unfolding end_payload
end_payload-Leaves payload n [] h = tt
end_payload-Leaves payload n (c ∷ []) h = tt
end_payload-Leaves payload n (c ∷ d ∷ s) h =
    if-Leaves n (not (c == b'\r') || not (d == b'\n')) error (ok (bulk_string payload) s) tt
      (omega arith)

bulk_payload-Reads : (z : ℤ) → Reads (bulk_payload z)
unfolding bulk_payload
bulk_payload-Reads (negsuc zero) n s h = h
bulk_payload-Reads (negsuc (suc m)) n s h = tt
bulk_payload-Reads (pos blen) n s h = if-Leaves n (ltb max_bulk_len blen) error _ tt (
    if-Leaves n (ltb (length s) (blen + 2)) incomplete _ tt
      (end_payload-Leaves (take blen s) n (drop blen s) (omega (arith, length-drop blen s))))

parse_bulk-Reads : Reads parse_bulk
unfolding parse_bulk
parse_bulk-Reads n s h =
    bind-Leaves n (read_number_line s) _ (read_number_line-Reads n s h)
      (λ z s' k. bulk_payload-Reads z n s' k)

parse_elements-Reads :
    (parse : Bytes → Parse RespValue) (m : ℕ) → Reads parse → Reads (parse_elements parse m)
unfolding parse_elements
parse_elements-Reads parse zero p n s h = h
parse_elements-Reads parse (suc m) p n s h = bind-Leaves n (parse s) _ (p n s h) (λ v s' k.
    bind-Leaves n (parse_elements parse m s') _ (parse_elements-Reads parse m p n s' k)
      (λ vs s'' l. l))

array_elements-Reads :
    (parse : Bytes → Parse RespValue) (z : ℤ) → Reads parse → Reads (array_elements parse z)
unfolding array_elements
array_elements-Reads parse (negsuc zero) p n s h = h
array_elements-Reads parse (negsuc (suc m)) p n s h = tt
array_elements-Reads parse (pos m) p n s h = if-Leaves n (ltb max_array_len m) error _ tt (
    bind-Leaves n (parse_elements parse m s) _ (parse_elements-Reads parse m p n s h)
      (λ vs s' k. k))

parse_array-Reads : (parse : Bytes → Parse RespValue) → Reads parse → Reads (parse_array parse)
unfolding parse_array
parse_array-Reads parse p n s h =
    bind-Leaves n (read_number_line s) _ (read_number_line-Reads n s h)
      (λ z s' k. array_elements-Reads parse z p n s' k)

parse_typed-Reads :
    (parse : Bytes → Parse RespValue) (type : ℕ) → Reads parse → Reads (parse_typed parse type)
unfolding parse_typed
parse_typed-Reads parse type p n s h =
    let line = find_line_end-Reads max_inline_len n s h in
    if-Leaves n (type == b'$') _ _ (parse_bulk-Reads n s h) (
      if-Leaves n (type == b'*') _ _ (parse_array-Reads parse p n s h) (
        if-Leaves n (type == b'+') _ _
          (bind-Leaves n (find_line_end max_inline_len s) _ line (λ a s' k. k))
          (if-Leaves n (type == b'-') _ _
            (bind-Leaves n (find_line_end max_inline_len s) _ line (λ a s' k. k))
            (if-Leaves n (type == b':') _ error
              (bind-Leaves n (read_number_line s) _ (read_number_line-Reads n s h) (λ a s' k. k))
              tt))))

parse_value-Reads : (bulk_only : Bool) (levels : ℕ) → Reads (parse_value bulk_only levels)
unfolding parse_value
parse_value-Reads b zero n s h = tt
parse_value-Reads b (suc levels) n [] h = tt
parse_value-Reads b (suc levels) n (type ∷ s) h =
    if-Leaves n (b && not (type == b'$')) error _ tt
      (parse_typed-Reads (parse_value b levels) type (parse_value-Reads b levels) n s (omega arith))

-- What stands behind the first line is shorter.
abbrev Behind : ℕ → Option (Bytes × Bytes) → Type 0
Behind n none = Unit
Behind n (some (line, rest)) = length rest < n

if-Behind :
    (n : ℕ) (b : Bool) (x y : Option (Bytes × Bytes))
    → Behind n x
    → Behind n y
    → Behind n (if b then x else y)
if-Behind n true x y h k = h
if-Behind n false x y h k = k

cons-Behind :
    (n c : ℕ) (o : Option (Bytes × Bytes))
    → Behind n o
    → Behind (suc n) (elim o [ none ↦ none | some (a, b) ↦ some (c ∷ a, b) ])
cons-Behind n c none h = tt
cons-Behind n c (some (a, b)) h = omega arith

split_newline-Behind : (s : Bytes) → Behind (length s) (split_newline s)
unfolding split_newline
split_newline-Behind [] = tt
split_newline-Behind (c ∷ s) =
    if-Behind (suc (length s)) (c == b'\n') (some ([], s)) _ (omega arith)
      (cons-Behind (length s) c (split_newline s) (split_newline-Behind s))

inline-Leaves :
    (n : ℕ) (buf : Bytes) (o : Option (Bytes × Bytes))
    → Behind (suc n) o
    → Leaves {A = RespValue} n (elim o as (λ k. Parse RespValue) [
      | none ↦ if ltb max_inline_len (length buf) then error else incomplete
      | some (line, rest) ↦
          if ltb max_inline_len (length line)
          then error
          else ok (array (split_words [] (strip_cr line))) rest
    ])
inline-Leaves n buf none h = if-Leaves n (ltb max_inline_len (length buf)) error incomplete tt tt
inline-Leaves n buf (some (line, rest)) h =
    if-Leaves n (ltb max_inline_len (length line)) error _ tt (omega arith)

parse_inline-Leaves : (c : ℕ) (s : Bytes) → Leaves (length s) (parse_inline (c ∷ s))
unfolding parse_inline
parse_inline-Leaves c s =
    inline-Leaves (length s) (c ∷ s) (split_newline (c ∷ s)) (split_newline-Behind (c ∷ s))

request_count-Leaves :
    (n : ℕ) (s : Bytes) (z : ℤ) (behind : Bytes)
    → length s ≤ n
    → Leaves n (request_count s z behind)
unfolding request_count
request_count-Leaves n s (negsuc m) behind h = tt
request_count-Leaves n s (pos m) behind h =
    parse_array-Reads (parse_value true max_depth) (parse_value-Reads true max_depth) n s h

command-Leaves : (c : ℕ) (s : Bytes) → Leaves (length s) (resp_parse_command (c ∷ s))
unfolding resp_parse_command
command-Leaves c s = if-Leaves (length s) (not (c == b'*')) _ _ (parse_inline-Leaves c s) (
    bind-Leaves (length s) (read_number_line s) _
      (read_number_line-Reads (length s) s (omega arith))
      (λ z s' k. request_count-Leaves (length s) s z s' (omega arith)))

-- A request that was read takes at least one byte.
pub resp_parse_command_shorter :
    (s : Bytes) (v : RespValue) (rest : Bytes)
    → resp_parse_command s ≡ ok v rest
    → length rest < length s
unfolding resp_parse_command
resp_parse_command_shorter [] v rest h = absurd (cc)
resp_parse_command_shorter (c ∷ s) v rest h =
    let t = subst (Leaves (length s)) h (command-Leaves c s) in omega (arith, t)
