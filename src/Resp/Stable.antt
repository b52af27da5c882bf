-- ===== src/Resp/Stable.antt =====
-- A value that has been parsed does not change when more bytes arrive: the calls of src/resp.c may
-- be repeated on a longer buffer.
use pulse_db.Prelude.{
  ℕ, zero, suc, ◌+◌, ◌≡◌, refl, ◌==◌, ltb, ℤ, pos, negsuc, Bool, true, false, [], ◌∷◌, ◌++◌,
  if◌then◌else◌, length, take, drop, some, arith, Bool-cases, Option-cases, inl, inr, length-append,
  take-append_short, drop-append_short,
}
use pulse_db.Prelude.Bytes.{Bytes}
use pulse_db.Resp.{
  RespValue, nil, cons, array, null, simple_string, error_string, integer, bulk_string, Parse, ok,
  incomplete, error, undefined, bind, after_cr, line_end, find_line_end, Number, number, malformed,
  overflow, parse_number, line_number, read_number_line, end_payload, bulk_payload, parse_bulk,
  parse_elements, array_elements, parse_array, parse_typed, parse_value, split_newline,
  parse_inline, request_count, resp_parse_command, resp_parse_reply, max_depth, max_inline_len,
}

-- A result of `x` is also one of `y`, with `t` behind the rest.
abbrev pub Extends : {A : Type 0} → Bytes → Parse A → Parse A → Type 0
Extends {A} t x y = (a : A) (r : Bytes) → x ≡ ok a r → y ≡ ok a (r ++ t)

bind-Extends :
    {A B : Type 0} (t : Bytes) (x y : Parse A) (f g : A → Bytes → Parse B)
    → Extends t x y
    → ((a : A) (s : Bytes) → Extends t (f a s) (g a (s ++ t)))
    → Extends t (bind x f) (bind y g)
bind-Extends t (ok a s) y f g p q b r h = rw (p a s refl) (q a s b r h)
bind-Extends t incomplete y f g p q b r h = absurd (cc)
bind-Extends t error y f g p q b r h = absurd (cc)
bind-Extends t undefined y f g p q b r h = absurd (cc)

ok-Extends : {A : Type 0} (t : Bytes) (a : A) (s : Bytes) → Extends t (ok a s) (ok a (s ++ t))
ok-Extends t a s b r h = ground arith

if-Extends :
    {A : Type 0} (t : Bytes) (b : Bool) (x x' y y' : Parse A)
    → Extends t x x'
    → Extends t y y'
    → Extends t (if b then x else y) (if b then x' else y')
if-Extends t true x x' y y' p q = p
if-Extends t false x x' y y' p q = q

error-Extends : {A : Type 0} (t : Bytes) (y : Parse A) → Extends t error y
error-Extends t y a r h = absurd (cc)

after_cr-Extends : (t s : Bytes) → Extends t (after_cr s) (after_cr (s ++ t))
unfolding after_cr
after_cr-Extends t [] a r h = absurd (cc)
after_cr-Extends t (d ∷ s) a r h = ground arith

line_end-Extends :
    (t : Bytes) (max_line n : ℕ) (s : Bytes)
    → Extends t (line_end max_line n s) (line_end max_line n (s ++ t))
unfolding line_end
line_end-Extends t m n [] = λ a r h. absurd (ground arith)
line_end-Extends t m n (c ∷ s) = if-Extends t (c == b'\r') _ _ _ _ (after_cr-Extends t s) (
    if-Extends t (ltb m n) _ _ _ _ (error-Extends t error) (
      bind-Extends t _ _ _ _ (line_end-Extends t m (n + 1) s)
        (λ line s'. ok-Extends t (c ∷ line) s')))

line_number-Extends :
    (t : Bytes) (z : Number) (s : Bytes) → Extends t (line_number z s) (line_number z (s ++ t))
unfolding line_number
line_number-Extends t (number z) s = ok-Extends t z s
line_number-Extends t malformed s = error-Extends t error
line_number-Extends t overflow s = λ a r h. absurd (cc)

pub read_number_line-Extends :
    (t s : Bytes) → Extends t (read_number_line s) (read_number_line (s ++ t))
unfolding read_number_line find_line_end
read_number_line-Extends t s =
    bind-Extends t _ _ _ _ (line_end-Extends t 32 0 s)
      (λ line s'. line_number-Extends t (parse_number line) s')

end_payload-Extends :
    (t payload s : Bytes) → Extends t (end_payload payload s) (end_payload payload (s ++ t))
unfolding end_payload
end_payload-Extends t payload [] = λ a r h. absurd (cc)
end_payload-Extends t payload (c ∷ []) = λ a r h. absurd (cc)
end_payload-Extends t payload (c ∷ d ∷ s) =
    if-Extends t _ _ _ _ _ (error-Extends t error) (ok-Extends t (bulk_string payload) s)

bulk_payload-Extends :
    (t : Bytes) (z : ℤ) (s : Bytes) → Extends t (bulk_payload z s) (bulk_payload z (s ++ t))
unfolding bulk_payload
bulk_payload-Extends t (negsuc zero) s = ok-Extends t null s
bulk_payload-Extends t (negsuc (suc n)) s = error-Extends t error
bulk_payload-Extends t (pos n) s = elim (Bool-cases (ltb (length s) (n + 2))) [
  | inl few ↦ rw few (λ a r h. absurd (ground arith))
  | inr all ↦
      let more : ltb (length (s ++ t)) (n + 2) ≡ false = ground (arith, length-append s t) in
      rw (all, more, take-append_short n s t (ground arith), drop-append_short n s t (ground arith))
        (if-Extends t _ _ _ _ _ (error-Extends t error)
          (end_payload-Extends t (take n s) (drop n s)))
]

parse_bulk-Extends : (t s : Bytes) → Extends t (parse_bulk s) (parse_bulk (s ++ t))
unfolding parse_bulk
parse_bulk-Extends t s =
    bind-Extends t _ _ _ _ (read_number_line-Extends t s) (bulk_payload-Extends t)

module _ (t : Bytes) (parse : Bytes → Parse RespValue)
    (stable : (s : Bytes) → Extends t (parse s) (parse (s ++ t))) where
  parse_elements-Extends :
      (n : ℕ) (s : Bytes) → Extends t (parse_elements parse n s) (parse_elements parse n (s ++ t))
  unfolding parse_elements
  parse_elements-Extends zero s = ok-Extends t nil s
  parse_elements-Extends (suc n) s = bind-Extends t _ _ _ _ (stable s) (λ v s'.
      bind-Extends t _ _ _ _ (parse_elements-Extends n s') (λ vs s''. ok-Extends t (cons v vs) s''))

  array_elements-Extends :
      (z : ℤ) (s : Bytes) → Extends t (array_elements parse z s) (array_elements parse z (s ++ t))
  unfolding array_elements
  array_elements-Extends (negsuc zero) s = ok-Extends t null s
  array_elements-Extends (negsuc (suc n)) s = error-Extends t error
  array_elements-Extends (pos n) s =
      if-Extends t _ _ _ _ _ (error-Extends t error)
        (bind-Extends t _ _ _ _ (parse_elements-Extends n s) (λ vs s'. ok-Extends t (array vs) s'))

  parse_array-Extends : (s : Bytes) → Extends t (parse_array parse s) (parse_array parse (s ++ t))
  unfolding parse_array
  parse_array-Extends s =
      bind-Extends t _ _ _ _ (read_number_line-Extends t s) array_elements-Extends

  parse_typed-Extends :
      (c : ℕ) (s : Bytes) → Extends t (parse_typed parse c s) (parse_typed parse c (s ++ t))
  unfolding parse_typed find_line_end
  parse_typed-Extends c s = if-Extends t _ _ _ _ _ (parse_bulk-Extends t s) (
      if-Extends t _ _ _ _ _ (parse_array-Extends s) (
        if-Extends t _ _ _ _ _
          (bind-Extends t _ _ _ _ (line_end-Extends t max_inline_len 0 s)
            (λ l s'. ok-Extends t (simple_string l) s'))
          (if-Extends t _ _ _ _ _
            (bind-Extends t _ _ _ _ (line_end-Extends t max_inline_len 0 s)
              (λ l s'. ok-Extends t (error_string l) s'))
            (if-Extends t _ _ _ _ _
              (bind-Extends t _ _ _ _ (read_number_line-Extends t s)
                (λ z s'. ok-Extends t (integer z) s'))
              (error-Extends t error)))))

parse_value-Extends :
    (t : Bytes) (bulk_only : Bool) (levels : ℕ) (s : Bytes)
    → Extends t (parse_value bulk_only levels s) (parse_value bulk_only levels (s ++ t))
unfolding parse_value
parse_value-Extends t b zero s = error-Extends t _
parse_value-Extends t b (suc levels) [] = λ a r h. absurd (cc)
parse_value-Extends t b (suc levels) (c ∷ s) =
    if-Extends t _ _ _ _ _ (error-Extends t error)
      (parse_typed-Extends t (parse_value b levels) (parse_value-Extends t b levels) c s)

newline-append :
    (s t a b : Bytes) → split_newline s ≡ some (a, b) → split_newline (s ++ t) ≡ some (a, b ++ t)
unfolding split_newline
newline-append [] t a b h = absurd (cc)
newline-append (c ∷ s) t a b h = elim (Bool-cases (c == b'\n')) [
  | inl e ↦ ground (arith, e)
  | inr e ↦ elim (Option-cases (split_newline s)) [
    | inl n ↦ absurd (ground (arith, e, n))
    | inr ((a', b'), n) ↦ ground (arith, e, n, newline-append s t a' b' n)
  ]
]

parse_inline-Extends : (t s : Bytes) → Extends t (parse_inline s) (parse_inline (s ++ t))
unfolding parse_inline
parse_inline-Extends t s = elim (Option-cases (split_newline s)) [
  | inl e ↦ rw (e, parse_inline) (λ a r h. absurd (ground arith))
  | inr ((line, rest), e) ↦
      rw (e, newline-append s t line rest e, parse_inline)
        (if-Extends t _ _ _ _ _ (error-Extends t error) (ok-Extends t _ rest))
]

request_count-Extends :
    (t s : Bytes) (z : ℤ) (s' : Bytes)
    → Extends t (request_count s z s') (request_count (s ++ t) z (s' ++ t))
unfolding request_count
request_count-Extends t s (negsuc n) s' = error-Extends t error
request_count-Extends t s (pos n) s' =
    parse_array-Extends t (parse_value true max_depth) (parse_value-Extends t true max_depth) s

-- If `resp_parse_command` reads a request from a text, it reads the same request, and leaves the
-- same bytes behind it, from that text followed by any further bytes.
pub resp_parse_command_stable :
    (s t : Bytes) (v : RespValue) (rest : Bytes)
    → resp_parse_command s ≡ ok v rest
    → resp_parse_command (s ++ t) ≡ ok v (rest ++ t)
unfolding resp_parse_command
resp_parse_command_stable [] t = λ v r h. absurd (cc)
resp_parse_command_stable (c ∷ s) t =
    if-Extends t _ _ _ _ _ (parse_inline-Extends t (c ∷ s))
      (bind-Extends t _ _ _ _ (read_number_line-Extends t s) (request_count-Extends t s))

-- If `resp_parse_reply` reads a reply from a text, it reads the same reply, and leaves the same
-- bytes behind it, from that text followed by any further bytes.
pub resp_parse_reply_stable :
    (s t : Bytes) (v : RespValue) (rest : Bytes)
    → resp_parse_reply s ≡ ok v rest
    → resp_parse_reply (s ++ t) ≡ ok v (rest ++ t)
unfolding resp_parse_reply
resp_parse_reply_stable s t = parse_value-Extends t false (max_depth + 1) s
