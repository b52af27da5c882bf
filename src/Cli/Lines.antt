-- ===== src/Cli/Lines.antt =====
-- `split_line` of tools/cli.c on words in double quotes.
use pulse_db.Prelude.{
  length-append, ◌-◌, suc, zero, ◌+◌, sym, ◌||◌, Bool-cases, arith, false, inl, inr, subst,
  append_assoc, Option, some, List, length, refl, ℕ, ◌++◌, ◌<◌, ◌==◌, ◌∷◌, ◌≡◌, ◌≤◌, if◌then◌else◌,
  [],
}
use pulse_db.Prelude.Bytes.{Bytes}
use mathlib.Core.Option
use pulse_db.Cli.{plain, quoted, split_line, split_loop, skip_blanks, word_from, word_step, words}

-- A byte as it is typed between double quotes.
abbrev pub typed_byte : ℕ → Bytes
typed_byte c =
    if c == b'"' || c == b'\\'
    then b'\\' ∷ c ∷ []
    else if c == b'\n'
    then b'\\' ∷ b'n' ∷ []
    else if c == b'\t'
    then b'\\' ∷ b't' ∷ []
    else c ∷ []

unfoldable pub typed_bytes : Bytes → Bytes
typed_bytes [] = []
typed_bytes (c ∷ s) = typed_byte c ++ typed_bytes s

-- Words as they are typed, each in double quotes and with a blank behind it.
unfoldable pub typed_words : List Bytes → Bytes
typed_words [] = []
typed_words (w ∷ ws) = b'"' ∷ (typed_bytes w ++ (b'"' ∷ b' ' ∷ typed_words ws))

abbrev prepend : ℕ → Option (Bytes × Bytes) → Option (Bytes × Bytes)
prepend b o = Option.map (λ (r : Bytes × Bytes). (b ∷ r.0, r.1)) o

-- The bytes between the quotes are read as `c`.
abbrev ReadsByte : ℕ → Bytes → Type 0
ReadsByte c s = word_from (quoted b'"') (typed_byte c ++ s) ≡ prepend c (word_from (quoted b'"') s)

other_byte :
    (c : ℕ) (s : Bytes)
    → (c == b'"') ≡ false
    → (c == b'\\') ≡ false
    → (c == b'\n') ≡ false
    → (c == b'\t') ≡ false
    → ReadsByte c s
unfolding word_from word_step
other_byte c s q b n t =
    let same : typed_byte c ≡ c ∷ [] = rw (q, b, n, t) refl in
    subst (λ z. word_from (quoted b'"') (z ++ s) ≡ prepend c (word_from (quoted b'"') s)) (sym same)
      (rw (q, b, word_from) refl)

reads_byte : (c : ℕ) (s : Bytes) → ReadsByte c s
unfolding word_from word_step
reads_byte c s = elim (Bool-cases (c == b'"')) [
  | inl h ↦ let at_c : b'"' ≡ c = ground arith in subst (λ d. ReadsByte d s) at_c refl
  | inr q ↦ elim (Bool-cases (c == b'\\')) [
    | inl h ↦ let at_c : b'\\' ≡ c = ground arith in subst (λ d. ReadsByte d s) at_c refl
    | inr b ↦ elim (Bool-cases (c == b'\n')) [
      | inl h ↦ let at_c : b'\n' ≡ c = ground arith in subst (λ d. ReadsByte d s) at_c refl
      | inr n ↦ elim (Bool-cases (c == b'\t')) [
        | inl h ↦ let at_c : b'\t' ≡ c = ground arith in subst (λ d. ReadsByte d s) at_c refl
        | inr t ↦ other_byte c s q b n t
      ]
    ]
  ]
]

word_from-typed_bytes :
    (w rest : Bytes)
    → word_from (quoted b'"') (typed_bytes w ++ (b'"' ∷ b' ' ∷ rest)) ≡ some (w, b' ' ∷ rest)
unfolding word_from word_step typed_bytes
word_from-typed_bytes [] rest = refl
word_from-typed_bytes (c ∷ w) rest =
    rw
      (
        append_assoc (typed_byte c) (typed_bytes w) (b'"' ∷ b' ' ∷ rest),
        reads_byte c (typed_bytes w ++ (b'"' ∷ b' ' ∷ rest)),
        word_from-typed_bytes w rest,
      )
      refl

-- A blank ahead makes no difference.
split_loop_blank :
    (fuel room : ℕ) (s : Bytes) → split_loop fuel room (b' ' ∷ s) ≡ split_loop fuel room s
unfolding split_loop skip_blanks
split_loop_blank zero room s = refl
split_loop_blank (suc fuel) room s = refl

opened_quote : (s : Bytes) → word_from plain (b'"' ∷ s) ≡ word_from (quoted b'"') s
unfolding word_from word_step
opened_quote s = refl

split_loop-typed_words :
    (ws : List Bytes) (fuel room : ℕ)
    → length ws < fuel
    → length ws ≤ room
    → split_loop fuel room (typed_words ws) ≡ words ws
unfolding split_loop typed_words skip_blanks
split_loop-typed_words ws zero room h l = absurd (omega arith)
split_loop-typed_words [] (suc fuel) room h l = refl
split_loop-typed_words (w ∷ ws) (suc fuel) zero h l = absurd (omega arith)
split_loop-typed_words (w ∷ ws) (suc fuel) (suc room) h l =
    let free : (suc room == 0) ≡ false = ground arith in
    let one_less : suc room - 1 ≡ room = omega arith in
    rw
      (
        free,
        opened_quote (typed_bytes w ++ (b'"' ∷ b' ' ∷ typed_words ws)),
        word_from-typed_bytes w (typed_words ws),
        one_less,
        split_loop_blank fuel room (typed_words ws),
        split_loop-typed_words ws fuel room (omega arith) (omega arith),
      )
      refl

length-typed_words : (ws : List Bytes) → length ws ≤ length (typed_words ws)
unfolding typed_words
length-typed_words [] = omega arith
length-typed_words (w ∷ ws) =
    let t = length-append (typed_bytes w) (b'"' ∷ b' ' ∷ typed_words ws) in
    omega (arith, t, length-typed_words ws)

-- Words that are typed in double quotes, with a blank behind each and a backslash before a quote,
-- a backslash, and the letters n and t that stand for a line feed and a tab, are split into
-- themselves by `split_line`, if there is room for them.
pub split_line-typed_words :
    (ws : List Bytes) (room : ℕ) → length ws ≤ room → split_line (typed_words ws) room ≡ words ws
unfolding split_line
split_line-typed_words ws room l =
    split_loop-typed_words ws (length (typed_words ws) + 1) room
      (omega (arith, length-typed_words ws)) l
