-- ===== src/Cli/Ends.antt =====
-- The loops of `split_line` in tools/cli.c come to an end: every word takes bytes off the line.
use pulse_db.Cli.{
  Split, add_word, invalid, is_separator, skip_blanks, split_line, split_loop, unfinished, words,
  Mode, WordStep, ends, escape, passes, plain, puts, quoted, word_from, word_step,
}
use pulse_db.Prelude.{
  Bool-cases, false, if◌then◌else◌, inl, inr, refl, subst, suc, sym, zero, ◌+◌, ◌-◌, ◌<◌, ◌==◌,
  ◌||◌, Option, [], arith, length, none, some, ℕ, ◌∷◌, ◌≡◌, ◌≤◌,
}
use pulse_db.Prelude.Bytes.{Bytes}
use mathlib.Core.Option

-- What is left behind a word has at most `n` bytes.
abbrev LeavesAtMost : ℕ → Option (Bytes × Bytes) → Type 0
LeavesAtMost n none = Unit
LeavesAtMost n (some r) = length r.1 ≤ n

-- The inner loop at a byte.
abbrev after_step : (Mode → Option (Bytes × Bytes)) → Bytes → WordStep → Option (Bytes × Bytes)
after_step next s ends = some ([], s)
after_step next s (passes m) = next m
after_step next s (puts b m) = Option.map (λ (r : Bytes × Bytes). (b ∷ r.0, r.1)) (next m)

weaken : (n k : ℕ) (o : Option (Bytes × Bytes)) → n ≤ k → LeavesAtMost n o → LeavesAtMost k o
weaken n k none h l = tt
weaken n k (some r) h l = omega arith

put_back :
    (n b : ℕ) (o : Option (Bytes × Bytes))
    → LeavesAtMost n o
    → LeavesAtMost n (Option.map (λ (r : Bytes × Bytes). (b ∷ r.0, r.1)) o)
put_back n b none l = tt
put_back n b (some r) l = l

after_step-LeavesAtMost :
    (next : Mode → Option (Bytes × Bytes)) (c : ℕ) (s : Bytes) (t : WordStep)
    → ((m : Mode) → LeavesAtMost (length s) (next m))
    → LeavesAtMost (length (c ∷ s)) (after_step next (c ∷ s) t)
after_step-LeavesAtMost next c s ends h = omega arith
after_step-LeavesAtMost next c s (passes m) h = weaken (length s) _ (next m) (omega arith) (h m)
after_step-LeavesAtMost next c s (puts b m) h =
    put_back _ b (next m) (weaken (length s) _ (next m) (omega arith) (h m))

word_from-after_step :
    (m : Mode) (c : ℕ) (s : Bytes)
    → word_from m (c ∷ s) ≡ after_step (λ k. word_from k s) (c ∷ s) (word_step m c)
unfolding word_from
word_from-after_step plain c s = refl
word_from-after_step (quoted q) c s = refl
word_from-after_step escape c s = refl

word_from-LeavesAtMost : (m : Mode) (s : Bytes) → LeavesAtMost (length s) (word_from m s)
unfolding word_from
word_from-LeavesAtMost plain [] = omega arith
word_from-LeavesAtMost (quoted q) [] = tt
word_from-LeavesAtMost escape [] = tt
word_from-LeavesAtMost m (c ∷ s) =
    subst (LeavesAtMost (length (c ∷ s))) (sym (word_from-after_step m c s)) (
      after_step-LeavesAtMost (λ k. word_from k s) c s (word_step m c)
        (λ k. word_from-LeavesAtMost k s))

-- A word that begins takes its first byte.
word_begins :
    (c : ℕ) (s : Bytes) → is_separator c ≡ false → LeavesAtMost (length s) (word_from plain (c ∷ s))
unfolding word_from word_step
word_begins c s other = elim (Bool-cases (c == b'"' || c == b'\'')) [
  | inl quote ↦
      rw (word_from-after_step plain c s, other, quote, word_step)
        (word_from-LeavesAtMost (quoted c) s)
  | inr letter ↦
      rw (word_from-after_step plain c s, other, letter, word_step)
        (put_back (length s) c (word_from plain s) (word_from-LeavesAtMost plain s))
]

skip_blanks-length : (s : Bytes) → length (skip_blanks s) ≤ length s
unfolding skip_blanks
skip_blanks-length [] = omega arith
skip_blanks-length (c ∷ s) = elim (Bool-cases (is_separator c)) [
  | inl gap ↦ rw (gap, skip_blanks) (omega (arith, skip_blanks-length s))
  | inr other ↦ rw (other, skip_blanks) (omega arith)
]

-- What is left begins with no blank.
abbrev BeginsWord : Bytes → Type 0
BeginsWord [] = Unit
BeginsWord (c ∷ s) = is_separator c ≡ false

skip_blanks-BeginsWord : (s : Bytes) → BeginsWord (skip_blanks s)
unfolding skip_blanks
skip_blanks-BeginsWord [] = tt
skip_blanks-BeginsWord (c ∷ s) = elim (Bool-cases (is_separator c)) [
  | inl gap ↦ rw (gap, skip_blanks) (skip_blanks-BeginsWord s)
  | inr other ↦ rw (other, skip_blanks) other
]

abbrev pub IsFinished : Split → Type 0
IsFinished (words ws) = Unit
IsFinished invalid = Unit
IsFinished unfinished = ⊥

add_word-IsFinished : (w : Bytes) (r : Split) → IsFinished r → IsFinished (add_word w r)
add_word-IsFinished w (words ws) h = tt
add_word-IsFinished w invalid h = tt
add_word-IsFinished w unfinished h = absurd h

-- A turn of the outer loop at what `skip_blanks` left.
abbrev turn : (ℕ → Bytes → Split) → ℕ → Bytes → Split
turn next room [] = words []
turn next room (c ∷ t) = if room == 0 then invalid else elim (word_from plain (c ∷ t)) [
  | none ↦ invalid
  | some (w, rest) ↦ add_word w (next (room - 1) rest)
]

word-IsFinished :
    (next : ℕ → Bytes → Split) (room n : ℕ) (o : Option (Bytes × Bytes))
    → ((r : Bytes) → length r ≤ n → IsFinished (next room r))
    → LeavesAtMost n o
    → IsFinished (elim o [ none ↦ invalid | some (w, rest) ↦ add_word w (next room rest) ])
word-IsFinished next room n none h l = tt
word-IsFinished next room n (some r) h l = add_word-IsFinished r.0 _ (h r.1 l)

turn-IsFinished :
    (next : ℕ → Bytes → Split) (room n : ℕ) (t : Bytes)
    → ((r : Bytes) → length r < n → IsFinished (next (room - 1) r))
    → BeginsWord t
    → length t ≤ n
    → IsFinished (turn next room t)
turn-IsFinished next room n [] h b l = tt
turn-IsFinished next room n (c ∷ t) h b l = elim (Bool-cases (room == 0)) [
  | inl full ↦ rw full tt
  | inr free ↦ rw free (
      word-IsFinished next (room - 1) (length t) (word_from plain (c ∷ t))
        (λ r k. h r (omega (arith, k, l))) (word_begins c t b))
]

split_loop-IsFinished :
    (fuel room : ℕ) (s : Bytes) → length s < fuel → IsFinished (split_loop fuel room s)
unfolding split_loop
split_loop-IsFinished zero room s h = absurd (omega arith)
split_loop-IsFinished (suc fuel) room s h =
    turn-IsFinished (λ k r. split_loop fuel k r) room fuel (skip_blanks s)
      (λ r k. split_loop-IsFinished fuel (room - 1) r k) (skip_blanks-BeginsWord s)
      (omega (arith, skip_blanks-length s))

-- For every line and every room `split_line` comes to an end, with words or with -1, within as
-- many turns as the line has bytes, and one more.
pub split_line-IsFinished : (line : Bytes) (room : ℕ) → IsFinished (split_line line room)
unfolding split_line
split_line-IsFinished line room = split_loop-IsFinished (length line + 1) room line (omega arith)
