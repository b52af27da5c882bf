-- ===== src/Commands/Lists/Ranges.antt =====
-- The range of LRANGE: `normalise_range` of src/cmd_list.c.
use pulse_db.Prelude.{
  ◌-ℤ◌, Bool, Bool-cases, arith, false, inl, inr, ltb_ℤ, negsuc, pos_part, true, ◌==◌, ◌||◌, ◌≡◌,
  Option, none, pos, some, ℕ, ℤ, ◌<◌, ◌↔◌, ◌≤ℤ◌, ◌≤◌,
}
use pulse_db.Commands.Lists.{below_len, not_negative, from_end, normalise_range}

-- The position lies between the two indexes, a negative one counted from the end.
abbrev pub Within : ℤ → ℤ → ℕ → ℕ → Type 0
Within start stop len i = (i < len) × (from_end start len ≤ℤ pos i) × (pos i ≤ℤ from_end stop len)

-- What `normalise_range` promises: the positions of the sequence between the two indexes are those
-- from `first` to `last`, or there are none.
abbrev pub Covers : ℤ → ℤ → ℕ → Option (ℕ × ℕ) → Type 0
Covers start stop len none = (i : ℕ) → ¬ (Within start stop len i)
Covers start stop len (some (first, last)) =
    (first ≤ last) × (last < len) × ((i : ℕ) → Within start stop len i ↔ ((first ≤ i) × (i ≤ last)))

-- The same of two indexes that are counted from the head.
abbrev pub Between : ℤ → ℤ → ℕ → ℕ → Type 0
Between a b len i = (i < len) × (a ≤ℤ pos i) × (pos i ≤ℤ b)

abbrev pub is_empty_range : ℤ → ℤ → ℕ → Bool
is_empty_range a b len = len == 0 || ltb_ℤ (below_len b len) (not_negative a)

empty_range : (a b : ℤ) (len i : ℕ) → is_empty_range a b len ≡ true → ¬ (Between a b len i)
unfolding ◌-ℤ◌
empty_range (pos a) (pos b) len i h k = ground arith
empty_range (pos a) (negsuc b) len i h k = ground arith
empty_range (negsuc a) (pos b) len i h k = ground arith
empty_range (negsuc a) (negsuc b) len i h k = ground arith

abbrev pub Bounds : ℤ → ℤ → ℕ → ℕ → ℕ → Type 0
Bounds a b len first last =
    (first ≤ last) × (last < len) × ((i : ℕ) → Between a b len i ↔ ((first ≤ i) × (i ≤ last)))

full_range :
    (a b : ℤ) (len : ℕ)
    → is_empty_range a b len ≡ false
    → Bounds a b len (pos_part (not_negative a)) (pos_part (below_len b len))
unfolding ◌-ℤ◌
full_range (pos a) (pos b) len h = (ground arith, ground arith, λ i. ground arith)
full_range (pos a) (negsuc b) len h = absurd (ground arith)
full_range (negsuc a) (pos b) len h = (ground arith, ground arith, λ i. ground arith)
full_range (negsuc a) (negsuc b) len h = absurd (ground arith)

-- For all indexes and every length, `normalise_range` gives the first and the last of the
-- positions that lie between the indexes, a negative one counted from the end, both within the
-- sequence, or 0 where no position does.
pub normalise_range-Covers :
    (start stop : ℤ) (len : ℕ) → Covers start stop len (normalise_range start stop len)
unfolding normalise_range
normalise_range-Covers start stop len =
    let a = from_end start len in
    let b = from_end stop len in
    elim (Bool-cases (is_empty_range a b len)) [
      | inl h ↦ rw h (λ i. empty_range a b len i h)
      | inr h ↦ rw h (full_range a b len h)
    ]
