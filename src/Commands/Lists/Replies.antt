-- ===== src/Commands/Lists/Replies.antt =====
-- What LRANGE of src/cmd_list.c answers, by the list that is live under its key.
use pulse_db.Prelude.Decimal.{decimal, decimal_fuel}
use pulse_db.Commands.Args.{arg}
use pulse_db.Commands.Lists.{
  lrange_at, lrange_bounds, normalise_range, bulks, from_end, range_reply, cmd_lrange,
}
use pulse_db.Commands.Lists.Ranges.{normalise_range-Covers, Covers, Within}
use pulse_db.Prelude.{
  Bool-cases, length-drop, length-take, subst, ◌∙◌, Option, ap, false, ltb_ℤ, none, not, pos, some,
  sym, true, zero, ℤ, ◌++◌, ◌↔◌, Bool, List, [], arith, drop, if◌then◌else◌, inl, inr, leb, length,
  refl, suc, take, ℕ, ◌&&◌, ◌+◌, ◌-◌, ◌<◌, ◌∷◌, ◌≡◌, ◌≤◌,
}
use pulse_db.Store.Invariant.{IsValid}
use pulse_db.Store.Keys.{held}
use pulse_db.Store.Lists.{as_list, store_get_list}
use pulse_db.Store.Live.{Same, live}
use pulse_db.Store.Types.{ListValue}
use pulse_db.Store.Update.{lookup_typed-Finds, typed_content}
use pulse_db.Txn.{Request}
use pulse_db.World.{World, now_ms}
use pulse_db.Reply.{reply_array}
use pulse_db.Prelude.Bytes.{Bytes}

-- The elements at the positions that a test keeps, from the position `i` on.
abbrev pub picked : (ℕ → Bool) → ℕ → List Bytes → List Bytes
picked p i [] = []
picked p i (x ∷ xs) = if p i then x ∷ picked p (suc i) xs else picked p (suc i) xs

abbrev from_to : ℕ → ℕ → ℕ → Bool
from_to first last i = leb first i && leb i last

from_to_of : (first last i : ℕ) → first ≤ i → i ≤ last → from_to first last i ≡ true
from_to_of first last i h k = ground arith

from_to_le : (first last i : ℕ) → from_to first last i ≡ true → (first ≤ i) × (i ≤ last)
from_to_le first last i h = ground arith

picked-take :
    (first last i n : ℕ) (xs : List Bytes)
    → first ≤ i
    → n ≡ last + 1 - i
    → picked (from_to first last) i xs ≡ take n xs
picked-take first last i zero [] h e = refl
picked-take first last i (suc n) [] h e = refl
picked-take first last i zero (x ∷ xs) h e =
    let no : from_to first last i ≡ false = ground arith in
    rw no (picked-take first last (suc i) zero xs (omega arith) (omega arith))
picked-take first last i (suc n) (x ∷ xs) h e =
    let yes : from_to first last i ≡ true = ground arith in
    rw yes (ap (λ ys. x ∷ ys) (picked-take first last (suc i) n xs (omega arith) (omega arith)))

take_nil : (n : ℕ) → take {A = Bytes} n [] ≡ []
take_nil zero = refl
take_nil (suc n) = refl

picked-drop :
    (first last i k : ℕ) (xs : List Bytes)
    → i + k ≡ first
    → picked (from_to first last) i xs ≡ take (last + 1 - first) (drop k xs)
picked-drop first last i zero xs e =
    picked-take first last i (last + 1 - first) xs (omega arith) (omega arith)
picked-drop first last i (suc k) [] e = sym (take_nil (last + 1 - first))
picked-drop first last i (suc k) (x ∷ xs) e =
    let no : from_to first last i ≡ false = ground arith in
    rw no (picked-drop first last (suc i) k xs (omega arith))

picked_congr :
    (p q : ℕ → Bool) (i : ℕ) (xs : List Bytes)
    → ((j : ℕ) → j < i + length xs → p j ≡ q j)
    → picked p i xs ≡ picked q i xs
picked_congr p q i [] h = refl
picked_congr p q i (x ∷ xs) h =
    rw (h i (omega arith), picked_congr p q (suc i) xs (λ j l. h j (omega arith))) refl

none_picked :
    (p : ℕ → Bool) (i : ℕ) (xs : List Bytes)
    → ((j : ℕ) → j < i + length xs → p j ≡ false)
    → picked p i xs ≡ []
none_picked p i [] h = refl
none_picked p i (x ∷ xs) h =
    rw (h i (omega arith)) (none_picked p (suc i) xs (λ j l. h j (omega arith)))

-- The position lies between the two indexes, a negative one counted from the end.
abbrev pub is_within : ℤ → ℤ → ℕ → ℕ → Bool
is_within start stop len i =
    not (ltb_ℤ (pos i) (from_end start len)) && not (ltb_ℤ (from_end stop len) (pos i))

is_within_iff :
    (start stop : ℤ) (len i : ℕ)
    → i < len
    → (is_within start stop len i ≡ true) ↔ Within start stop len i
is_within_iff start stop len i l = ground arith

not-Within :
    (start stop : ℤ) (len i : ℕ)
    → i < len
    → ¬ (Within start stop len i)
    → is_within start stop len i ≡ false
not-Within start stop len i l h = elim (Bool-cases (is_within start stop len i)) [
  | inl e ↦ absurd (h ((is_within_iff start stop len i l).0 e))
  | inr e ↦ e
]

Within-from_to :
    (start stop : ℤ) (len first last i : ℕ)
    → i < len
    → Within start stop len i ↔ ((first ≤ i) × (i ≤ last))
    → is_within start stop len i ≡ from_to first last i
Within-from_to start stop len first last i l h = elim (Bool-cases (is_within start stop len i)) [
  | inl e ↦
      let k = h.0 ((is_within_iff start stop len i l).0 e) in
      e ∙ sym (from_to_of first last i k.0 k.1)
  | inr e ↦ elim (Bool-cases (from_to first last i)) [
    | inl f ↦ (is_within_iff start stop len i l).1 (h.1 (from_to_le first last i f)) ∙ sym f
    | inr f ↦ e ∙ sym f
  ]
]

abbrev pub texts_reply : List Bytes → Bytes
texts_reply xs = reply_array [] (length xs) ++ bulks xs

-- The reply of a range is the array of the elements at its positions.
range_reply-picked :
    (start stop : ℤ) (len : ℕ) (items : List Bytes) (o : Option (ℕ × ℕ))
    → len ≡ length items
    → Covers start stop len o
    → range_reply o items ≡ texts_reply (picked (is_within start stop len) 0 items)
unfolding reply_array decimal bulks decimal_fuel
range_reply-picked start stop len items none n c = sym (
    ap texts_reply (
      none_picked (is_within start stop len) 0 items
        (λ j l. not-Within start stop len j (omega arith) (c j))))
range_reply-picked start stop len items (some (first, last)) n c =
    let same =
      picked_congr (is_within start stop len) (from_to first last) 0 items
        (λ j l. Within-from_to start stop len first last j (omega arith) (c.2 j)) in
    let slice = picked-drop first last 0 first items (omega arith) in
    let count : last + 1 - first ≡ last - first + 1 = omega (arith, c.0) in
    let counted : length (take (last - first + 1) (drop first items)) ≡ last - first + 1 = omega (
      arith,
      length-take (last - first + 1) (drop first items),
      length-drop first items,
      c.0,
      c.1,
    ) in
    let t : picked (is_within start stop len) 0 items ≡ take (last - first + 1) (drop first items) =
      same
      ∙ subst (λ m. picked (from_to first last) 0 items ≡ take m (drop first items)) count slice in
    rw t (rw counted refl)

module _ (req : Request) (w : World) (v : IsValid w.store) where
  lrange_at-picked :
      (start stop : ℤ) (l : ListValue)
      → typed_content as_list (live w.store (now_ms w) (arg req 1)) ≡ held l
      → l.len ≡ length l.items
      → ((lrange_at req w (some (start, stop))).0
          ≡ texts_reply (picked (is_within start stop l.len) 0 l.items))
        × Same (now_ms w) w.store (lrange_at req w (some (start, stop))).1.store
  unfolding lrange_at store_get_list
  lrange_at-picked start stop l h n =
      let t = lookup_typed-Finds as_list w.store v (arg req 1) (now_ms w) in
      rw (t.returns ∙ h) (
        range_reply-picked start stop l.len l.items (normalise_range start stop l.len) n
            (normalise_range-Covers start stop l.len),
        t.same,
      )

  -- For a request whose indexes are numbers, at a key that holds a list of a valid store whose
  -- length is counted, LRANGE answers with the array of the elements whose positions lie between
  -- the indexes, a negative one counted from the end, in order, and the database stays the same.
  pub cmd_lrange-picked :
      (start stop : ℤ) (l : ListValue)
      → lrange_bounds req ≡ some (start, stop)
      → typed_content as_list (live w.store (now_ms w) (arg req 1)) ≡ held l
      → l.len ≡ length l.items
      → ((cmd_lrange req w).0 ≡ texts_reply (picked (is_within start stop l.len) 0 l.items))
        × Same (now_ms w) w.store (cmd_lrange req w).1.store
  unfolding cmd_lrange
  cmd_lrange-picked start stop l b h n =
      subst
        (λ c.
          ((lrange_at req w c).0 ≡ texts_reply (picked (is_within start stop l.len) 0 l.items))
          × Same (now_ms w) w.store (lrange_at req w c).1.store)
        (sym b) (lrange_at-picked start stop l h n)
