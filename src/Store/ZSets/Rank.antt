-- ===== src/Store/ZSets/Rank.antt =====
-- The binary search in the array of a sorted set in src/store.c.
use pulse_db.Prelude.{
  ap, drop, length-take, ltb→lt, subst, take, take-append-drop, ◌∙◌, All, Bool, Bool-cases, List,
  Option-cases, [], arith, false, get_elem?, inl, inr, length, ltb, none, some, suc, true, zero, ℕ,
  ◌++◌, ◌+◌, ◌-◌, ◌/◌, ◌<◌, ◌∷◌, ◌≡◌, ◌≤◌,
}
use pulse_db.Store.Types.{ZSet, ZSetEntry}
use pulse_db.Store.ZSets.{is_below, zset_lower_bound, bisect}
use pulse_db.Store.ZSets.Order.{entry_lt_irrefl, entry_lt_trans, entry_lt}

-- Every two entries stand in order.
abbrev pub Sorted : List ZSetEntry → Type 0
Sorted [] = Unit
Sorted (e ∷ es) = All (λ f. entry_lt e f ≡ true) es × Sorted es

-- The test holds of every entry, or of none.
abbrev pub Every : (ZSetEntry → Bool) → Bool → List ZSetEntry → Type 0
Every p b es = All (λ e. p e ≡ b) es

get_left :
    (p : ZSetEntry → Bool) (b : Bool) (xs ys : List ZSetEntry) (i : ℕ) (e : ZSetEntry)
    → Every p b xs
    → get_elem? (xs ++ ys) i ≡ some e
    → i < length xs
    → p e ≡ b
get_left p b [] ys i e h k l = absurd (omega arith)
get_left p b (x ∷ xs) ys zero e h k l = ground (arith, h.0)
get_left p b (x ∷ xs) ys (suc i) e h k l = get_left p b xs ys i e h.1 k (omega arith)

get_right :
    (p : ZSetEntry → Bool) (b : Bool) (xs ys : List ZSetEntry) (i : ℕ) (e : ZSetEntry)
    → Every p b ys
    → get_elem? (xs ++ ys) i ≡ some e
    → length xs ≤ i
    → p e ≡ b
get_right p b [] [] i e h k l = absurd (cc)
get_right p b [] (y ∷ ys) zero e h k l = ground (arith, h.0)
get_right p b [] (y ∷ ys) (suc i) e h k l = get_right p b [] ys i e h.1 k (omega arith)
get_right p b (x ∷ xs) ys zero e h k l = absurd (omega arith)
get_right p b (x ∷ xs) ys (suc i) e h k l = get_right p b xs ys i e h k (omega arith)

get_none : (xs : List ZSetEntry) (i : ℕ) → get_elem? xs i ≡ none → length xs ≤ i
get_none [] i h = omega arith
get_none (x ∷ xs) zero h = absurd (cc)
get_none (x ∷ xs) (suc i) h = omega (arith, get_none xs i h)

module _ (p : ZSetEntry → Bool) (xs ys : List ZSetEntry) (left : Every p true xs)
    (right : Every p false ys) where
  is_left : (i : ℕ) (e : ZSetEntry) → get_elem? (xs ++ ys) i ≡ some e → p e ≡ true → i < length xs
  is_left i e found low = elim (Bool-cases (ltb i (length xs))) [
    | inl yes_left ↦ ltb→lt i (length xs) yes_left
    | inr not_left ↦
        let h : p e ≡ false = get_right p false xs ys i e right found (ground arith) in absurd (cc)
  ]

  is_right : (i : ℕ) (e : ZSetEntry) → get_elem? (xs ++ ys) i ≡ some e → p e ≡ false → length xs ≤ i
  is_right i e found high = elim (Bool-cases (ltb i (length xs))) [
    | inl yes_left ↦
        let h : p e ≡ true = get_left p true xs ys i e left found (ltb→lt i (length xs) yes_left) in
        absurd (cc)
    | inr not_left ↦ ground arith
  ]

  -- Where the test holds of a first part of the array and of nothing behind it, the search gives
  -- the length of that part.
  pub bisect_lem :
      (fuel lo hi : ℕ)
      → lo ≤ length xs
      → length xs ≤ hi
      → hi ≤ length (xs ++ ys)
      → hi - lo ≤ fuel
      → bisect p (xs ++ ys) fuel lo hi ≡ length xs
  unfolding bisect
  bisect_lem zero lo hi a b c d = omega arith
  bisect_lem (suc fuel) lo hi a b c d = elim (Bool-cases (ltb lo hi)) [
    | inr ended ↦ rw ended (ground arith)
    | inl runs ↦
        let mid = lo + (hi - lo) / 2 in
        let inside : (lo ≤ mid) × (mid < hi) = ground arith in
        elim (Option-cases (get_elem? (xs ++ ys) mid)) [
          | inl e ↦ absurd (omega (arith, get_none (xs ++ ys) mid e, inside))
          | inr (e, found) ↦ elim (Bool-cases (p e)) [
            | inl low ↦
                rw (runs, found, low)
                  (bisect_lem fuel (mid + 1) hi (omega (arith, is_left mid e found low)) b c
                    (omega (arith, inside)))
            | inr high ↦
                rw (runs, found, high)
                  (bisect_lem fuel lo mid a (is_right mid e found high) (omega (arith, inside))
                    (omega (arith, inside)))
          ]
        ]
  ]

All_get :
    (P : ZSetEntry → Type 0) (es : List ZSetEntry) (i : ℕ) (e : ZSetEntry)
    → All P es
    → get_elem? es i ≡ some e
    → P e
All_get P [] i e a h = absurd (cc)
All_get P (f ∷ es) zero e a h = subst (λ o. elim o [ none ↦ P f | some g ↦ P g ]) h a.0
All_get P (f ∷ es) (suc i) e a h = All_get P es i e a.1 h

entry_lt_asym : (e f : ZSetEntry) → entry_lt e f ≡ true → entry_lt f e ≡ false
entry_lt_asym e f h = elim (Bool-cases (entry_lt f e)) [
  | inl k ↦ let t = entry_lt_trans e f e h k in let u = entry_lt_irrefl e in absurd (cc)
  | inr k ↦ k
]

-- What stands behind an entry is not below it.
none_below :
    (e : ZSetEntry) (es : List ZSetEntry)
    → All (λ f. entry_lt e f ≡ true) es
    → Every (λ f. entry_lt f e) false es
none_below e [] a = tt
none_below e (f ∷ es) a = (entry_lt_asym e f a.0, none_below e es a.1)

before_entry :
    (es : List ZSetEntry) (i : ℕ) (e : ZSetEntry)
    → Sorted es
    → get_elem? es i ≡ some e
    → Every (λ f. entry_lt f e) true (take i es)
before_entry [] i e s h = absurd (cc)
before_entry (f ∷ es) zero e s h = tt
before_entry (f ∷ es) (suc i) e s h =
    (All_get (λ g. entry_lt f g ≡ true) es i e s.0 h, before_entry es i e s.1 h)

from_entry :
    (es : List ZSetEntry) (i : ℕ) (e : ZSetEntry)
    → Sorted es
    → get_elem? es i ≡ some e
    → Every (λ f. entry_lt f e) false (drop i es)
from_entry [] i e s h = absurd (cc)
from_entry (f ∷ es) zero e s h =
    subst
      (λ o. elim o as (λ p. Type 0) [
        | none ↦ Unit
        | some g ↦ Every (λ x. entry_lt x g) false (f ∷ es)
      ])
      h (entry_lt_irrefl f, none_below f es s.0)
from_entry (f ∷ es) (suc i) e s h = from_entry es i e s.1 h

get_some : (es : List ZSetEntry) (i : ℕ) (e : ZSetEntry) → get_elem? es i ≡ some e → i < length es
get_some [] i e h = absurd (cc)
get_some (f ∷ es) zero e h = omega arith
get_some (f ∷ es) (suc i) e h = omega (arith, get_some es i e h)

-- In a sorted array whose length is counted, the search for the score and the member of an entry
-- gives its position.
pub zset_lower_bound-get_elem? :
    (z : ZSet) (i : ℕ) (e : ZSetEntry)
    → Sorted z.entries
    → z.len ≡ length z.entries
    → get_elem? z.entries i ≡ some e
    → zset_lower_bound z e.score e.member ≡ i
unfolding zset_lower_bound
zset_lower_bound-get_elem? z i e s n h =
    let whole = take-append-drop i z.entries in
    let at_i : length (take i z.entries) ≡ i =
      omega (arith, length-take i z.entries, get_some z.entries i e h) in
    let t =
      bisect_lem (λ f. entry_lt f e) (take i z.entries) (drop i z.entries)
        (before_entry z.entries i e s h) (from_entry z.entries i e s h) z.len 0 z.len (omega arith)
        (omega (arith, at_i, get_some z.entries i e h, n)) (omega (arith, n, ap length whole))
        (omega arith) in
    subst (λ es. bisect (is_below e.score e.member) es z.len 0 z.len ≡ length (take i z.entries))
      whole t
    ∙ at_i
