-- ===== src/Store/ZSets/Order.antt =====
-- The order of a sorted set in src/store.c: by score, and by member at equal scores.
use pulse_db.Prelude.{Bool, Ordering, [], arith, false, refl, true, ◌∷◌, ◌≡◌}
use pulse_db.Prelude.Bytes.{Bytes, str_eq, strcmp}
use pulse_db.Store.Scores.{score_lt}
use pulse_db.Store.Types.{Score, ZSetEntry, finite, infinity, neg_infinity}
use pulse_db.Store.ZSets.{is_below, zset_cmp}

-- `a < b` for members
abbrev pub str_lt : Bytes → Bytes → Bool
str_lt a b = elim (strcmp b a) [ Ordering.gt ↦ true | _ ↦ false ]

str_lt_irrefl : (a : Bytes) → str_lt a a ≡ false
unfolding strcmp
str_lt_irrefl [] = refl
str_lt_irrefl (x ∷ a) = ground (arith, str_lt_irrefl a)

str_lt_trans : (a b c : Bytes) → str_lt a b ≡ true → str_lt b c ≡ true → str_lt a c ≡ true
unfolding strcmp
str_lt_trans a b [] h k = ground arith
str_lt_trans a [] (z ∷ c) h k = ground arith
str_lt_trans [] (y ∷ b) (z ∷ c) h k = refl
str_lt_trans (x ∷ a) (y ∷ b) (z ∷ c) h k = ground (arith, str_lt_trans a b c)

str_lt_total : (a b : Bytes) → str_lt a b ≡ false → str_eq a b ≡ false → str_lt b a ≡ true
unfolding strcmp str_eq
str_lt_total [] [] h k = absurd (cc)
str_lt_total [] (y ∷ b) h k = absurd (cc)
str_lt_total (x ∷ a) [] h k = refl
str_lt_total (x ∷ a) (y ∷ b) h k = ground (arith, str_lt_total a b)

score_lt_asym : (a b : Score) → score_lt a b ≡ true → score_lt b a ≡ false
unfolding score_lt
score_lt_asym neg_infinity neg_infinity h = refl
score_lt_asym neg_infinity (finite b) h = refl
score_lt_asym neg_infinity infinity h = refl
score_lt_asym (finite a) neg_infinity h = absurd (cc)
score_lt_asym (finite a) (finite b) h = ground arith
score_lt_asym (finite a) infinity h = refl
score_lt_asym infinity b h = absurd (cc)

-- A score between two others is above the lower or below the upper one.
score_lt_between :
    (a b c : Score) → score_lt a b ≡ false → score_lt b c ≡ false → score_lt a c ≡ false
unfolding score_lt
score_lt_between neg_infinity neg_infinity c h k = k
score_lt_between neg_infinity (finite b) c h k = absurd (cc)
score_lt_between neg_infinity infinity c h k = absurd (cc)
score_lt_between (finite a) neg_infinity neg_infinity h k = refl
score_lt_between (finite a) neg_infinity (finite c) h k = absurd (cc)
score_lt_between (finite a) neg_infinity infinity h k = absurd (cc)
score_lt_between (finite a) (finite b) neg_infinity h k = refl
score_lt_between (finite a) (finite b) (finite c) h k = ground arith
score_lt_between (finite a) (finite b) infinity h k = absurd (cc)
score_lt_between (finite a) infinity c h k = absurd (cc)
score_lt_between infinity b c h k = refl

pub score_lt_irrefl : (a : Score) → score_lt a a ≡ false
unfolding score_lt
score_lt_irrefl neg_infinity = refl
score_lt_irrefl (finite a) = ground arith
score_lt_irrefl infinity = refl

-- The entry is below the other.
abbrev pub entry_lt : ZSetEntry → ZSetEntry → Bool
entry_lt e f = is_below f.score f.member e

pub entry_lt_irrefl : (e : ZSetEntry) → entry_lt e e ≡ false
unfolding zset_cmp
entry_lt_irrefl e = ground (arith, score_lt_irrefl e.score, str_lt_irrefl e.member)

pub entry_lt_trans :
    (e f g : ZSetEntry) → entry_lt e f ≡ true → entry_lt f g ≡ true → entry_lt e g ≡ true
unfolding zset_cmp
entry_lt_trans e f g h k = ground (
  arith,
  score_lt_asym e.score f.score,
  score_lt_asym f.score g.score,
  score_lt_between f.score e.score g.score,
  score_lt_between g.score f.score e.score,
  score_lt_between e.score g.score f.score,
  score_lt_between f.score g.score e.score,
  score_lt_between g.score e.score f.score,
  str_lt_trans e.member f.member g.member,
)

pub entry_lt_total :
    (e f : ZSetEntry)
    → entry_lt e f ≡ false
    → str_eq e.member f.member ≡ false
    → entry_lt f e ≡ true
unfolding zset_cmp
entry_lt_total e f h k =
    ground (arith, score_lt_asym e.score f.score, str_lt_total e.member f.member)
