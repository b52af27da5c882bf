-- ===== src/Store/Scores.antt =====
-- Comparisons of doubles, as src/store.c and src/cmd_*.c make them.
use pulse_db.Prelude.{Bool, false, pos, true, ltb_ℤ, eqb_ℤ}
use pulse_db.Store.Types.{Score, finite, infinity, neg_infinity}

-- `a < b`
unfoldable pub score_lt : Score → Score → Bool
score_lt neg_infinity neg_infinity = false
score_lt neg_infinity (finite b) = true
score_lt neg_infinity infinity = true
score_lt (finite a) neg_infinity = false
score_lt (finite a) (finite b) = ltb_ℤ a b
score_lt (finite a) infinity = true
score_lt infinity b = false

-- `a == b`
unfoldable pub score_eq : Score → Score → Bool
score_eq neg_infinity neg_infinity = true
score_eq neg_infinity (finite b) = false
score_eq neg_infinity infinity = false
score_eq (finite a) neg_infinity = false
score_eq (finite a) (finite b) = eqb_ℤ a b
score_eq (finite a) infinity = false
score_eq infinity neg_infinity = false
score_eq infinity (finite b) = false
score_eq infinity infinity = true

abbrev pub zero_score : Score
zero_score = finite (pos 0)
