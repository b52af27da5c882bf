-- ===== src/Doubles.antt =====
-- `parse_double` of src/util.c and `reply_double` of src/reply.c, over the C library's `strtod` and
-- `snprintf`.
use pulse_db.Libc.{Libc, Strtod}
use pulse_db.Prelude.{Bool, Option, [], if◌then◌else◌, none, not, some, ◌&&◌, ◌||◌, ◌∷◌}
use pulse_db.Prelude.Bytes.{Bytes}
use pulse_db.Reply.{reply_bulk}
use pulse_db.Store.Scores.{score_eq, zero_score}
use pulse_db.Store.Types.{Score}

abbrev pub is_zero : Score → Bool
is_zero x = score_eq x zero_score

-- The checks on what `strtod` gave.
abbrev pub checked : Strtod → Option Score
checked r = elim r.value [
  | none ↦ none
  | some v ↦ if r.range_error && not (is_zero v) || not r.at_end then none else some v
]

module _ (libc : Libc) where
  unfoldable pub parse_double : Bytes → Option Score
  parse_double [] = none
  parse_double (c ∷ s) = checked (libc.strtod (c ∷ s))

  -- The shortest of the two formats that is read back as the number.
  unfoldable pub double_text : Score → Bytes
  double_text val =
      let text = libc.print_g 15 val in
      elim (libc.strtod text).value [
        | none ↦ libc.print_g 17 val
        | some v ↦ if score_eq v val then text else libc.print_g 17 val
      ]

  unfoldable pub reply_double : Bytes → Score → Bytes
  reply_double out val = reply_bulk out (double_text val)
