-- ===== src/Tests/Inputs.antt =====
-- A world around a store, and stand-ins for the C library and for floating point.
use pulse_db.Config.{config_create_default}
use pulse_db.Geo.{Floats, double_of}
use pulse_db.Geo.Cells.{Truncates}
use pulse_db.Libc.{Libc}
use pulse_db.Prelude.{arith, false, negsuc, pos, some, true, ℕ, ◌/◌, ◌^◌}
use pulse_db.Prelude.Bytes.{codes, str_eq}
use pulse_db.Store.Scores.{score_lt}
use pulse_db.Store.Types.{Score, Store, finite, infinity, neg_infinity}
use pulse_db.World.{World}

-- Time stands still at 100, and the settings are the defaults.
abbrev pub world_of : Store → World
world_of s = record {
  store = s;
  cfg = config_create_default;
  clock = λ n. pos 100;
  mono = λ n. pos 100;
  ticks = 0;
  waiting = false;
  block_deadline = pos 0;
}

-- Every text is the number 0.
abbrev pub a_libc : Libc
a_libc = record {
  strtod = λ s. record { value = some (finite (pos 0)); at_end = true; range_error = false };
  print_g = λ n x. codes "0";
  fnmatch = λ pattern_text text. str_eq pattern_text text;
  thousandfold = λ x. pos 0;
}

-- The cast drops the fraction of a number of 2 ^ -1074ths.
abbrev whole_part : Score → ℕ
whole_part (finite (pos n)) = n / 2 ^ 1074
whole_part _ = 0

abbrev pub some_floats : Floats
some_floats = record {
  lat_min = finite (negsuc 84);
  lat_max = finite (pos 85);
  lng_min = finite (negsuc 179);
  lng_max = finite (pos 180);
  scaled = λ v low high. v;
  truncate = whole_part;
  centre = λ low high cell. finite (pos cell);
  distance_text = λ unit a b c d. codes "0.0000";
  print_f = λ x. codes "0.000000";
}

pub some_floats-Truncates : Truncates some_floats
unfolding double_of score_lt
some_floats-Truncates neg_infinity n h = omega arith
some_floats-Truncates (finite (pos m)) n h = ground arith
some_floats-Truncates (finite (negsuc m)) n h = omega arith
some_floats-Truncates infinity n h = omega arith
