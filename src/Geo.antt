-- ===== src/Geo.antt =====
-- src/geo.c: the cells of the geohash. The arithmetic on doubles is a parameter.
use pulse_db.Prelude.{
  Bool, if◌then◌else◌, not, pos, suc, zero, ℕ, ◌%◌, ◌&&◌, ◌*◌, ◌+◌, ◌-◌, ◌/◌, ◌^◌,
}
use pulse_db.Prelude.Bytes.{Bytes}
use pulse_db.Store.Scores.{score_lt}
use pulse_db.Store.Types.{Score, finite}
pub mod Cells

-- Floating point: the bounds of src/geo.h as doubles, and the expressions of src/geo.c and
-- src/cmd_zset.c on doubles, `truncate` being the cast to an integer.
pub record Floats : Type 0 where
  pub lat_min : Score
  pub lat_max : Score
  pub lng_min : Score
  pub lng_max : Score
  -- `(v - min) / (max - min) * GEO_CELLS`
  pub scaled : Score → Score → Score → Score
  pub truncate : Score → ℕ
  -- `min + ((double)cell + 0.5) / GEO_CELLS * (max - min)`
  pub centre : Score → Score → ℕ → Score
  -- `geo_distance_m(lat1, lng1, lat2, lng2) * factor`, with `%.4f`, for a unit
  pub distance_text : Bytes → Score → Score → Score → Score → Bytes
  -- `%f`
  pub print_f : Score → Bytes

abbrev pub geo_bits : ℕ
geo_bits = 26

abbrev pub geo_cells : ℕ
geo_cells = 2 ^ geo_bits

-- `(double)n`, exact below 2 ^ 53
unfoldable pub double_of : ℕ → Score
double_of n = finite (pos (n * 2 ^ 1074))

-- `a <= b`
abbrev pub score_le : Score → Score → Bool
score_le a b = not (score_lt b a)

-- The loop of `interleave` from a bit on, with the coordinates shifted down to it: every bit of the
-- result is set once, so `|=` adds it.
unfoldable pub interleave_bits : ℕ → ℕ → ℕ → ℕ
interleave_bits zero lat lng = 0
interleave_bits (suc n) lat lng = lat % 2 + lng % 2 * 2 + interleave_bits n (lat / 2) (lng / 2) * 4

unfoldable pub interleave : ℕ → ℕ → ℕ
interleave lat lng = interleave_bits geo_bits lat lng

-- The loop of `deinterleave` from a bit on, with the hash shifted down to it.
unfoldable pub deinterleave_bits : ℕ → ℕ → ℕ × ℕ
deinterleave_bits zero hash = (0, 0)
deinterleave_bits (suc n) hash =
    let (lat, lng) = deinterleave_bits n (hash / 4) in (hash % 2 + lat * 2, hash / 2 % 2 + lng * 2)

unfoldable pub deinterleave : ℕ → ℕ × ℕ
deinterleave hash = deinterleave_bits geo_bits hash

module _ (floats : Floats) where
  unfoldable pub geo_valid : Score → Score → Bool
  geo_valid lat lng =
      score_le floats.lat_min lat
      && score_le lat floats.lat_max
      && (score_le floats.lng_min lng && score_le lng floats.lng_max)

  -- The two tests of `quantise` on a cell, and the cast.
  abbrev pub clamp_cell : Score → ℕ
  clamp_cell cell =
      if score_lt cell (double_of 0)
      then 0
      else if score_lt (double_of (geo_cells - 1)) cell
      then geo_cells - 1
      else floats.truncate cell

  unfoldable pub quantise : Score → Score → Score → ℕ
  quantise v low high = clamp_cell (floats.scaled v low high)

  unfoldable pub geo_encode : Score → Score → ℕ
  geo_encode lat lng =
      interleave (quantise lat floats.lat_min floats.lat_max)
        (quantise lng floats.lng_min floats.lng_max)

  unfoldable pub geo_decode : ℕ → Score × Score
  geo_decode hash =
      let (lat, lng) = deinterleave hash in
      (
        floats.centre floats.lat_min floats.lat_max lat,
        floats.centre floats.lng_min floats.lng_max lng,
      )
