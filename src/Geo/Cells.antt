-- ===== src/Geo/Cells.antt =====
-- The bits of two coordinates of src/geo.c are taken apart as they were put together.
use pulse_db.Geo.{
  Floats, clamp_cell, double_of, geo_decode, geo_encode, quantise, score_le, deinterleave,
  deinterleave_bits, geo_bits, geo_cells, interleave, interleave_bits,
}
use pulse_db.Prelude.{
  Bool-cases, ap, inl, inr, not, true, ◌-◌, ◌^◌, ◌≤◌, arith, refl, suc, zero, ℕ, ◌%◌, ◌*◌, ◌+◌, ◌/◌,
  ◌<◌, ◌≡◌,
}
use pulse_db.Store.Scores.{score_lt}
use pulse_db.Store.Types.{Score}

-- 2 to the power of `n`
abbrev cells : ℕ → ℕ
cells zero = 1
cells (suc n) = 2 * cells n

halve : (n lat : ℕ) → lat < cells (suc n) → lat / 2 < cells n
halve n lat h = omega arith

bits_round_trip :
    (n lat lng : ℕ)
    → lat < cells n
    → lng < cells n
    → deinterleave_bits n (interleave_bits n lat lng) ≡ (lat, lng)
unfolding deinterleave_bits interleave_bits
bits_round_trip zero lat lng h k = ground arith
bits_round_trip (suc n) lat lng h k =
    let rest = bits_round_trip n (lat / 2) (lng / 2) (halve n lat h) (halve n lng k) in
    let x = interleave_bits n (lat / 2) (lng / 2) in
    let shifted : (lat % 2 + lng % 2 * 2 + x * 4) / 4 ≡ x = omega arith in
    let low : (lat % 2 + lng % 2 * 2 + x * 4) % 2 + lat / 2 * 2 ≡ lat = omega arith in
    let high : (lat % 2 + lng % 2 * 2 + x * 4) / 2 % 2 + lng / 2 * 2 ≡ lng = omega arith in
    rw (shifted, rest, low, high) refl

-- Two coordinates below 2 ^ 26 are what `deinterleave` takes out of what `interleave` gives.
pub deinterleave-interleave :
    (lat lng : ℕ)
    → lat < geo_cells
    → lng < geo_cells
    → deinterleave (interleave lat lng) ≡ (lat, lng)
unfolding deinterleave interleave
deinterleave-interleave lat lng h k = bits_round_trip geo_bits lat lng h k

abbrev quads : ℕ → ℕ
quads zero = 1
quads (suc n) = 4 * quads n

bits_below : (n lat lng : ℕ) → interleave_bits n lat lng < quads n
unfolding interleave_bits
bits_below zero lat lng = omega arith
bits_below (suc n) lat lng = omega (arith, bits_below n (lat / 2) (lng / 2))

-- The cast of a number that is at most `n` is at most `n`.
abbrev pub Truncates : Floats → Type 0
Truncates floats = (x : Score) (n : ℕ) → score_le x (double_of n) ≡ true → floats.truncate x ≤ n

module _ (floats : Floats) (truncates : Truncates floats) where
  clamp_cell-lt : (cell : Score) → clamp_cell floats cell < geo_cells
  clamp_cell-lt cell = elim (Bool-cases (score_lt cell (double_of 0))) [
    | inl low ↦ rw low (omega arith)
    | inr l ↦ elim (Bool-cases (score_lt (double_of (geo_cells - 1)) cell)) [
      | inl high ↦ rw (l, high) (omega arith)
      | inr h ↦ let t = truncates cell (geo_cells - 1) (ap not h) in rw (l, h) (omega (arith, t))
    ]
  ]

  -- Where the cast of a number that is at most n is at most n, `geo_encode` gives a hash below 2
  -- ^ 52, which a double holds exactly, and `geo_decode` gives the centres of the two cells that
  -- `quantise` found.
  pub geo_decode-geo_encode :
      (lat lng : Score)
      → (geo_encode floats lat lng < 2 ^ 52)
        × (geo_decode floats (geo_encode floats lat lng) ≡ (
          floats.centre floats.lat_min floats.lat_max
              (quantise floats lat floats.lat_min floats.lat_max),
          floats.centre floats.lng_min floats.lng_max
              (quantise floats lng floats.lng_min floats.lng_max),
        ))
  unfolding geo_encode geo_decode interleave quantise
  geo_decode-geo_encode lat lng =
      let a = quantise floats lat floats.lat_min floats.lat_max in
      let b = quantise floats lng floats.lng_min floats.lng_max in
      (
        bits_below geo_bits a b,
        rw (deinterleave-interleave a b (clamp_cell-lt _) (clamp_cell-lt _)) refl,
      )
