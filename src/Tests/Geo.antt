-- ===== src/Tests/Geo.antt =====
-- The geohash of src/geo.c at a place.
use pulse_db.Geo.{geo_decode, geo_encode, quantise}
use pulse_db.Geo.Cells.{geo_decode-geo_encode}
use pulse_db.Prelude.{pos, ◌<◌, ◌^◌, ◌≡◌}
use pulse_db.Store.Types.{finite}
use pulse_db.Tests.Inputs.{some_floats, some_floats-Truncates}

geo_decode-geo_encode_example :
    (geo_encode some_floats (finite (pos 48)) (finite (pos 2)) < 2 ^ 52)
    × (geo_decode some_floats (geo_encode some_floats (finite (pos 48)) (finite (pos 2))) ≡ (
      some_floats.centre some_floats.lat_min some_floats.lat_max
          (quantise some_floats (finite (pos 48)) some_floats.lat_min some_floats.lat_max),
      some_floats.centre some_floats.lng_min some_floats.lng_max
          (quantise some_floats (finite (pos 2)) some_floats.lng_min some_floats.lng_max),
    ))
geo_decode-geo_encode_example =
    geo_decode-geo_encode some_floats some_floats-Truncates (finite (pos 48)) (finite (pos 2))
