-- ===== src/Commands/ZSets.antt =====
-- src/cmd_zset.c
use pulse_db.Commands.Args.{
  Answer, arg, argc, args_from, err_not_float, err_not_int, err_syntax, err_wrongtype, str_case_eq,
}
use pulse_db.Commands.Hashes.{is_wrong_type}
use pulse_db.Commands.Lists.{bulks, is_none_type, lrange_bounds, normalise_range}
use pulse_db.Commands.Lookup.{to_lower}
use pulse_db.Commands.Strings.{bool_int}
use pulse_db.Doubles.{parse_double, reply_double}
use pulse_db.Geo.{Floats, double_of, geo_decode, geo_encode, geo_valid}
use pulse_db.Libc.{Libc}
use pulse_db.Prelude.{
  Bool, List, Option, [], drop, false, if◌then◌else◌, inl, inr, length, map, none, not, pos, some,
  take, true, ℕ, ℤ, ◌%◌, ◌&&◌, ◌*◌, ◌++◌, ◌+◌, ◌-◌, ◌==◌, ◌>>=◌, ◌||◌, ◌∷◌, ◌⊎◌,
}
use pulse_db.Prelude.Bytes.{Bytes, codes}
use pulse_db.Reply.{
  reply_array, reply_bulk, reply_error, reply_errorf, reply_integer, reply_null, reply_null_array,
}
use pulse_db.Store.Keys.{Typed, store_type, held, absent, mismatched}
use pulse_db.Store.Scores.{score_lt}
use pulse_db.Store.Types.{Score, StoreStatus, StoreType, ZSet, ZSetEntry}
use pulse_db.Store.ZSets.{store_get_zset, store_zset_add, store_zset_rank, store_zset_score}
use pulse_db.Txn.{Request}
use pulse_db.World.{World, now_ms, stored}

abbrev pub is_zset_type : StoreType → Bool
is_zset_type StoreType.zset = true
is_zset_type _ = false

-- `t != STORE_TYPE_NONE && t != STORE_TYPE_ZSET`
abbrev pub not_zset : StoreType → Bool
not_zset t = not (is_none_type t) && not (is_zset_type t)

-- The loop that adds, with the number of new members so far.
unfoldable pub zadd_all : Bytes → List (Score × Bytes) → ℕ → World → Answer
zadd_all key [] added w = (reply_integer [] (pos added), w)
zadd_all key ((score, member) ∷ rest) added w =
    let (st, a, s) = store_zset_add w.store key score member (now_ms w) in
    zadd_all key rest (added + bool_int a) (stored w s)

-- The check of the type, and the loop.
unfoldable pub zadd_checked : Bytes → List (Score × Bytes) → World → Answer
zadd_checked key pairs w =
    let (t, s) = store_type w.store key (now_ms w) in
    if not_zset t
    then (reply_error [] err_wrongtype, stored w s)
    else zadd_all key pairs 0 (stored w s)

-- `WITHSCORES`, or no fifth argument; otherwise an error.
abbrev pub withscores_of : Request → Option Bool
withscores_of req =
    if (argc req == 5) && str_case_eq (arg req 4) (codes "WITHSCORES")
    then some true
    else if argc req == 4
    then some false
    else none

-- The entries from the first one on whose score is not below `low`.
unfoldable pub skip_scores : Score → List ZSetEntry → List ZSetEntry
skip_scores low [] = []
skip_scores low (e ∷ es) = if score_lt e.score low then skip_scores low es else e ∷ es

-- The entries before the first one whose score is above `high`.
unfoldable pub scores_to : Score → List ZSetEntry → List ZSetEntry
scores_to high [] = []
scores_to high (e ∷ es) = if score_lt high e.score then [] else e ∷ scores_to high es

abbrev pub member_names : List ZSetEntry → List Bytes
member_names es = map (λ e. e.member) es

abbrev pub score_range : Score → Score → Typed ZSet → Bytes
score_range low high mismatched = reply_error [] err_wrongtype
score_range low high absent = reply_array [] 0
score_range low high (held z) =
    let es = scores_to high (skip_scores low z.entries) in
    reply_array [] (length es) ++ bulks (member_names es)

abbrev pub rank_reply : StoreStatus → Option ℕ → Bytes
rank_reply StoreStatus.ok (some rank) = reply_integer [] (pos rank)
rank_reply StoreStatus.wrong_type rank = reply_error [] err_wrongtype
rank_reply _ rank = reply_null []

unfoldable pub cmd_zrank : Request → World → Answer
cmd_zrank req w =
    let (st, rank, s) = store_zset_rank w.store (arg req 1) (arg req 2) (now_ms w) in
    (rank_reply st rank, stored w s)

unfoldable pub cmd_zcard : Request → World → Answer
cmd_zcard req w =
    let (r, s) = store_get_zset w.store (arg req 1) (now_ms w) in
    (
      elim r [
        | mismatched ↦ reply_error [] err_wrongtype
        | absent ↦ reply_integer [] (pos 0)
        | held z ↦ reply_integer [] (pos z.len)
      ],
      stored w s,
    )

-- The units that GEODIST knows.
abbrev pub is_unit : Bytes → Bool
is_unit unit =
    str_case_eq unit (codes "m")
    || str_case_eq unit (codes "km")
    || (str_case_eq unit (codes "mi") || str_case_eq unit (codes "ft"))

-- The unit of GEODIST, or an error.
abbrev pub unit_of : Request → Bytes ⊎ Bytes
unit_of req =
    if argc req == 5
    then (if is_unit (arg req 4)
        then inr (map to_lower (arg req 4))
        else inl (codes "ERR unsupported unit provided. please use M, KM, FT, MI"))
    else if argc req == 4
    then inr (codes "m")
    else inl err_syntax

module _ (libc : Libc) where
  -- The scores and members of ZADD, if every score is a number.
  unfoldable pub score_pairs : List Bytes → Option (List (Score × Bytes))
  score_pairs [] = some []
  score_pairs (score ∷ []) = parse_double libc score >>= (λ x. some [])
  score_pairs (score ∷ member ∷ rest) =
      parse_double libc score >>= (λ x. score_pairs rest >>= (λ pairs. some ((x, member) ∷ pairs)))

  unfoldable pub cmd_zadd : Request → World → Answer
  cmd_zadd req w =
      if not (argc req % 2 == 0)
      then (reply_error [] (codes "ERR wrong number of arguments for 'zadd' command"), w)
      else elim (score_pairs (args_from req 2)) [
        | none ↦ (reply_error [] err_not_float, w)
        | some pairs ↦ zadd_checked (arg req 1) pairs w
      ]

  unfoldable pub zrange_entries : Bool → List ZSetEntry → Bytes
  zrange_entries withscores [] = []
  zrange_entries withscores (e ∷ es) =
      reply_bulk [] e.member
      ++ ((if withscores then reply_double libc [] e.score else []) ++ zrange_entries withscores es)

  abbrev pub zrange_slice : Bool → Option (ℕ × ℕ) → List ZSetEntry → Bytes
  zrange_slice withscores none entries = reply_array [] 0
  zrange_slice withscores (some (first, last)) entries =
      let count = last - first + 1 in
      reply_array [] (if withscores then count * 2 else count)
      ++ zrange_entries withscores (take count (drop first entries))

  abbrev pub zrange_reply : Bool → Typed ZSet → ℤ → ℤ → Bytes
  zrange_reply withscores mismatched start stop = reply_error [] err_wrongtype
  zrange_reply withscores absent start stop = reply_array [] 0
  zrange_reply withscores (held z) start stop =
      zrange_slice withscores (normalise_range start stop z.len) z.entries

  -- `cmd_zrange` behind the checks of the options and the indexes.
  unfoldable pub zrange_at : Request → World → Option Bool → Option (ℤ × ℤ) → Answer
  zrange_at req w none bounds = (reply_error [] err_syntax, w)
  zrange_at req w (some withscores) none = (reply_error [] err_not_int, w)
  zrange_at req w (some withscores) (some (start, stop)) =
      let (r, s) = store_get_zset w.store (arg req 1) (now_ms w) in
      (zrange_reply withscores r start stop, stored w s)

  unfoldable pub cmd_zrange : Request → World → Answer
  cmd_zrange req w = zrange_at req w (withscores_of req) (lrange_bounds req)

  unfoldable pub cmd_zrangebyscore : Request → World → Answer
  cmd_zrangebyscore req w = elim (parse_double libc (arg req 2)) [
    | none ↦ (reply_error [] (codes "ERR min or max is not a float"), w)
    | some low ↦ elim (parse_double libc (arg req 3)) [
      | none ↦ (reply_error [] (codes "ERR min or max is not a float"), w)
      | some high ↦
          let (r, s) = store_get_zset w.store (arg req 1) (now_ms w) in
          (score_range low high r, stored w s)
    ]
  ]

  abbrev pub zscore_reply : StoreStatus → Option Score → Bytes
  zscore_reply StoreStatus.ok (some score) = reply_double libc [] score
  zscore_reply StoreStatus.wrong_type score = reply_error [] err_wrongtype
  zscore_reply _ score = reply_null []

  unfoldable pub cmd_zscore : Request → World → Answer
  cmd_zscore req w =
      let (st, score, s) = store_zset_score w.store (arg req 1) (arg req 2) (now_ms w) in
      (zscore_reply st score, stored w s)

  module _ (floats : Floats) where
    -- A place of GEOADD with its hash as the score, or an error.
    abbrev pub geo_place : Option Score → Option Score → Bytes → Bytes ⊎ (Score × Bytes)
    geo_place none lat member = inl (reply_error [] err_not_float)
    geo_place (some lng) none member = inl (reply_error [] err_not_float)
    geo_place (some lng) (some lat) member =
        if geo_valid floats lat lng
        then inr (double_of (geo_encode floats lat lng), member)
        else inl (
            reply_errorf [] (
              codes "ERR invalid longitude,latitude pair "
              ++ (floats.print_f lng ++ (codes "," ++ floats.print_f lat))))

    -- The first loop of `cmd_geoadd`: the places, or the first error.
    unfoldable pub geo_places : List Bytes → Bytes ⊎ List (Score × Bytes)
    geo_places (lng ∷ lat ∷ member ∷ rest) =
        let more = geo_places rest in
        elim (geo_place (parse_double libc lng) (parse_double libc lat) member) [
          | inl e ↦ inl e
          | inr p ↦ elim more [ inl e ↦ inl e | inr ps ↦ inr (p ∷ ps) ]
        ]
    geo_places _ = inr []

    unfoldable pub cmd_geoadd : Request → World → Answer
    cmd_geoadd req w =
        if not ((argc req - 2) % 3 == 0)
        then (reply_error [] (codes "ERR wrong number of arguments for 'geoadd' command"), w)
        else elim (geo_places (args_from req 2)) [
          | inl e ↦ (e, w)
          | inr places ↦ zadd_checked (arg req 1) places w
        ]

    -- The distance between the places of two hashes. The cast of a score that is no `uint64_t` is
    -- undefined in C.
    abbrev pub distance_of : Bytes → Score → Score → Bytes
    distance_of unit a b =
        let (lat₁, lng₁) = geo_decode floats (floats.truncate a) in
        let (lat₂, lng₂) = geo_decode floats (floats.truncate b) in
        floats.distance_text unit lat₁ lng₁ lat₂ lng₂

    abbrev pub geodist_reply :
        Bytes → StoreStatus → Option Score → StoreStatus → Option Score → Bytes
    geodist_reply unit StoreStatus.ok (some a) StoreStatus.ok (some b) =
        reply_bulk [] (distance_of unit a b)
    geodist_reply unit _ _ _ _ = reply_null []

    unfoldable pub cmd_geodist : Request → World → Answer
    cmd_geodist req w = elim (unit_of req) [
      | inl msg ↦ (reply_error [] msg, w)
      | inr unit ↦
          let (st₁, a, s) = store_zset_score w.store (arg req 1) (arg req 2) (now_ms w) in
          let w₁ = stored w s in
          let (st₂, b, s') = store_zset_score w₁.store (arg req 1) (arg req 3) (now_ms w₁) in
          if is_wrong_type st₁
          then (reply_error [] err_wrongtype, w₁)
          else (geodist_reply unit st₁ a st₂ b, stored w₁ s')
    ]

    abbrev pub place_reply : StoreStatus → Option Score → Bytes
    place_reply StoreStatus.ok (some score) =
        let (lat, lng) = geo_decode floats (floats.truncate score) in
        reply_array [] 2
        ++ (reply_bulk [] (libc.print_g 17 lng) ++ reply_bulk [] (libc.print_g 17 lat))
    place_reply _ score = reply_null_array []

    -- The loop of `cmd_geopos`.
    unfoldable pub geopos_all : Bytes → List Bytes → World → Answer
    geopos_all key [] w = ([], w)
    geopos_all key (member ∷ members) w =
        let (st, score, s) = store_zset_score w.store key member (now_ms w) in
        let (out, w') = geopos_all key members (stored w s) in (place_reply st score ++ out, w')

    unfoldable pub cmd_geopos : Request → World → Answer
    cmd_geopos req w =
        let (t, s) = store_type w.store (arg req 1) (now_ms w) in
        let (out, w') = geopos_all (arg req 1) (args_from req 2) (stored w s) in
        if not_zset t
        then (reply_error [] err_wrongtype, stored w s)
        else (reply_array [] (argc req - 2) ++ out, w')
