-- ===== src/Commands/Streams/Reads.antt =====
-- XREAD of src/cmd_stream.c: the entries of each stream above the ID that stands for it.
use pulse_db.Rdb.Writer.{one, two}
pub mod Loops
pub mod Effects
use pulse_db.Commands.Args.{args_from}
use pulse_db.Commands.Streams.{
  cmd_xread, xread_reply, entries_after, skip_through, xread_collect, xread_one, after_id,
  xread_check, stream_entries, xread_count, xread_streams,
}
use pulse_db.Txn.{Request}
use pulse_db.Commands.Streams.Ranges.{skip_through-kept, is_after, kept}
use pulse_db.Store.Streams.Effects.{zero_id, IsOrdered}
use pulse_db.Prelude.{
  drop-length, subst, take-length, ◌∙◌, ◌⊎◌, All, List, Option, [], ap, arith, false, inr, length,
  length-append, none, pos, refl, some, suc, sym, take, true, zero, ℕ, ℤ, ◌%◌, ◌++◌, ◌+◌, ◌/◌, ◌<◌,
  ◌==◌, ◌∷◌, ◌≡◌, ◌≤ℤ◌,
}
use pulse_db.Store.Invariant.{IsValid}
use pulse_db.Store.Keys.{lookup_typed, Typed, absent, held, mismatched}
use pulse_db.Store.Live.{Same, Same-later, Same-refl, Same-trans, live}
use pulse_db.Store.Streams.{store_get_stream, as_stream, stream_id_parse}
use pulse_db.Store.Update.{lookup_typed-Finds, typed_content}
use pulse_db.Prelude.Bytes.{Bytes, codes, str_eq, strcmp}
use pulse_db.Reply.{reply_array, reply_bulk, reply_null_array}
use pulse_db.Store.Strings.{parse_int64}
use pulse_db.Store.Types.{Store, StreamEntry, StreamId, Stream}
use pulse_db.World.{Forward, World, now_ms, stored}
use pulse_db.Commands.Streams.Replies.{entries_reply}

-- The limit of a COUNT option, or no limit.
abbrev pub count_option : Option Bytes → List Bytes
count_option none = []
count_option (some n) = codes "COUNT" ∷ n ∷ []

abbrev pub IsLimit : Option Bytes → ℕ → Type 0
IsLimit none limit = limit ≡ 0
IsLimit (some n) limit = parse_int64 n ≡ some (pos limit)

-- The arguments of XREAD.
abbrev pub xread_args : Option Bytes → List Bytes → List Bytes → List Bytes
xread_args c keys ids = count_option c ++ codes "STREAMS" ∷ (keys ++ ids)

-- Every text is the ID beside it, and none of them is `$`.
abbrev pub AreIds : List Bytes → List StreamId → Type 0
AreIds [] [] = Unit
AreIds [] (x ∷ xs) = ⊥
AreIds (i ∷ is) [] = ⊥
AreIds (i ∷ is) (x ∷ xs) =
    (str_eq i (codes "$") ≡ false) × (stream_id_parse i 0 ≡ some x) × AreIds is xs

abbrev pub with_ids : List Bytes → List StreamId → List (Bytes × StreamId)
with_ids [] lasts = []
with_ids (k ∷ ks) [] = []
with_ids (k ∷ ks) (x ∷ xs) = (k, x) ∷ with_ids ks xs

-- A free key, or one that holds an ordered stream.
abbrev pub Readable : Typed Stream → Type 0
Readable absent = Unit
Readable mismatched = ⊥
Readable (held x) = IsOrdered x

-- The keys are free or hold ordered streams from the next reading of the clock on.
abbrev pub AllReadable : World → List Bytes → Type 0
AllReadable w keys =
    All (λ k. (t : ℤ) → now_ms w ≤ℤ t → Readable (typed_content as_stream (live w.store t k))) keys

abbrev pub entries_in : Typed Stream → List StreamEntry
entries_in absent = []
entries_in mismatched = []
entries_in (held x) = x.entries

-- The first entries, as many as the limit; 0 is no limit.
abbrev pub limited : ℕ → List StreamEntry → List StreamEntry
limited zero es = es
limited (suc n) es = take (suc n) es

-- The reply for a stream, if there are entries: how many replies, and their bytes.
abbrev pub stream_reply : Bytes → List StreamEntry → ℕ × Bytes
stream_reply key [] = (0, [])
stream_reply key (e ∷ es) = (1, reply_array [] 2 ++ (reply_bulk [] key ++ entries_reply (e ∷ es)))

-- The replies for the keys: of each stream the entries above the ID, at the next reading of the
-- clock.
abbrev pub replies_above : ℕ → Store → (ℕ → ℤ) → ℕ → List (Bytes × StreamId) → ℕ × Bytes
replies_above limit s clock n [] = (0, [])
replies_above limit s clock n ((key, last) ∷ afters) =
    let above =
      kept (is_after last) (entries_in (typed_content as_stream (live s (clock n) key))) in
    let one = stream_reply key (limited limit above) in
    let rest = replies_above limit s clock (n + 1) afters in (one.0 + rest.0, one.1 ++ rest.1)

abbrev pub reads_reply : ℕ × Bytes → Bytes
reads_reply (zero, body) = reply_null_array []
reads_reply (suc n, body) = reply_array [] (suc n) ++ body

pub xread_count-args :
    (c : Option Bytes) (limit : ℕ) (keys ids : List Bytes)
    → IsLimit c limit
    → xread_count (xread_args c keys ids) ≡ some (limit, codes "STREAMS" ∷ (keys ++ ids))
unfolding xread_count str_eq strcmp
xread_count-args none limit [] [] h = ap (λ n. some (n, codes "STREAMS" ∷ [])) (sym h)
xread_count-args none limit [] (i ∷ ids) h = ap (λ n. some (n, codes "STREAMS" ∷ i ∷ ids)) (sym h)
xread_count-args none limit (k ∷ keys) ids h =
    ap (λ n. some (n, codes "STREAMS" ∷ k ∷ (keys ++ ids))) (sym h)
xread_count-args (some n) limit keys ids h = rw (h, xread_count) refl

pub xread_streams-args :
    (keys ids : List Bytes)
    → 0 < length keys
    → length ids ≡ length keys
    → xread_streams (codes "STREAMS" ∷ (keys ++ ids)) ≡ inr (keys, ids)
unfolding xread_streams str_eq strcmp
xread_streams-args keys ids some_key same =
    let n = length-append keys ids in
    let filled : (length (keys ++ ids) == 0) ≡ false = ground (arith, n) in
    let even : (length (keys ++ ids) % 2 == 0) ≡ true =
      let two : length (keys ++ ids) % 2 ≡ 0 = omega (arith, n, same) in ground arith in
    let half : length (keys ++ ids) / 2 ≡ length keys = omega (arith, n, same) in
    rw (filled, even, half, take-length keys ids, drop-length keys ids) refl
