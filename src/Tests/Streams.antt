-- ===== src/Tests/Streams.antt =====
-- The streams of src/store.c on a stream of one entry.
use pulse_db.Commands.Args.{arg, args_from}
use pulse_db.Commands.Process.{c_str}
use pulse_db.Commands.Streams.{greatest_id, xrange_bounds, cmd_xrange, cmd_xread}
use pulse_db.Commands.Streams.Ranges.{in_range, kept}
use pulse_db.Commands.Streams.Reads.{
  AllReadable, AreIds, IsLimit, Readable, reads_reply, replies_above, with_ids, xread_args,
}
use pulse_db.Commands.Streams.Reads.Effects.{cmd_xread-above}
use pulse_db.World.{now_ms}
use pulse_db.Store.Strings.{parse_int64}
use pulse_db.Prelude.Decimal.{
  digits_from, negative_int64, positive_int64, skip_spaces, strtoll_signed, strtoll_whole,
  whole_digits,
}
use pulse_db.Commands.Streams.Replies.{cmd_xrange-between, entries_reply}
use pulse_db.Store.Live.{Same, live}
use pulse_db.Table.Buckets.{Buckets, slot, nodes}
use pulse_db.Tests.Inputs.{world_of}
use pulse_db.Txn.{Request}
use pulse_db.Store.Hashing.{hash64_from, hash64}
use pulse_db.Table.Chain.{find, remove, modify}
use pulse_db.Store.Keys.Effects.{store_create_empty}
use pulse_db.Table.Rehash.{move_chain, move_all}
use pulse_db.Table.Buckets
use pulse_db.Store.Keys.{
  held, Typed, store_create, store_grow, entry_is_expired, unlink_entry, lookup, write_entry,
  push_entry, create_entry, typed, lookup_typed, put_value,
}
use pulse_db.Store.Update.{typed_content}
use pulse_db.Store.Invariant.{IsValid}
use pulse_db.Prelude.Bytes.{Bytes, codes, str_eq, strcmp}
use pulse_db.Store.Streams.Ids.{Exceeds, IsStarted, resolve_new_id-Exceeds}
use pulse_db.Store.Streams.Effects.{Outcome, IsOrdered, store_stream_add-Adds}
use pulse_db.Store.Types.{Store, Stream, StreamField, StreamId}
use pulse_db.Store.Streams.{
  stream_id_parse, last_id_of, split_dash, store_stream_add, parse_u64, resolve_new_id,
  parse_u64_from, strip_auto, resolve_explicit, stream_id_cmp, as_stream, append_entry, new_entry,
}
use pulse_db.Prelude.{◌≡◌, refl, pos, [], ◌∷◌, some, List, inl, arith, ◌<◌, subst, sym, ℤ}

abbrev a_key : Bytes
a_key = codes "a"

abbrev age : List StreamField
age = record { field = codes "age"; value = codes "3" } ∷ []

-- `XADD a 5-1 age 3`, at time 100.
abbrev one_entry : Store
one_entry = (store_stream_add store_create a_key (codes "5-1") age (pos 100) (pos 100)).2

-- What a run computes with.
program : Unit {0}
unfolding strcmp str_eq find remove modify slot nodes move_chain move_all hash64_from hash64
    Buckets.view store_create store_grow entry_is_expired unlink_entry lookup write_entry push_entry
    create_entry typed lookup_typed put_value live stream_id_parse split_dash parse_u64
    parse_u64_from resolve_new_id strip_auto resolve_explicit stream_id_cmp append_entry new_entry
    store_stream_add
program = tt

nothing_held :
    (x : Stream)
    → typed_content as_stream (live store_create (pos 100) a_key) ≡ held x
    → IsOrdered x × (0 < x.len)
unfolding program
nothing_held x h = absurd (ground arith)

one_entry-IsValid : IsValid one_entry
unfolding program
one_entry-IsValid =
    let t =
      store_stream_add-Adds store_create store_create_empty.0 a_key (codes "5-1") age (pos 100)
        (pos 100) nothing_held in
    t.4.valid

OrderedTyped : Typed Stream → Type 0
OrderedTyped (held x) = IsOrdered x × (0 < x.len)
OrderedTyped _ = Unit

one_entry-IsOrdered :
    (x : Stream)
    → typed_content as_stream (live one_entry (pos 100) a_key) ≡ held x
    → IsOrdered x × (0 < x.len)
unfolding program OrderedTyped
one_entry-IsOrdered x h = subst OrderedTyped h (
  record {
    ascends = (inl (omega arith), tt);
    last = refl;
    last_fits = record { ms_fits = omega arith; seq_fits = omega arith };
    counted = refl;
  },
  omega arith,
)

store_stream_add-Adds_example :
    Outcome one_entry one_entry-IsValid a_key
      (codes "5-*")
      age
      (pos 100)
      (pos 100)
      (typed_content as_stream (live one_entry (pos 100) a_key))
      (store_stream_add one_entry a_key (codes "5-*") age (pos 100) (pos 100))
store_stream_add-Adds_example =
    store_stream_add-Adds one_entry one_entry-IsValid a_key (codes "5-*") age (pos 100) (pos 100)
      one_entry-IsOrdered

abbrev started : Stream
started = record {
  entries = record { id = record { ms = 5; seq = 1 }; fields = []; num_fields = 0 } ∷ [];
  len = 1;
  last_id = record { ms = 5; seq = 1 };
}

started-IsStarted : IsStarted (some started)
started-IsStarted = record {
  filled = inl refl;
  last_fits = record { ms_fits = omega arith; seq_fits = omega arith };
}

resolve_new_id-Exceeds_example :
    Exceeds (last_id_of (some started)) (resolve_new_id (some started) (codes "*") (pos 4))
resolve_new_id-Exceeds_example =
    resolve_new_id-Exceeds (some started) (codes "*") (pos 4) started-IsStarted

-- `XRANGE a 5 +`
abbrev xrange_a : Request
xrange_a = record { name = codes "XRANGE"; args = a_key ∷ codes "5" ∷ codes "+" ∷ [] }

xrange_a_bounds : xrange_bounds xrange_a ≡ some (record { ms = 5; seq = 0 }, greatest_id)
unfolding program arg c_str
xrange_a_bounds = refl

abbrev one_stream : Stream
one_stream = record {
  entries = record { id = record { ms = 5; seq = 1 }; fields = age; num_fields = 1 } ∷ [];
  len = 1;
  last_id = record { ms = 5; seq = 1 };
}

one_stream_held : typed_content as_stream (live one_entry (pos 100) a_key) ≡ held one_stream
unfolding program
one_stream_held = refl

cmd_xrange-between_example :
    ((cmd_xrange xrange_a (world_of one_entry)).0
      ≡ entries_reply (kept (in_range (record { ms = 5; seq = 0 }) greatest_id) one_stream.entries))
    × Same (pos 100) one_entry (cmd_xrange xrange_a (world_of one_entry)).1.store
unfolding arg c_str
cmd_xrange-between_example =
    cmd_xrange-between xrange_a (world_of one_entry) one_entry-IsValid (record { ms = 5; seq = 0 })
      greatest_id one_stream xrange_a_bounds one_stream_held
      (one_entry-IsOrdered one_stream one_stream_held).0

-- `XREAD COUNT 7 STREAMS a 5-0`
abbrev xread_a : Request
xread_a = record {
  name = codes "XREAD";
  args = codes "COUNT" ∷ codes "7" ∷ codes "STREAMS" ∷ a_key ∷ codes "5-0" ∷ [];
}

abbrev after_five : StreamId
after_five = record { ms = 5; seq = 0 }

xread_a_args : args_from xread_a 1 ≡ xread_args (some (codes "7")) (a_key ∷ []) (codes "5-0" ∷ [])
unfolding args_from c_str
xread_a_args = refl

seven-IsLimit : IsLimit (some (codes "7")) 7
unfolding parse_int64 strtoll_whole strtoll_signed skip_spaces whole_digits digits_from
    positive_int64 negative_int64
seven-IsLimit = refl

five-AreIds : AreIds (codes "5-0" ∷ []) (after_five ∷ [])
unfolding program
five-AreIds = (refl, refl, tt)

one_stream_later : (t : ℤ) → typed_content as_stream (live one_entry t a_key) ≡ held one_stream
unfolding program
one_stream_later t = refl

one_entry-AllReadable : AllReadable (world_of one_entry) (a_key ∷ [])
one_entry-AllReadable = (
  λ t h.
      subst Readable (sym (one_stream_later t)) (one_entry-IsOrdered one_stream one_stream_held).0,
  tt,
)

cmd_xread-above_example :
    ((cmd_xread xread_a (world_of one_entry)).0
      ≡ reads_reply
          (replies_above 7 one_entry (λ n. pos 100) 1 (with_ids (a_key ∷ []) (after_five ∷ []))))
    × Same
        (now_ms (cmd_xread xread_a (world_of one_entry)).1)
        one_entry
        (cmd_xread xread_a (world_of one_entry)).1.store
cmd_xread-above_example =
    cmd_xread-above xread_a (world_of one_entry) one_entry-IsValid (λ i. omega arith)
      (some (codes "7")) 7 (a_key ∷ []) (codes "5-0" ∷ []) (after_five ∷ []) xread_a_args
      seven-IsLimit (omega arith) refl five-AreIds one_entry-AllReadable
