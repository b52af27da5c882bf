-- ===== src/Commands/Streams/Replies.antt =====
-- What XRANGE and XREAD of src/cmd_stream.c answer, by the stream that is live under a key.
use pulse_db.Commands.Streams.{xrange_at, xrange_bounds, cmd_xrange, reply_stream_entries}
use pulse_db.Prelude.{subst, sym, List, [], ap, length, some, ◌++◌, ◌∙◌, ◌≡◌}
use pulse_db.Commands.Args.{arg}
use pulse_db.Commands.Streams.Ranges.{entries_between-kept, in_range, kept}
use pulse_db.Prelude.Bytes.{Bytes}
use pulse_db.Reply.{reply_array}
use pulse_db.Store.Invariant.{IsValid}
use pulse_db.Store.Keys.{Typed, held}
use pulse_db.Store.Live.{Same, live}
use pulse_db.Store.Streams.{as_stream, store_get_stream}
use pulse_db.Store.Streams.Effects.{IsOrdered, zero_id}
use pulse_db.Store.Types.{Stream, StreamEntry, StreamId}
use pulse_db.Store.Update.{lookup_typed-Finds, typed_content}
use pulse_db.Txn.{Request}
use pulse_db.World.{World, now_ms}

abbrev pub entries_reply : List StreamEntry → Bytes
entries_reply es = reply_array [] (length es) ++ reply_stream_entries es

module _ (req : Request) (w : World) (v : IsValid w.store) where
  -- The content under the key of the request.
  abbrev pub stream_at : Typed Stream
  stream_at = typed_content as_stream (live w.store (now_ms w) (arg req 1))

  xrange_at-between :
      (start last : StreamId) (x : Stream)
      → stream_at ≡ held x
      → IsOrdered x
      → ((xrange_at req w (some (start, last))).0
          ≡ entries_reply (kept (in_range start last) x.entries))
        × Same (now_ms w) w.store (xrange_at req w (some (start, last))).1.store
  unfolding xrange_at store_get_stream
  xrange_at-between start last x h o =
      let t = lookup_typed-Finds as_stream w.store v (arg req 1) (now_ms w) in
      rw (t.returns ∙ h)
        (ap entries_reply (entries_between-kept zero_id start last x.entries o.ascends), t.same)

  -- For a request whose bounds are IDs, at a key that holds an ordered stream of a valid store,
  -- XRANGE answers with the array of the entries whose IDs are within the bounds, both included,
  -- in order, and the database stays the same.
  pub cmd_xrange-between :
      (start last : StreamId) (x : Stream)
      → xrange_bounds req ≡ some (start, last)
      → stream_at ≡ held x
      → IsOrdered x
      → ((cmd_xrange req w).0 ≡ entries_reply (kept (in_range start last) x.entries))
        × Same (now_ms w) w.store (cmd_xrange req w).1.store
  unfolding cmd_xrange
  cmd_xrange-between start last x b h o =
      subst
        (λ c.
          ((xrange_at req w c).0 ≡ entries_reply (kept (in_range start last) x.entries))
          × Same (now_ms w) w.store (xrange_at req w c).1.store)
        (sym b) (xrange_at-between start last x h o)
