-- ===== src/Commands/Streams/Reads/Effects.antt =====
-- What XREAD of src/cmd_stream.c answers.
use pulse_db.Commands.Streams.Reads.{
  AllReadable, AreIds, IsLimit, Readable, reads_reply, replies_above, with_ids, xread_args,
  xread_count-args, xread_streams-args,
}
use pulse_db.Commands.Streams.Reads.Loops.{
  keys_of, replies_above-Same, xread_check-Checks, xread_collect-Collects,
}
use pulse_db.Commands.Args.{args_from}
use pulse_db.Commands.Streams.{cmd_xread, xread_reply, xread_check}
use pulse_db.Txn.{Request}
use pulse_db.Prelude.{
  subst, ◌∙◌, All, List, Option, [], ap, arith, false, length, refl, suc, sym, zero, ℕ, ◌+◌, ◌<◌,
  ◌==◌, ◌∷◌, ◌≡◌, ◌≤ℤ◌,
}
use pulse_db.Store.Invariant.{IsValid}
use pulse_db.Store.Live.{Same, Same-later, Same-trans}
use pulse_db.Store.Streams.{as_stream}
use pulse_db.Store.Update.{typed_content}
use pulse_db.Prelude.Bytes.{Bytes}
use pulse_db.Store.Types.{StreamId}
use pulse_db.World.{Forward, World, now_ms}

reads-reply : (r : ℕ × Bytes) → xread_reply r ≡ reads_reply r
reads-reply (zero, body) = refl
reads-reply (suc n, body) = let filled : (suc n == 0) ≡ false = ground arith in rw filled refl

keys_of-with_ids :
    (P : Bytes → Type 0) (keys ids : List Bytes) (lasts : List StreamId)
    → AreIds ids lasts
    → length ids ≡ length keys
    → All P keys
    → All P (keys_of (with_ids keys lasts))
unfolding keys_of
keys_of-with_ids P [] ids lasts p n m = tt
keys_of-with_ids P (k ∷ keys) [] lasts p n m = absurd (omega arith)
keys_of-with_ids P (k ∷ keys) (i ∷ ids) [] p n m = absurd p
keys_of-with_ids P (k ∷ keys) (i ∷ ids) (x ∷ lasts) p n m =
    (m.0, keys_of-with_ids P keys ids lasts p.2 (omega (arith, n)) m.1)

AllReadable-later :
    (w w' : World) (keys : List Bytes)
    → now_ms w ≤ℤ now_ms w'
    → Same (now_ms w') w.store w'.store
    → AllReadable w keys
    → AllReadable w' keys
AllReadable-later w w' [] l same m = tt
AllReadable-later w w' (k ∷ keys) l same m = (
  λ t h.
      subst (λ c. Readable (typed_content as_stream c)) (sym (same.keeps t h k))
        (m.0 t (omega (arith, l, h))),
  AllReadable-later w w' keys l same m.1,
)

module _ (req : Request) (w : World) (v : IsValid w.store) (forward : Forward w) where
  -- For a request XREAD, with COUNT and a limit or without, of STREAMS with some keys and as many
  -- IDs, none of them `$`, on a valid store in which each key is free or holds an ordered stream,
  -- with a clock that does not go back: XREAD answers with the array of one reply for each stream
  -- that has entries above its ID, with the key and those entries in order, as many as a limit
  -- other than 0 allows, or with the null array if there are none, and the database stays the
  -- same.
  pub cmd_xread-above :
      (c : Option Bytes) (limit : ℕ) (keys ids : List Bytes) (lasts : List StreamId)
      → args_from req 1 ≡ xread_args c keys ids
      → IsLimit c limit
      → 0 < length keys
      → length ids ≡ length keys
      → AreIds ids lasts
      → AllReadable w keys
      → ((cmd_xread req w).0
          ≡ reads_reply
              (replies_above limit w.store w.clock (w.ticks + length keys) (with_ids keys lasts)))
        × Same (now_ms (cmd_xread req w).1) w.store (cmd_xread req w).1.store
  unfolding cmd_xread
  cmd_xread-above c limit keys ids lasts args is_limit some_key n p m =
      let checks = xread_check-Checks keys ids lasts w v forward m p n in
      let w' = (xread_check keys ids w).1 in
      let afters = with_ids keys lasts in
      let forward' : Forward w' = subst Forward (sym checks.world) forward in
      let found = xread_collect-Collects limit afters w' checks.same.valid forward' (
        keys_of-with_ids _ keys ids lasts p n
          (AllReadable-later w w' keys checks.later checks.same m)) in
      let replies =
        found.replies
        ∙ replies_above-Same limit w.store w'.store w'.clock (now_ms w') w'.ticks afters forward'
            (omega arith) checks.same
        ∙ ap (λ x. replies_above limit w.store x.clock x.ticks afters) checks.world in
      rw
        (
          args,
          xread_count-args c limit keys ids is_limit,
          cmd_xread,
          xread_streams-args keys ids some_key n,
          checks.found,
        )
        (
          reads-reply _ ∙ ap reads_reply replies,
          Same-trans _ w.store w'.store _ (Same-later _ _ w.store w'.store found.later checks.same)
              found.same,
        )
