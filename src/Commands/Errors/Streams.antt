-- ===== src/Commands/Errors/Streams.antt =====
-- The commands of src/cmd_stream.c at a key that holds no stream.
use pulse_db.Commands.Errors.Calls.{called, unchanged}
use pulse_db.Commands.Args.{argc, arg}
use pulse_db.Commands.Errors.{xadd_error, xrange_error, Refuses}
use pulse_db.Commands.Errors.Types.{other_stream, other_content}
use pulse_db.Commands.Streams.{cmd_xadd, xrange_at}
use pulse_db.Prelude.{
  ◌%◌, ◌-◌, ◌==◌, Bool-cases, Option, arith, inl, inr, none, refl, some, ℤ, ◌+◌, ◌∙◌, ◌≡◌, ◌≢◌,
}
use pulse_db.Store.Streams.{as_stream, store_get_stream, store_stream_add}
use pulse_db.Store.Types.{StreamId, StoreType, Value, type_of}
use pulse_db.Store.Invariant.{IsValid}
use pulse_db.Store.Keys.{mismatched}
use pulse_db.Store.Live.{Content, Same-later, live}
use pulse_db.Store.Update.{lookup_typed-Finds, typed_content}
use pulse_db.Txn.{Request}
use pulse_db.World.{Forward, World, now_ms}

module _ (req : Request) (w : World) (v : IsValid w.store) (forward : Forward w) (x : Value) (e : ℤ)
    (there : live w.store (now_ms w) (arg req 1) ≡ some (x, e)) where
  abbrev here : Option Content
  here = live w.store (now_ms w) (arg req 1)

  module _ (other : type_of x ≢ StoreType.stream) where
    no_stream : typed_content as_stream here ≡ mismatched
    no_stream = other_content as_stream StoreType.stream (λ y. other_stream y) x e here there other

    pub xrange_at-Refuses :
        (o : Option (StreamId × StreamId)) → Refuses w (xrange_error o) (xrange_at req w o)
    unfolding xrange_at store_get_stream
    xrange_at-Refuses none = (refl, unchanged w v)
    xrange_at-Refuses (some (start, last)) =
        let t = lookup_typed-Finds as_stream w.store v (arg req 1) (now_ms w) in
        rw (t.returns ∙ no_stream) (refl, called w forward _ t.same)

    pub cmd_xadd-Refuses : Refuses w (xadd_error (argc req)) (cmd_xadd req w)
    unfolding cmd_xadd store_stream_add
    cmd_xadd-Refuses =
        let t = lookup_typed-Finds as_stream w.store v (arg req 1) (now_ms w) in
        elim (Bool-cases ((argc req - 3) % 2 == 0)) [
          | inr odd ↦ rw (odd, cmd_xadd) (refl, unchanged w v)
          | inl even ↦
              rw (even, cmd_xadd, t.returns ∙ no_stream, store_stream_add)
                (
                  refl,
                  Same-later (now_ms w) _ w.store _
                      (omega (arith, forward w.ticks, forward (w.ticks + 1))) t.same,
                )
        ]
