-- ===== src/Commands/Errors/Strings.antt =====
-- The commands of src/cmd_string.c at a key that holds no string.
use pulse_db.Commands.Errors.Calls.{called, unchanged}
use pulse_db.Commands.Args.{arg, err_wrongtype}
use pulse_db.Commands.Errors.{Refuses, decrby_error, incrby_error}
use pulse_db.Commands.Errors.Types.{other_content, other_str}
use pulse_db.Commands.Strings.{cmd_decrby, cmd_get, cmd_incrby, incr_common, negated}
use pulse_db.Prelude.{
  Bool-cases, Option, Option-cases, eqb_ℤ, inl, inr, refl, some, ℤ, ◌∙◌, ◌≡◌, ◌≢◌,
}
use pulse_db.Store.Types.{StoreType, Value, type_of}
use pulse_db.Store.Invariant.{IsValid}
use pulse_db.Store.Keys.{mismatched}
use pulse_db.Store.Live.{Content, live}
use pulse_db.Store.Strings.{as_str, min_ℤ, parse_int64, store_get, store_incrby}
use pulse_db.Store.Update.{lookup_typed-Finds, typed_content}
use pulse_db.Txn.{Request}
use pulse_db.World.{Forward, World, now_ms}

module _ (req : Request) (w : World) (v : IsValid w.store) (forward : Forward w) (x : Value) (e : ℤ)
    (there : live w.store (now_ms w) (arg req 1) ≡ some (x, e)) where
  abbrev here : Option Content
  here = live w.store (now_ms w) (arg req 1)

  module _ (other : type_of x ≢ StoreType.string) where
    no_str : typed_content as_str here ≡ mismatched
    no_str = other_content as_str StoreType.string (λ y. other_str y) x e here there other

    pub incr_common-Refuses : (delta : ℤ) → Refuses w err_wrongtype (incr_common req delta w)
    unfolding incr_common store_incrby
    incr_common-Refuses delta =
        let t = lookup_typed-Finds as_str w.store v (arg req 1) (now_ms w) in
        rw (t.returns ∙ no_str, incr_common, store_incrby) (refl, called w forward _ t.same)

    pub cmd_get-Refuses : Refuses w err_wrongtype (cmd_get req w)
    unfolding cmd_get store_get
    cmd_get-Refuses =
        let t = lookup_typed-Finds as_str w.store v (arg req 1) (now_ms w) in
        rw (t.returns ∙ no_str, cmd_get, store_get) (refl, called w forward _ t.same)

    pub cmd_incrby-Refuses : Refuses w (incrby_error (parse_int64 (arg req 2))) (cmd_incrby req w)
    unfolding cmd_incrby
    cmd_incrby-Refuses = elim (Option-cases (parse_int64 (arg req 2))) [
      | inl n ↦ rw (n, cmd_incrby) (refl, unchanged w v)
      | inr (delta, n) ↦ rw (n, cmd_incrby) (incr_common-Refuses delta)
    ]

    pub cmd_decrby-Refuses : Refuses w (decrby_error (parse_int64 (arg req 2))) (cmd_decrby req w)
    unfolding cmd_decrby
    cmd_decrby-Refuses = elim (Option-cases (parse_int64 (arg req 2))) [
      | inl n ↦ rw (n, cmd_decrby) (refl, unchanged w v)
      | inr (delta, n) ↦ elim (Bool-cases (eqb_ℤ delta min_ℤ)) [
        | inl least ↦ rw (n, cmd_decrby, least) (refl, unchanged w v)
        | inr fits ↦ rw (n, cmd_decrby, fits) (incr_common-Refuses (negated delta))
      ]
    ]
