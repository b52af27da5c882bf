-- ===== src/Commands/Errors/Lists.antt =====
-- The commands of src/cmd_list.c at a key that holds no list.
use pulse_db.Commands.Errors.Calls.{called, unchanged, wrong_type_at-Wrong}
use pulse_db.Commands.Args.{arg, err_wrongtype}
use pulse_db.Commands.Errors.{Refuses, lrange_error}
use pulse_db.Commands.Errors.Types.{not_list, other_content, other_list}
use pulse_db.Commands.Lists.{cmd_llen, is_list_type, lrange_at, pop_common, push_common}
use pulse_db.Prelude.{Bool, Option, none, refl, some, ℤ, ◌∙◌, ◌≡◌, ◌≢◌}
use pulse_db.Store.Types.{StoreType, Value, type_of}
use pulse_db.Store.Invariant.{IsValid}
use pulse_db.Store.Keys.{mismatched}
use pulse_db.Store.Lists.{as_list, store_get_list, store_list_pop}
use pulse_db.Store.Live.{Content, live}
use pulse_db.Store.Update.{lookup_typed-Finds, typed_content}
use pulse_db.Txn.{Request}
use pulse_db.World.{Forward, World, now_ms}

module _ (req : Request) (w : World) (v : IsValid w.store) (forward : Forward w) (x : Value) (e : ℤ)
    (there : live w.store (now_ms w) (arg req 1) ≡ some (x, e)) where
  abbrev here : Option Content
  here = live w.store (now_ms w) (arg req 1)

  module _ (other : type_of x ≢ StoreType.list) where
    no_list : typed_content as_list here ≡ mismatched
    no_list = other_content as_list StoreType.list (λ y. other_list y) x e here there other

    pub push_common-Refuses : (at_head : Bool) → Refuses w err_wrongtype (push_common req at_head w)
    unfolding push_common
    push_common-Refuses at_head =
        let t =
          wrong_type_at-Wrong req w v forward x e there is_list_type (not_list x other) refl in
        rw (t.0, push_common) (refl, t.1)

    pub pop_common-Refuses : (at_head : Bool) → Refuses w err_wrongtype (pop_common req at_head w)
    unfolding pop_common store_list_pop
    pop_common-Refuses at_head =
        let t = lookup_typed-Finds as_list w.store v (arg req 1) (now_ms w) in
        rw (t.returns ∙ no_list, pop_common, store_list_pop) (refl, called w forward _ t.same)

    pub cmd_llen-Refuses : Refuses w err_wrongtype (cmd_llen req w)
    unfolding cmd_llen store_get_list
    cmd_llen-Refuses =
        let t = lookup_typed-Finds as_list w.store v (arg req 1) (now_ms w) in
        rw (t.returns ∙ no_list, cmd_llen, store_get_list) (refl, called w forward _ t.same)

    pub lrange_at-Refuses : (o : Option (ℤ × ℤ)) → Refuses w (lrange_error o) (lrange_at req w o)
    unfolding lrange_at store_get_list
    lrange_at-Refuses none = (refl, unchanged w v)
    lrange_at-Refuses (some (start, stop)) =
        let t = lookup_typed-Finds as_list w.store v (arg req 1) (now_ms w) in
        rw (t.returns ∙ no_list) (refl, called w forward _ t.same)
