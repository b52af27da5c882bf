-- ===== src/Commands/Errors/Hashes.antt =====
-- The commands of src/cmd_hash.c at a key that holds no hash.
use pulse_db.Commands.Errors.Calls.{called, unchanged, wrong_type_at-Wrong}
use pulse_db.Commands.Args.{argc, args_from, arg, err_wrongtype}
use pulse_db.Commands.Errors.{field_commands, hset_error, Refuses}
use pulse_db.Commands.Errors.Types.{not_hash, other_content, other_hash}
use pulse_db.Commands.Hashes.{
  cmd_hdel, cmd_hset, cmd_hget, cmd_hgetall, cmd_hlen, cmd_hmget, hdel_all, hset_all, is_hash_type,
}
use pulse_db.Prelude.{
  All, [], ◌%◌, ◌==◌, Bool-cases, List, Option, inl, inr, refl, some, ℤ, ◌∙◌, ◌∷◌, ◌≡◌, ◌≢◌,
}
use pulse_db.Store.Hashes.Effects.{store_hash_set-Sets}
use pulse_db.Store.Types.{StoreType, Value, type_of}
use pulse_db.Store.Invariant.{IsValid}
use pulse_db.Prelude.Bytes.{Bytes}
use pulse_db.Store.Hashes.{as_hash, store_get_hash, store_hash_del, store_hash_get}
use pulse_db.Store.Keys.{mismatched}
use pulse_db.Store.Live.{Content, live}
use pulse_db.Store.Update.{lookup_typed-Finds, typed_content}
use pulse_db.Txn.{Request}
use pulse_db.World.{Forward, World, now_ms}

module _ (req : Request) (w : World) (v : IsValid w.store) (forward : Forward w) (x : Value) (e : ℤ)
    (there : live w.store (now_ms w) (arg req 1) ≡ some (x, e)) where
  abbrev here : Option Content
  here = live w.store (now_ms w) (arg req 1)

  module _ (other : type_of x ≢ StoreType.hash) where
    no_hash : typed_content as_hash here ≡ mismatched
    no_hash = other_content as_hash StoreType.hash (λ y. other_hash y) x e here there other

    pub cmd_hget-Refuses : Refuses w err_wrongtype (cmd_hget req w)
    unfolding cmd_hget store_hash_get
    cmd_hget-Refuses =
        let t = lookup_typed-Finds as_hash w.store v (arg req 1) (now_ms w) in
        rw (t.returns ∙ no_hash, cmd_hget, store_hash_get) (refl, called w forward _ t.same)

    pub cmd_hgetall-Refuses : Refuses w err_wrongtype (cmd_hgetall req w)
    unfolding cmd_hgetall store_get_hash
    cmd_hgetall-Refuses =
        let t = lookup_typed-Finds as_hash w.store v (arg req 1) (now_ms w) in
        rw (t.returns ∙ no_hash, cmd_hgetall, store_get_hash) (refl, called w forward _ t.same)

    pub cmd_hlen-Refuses : Refuses w err_wrongtype (cmd_hlen req w)
    unfolding cmd_hlen store_get_hash
    cmd_hlen-Refuses =
        let t = lookup_typed-Finds as_hash w.store v (arg req 1) (now_ms w) in
        rw (t.returns ∙ no_hash, cmd_hlen, store_get_hash) (refl, called w forward _ t.same)

    pub cmd_hmget-Refuses : Refuses w err_wrongtype (cmd_hmget req w)
    unfolding cmd_hmget
    cmd_hmget-Refuses =
        let t =
          wrong_type_at-Wrong req w v forward x e there is_hash_type (not_hash x other) refl in
        rw (t.0, cmd_hmget) (refl, t.1)

    pub hdel_all-Refuses :
        (field : Bytes) (rest : List Bytes)
        → Refuses w err_wrongtype (hdel_all (arg req 1) (field ∷ rest) 0 w)
    unfolding hdel_all store_hash_del
    hdel_all-Refuses field rest =
        let t = lookup_typed-Finds as_hash w.store v (arg req 1) (now_ms w) in
        rw (t.returns ∙ no_hash, store_hash_del, hdel_all) (refl, called w forward _ t.same)

    pub hset_all-Refuses :
        (field value : Bytes) (rest : List Bytes)
        → Refuses w err_wrongtype (hset_all (arg req 1) (field ∷ value ∷ rest) 0 w)
    unfolding hset_all
    hset_all-Refuses field value rest =
        let t = rw no_hash at (store_hash_set-Sets w.store v (arg req 1) (now_ms w) field value) in
        rw (t.0, hset_all) (refl, called w forward _ t.2)

    pub field_commands-Refuses :
        (fields : List Bytes)
        → args_from req 2 ≡ fields
        → All (λ c. Refuses w c.0 (c.1 w)) (field_commands req fields)
    unfolding cmd_hdel cmd_hset
    field_commands-Refuses [] h = tt
    field_commands-Refuses (field ∷ []) h = (rw h (hdel_all-Refuses field []), tt)
    field_commands-Refuses (field ∷ value ∷ rest) h =
        let hset : Refuses w (hset_error (argc req)) (cmd_hset req w) =
          elim (Bool-cases (argc req % 2 == 0)) [
            | inl even ↦ rw (even, cmd_hset, h) (hset_all-Refuses field value rest)
            | inr odd ↦ rw (odd, cmd_hset) (refl, unchanged w v)
          ] in
        (rw h (hdel_all-Refuses field (value ∷ rest)), (hset, tt))
