-- ===== src/Commands/Errors/ZSets.antt =====
-- The commands of src/cmd_zset.c at a key that holds no sorted set.
use pulse_db.Commands.Errors.Calls.{called, unchanged}
use pulse_db.Commands.Args.{argc, args_from, arg, err_wrongtype}
use pulse_db.Commands.Errors.{zadd_error, zrange_error, Refuses}
use pulse_db.Commands.Errors.Types.{other_type, other_zset, other_content}
use pulse_db.Commands.ZSets.{
  cmd_zadd, cmd_zcard, cmd_zrank, cmd_zscore, not_zset, score_pairs, zadd_checked, zrange_at,
}
use pulse_db.Libc.{Libc}
use pulse_db.Prelude.{
  ◌%◌, ◌==◌, Bool, Bool-cases, List, Option, Option-cases, ap, inl, inr, none, refl, some, true, ℤ,
  ◌∙◌, ◌≡◌, ◌≢◌,
}
use pulse_db.Store.Types.{Score, StoreType, Value, type_of}
use pulse_db.Store.ZSets.{as_zset, store_get_zset, store_zset_rank, store_zset_score}
use pulse_db.Store.Invariant.{IsValid}
use pulse_db.Prelude.Bytes.{Bytes}
use pulse_db.Store.Keys.{mismatched, store_type}
use pulse_db.Store.Keys.Effects.{content_type, store_type-live}
use pulse_db.Store.Live.{Content, live}
use pulse_db.Store.Update.{lookup_typed-Finds, typed_content}
use pulse_db.Txn.{Request}
use pulse_db.World.{Forward, World, now_ms}

module _ (req : Request) (w : World) (v : IsValid w.store) (forward : Forward w) (x : Value) (e : ℤ)
    (there : live w.store (now_ms w) (arg req 1) ≡ some (x, e)) where
  abbrev here : Option Content
  here = live w.store (now_ms w) (arg req 1)

  module _ (libc : Libc) (other : type_of x ≢ StoreType.zset) where
    no_zset : typed_content as_zset here ≡ mismatched
    no_zset = other_content as_zset StoreType.zset (λ y. other_zset y) x e here there other

    pub cmd_zrank-Refuses : Refuses w err_wrongtype (cmd_zrank req w)
    unfolding cmd_zrank store_zset_rank
    cmd_zrank-Refuses =
        let t = lookup_typed-Finds as_zset w.store v (arg req 1) (now_ms w) in
        rw (t.returns ∙ no_zset, cmd_zrank, store_zset_rank) (refl, called w forward _ t.same)

    pub cmd_zcard-Refuses : Refuses w err_wrongtype (cmd_zcard req w)
    unfolding cmd_zcard store_get_zset
    cmd_zcard-Refuses =
        let t = lookup_typed-Finds as_zset w.store v (arg req 1) (now_ms w) in
        rw (t.returns ∙ no_zset, cmd_zcard, store_get_zset) (refl, called w forward _ t.same)

    pub cmd_zscore-Refuses : Refuses w err_wrongtype (cmd_zscore libc req w)
    unfolding cmd_zscore store_zset_score
    cmd_zscore-Refuses =
        let t = lookup_typed-Finds as_zset w.store v (arg req 1) (now_ms w) in
        rw (t.returns ∙ no_zset, cmd_zscore, store_zset_score) (refl, called w forward _ t.same)

    pub zrange_at-Refuses :
        (a : Option Bool) (b : Option (ℤ × ℤ))
        → Refuses w (zrange_error a b) (zrange_at libc req w a b)
    unfolding zrange_at store_get_zset
    zrange_at-Refuses none b = (refl, unchanged w v)
    zrange_at-Refuses (some withscores) none = (refl, unchanged w v)
    zrange_at-Refuses (some withscores) (some (start, stop)) =
        let t = lookup_typed-Finds as_zset w.store v (arg req 1) (now_ms w) in
        rw (t.returns ∙ no_zset) (refl, called w forward _ t.same)

    pub zadd_checked-Refuses :
        (pairs : List (Score × Bytes)) → Refuses w err_wrongtype (zadd_checked (arg req 1) pairs w)
    unfolding zadd_checked
    zadd_checked-Refuses pairs =
        let t = store_type-live w.store v (arg req 1) (now_ms w) in
        let wrong : not_zset (store_type w.store (arg req 1) (now_ms w)).0 ≡ true =
          ap not_zset (t.0 ∙ ap (content_type w.store v (arg req 1) (now_ms w)) there)
          ∙ other_type x other in
        rw (wrong, zadd_checked) (refl, called w forward _ t.1)

    pub cmd_zadd-Refuses :
        Refuses w (zadd_error (argc req) (score_pairs libc (args_from req 2))) (cmd_zadd libc req w)
    unfolding cmd_zadd
    cmd_zadd-Refuses = elim (Bool-cases (argc req % 2 == 0)) [
      | inr odd ↦ rw (odd, cmd_zadd) (refl, unchanged w v)
      | inl even ↦ elim (Option-cases (score_pairs libc (args_from req 2))) [
        | inl n ↦ rw (even, cmd_zadd, n) (refl, unchanged w v)
        | inr (pairs, n) ↦ rw (even, cmd_zadd, n) (zadd_checked-Refuses pairs)
      ]
    ]
