-- ===== src/Commands/Errors/Calls.antt =====
-- The calls of the store that the commands of src/cmd_*.c make at a key of another type.
use pulse_db.Prelude.{
  Bool, Bool-cases, Option-cases, ap, arith, false, inl, inr, none, refl, some, true, ℤ, ◌+◌, ◌∙◌,
  ◌≡◌, ◌⊎◌,
}
use pulse_db.Commands.Args.{arg}
use pulse_db.Commands.Errors.Types.{some_type}
use pulse_db.Commands.Lists.{is_none_type, wrong_type_at}
use pulse_db.Store.Types.{Store, StoreType, Value, type_of}
use pulse_db.Store.Invariant.{view, IsValid}
use pulse_db.Prelude.Bytes.{Bytes}
use pulse_db.Store.Keys.{store_type}
use pulse_db.Store.Keys.Effects.{content_type, store_type-live}
use pulse_db.Store.Live.{Content, Same, Same-later, Same-refl, Same-trans, content, expired, live}
use pulse_db.Txn.{Request}
use pulse_db.World.{Forward, World, now_ms, stored}
use mathlib.Core.Option

-- What is live later is what was live before, or nothing.
live_later :
    (s : Store) (k : Bytes) (now later : ℤ) (c : Content)
    → live s now k ≡ some c
    → (live s later k ≡ none) ⊎ (live s later k ≡ some c)
unfolding live
live_later s k now later (x, e) h = elim (Option-cases (Option.map content (view s k))) [
  | inl n ↦ inl (rw n refl)
  | inr ((y, d), n) ↦ elim (Bool-cases (expired d later)) [
    | inl dead ↦ inl (rw (n, dead) refl)
    | inr alive ↦ inr (ground (arith, n, alive))
  ]
]

-- One call of the store, at a clock that does not go back.
pub called :
    (w : World)
    → Forward w
    → (s : Store) → Same (now_ms w) w.store s
    → Same (now_ms (stored w s)) w.store s
called w forward s same = Same-later (now_ms w) _ w.store s (forward w.ticks) same

pub unchanged : (w : World) → IsValid w.store → Same (now_ms w) w.store w.store
unchanged w v = Same-refl (now_ms w) w.store v

module _ (req : Request) (w : World) (v : IsValid w.store) (forward : Forward w) (x : Value) (e : ℤ)
    (there : live w.store (now_ms w) (arg req 1) ≡ some (x, e)) where
  -- The test of `push_common` and `cmd_hmget`, which reads the type twice.
  pub wrong_type_at-Wrong :
      (is_right : StoreType → Bool)
      → is_right (type_of x) ≡ false
      → is_right StoreType.none ≡ false
      → ((wrong_type_at is_right (arg req 1) w).0 ≡ true)
        × Same
            (now_ms (wrong_type_at is_right (arg req 1) w).1)
            w.store
            (wrong_type_at is_right (arg req 1) w).1.store
  unfolding wrong_type_at
  wrong_type_at-Wrong is_right wrong free =
      let k = arg req 1 in
      let t = store_type-live w.store v k (now_ms w) in
      let s = (store_type w.store k (now_ms w)).1 in
      let u = store_type-live s t.1.valid k (w.clock (w.ticks + 1)) in
      let s' = (store_type s k (w.clock (w.ticks + 1))).1 in
      let first : is_none_type (store_type w.store k (now_ms w)).0 ≡ false =
        ap is_none_type (t.0 ∙ ap (content_type w.store v k (now_ms w)) there) ∙ some_type x in
      let second : live s (w.clock (w.ticks + 1)) k ≡ live w.store (w.clock (w.ticks + 1)) k =
        t.1.keeps (w.clock (w.ticks + 1)) (forward w.ticks) k in
      let kind : is_right (store_type s k (w.clock (w.ticks + 1))).0 ≡ false =
        elim (live_later w.store k (now_ms w) (w.clock (w.ticks + 1)) (x, e) there) [
          | inl n ↦
              ap is_right
                (u.0 ∙ ap (content_type s t.1.valid k (w.clock (w.ticks + 1))) (second ∙ n))
              ∙ free
          | inr n ↦
              ap is_right
                (u.0 ∙ ap (content_type s t.1.valid k (w.clock (w.ticks + 1))) (second ∙ n))
              ∙ wrong
        ] in
      let same : Same (w.clock (w.ticks + 1 + 1)) w.store s' =
        Same-trans _ w.store s s'
          (Same-later (now_ms w) _ w.store s (omega (arith, forward w.ticks, forward (w.ticks + 1)))
            t.1)
          (Same-later _ _ s s' (forward (w.ticks + 1)) u.1) in
      rw (first, wrong_type_at, kind) (refl, same)
