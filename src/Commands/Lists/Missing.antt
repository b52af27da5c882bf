-- ===== src/Commands/Lists/Missing.antt =====
-- BLPOP of src/cmd_list.c where no key of the request stands for anything.
use pulse_db.Commands.Lists.{blpop_keys}
use pulse_db.Prelude.{All, List, Option, [], ap, arith, none, refl, true, ℤ, ◌∙◌, ◌∷◌, ◌≡◌, ◌≤ℤ◌}
use pulse_db.Prelude.Bytes.{Bytes}
use pulse_db.Store.Invariant.{IsValid}
use pulse_db.Store.Lists.{as_list, store_list_pop}
use pulse_db.Store.Live.{Same, Same-later, Same-refl, Same-trans, live}
use pulse_db.Store.Types.{Store, StoreStatus}
use pulse_db.Store.Update.{lookup_typed-Finds, typed_content}
use pulse_db.World.{Forward, World, now_ms, stored}

-- None of the keys stands for anything from the next reading of the clock on.
abbrev pub Missing : World → List Bytes → Type 0
Missing w keys = All (λ k. (t : ℤ) → now_ms w ≤ℤ t → live w.store t k ≡ none) keys

Missing-stored :
    (w : World) (s : Store) (keys : List Bytes)
    → Forward w
    → Same (now_ms w) w.store s
    → Missing w keys
    → Missing (stored w s) keys
Missing-stored w s [] f same m = tt
Missing-stored w s (k ∷ keys) f same m = (
  λ t h. let l : now_ms w ≤ℤ t = omega (arith, f w.ticks, h) in same.keeps t l k ∙ m.0 t l,
  Missing-stored w s keys f same m.1,
)

store_list_pop-missing :
    (s : Store) (k : Bytes) (now : ℤ)
    → IsValid s
    → live s now k ≡ none
    → ((store_list_pop s k true now).0 ≡ StoreStatus.not_found)
      × Same now s (store_list_pop s k true now).2
unfolding store_list_pop
store_list_pop-missing s k now v h =
    let t = lookup_typed-Finds as_list s v k now in
    rw (t.returns ∙ ap (typed_content as_list) h, store_list_pop) (refl, t.same)

-- Nothing was found, at readings that do not go back, and the database is the same.
abbrev pub Nothing : World → Option Bytes × World → Type 0
Nothing w r = (r.0 ≡ none) × (now_ms w ≤ℤ now_ms r.1) × Same (now_ms r.1) w.store r.1.store

pub blpop_keys-Nothing :
    (keys : List Bytes) (w : World)
    → IsValid w.store
    → Forward w
    → Missing w keys
    → Nothing w (blpop_keys keys w)
unfolding blpop_keys
blpop_keys-Nothing [] w v f m = (refl, omega arith, Same-refl (now_ms w) w.store v)
blpop_keys-Nothing (k ∷ keys) w v f m =
    let (missing, same) =
      store_list_pop-missing w.store k (now_ms w) v (m.0 (now_ms w) (omega arith)) in
    let s = (store_list_pop w.store k true (now_ms w)).2 in
    let rest =
      blpop_keys-Nothing keys (stored w s) same.valid f (Missing-stored w s keys f same m.1) in
    let later : now_ms w ≤ℤ now_ms (blpop_keys keys (stored w s)).1 =
      omega (arith, f w.ticks, rest.1) in
    rw (missing, blpop_keys)
      (rest.0, later, Same-trans _ w.store s _ (Same-later _ _ w.store s later same) rest.2)
