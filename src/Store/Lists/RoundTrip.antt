-- ===== src/Store/Lists/RoundTrip.antt =====
-- A pop undoes a push at the same end: `store_list_push` and `store_list_pop` of src/store.c.
use pulse_db.Prelude.{
  ◌+◌, ◌-◌, ◌≤ℤ◌, ◌≡◌, ◌≢◌, refl, sym, ◌∙◌, ap, subst, ◌==◌, ℤ, Bool, true, false, List, Option,
  none, some, arith, if◌then◌else◌, length, length-append,
}
use pulse_db.Prelude.Bytes.{Bytes, str_eq_refl, str_eq_image}
use pulse_db.Store.Types.{Store, Value, ListValue}
use pulse_db.Store.Keys.{held, absent, mismatched}
use pulse_db.Store.Invariant.{IsValid, view}
use mathlib.Core.Option
use pulse_db.Store.Live.{
  Content, content, live, expired, keep_live, Writes, Writes-over, live_later,
}
use pulse_db.Store.Update.{typed_content, expiry_of, opened}
use pulse_db.Store.Lists.{as_list, empty_list, store_list_push, list_take, store_list_pop}
use pulse_db.Store.Lists.Effects.{
  IsCounted, push_end, list_take-push_end, store_list_push-Pushes, store_list_pop-held,
}

length-push_end :
    (value : Bytes) (at_head : Bool) (xs : List Bytes)
    → length (push_end value at_head xs) ≡ length xs + 1
length-push_end value true xs = omega arith
length-push_end value false xs = rw length-append (omega arith)

push_end_injective :
    (a b : Bytes) (at_head : Bool) (xs ys : List Bytes)
    → push_end a at_head xs ≡ push_end b at_head ys
    → (a ≡ b) × (xs ≡ ys)
push_end_injective a b at_head xs ys h =
    let e : some (a, xs) ≡ some (b, ys) =
      sym (list_take-push_end a at_head xs)
      ∙ ap (λ zs. list_take zs at_head) h
      ∙ list_take-push_end b at_head ys in
    (cc e, cc e)

held_list :
    (c : Option Content) (l : ListValue)
    → typed_content as_list c ≡ held l
    → c ≡ some (Value.list l, expiry_of c)
held_list none l h = absurd (cc)
held_list (some (Value.str s, x)) l h = absurd (cc)
held_list (some (Value.list m, x)) l h = cc
held_list (some (Value.hash s, x)) l h = absurd (cc)
held_list (some (Value.zset s, x)) l h = absurd (cc)
held_list (some (Value.stream s, x)) l h = absurd (cc)

live-absent : (c : Option Content) → typed_content as_list c ≡ absent → c ≡ none
live-absent none h = refl
live-absent (some (Value.list m, x)) h = absurd (cc)
live-absent (some (Value.str s, x)) h = absurd (cc)
live-absent (some (Value.hash s, x)) h = absurd (cc)
live-absent (some (Value.zset s, x)) h = absurd (cc)
live-absent (some (Value.stream s, x)) h = absurd (cc)

unexpired_kept : (now : ℤ) (c : Option Content) → expired (expiry_of (keep_live now c)) now ≡ false
unexpired_kept now none = refl
unexpired_kept now (some (v, x)) = ground arith

pub unexpired : (s : Store) (now : ℤ) (k : Bytes) → expired (expiry_of (live s now k)) now ≡ false
unfolding live
unexpired s now k = unexpired_kept now (Option.map content (view s k))

module _ (s : Store) (v : IsValid s) (k : Bytes) (now : ℤ) (value : Bytes) (at_head : Bool) where
  -- The pop of a value that was just pushed onto `l`.
  pop_pushed :
      (s' : Store) (l : ListValue) (x : ℤ)
      → l.len ≡ length l.items
      → expired x now ≡ false
      → Writes now s k
          (some
            (Value.list (record { items = push_end value at_head l.items; len = l.len + 1 }), x))
          s'
      → ((store_list_pop s' k at_head now).1 ≡ some value)
        × Writes now s k
            (if l.len == 0 then none else some (Value.list l, x))
            (store_list_pop s' k at_head now).2
  pop_pushed s' l x counted fresh w =
      let l' : ListValue = record { items = push_end value at_head l.items; len = l.len + 1 } in
      let here : live s' now k ≡ some (Value.list l', x) =
        w.writes now (omega arith) k ∙ ground (arith, str_eq_refl k) in
      let pops = store_list_pop-held s' w.valid k now at_head l' (rw here) (record {
        counted = omega (arith, counted, length-push_end value at_head l.items);
        some_value = omega arith;
      }) in
      let (value', returned, left) = pops.1 in
      let (rest, split, removed) = left in
      let (same, items) = push_end_injective value value' at_head l.items rest split in
      let content : (if l.len + 1 == 1
            then none
            else some (
              Value.list (record { items = rest; len = l.len + 1 - 1 }),
              expiry_of (live s' now k),
            ))
          ≡ (if l.len == 0 then none else some (Value.list l, x)) =
        ground (arith, items, here) in
      (
        rw same returned,
        subst (λ c. Writes now s k c (store_list_pop s' k at_head now).2) content
            (Writes-over now s s' _ k _ _ w removed),
      )

  abbrev Undone : Type 0
  Undone =
      ((store_list_pop (store_list_push s k value at_head now).2 k at_head now).1 ≡ some value)
      × ((later : ℤ) (q : Bytes)
          → now ≤ℤ later
          → live (store_list_pop (store_list_push s k value at_head now).2 k at_head now).2 later q
            ≡ live s later q)

  undone :
      (l : ListValue)
      → Writes now s k
          (some (
            Value.list (record { items = push_end value at_head l.items; len = l.len + 1 }),
            expiry_of (live s now k),
          ))
          (store_list_push s k value at_head now).2
      → l.len ≡ length l.items
      → (if l.len == 0 then none else some (Value.list l, expiry_of (live s now k))) ≡ live s now k
      → Undone
  undone l w counted before =
      let (returned, x) = pop_pushed _ l (expiry_of (live s now k)) counted (unexpired s now k) w in
      (
        returned,
        λ later q le. ground (
          arith,
          before,
          x.writes later le q,
          live_later s now later k le,
          str_eq_image (live s later) k q,
        ),
      )

  -- On a valid store, at a key that is free or holds a list that counts its values, pushing a
  -- value and popping it at the same end at the same time returns the value, and every key has
  -- the content that it had at every later time.
  pub pop-push :
      typed_content as_list (live s now k) ≢ mismatched
      → ((l : ListValue) → typed_content as_list (live s now k) ≡ held l → IsCounted l)
      → ((store_list_pop (store_list_push s k value at_head now).2 k at_head now).1 ≡ some value)
        × ((later : ℤ) (q : Bytes)
            → now ≤ℤ later
            → live
                (store_list_pop (store_list_push s k value at_head now).2 k at_head now).2
                later
                q
              ≡ live s later q)
  pop-push fits counted =
      let p = store_list_push-Pushes s v k now value at_head in
      (elim (typed_content as_list (live s now k))
          as (λ o. typed_content as_list (live s now k) ≡ o → Undone) [
            | absent ↦ λ e.
                let q = rw (ap (opened as_list s v k now empty_list) e) at p in
                undone empty_list q.2 refl (sym (live-absent (live s now k) e))
            | held l ↦ λ e.
                let q = rw (ap (opened as_list s v k now empty_list) e) at p in
                let c = counted l e in
                undone l q.2 c.counted (ground (arith, c.some_value, held_list (live s now k) l e))
            | mismatched ↦ λ e. absurd (fits e)
          ])
        refl
