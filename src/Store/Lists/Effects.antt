-- ===== src/Store/Lists/Effects.antt =====
-- What `store_list_push` and `store_list_pop` of src/store.c return and do: a list is a deque, and
-- a pop undoes a push at the same end.
use pulse_db.Prelude.{
  ℕ, ◌+◌, ◌-◌, ◌<◌, ◌≡◌, ◌≢◌, refl, sym, ◌∙◌, ap, ◌==◌, ℤ, Bool, true, false, List, [], ◌∷◌, ◌++◌,
  Option, none, some, arith, if◌then◌else◌, Option-cases, Bool-cases, inl, inr, length,
}
use pulse_db.Prelude.Bytes.{Bytes}
use pulse_db.Store.Types.{Store, Value, StoreStatus, ListValue}
use pulse_db.Store.Keys.{lookup_typed, put_value, get_or_create, Typed, held, absent, mismatched}
use pulse_db.Store.Keys.Effects.{store_del-Deletes}
use pulse_db.Store.Invariant.{IsValid}
use pulse_db.Store.Live.{live, Same, Writes, Writes-over}
use pulse_db.Store.Update.{
  typed_content, expiry_of, opened, lookup_typed-Finds, put_value-Writes, get_or_create-Opens,
}
use pulse_db.Store.Lists.{
  as_list, empty_list, list_insert, store_list_push, split_last, list_take, after_pop,
  store_list_pop,
}

-- A list that a key holds has at least one value, and its length is counted.
pub record IsCounted (l : ListValue) : Type 0 where
  pub counted : l.len ≡ length l.items
  pub some_value : 0 < l.len

-- The values with one more at an end.
abbrev pub push_end : Bytes → Bool → List Bytes → List Bytes
push_end value at_head xs = if at_head then value ∷ xs else xs ++ value ∷ []

split_last-append :
    (x value : Bytes) (xs : List Bytes) → split_last x (xs ++ value ∷ []) ≡ (value, x ∷ xs)
unfolding split_last
split_last-append x value [] = refl
split_last-append x value (y ∷ xs) = rw (split_last-append y value xs)

-- Taking from an end gives the value that was put there.
pub list_take-push_end :
    (value : Bytes) (at_head : Bool) (xs : List Bytes)
    → list_take (push_end value at_head xs) at_head ≡ some (value, xs)
unfolding list_take
list_take-push_end value true xs = refl
list_take-push_end value false [] = unfold split_last in refl
list_take-push_end value false (x ∷ xs) = rw (split_last-append x value xs)

-- Putting the value back at its end gives the list.
split_last-eq :
    (x : Bytes) (xs : List Bytes) → (split_last x xs).1 ++ (split_last x xs).0 ∷ [] ≡ x ∷ xs
unfolding split_last
split_last-eq x [] = refl
split_last-eq x (y ∷ xs) = ap (λ zs. x ∷ zs) (split_last-eq y xs)

push_end-list_take :
    (xs : List Bytes) (at_head : Bool) (value : Bytes) (rest : List Bytes)
    → list_take xs at_head ≡ some (value, rest)
    → xs ≡ push_end value at_head rest
unfolding list_take
push_end-list_take [] at_head value rest h = absurd (cc)
push_end-list_take (x ∷ xs) true value rest h = cc
push_end-list_take (x ∷ xs) false value rest h = ground (arith, split_last-eq x xs)

list_take_some : (xs : List Bytes) (at_head : Bool) → 0 < length xs → list_take xs at_head ≢ none
unfolding list_take
list_take_some [] at_head h e = absurd (omega arith)
list_take_some (x ∷ xs) at_head h e = cc

module _ (s : Store) (v : IsValid s) (k : Bytes) (now : ℤ) where
  abbrev pub list_at : Typed ListValue
  list_at = typed_content as_list (live s now k)

  -- A push: to the list there, or to an empty one of a new key without expiry.
  abbrev pub Pushes : Bytes → Bool → Option ListValue → StoreStatus × ℕ × Store → Type 0
  Pushes value at_head none r = (r.0 ≡ StoreStatus.wrong_type) × Same now s r.2
  Pushes value at_head (some l) r =
      (r.0 ≡ StoreStatus.ok)
      × (r.1 ≡ l.len + 1)
      × Writes now s k
          (some (
            Value.list (record { items = push_end value at_head l.items; len = l.len + 1 }),
            expiry_of (live s now k),
          ))
          r.2

  -- On a valid store `store_list_push` puts the value at its end of the list under the key, or of
  -- an empty list under a new key without expiry, and returns the new length; at a key of another
  -- type it returns the wrong-type status and the database is the same.
  pub store_list_push-Pushes :
      (value : Bytes) (at_head : Bool)
      → Pushes value at_head
          (opened as_list s v k now empty_list list_at)
          (store_list_push s k value at_head now)
  unfolding store_list_push list_insert
  store_list_push-Pushes value at_head =
      let t = get_or_create-Opens as_list s v k now Value.list empty_list in
      let g = get_or_create as_list Value.list empty_list s k now in
      rw (← t.value) (
        (elim g.0
            as (λ o. g.0 ≡ o → Pushes value at_head o (store_list_push s k value at_head now)) [
              | none ↦ λ e. rw (e, store_list_push) (refl, t.refused e)
              | some l ↦ λ e. rw (e, store_list_push) (refl, refl, t.written l _ e)
            ])
          refl)

  -- A pop: the value at the end is returned; the rest stays under the expiry, and a key whose list
  -- is used up is gone.
  abbrev pub Pops : Bool → Typed ListValue → StoreStatus × Option Bytes × Store → Type 0
  Pops at_head absent r = (r.0 ≡ StoreStatus.not_found) × (r.1 ≡ none) × Same now s r.2
  Pops at_head mismatched r = (r.0 ≡ StoreStatus.wrong_type) × (r.1 ≡ none) × Same now s r.2
  Pops at_head (held l) r =
      (r.0 ≡ StoreStatus.ok)
      × ((value : Bytes) × (r.1 ≡ some value)
          × ((rest : List Bytes) × (l.items ≡ push_end value at_head rest)
              × Writes now s k
                  (if l.len == 1
                    then none
                    else some (
                      Value.list (record { items = rest; len = l.len - 1 }),
                      expiry_of (live s now k),
                    ))
                  r.2))

  after_pop-Writes :
      (s' : Store) (rest : List Bytes) (len : ℕ) (x : ℤ)
      → Writes now s k
          (some (Value.list (record { items = rest; len = len }), x))
          (put_value s' k (Value.list (record { items = rest; len = len })))
      → Writes now s k
          (if len == 0 then none else some (Value.list (record { items = rest; len = len }), x))
          (after_pop s' k rest len now)
  unfolding after_pop
  after_pop-Writes s' rest len x w = elim (Bool-cases (len == 0)) [
    | inl e ↦ rw e (Writes-over now s _ _ k _ none w (store_del-Deletes _ w.valid k now).removes)
    | inr e ↦ rw e w
  ]

  -- Pop of a list with a value.
  pop_held :
      (at_head : Bool) (l : ListValue)
      → (lookup_typed as_list s k now).0 ≡ held l
      → IsCounted l
      → Pops at_head (held l) (store_list_pop s k at_head now)
  unfolding store_list_pop
  pop_held at_head l e c = elim (Option-cases (list_take l.items at_head)) [
    | inl h ↦ absurd (list_take_some l.items at_head (omega (arith, c.counted, c.some_value)) h)
    | inr ((value, rest), h) ↦
        let w =
          after_pop-Writes (lookup_typed as_list s k now).1 rest (l.len - 1)
            (expiry_of (live s now k)) (put_value-Writes as_list s v k now l _ e) in
        let last : (l.len - 1 == 0) ≡ (l.len == 1) = ground (arith, c.some_value) in
        rw (e, store_list_pop, h)
          (
            refl,
            (value, refl, (rest, push_end-list_take l.items at_head value rest h, rw last at w)),
          )
  ]

  pub store_list_pop-held :
      (at_head : Bool) (l : ListValue)
      → list_at ≡ held l
      → IsCounted l
      → Pops at_head (held l) (store_list_pop s k at_head now)
  store_list_pop-held at_head l e c =
      pop_held at_head l ((lookup_typed-Finds as_list s v k now).returns ∙ e) c

  -- On a valid store, at a key whose list, if it holds one, counts its values and has one,
  -- `store_list_pop` returns the value at its end and leaves the rest under the same expiry, or
  -- no key if that was the last; without a list the status says so and the database is the same.
  pub store_list_pop-Pops :
      (at_head : Bool)
      → ((l : ListValue) → list_at ≡ held l → IsCounted l)
      → Pops at_head list_at (store_list_pop s k at_head now)
  unfolding store_list_pop
  store_list_pop-Pops at_head counted =
      let t = lookup_typed-Finds as_list s v k now in
      let r = (lookup_typed as_list s k now).0 in
      rw (← t.returns) (
        (elim r as (λ o. r ≡ o → Pops at_head o (store_list_pop s k at_head now)) [
          | absent ↦ λ e. rw (e, store_list_pop) (refl, refl, t.same)
          | mismatched ↦ λ e. rw (e, store_list_pop) (refl, refl, t.same)
          | held l ↦ λ e. pop_held at_head l e (counted l (sym t.returns ∙ e))
        ])
          refl)
