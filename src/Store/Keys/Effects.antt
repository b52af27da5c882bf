-- ===== src/Store/Keys/Effects.antt =====
-- What the calls of "keys" in src/store.c return and do, in terms of the abstract database.
use pulse_db.Prelude.{
  ◌≤◌, ◌≡◌, refl, ◌∙◌, ap, ℤ, pos, negsuc, eqb_ℤ, Bool, true, false, List, [], ◌∷◌, Option, none,
  some, arith, if◌then◌else◌, Option-cases, Bool-cases, inl, inr,
}
use pulse_db.Prelude.Bytes.{Bytes, str_eq_image}
use pulse_db.Table.Chain.{find, count, has_key, find-eq-none}
use pulse_db.Table.Buckets.{nodes}
use pulse_db.Table.Rehash.{nodes-view}
use pulse_db.Store.Types.{StoreEntry, Store, StoreType, type_of}
use pulse_db.Store.Hashing.{hash64}
use pulse_db.Store.Keys.{
  store_create, entry_is_expired, unlink_entry, store_del, store_exists, store_type,
  store_get_expiry, live_entries, store_scan,
}
use pulse_db.Store.Invariant.{
  IsValid, view, key_of, find-view, unlink_entry-Models, store_create-Models,
}
use pulse_db.Store.Live.{Content, content, keep_live, live, Same, Writes, lookup-Looks}
use mathlib.Core.Option

abbrev pub is_some {ℓ} : {A : Type ℓ} → Option A → Bool
is_some none = false
is_some (some _) = true

-- A new store is valid and has no key at any time.
pub store_create_empty :
    IsValid store_create × ((now : ℤ) (q : Bytes) → live store_create now q ≡ none)
unfolding live
store_create_empty =
    (store_create-Models.valid, λ now q. ground (arith, store_create-Models.reads q))

module _ (s : Store) (v : IsValid s) (k : Bytes) (now : ℤ) where
  -- What `store_del` returns, and the database without the key.
  pub record Deletes (r : Bool × Store) : Type 0 where
    pub returns : r.0 ≡ is_some (live s now k)
    pub removes : Writes now s k none r.1

  delete_missing : view s k ≡ none → Writes now s k none s
  unfolding live
  delete_missing h = record {
    valid = v;
    writes = λ later l q. ground (arith, h, str_eq_image (view s) k q);
  }

  delete_found : (e : StoreEntry) → view s k ≡ some e → Writes now s k none (unlink_entry s k)
  unfolding live
  delete_found e h =
      let t = unlink_entry-Models s v k e h in
      record { valid = t.valid; writes = λ later l q. ground (arith, t.reads q) }

  -- On a valid store `store_del` returns whether the key was live, the key is gone at every later
  -- time, and every other key is as before.
  pub store_del-Deletes : Deletes (store_del s k now)
  unfolding store_del live entry_is_expired
  store_del-Deletes = elim (Option-cases (view s k)) [
    | inl h ↦
        rw (find-view s v k ∙ h, store_del) (record { returns = rw h; removes = delete_missing h })
    | inr (e, h) ↦
        rw (find-view s v k ∙ h, store_del)
          (record { returns = rw h (ground arith); removes = delete_found e h })
  ]

  -- The type that `store_type` gives for a content.
  abbrev pub content_type : Option Content → StoreType
  content_type none = StoreType.none
  content_type (some (x, _)) = type_of x

  -- The expiry that `store_get_expiry` gives for a content.
  abbrev pub content_expiry : Option Content → ℤ
  content_expiry none = negsuc 1
  content_expiry (some (_, x)) = if eqb_ℤ x (pos 0) then negsuc 0 else x

  pub store_exists-live :
      ((store_exists s k now).0 ≡ is_some (live s now k)) × Same now s (store_exists s k now).1
  unfolding store_exists
  store_exists-live = let t = lookup-Looks s v k now in (ground (arith, t.returns), t.same)

  pub store_type-live :
      ((store_type s k now).0 ≡ content_type (live s now k)) × Same now s (store_type s k now).1
  unfolding store_type
  store_type-live = let t = lookup-Looks s v k now in (ground (arith, t.returns), t.same)

  -- On a valid store `store_get_expiry` returns -2 for a key that is not live, -1 for a live one
  -- without expiry and the expiry of any other, and the database is the same.
  pub store_get_expiry-live :
      ((store_get_expiry s k now).0 ≡ content_expiry (live s now k))
      × Same now s (store_get_expiry s k now).1
  unfolding store_get_expiry
  store_get_expiry-live = let t = lookup-Looks s v k now in (ground (arith, t.returns), t.same)

module _ (now : ℤ) (q : Bytes) where
  find-live_entries :
      (es : List StoreEntry)
      → count key_of q es ≤ 1
      → (Option.map content (find (has_key key_of q) (live_entries now es))
          ≡ keep_live now (Option.map content (find (has_key key_of q) es)))
        × (count key_of q (live_entries now es) ≤ count key_of q es)
  unfolding find count live_entries entry_is_expired
  find-live_entries [] h = (refl, omega arith)
  find-live_entries (e ∷ es) h = elim (Bool-cases (entry_is_expired e now)) [
    | inl dead ↦ (
      ground (arith, dead, find-live_entries es, find-eq-none key_of q es),
      ground (arith, dead, find-live_entries es),
    )
    | inr alive ↦
        (ground (arith, alive, find-live_entries es), ground (arith, alive, find-live_entries es))
  ]

  -- On a valid store the walk of `store_scan` visits every key at most once, and visits it, with
  -- its content, exactly if it is live.
  pub store_scan-live :
      (s : Store)
      → IsValid s
      → (Option.map content (find (has_key key_of q) (store_scan s now)) ≡ live s now q)
        × (count key_of q (store_scan s now) ≤ 1)
  unfolding store_scan live
  store_scan-live s v =
      let (found, once) =
        nodes-view key_of hash64 s.buckets s.size q v.some_buckets v.holds.placed in
      let (reads, few) = find-live_entries (nodes s.buckets 0 s.size) once in
      (reads ∙ ap (λ o. keep_live now (Option.map content o)) found, omega arith)
