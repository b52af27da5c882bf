-- ===== src/Store/ZSets/Taken.antt =====
-- An entry taken out of the array of a sorted set in src/store.c, at the position of its member.
use pulse_db.Prelude.{
  All-append, List, [], ap, arith, drop, get_elem?, if◌then◌else◌, length, length-append, none,
  refl, some, subst, suc, sym, take-length, true, ℕ, ◌++◌, ◌+◌, ◌∙◌, ◌∷◌, ◌≡◌,
}
use pulse_db.Prelude.Bytes.{Bytes, str_eq, str_eq_refl}
use pulse_db.Store.Types.{ZSet, ZSetEntry}
use pulse_db.Store.ZSets.{owned_at, remove_at, zset_lower_bound, zset_remove}
use pulse_db.Store.ZSets.Entries.{Stands, entry_at, entry_at-insert, times, times-insert}
use pulse_db.Store.ZSets.Insert.{All-prefix}
use pulse_db.Store.ZSets.Order.{entry_lt}
use pulse_db.Store.ZSets.Put.{IsZSet}
use pulse_db.Store.ZSets.Rank.{Sorted, zset_lower_bound-get_elem?}
use pulse_db.Table.Chain.{to_nat}

pub get-length :
    (xs ys : List ZSetEntry) (e : ZSetEntry) → get_elem? (xs ++ e ∷ ys) (length xs) ≡ some e
get-length [] ys e = refl
get-length (x ∷ xs) ys e = get-length xs ys e

drop-next : (xs ys : List ZSetEntry) (e : ZSetEntry) → drop (suc (length xs)) (xs ++ e ∷ ys) ≡ ys
drop-next [] ys e = refl
drop-next (x ∷ xs) ys e = drop-next xs ys e

remove_at-length :
    (xs ys : List ZSetEntry) (e : ZSetEntry) → remove_at (xs ++ e ∷ ys) (length xs) ≡ xs ++ ys
remove_at-length xs ys e =
    let next : length xs + 1 ≡ suc (length xs) = omega arith in
    rw (next, take-length xs (e ∷ ys), drop-next xs ys e) refl

Sorted-remove : (xs ys : List ZSetEntry) (e : ZSetEntry) → Sorted (xs ++ e ∷ ys) → Sorted (xs ++ ys)
Sorted-remove [] ys e s = s.1
Sorted-remove (x ∷ xs) ys e s =
    let t = All-prefix (λ f. entry_lt x f ≡ true) xs (e ∷ ys) s.0 in
    (All-append (λ f. entry_lt x f ≡ true) xs ys t.0 t.1.1, Sorted-remove xs ys e s.1)

-- The array without the entry of a member.
pub record Removed (z : ZSet) (e : ZSetEntry) (z' : ZSet) : Type 0 where
  pub sorted : Sorted z'.entries
  pub counted : z'.len ≡ length z'.entries
  pub fewer : z'.len + 1 ≡ z.len
  pub fresh : times e.member z'.entries ≡ 0
  pub often : (q : Bytes) → times q z.entries ≡ to_nat (str_eq e.member q) + times q z'.entries
  pub reads :
      (q : Bytes)
      → entry_at z.entries q ≡ (if str_eq e.member q then some e else entry_at z'.entries q)

module _ (z : ZSet) (e : ZSetEntry) (v : IsZSet z) (t : Stands e.member z.entries e) where
  abbrev at_entry : ℕ
  at_entry = length t.before

  pub position : zset_lower_bound z e.score e.member ≡ at_entry
  position =
      zset_lower_bound-get_elem? z at_entry e v.sorted v.counted (
        subst (λ es. get_elem? es at_entry ≡ some e) (sym t.whole) (get-length t.before t.behind e))

  pub owner : owned_at z (zset_lower_bound z e.score e.member) e.member ≡ e.member
  owner = rw position (
      subst
        (λ (es : List ZSetEntry).
          elim (get_elem? es at_entry) as (λ o. Bytes) [ none ↦ e.member | some f ↦ f.member ]
          ≡ e.member)
        (sym t.whole) (rw (get-length t.before t.behind e) refl))

  left_over : (zset_remove z (zset_lower_bound z e.score e.member)).entries ≡ t.before ++ t.behind
  unfolding zset_remove
  left_over =
      rw position (ap (λ es. remove_at es at_entry) t.whole ∙ remove_at-length t.before t.behind e)

  fresh_rest : times e.member (t.before ++ t.behind) ≡ 0
  fresh_rest = omega (
    arith,
    v.once e.member,
    ap (times e.member) t.whole,
    times-insert e.member e t.before t.behind,
    ap to_nat (str_eq_refl e.member),
  )

  pub zset_remove-Removed : Removed z e (zset_remove z (zset_lower_bound z e.score e.member))
  unfolding zset_remove
  zset_remove-Removed =
      let l = length-append t.before (e ∷ t.behind) in
      let m = length-append t.before t.behind in
      record {
        sorted =
            subst Sorted (sym left_over)
              (Sorted-remove t.before t.behind e (subst Sorted t.whole v.sorted));
        counted = omega (arith, v.counted, ap length t.whole, ap length left_over, l, m);
        fewer = omega (arith, v.counted, ap length t.whole, l);
        fresh = subst (λ es. times e.member es ≡ 0) (sym left_over) fresh_rest;
        often = λ q.
            ap (times q) t.whole
            ∙ times-insert q e t.before t.behind
            ∙ ap (λ es. to_nat (str_eq e.member q) + times q es) (sym left_over);
        reads = λ q.
            ap (λ es. entry_at es q) t.whole
            ∙ entry_at-insert q e t.before t.behind fresh_rest
            ∙ ap (λ es. if str_eq e.member q then some e else entry_at es q) (sym left_over);
      }
