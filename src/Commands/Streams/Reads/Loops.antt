-- ===== src/Commands/Streams/Reads/Loops.antt =====
-- The two loops of XREAD in src/cmd_stream.c.
use pulse_db.Commands.Streams.Reads.{
  AllReadable, AreIds, Readable, entries_in, limited, replies_above, stream_reply, with_ids,
}
use pulse_db.Commands.Streams.{
  entries_after, skip_through, xread_collect, xread_one, after_id, xread_check, stream_entries,
}
use pulse_db.Commands.Streams.Ranges.{skip_through-kept, is_after, kept}
use pulse_db.Store.Streams.Effects.{zero_id}
use pulse_db.Prelude.{
  subst, ◌∙◌, ◌⊎◌, List, [], ap, arith, false, inr, length, refl, some, suc, sym, take, zero, ℕ, ℤ,
  ◌++◌, ◌+◌, ◌==◌, ◌∷◌, ◌≡◌, ◌≤ℤ◌,
}
use pulse_db.Store.Invariant.{IsValid}
use pulse_db.Store.Keys.{lookup_typed, Typed, absent, held, mismatched}
use pulse_db.Store.Live.{Same, Same-later, Same-refl, Same-trans}
use pulse_db.Store.Streams.{store_get_stream, as_stream, stream_id_parse}
use pulse_db.Store.Update.{lookup_typed-Finds, typed_content}
use pulse_db.Prelude.Bytes.{Bytes, codes, str_eq}
use pulse_db.Store.Types.{Store, StreamEntry, StreamId, Stream}
use pulse_db.World.{Forward, World, now_ms, stored}

after_id-parsed :
    (r : Typed Stream) (i : Bytes) (x : StreamId)
    → Readable r
    → str_eq i (codes "$") ≡ false
    → stream_id_parse i 0 ≡ some x
    → after_id r i ≡ inr x
after_id-parsed absent i x h n p = rw (n, p) refl
after_id-parsed mismatched i x h n p = absurd h
after_id-parsed (held y) i x h n p = rw (n, p) refl

-- Later readings of the clock, after a call that left the same database.
AllReadable-stored :
    (w : World) (s : Store) (keys : List Bytes)
    → Forward w
    → Same (now_ms w) w.store s
    → AllReadable w keys
    → AllReadable (stored w s) keys
AllReadable-stored w s [] f same m = tt
AllReadable-stored w s (k ∷ keys) f same m = (
  λ t h.
      let l : now_ms w ≤ℤ t = omega (arith, f w.ticks, h) in
      subst (λ c. Readable (typed_content as_stream c)) (sym (same.keeps t l k)) (m.0 t l),
  AllReadable-stored w s keys f same m.1,
)

-- The world after so many calls.
abbrev pub advanced : World → Store → ℕ → World
advanced w s n = record w { store = s; ticks = w.ticks + n }

-- What the first loop leaves.
pub record Checks (w : World) (n : ℕ) (afters : List (Bytes × StreamId))
    (r : (Bytes ⊎ List (Bytes × StreamId)) × World) : Type 0 where
  pub found : r.0 ≡ inr afters
  pub world : r.1 ≡ advanced w r.1.store n
  pub later : now_ms w ≤ℤ now_ms r.1
  pub same : Same (now_ms r.1) w.store r.1.store

pub xread_check-Checks :
    (keys ids : List Bytes) (lasts : List StreamId) (w : World)
    → IsValid w.store
    → Forward w
    → AllReadable w keys
    → AreIds ids lasts
    → length ids ≡ length keys
    → Checks w (length keys) (with_ids keys lasts) (xread_check keys ids w)
unfolding xread_check store_get_stream
xread_check-Checks [] ids lasts w v f m p n = record {
  found = refl;
  world = ap (λ k. record w { ticks = k }) (omega arith);
  later = omega arith;
  same = Same-refl (now_ms w) w.store v;
}
xread_check-Checks (k ∷ keys) [] lasts w v f m p n = absurd (omega arith)
xread_check-Checks (k ∷ keys) (i ∷ ids) [] w v f m p n = absurd p
xread_check-Checks (k ∷ keys) (i ∷ ids) (x ∷ lasts) w v f m p n =
    let t = lookup_typed-Finds as_stream w.store v k (now_ms w) in
    let s = (lookup_typed as_stream w.store k (now_ms w)).1 in
    let rest =
      xread_check-Checks keys ids lasts (stored w s) t.same.valid f
        (AllReadable-stored w s keys f t.same m.1) p.2 (omega (arith, n)) in
    let readable = subst Readable (sym t.returns) (m.0 (now_ms w) (omega arith)) in
    let here = after_id-parsed _ i x readable p.0 p.1 in
    let later : now_ms w ≤ℤ now_ms (xread_check keys ids (stored w s)).1 =
      omega (arith, f w.ticks, rest.later) in
    rw (here, xread_check, rest.found)
      (record {
        found = refl;
        world =
            rest.world
            ∙ ap (λ j. record w { store = (xread_check keys ids (stored w s)).1.store; ticks = j })
                (omega arith);
        later = later;
        same = Same-trans _ w.store s _ (Same-later _ _ w.store s later t.same) rest.same;
      })

one_reply : (key : Bytes) (es : List StreamEntry) → xread_one key es ≡ stream_reply key es
one_reply key [] = refl
one_reply key (e ∷ es) = refl

entries_after-kept :
    (limit : ℕ) (last : StreamId) (r : Typed Stream)
    → Readable r
    → entries_after last limit (stream_entries r)
      ≡ limited limit (kept (is_after last) (entries_in r))
unfolding entries_after skip_through
entries_after-kept zero last absent h = refl
entries_after-kept (suc n) last absent h =
    let some_limit : (suc n == 0) ≡ false = ground arith in rw some_limit refl
entries_after-kept limit last mismatched h = absurd h
entries_after-kept zero last (held x) h = skip_through-kept zero_id last x.entries h.ascends
entries_after-kept (suc n) last (held x) h =
    let some_limit : (suc n == 0) ≡ false = ground arith in
    rw some_limit (ap (take (suc n)) (skip_through-kept zero_id last x.entries h.ascends))

-- The same database gives the same replies at later readings.
pub replies_above-Same :
    (limit : ℕ) (s s' : Store) (clock : ℕ → ℤ) (now : ℤ) (n : ℕ) (afters : List (Bytes × StreamId))
    → ((i : ℕ) → clock i ≤ℤ clock (i + 1))
    → now ≤ℤ clock n
    → Same now s s'
    → replies_above limit s' clock n afters ≡ replies_above limit s clock n afters
replies_above-Same limit s s' clock now n [] f l same = refl
replies_above-Same limit s s' clock now n ((k, last) ∷ afters) f l same =
    rw
      (
        same.keeps (clock n) l k,
        replies_above-Same limit s s' clock now (n + 1) afters f (omega (arith, l, f n)) same,
      )
      refl

-- What the second loop returns.
pub record Collects (w : World) (limit : ℕ) (afters : List (Bytes × StreamId))
    (r : (ℕ × Bytes) × World) : Type 0 where
  pub replies : r.0 ≡ replies_above limit w.store w.clock w.ticks afters
  pub later : now_ms w ≤ℤ now_ms r.1
  pub same : Same (now_ms r.1) w.store r.1.store

unfoldable pub keys_of : List (Bytes × StreamId) → List Bytes
keys_of [] = []
keys_of ((k, x) ∷ afters) = k ∷ keys_of afters

pub xread_collect-Collects :
    (limit : ℕ) (afters : List (Bytes × StreamId)) (w : World)
    → IsValid w.store
    → Forward w
    → AllReadable w (keys_of afters)
    → Collects w limit afters (xread_collect limit afters w)
unfolding xread_collect store_get_stream keys_of
xread_collect-Collects limit [] w v f m = record {
  replies = refl;
  later = omega arith;
  same = Same-refl (now_ms w) w.store v;
}
xread_collect-Collects limit ((k, last) ∷ afters) w v f m =
    let t = lookup_typed-Finds as_stream w.store v k (now_ms w) in
    let s = (lookup_typed as_stream w.store k (now_ms w)).1 in
    let rest =
      xread_collect-Collects limit afters (stored w s) t.same.valid f
        (AllReadable-stored w s (keys_of afters) f t.same m.1) in
    let later : now_ms w ≤ℤ now_ms (xread_collect limit afters (stored w s)).1 =
      omega (arith, f w.ticks, rest.later) in
    let above = entries_after-kept limit last _ (m.0 (now_ms w) (omega arith)) in
    let body =
      ap (λ r. xread_one k (entries_after last limit (stream_entries r))) t.returns
      ∙ ap (xread_one k) above
      ∙ one_reply k _ in
    let others =
      rest.replies
      ∙ replies_above-Same limit w.store s w.clock (now_ms w) (w.ticks + 1) afters f (f w.ticks)
          t.same in
    record {
      replies = λ i. ((body i).0 + (others i).0, (body i).1 ++ (others i).1);
      later = later;
      same = Same-trans _ w.store s _ (Same-later _ _ w.store s later t.same) rest.same;
    }
