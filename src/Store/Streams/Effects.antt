-- ===== src/Store/Streams/Effects.antt =====
-- `store_stream_add` appends one entry whose ID is above all others, or refuses and changes nothing.
use pulse_db.Prelude.{
  ◌<◌, ◌≡◌, refl, sym, inl, inr, List, [], ◌∷◌, ◌++◌, Option, none, some, arith, ℤ, length,
  length-append, subst, ◌∙◌,
}
use pulse_db.Prelude.Bytes.{Bytes}
use pulse_db.Store.Types.{Store, Value, StoreStatus, StreamId, StreamField, StreamEntry, Stream}
use pulse_db.Store.Keys.{Typed, held, absent, mismatched, lookup_typed}
use pulse_db.Store.Invariant.{IsValid}
use pulse_db.Store.Live.{live, Same, Writes}
use pulse_db.Store.Update.{
  expiry_of, typed_content, lookup_typed-Finds, create_put-Writes, put_value-Writes,
}
use pulse_db.Store.Streams.{
  Resolved, refused, resolve_new_id, empty_stream, new_entry, append_entry, last_id_of,
  store_stream_add, as_stream, id,
}
use pulse_db.Store.Streams.Ids.{◌≺◌, IsId, IsStarted, resolve_new_id-Exceeds}

-- The IDs ascend strictly from `lo`.
abbrev pub Ascends : StreamId → List StreamEntry → Type 0
Ascends lo [] = Unit
Ascends lo (e ∷ es) = (lo ≺ e.id) × Ascends e.id es

-- The ID of the tail, or `lo`.
abbrev pub last_from : StreamId → List StreamEntry → StreamId
last_from lo [] = lo
last_from lo (e ∷ es) = last_from e.id es

abbrev pub zero_id : StreamId
zero_id = record { ms = 0; seq = 0 }

-- The invariant of a stream: the IDs ascend strictly above 0-0, the last one is remembered and
-- fits, and the entries are counted.
pub record IsOrdered (x : Stream) : Type 0 where
  pub ascends : Ascends zero_id x.entries
  pub last : last_from zero_id x.entries ≡ x.last_id
  pub last_fits : IsId x.last_id
  pub counted : x.len ≡ length x.entries

Ascends-append :
    (lo : StreamId) (es : List StreamEntry) (e : StreamEntry)
    → Ascends lo es
    → last_from lo es ≺ e.id
    → Ascends lo (es ++ e ∷ []) × (last_from lo (es ++ e ∷ []) ≡ e.id)
Ascends-append lo [] e a l = ((l, tt), refl)
Ascends-append lo (f ∷ es) e a l =
    let (rest, last) = Ascends-append f.id es e a.1 l in ((a.0, rest), last)

-- An entry above the last ID keeps the invariant.
pub append_entry-IsOrdered :
    (x : Stream) (e : StreamEntry)
    → IsOrdered x
    → x.last_id ≺ e.id
    → IsId e.id
    → IsOrdered (append_entry x e)
unfolding append_entry
append_entry-IsOrdered x e o l f =
    let t = Ascends-append zero_id x.entries e o.ascends (subst (λ i. i ≺ e.id) (sym o.last) l) in
    record {
      ascends = t.0;
      last = t.1;
      last_fits = f;
      counted = omega (arith, o.counted, length-append x.entries (e ∷ []));
    }

empty_stream-IsOrdered : IsOrdered empty_stream
empty_stream-IsOrdered = record {
  ascends = tt;
  last = refl;
  last_fits = record { ms_fits = omega arith; seq_fits = omega arith };
  counted = refl;
}

-- The stream that is there, if one is.
abbrev pub stream_of : Typed Stream → Option Stream
stream_of (held x) = some x
stream_of absent = none
stream_of mismatched = none

abbrev pub stream_or_empty : Option Stream → Stream
stream_or_empty none = empty_stream
stream_or_empty (some x) = x

IsOrdered-IsStarted : (x : Stream) → IsOrdered x → 0 < x.len → IsStarted (some x)
IsOrdered-IsStarted x o h = record { filled = inl (ground arith); last_fits = o.last_fits }

none-IsStarted : IsStarted none
none-IsStarted = record {
  filled = inr (refl, refl);
  last_fits = record { ms_fits = omega arith; seq_fits = omega arith };
}

module _ (s : Store) (v : IsValid s) (k spec : Bytes) (fields : List StreamField)
    (now clock : ℤ) where
  -- A resolved ID is appended with the fields to the stream, which stays ordered; a refusal gives
  -- the status and leaves the database the same.
  abbrev pub Adds : Stream → Resolved → StoreStatus × Option StreamId × Store → Type 0
  Adds x (Resolved.id i) r =
      (r.0 ≡ StoreStatus.ok)
      × (r.1 ≡ some i)
      × (x.last_id ≺ i)
      × IsOrdered (append_entry x (new_entry i fields))
      × Writes now s k
          (some (Value.stream (append_entry x (new_entry i fields)), expiry_of (live s now k))) r.2
  Adds x (refused st) r = (r.0 ≡ st) × (r.1 ≡ none) × Same now s r.2

  abbrev pub Outcome : Typed Stream → StoreStatus × Option StreamId × Store → Type 0
  Outcome (held x) r = Adds x (resolve_new_id (some x) spec clock) r
  Outcome absent r = Adds empty_stream (resolve_new_id none spec clock) r
  Outcome mismatched r = (r.0 ≡ StoreStatus.wrong_type) × (r.1 ≡ none) × Same now s r.2

  add_resolved :
      (x : Stream) (o : Option Stream) (i : StreamId)
      → IsOrdered x
      → last_id_of o ≡ x.last_id
      → IsStarted o
      → resolve_new_id o spec clock ≡ Resolved.id i
      → (x.last_id ≺ i) × IsOrdered (append_entry x (new_entry i fields))
  add_resolved x o i ordered same started e =
      let t = rw e at (resolve_new_id-Exceeds o spec clock started) in
      let above : x.last_id ≺ i = subst (λ j. j ≺ i) same t.0 in
      (
        above,
        append_entry-IsOrdered x (new_entry i fields) ordered (unfold new_entry in above)
            (unfold new_entry in t.1),
      )

  add_held :
      (x : Stream)
      → (lookup_typed as_stream s k now).0 ≡ held x
      → IsOrdered x
      → 0 < x.len
      → Outcome (held x) (store_stream_add s k spec fields now clock)
  unfolding store_stream_add
  add_held x e ordered filled =
      let same = (lookup_typed-Finds as_stream s v k now).same in
      (elim (resolve_new_id (some x) spec clock)
          as (λ o.
            resolve_new_id (some x) spec clock ≡ o
            → Adds x o (store_stream_add s k spec fields now clock)) [
              | refused st ↦ λ h. rw (e, store_stream_add, h) (refl, refl, same)
              | id i ↦ λ h.
                  let t =
                    add_resolved x (some x) i ordered refl (IsOrdered-IsStarted x ordered filled)
                      h in
                  rw (e, store_stream_add, h)
                    (refl, refl, t.0, t.1, put_value-Writes as_stream s v k now x _ e)
            ])
        refl

  add_absent :
      (lookup_typed as_stream s k now).0 ≡ absent
      → Outcome absent (store_stream_add s k spec fields now clock)
  unfolding store_stream_add
  add_absent e =
      let same = (lookup_typed-Finds as_stream s v k now).same in
      (elim (resolve_new_id none spec clock)
          as (λ o.
            resolve_new_id none spec clock ≡ o
            → Adds empty_stream o (store_stream_add s k spec fields now clock)) [
              | refused st ↦ λ h. rw (e, store_stream_add, h) (refl, refl, same)
              | id i ↦ λ h.
                  let t =
                    add_resolved empty_stream none i empty_stream-IsOrdered refl none-IsStarted h in
                  rw (e, store_stream_add, h)
                    (refl, refl, t.0, t.1, create_put-Writes as_stream s v k now _ _ e)
            ])
        refl

  -- On a valid store, at a key whose stream, if it holds one, is ordered and not empty,
  -- `store_stream_add` either appends one entry whose ID is above the last one, leaves an ordered
  -- stream of one more entry under the expiry of the key and changes no other key, or returns the
  -- status of the refusal and leaves the database the same.
  pub store_stream_add-Adds :
      ((x : Stream) → typed_content as_stream (live s now k) ≡ held x → IsOrdered x × (0 < x.len))
      → Outcome
          (typed_content as_stream (live s now k))
          (store_stream_add s k spec fields now clock)
  unfolding store_stream_add
  store_stream_add-Adds ordered =
      let t = lookup_typed-Finds as_stream s v k now in
      let r = (lookup_typed as_stream s k now).0 in
      rw (← t.returns) (
        (elim r as (λ o. r ≡ o → Outcome o (store_stream_add s k spec fields now clock)) [
          | absent ↦ λ e. add_absent e
          | mismatched ↦ λ e. rw (e, store_stream_add) (refl, refl, t.same)
          | held x ↦ λ e. let h = ordered x (sym t.returns ∙ e) in add_held x e h.0 h.1
        ])
          refl)
