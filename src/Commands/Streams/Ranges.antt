-- ===== src/Commands/Streams/Ranges.antt =====
-- The entries that XRANGE and XREAD return, of src/cmd_stream.c: the walk that stops early finds
-- what a test of every entry finds, since the IDs ascend.
use pulse_db.Commands.Streams.{entries_between, id_le, id_lt, run_to, skip_below, skip_through}
use pulse_db.Prelude.{
  Bool, Bool-cases, List, [], arith, false, if◌then◌else◌, inl, inr, not, refl, ◌&&◌, ◌∷◌, ◌≡◌,
}
use pulse_db.Store.Streams.{stream_id_cmp}
use pulse_db.Store.Streams.Effects.{Ascends}
use pulse_db.Store.Types.{StreamEntry, StreamId}
use pulse_db.Store.Streams.Ids.{◌≺◌}

-- The entries that a test keeps, in order.
abbrev pub kept : (StreamEntry → Bool) → List StreamEntry → List StreamEntry
kept p [] = []
kept p (e ∷ es) = if p e then e ∷ kept p es else kept p es

-- start ≤ ID ≤ last
abbrev pub in_range : StreamId → StreamId → StreamEntry → Bool
in_range start last e = not (id_lt e.id start) && id_le e.id last

abbrev pub is_after : StreamId → StreamEntry → Bool
is_after last e = not (id_le e.id last)

id_le-below : (a b c : StreamId) → a ≺ b → id_le a c ≡ false → id_le b c ≡ false
unfolding stream_id_cmp
id_le-below a b c h k = ground arith

id_lt-below : (a b c : StreamId) → a ≺ b → id_lt a c ≡ false → id_lt b c ≡ false
unfolding stream_id_cmp
id_lt-below a b c h k = ground arith

-- Behind an ID above `last` there is no entry up to `last`.
none_up_to :
    (i last : StreamId) (es : List StreamEntry)
    → Ascends i es
    → id_le i last ≡ false
    → kept (λ e. id_le e.id last) es ≡ []
none_up_to i last [] a h = refl
none_up_to i last (e ∷ es) a h =
    let k = id_le-below i e.id last a.0 h in rw k (none_up_to e.id last es a.1 k)

run_to-kept :
    (i last : StreamId) (es : List StreamEntry)
    → Ascends i es
    → run_to last es ≡ kept (λ e. id_le e.id last) es
unfolding run_to
run_to-kept i last [] a = refl
run_to-kept i last (e ∷ es) a = elim (Bool-cases (id_le e.id last)) [
  | inl h ↦ rw (h, run_to-kept e.id last es a.1) refl
  | inr h ↦ rw (h, none_up_to e.id last es a.1 h) refl
]

-- Behind an ID that is not below `start` every entry is in the range that is up to `last`.
range_from :
    (i start last : StreamId) (es : List StreamEntry)
    → Ascends i es
    → id_lt i start ≡ false
    → kept (in_range start last) es ≡ kept (λ e. id_le e.id last) es
range_from i start last [] a h = refl
range_from i start last (e ∷ es) a h =
    let k = id_lt-below i e.id start a.0 h in rw (k, range_from e.id start last es a.1 k) refl

-- On entries whose IDs ascend, `entries_between` keeps those with start ≤ ID ≤ last.
pub entries_between-kept :
    (i start last : StreamId) (es : List StreamEntry)
    → Ascends i es
    → entries_between start last es ≡ kept (in_range start last) es
unfolding entries_between skip_below run_to
entries_between-kept i start last [] a = refl
entries_between-kept i start last (e ∷ es) a = elim (Bool-cases (id_lt e.id start)) [
  | inl h ↦ rw (h, entries_between-kept e.id start last es a.1) refl
  | inr h ↦ rw (h, range_from e.id start last es a.1 h) (run_to-kept i last (e ∷ es) a)
]

all_after :
    (i last : StreamId) (es : List StreamEntry)
    → Ascends i es
    → id_le i last ≡ false
    → kept (is_after last) es ≡ es
all_after i last [] a h = refl
all_after i last (e ∷ es) a h =
    let k = id_le-below i e.id last a.0 h in rw (k, all_after e.id last es a.1 k) refl

-- On entries whose IDs ascend, the walk of XREAD past the first entries leaves exactly those
-- whose IDs are above the given one, in order.
pub skip_through-kept :
    (i last : StreamId) (es : List StreamEntry)
    → Ascends i es
    → skip_through last es ≡ kept (is_after last) es
unfolding skip_through
skip_through-kept i last [] a = refl
skip_through-kept i last (e ∷ es) a = elim (Bool-cases (id_le e.id last)) [
  | inl h ↦ rw (h, skip_through-kept e.id last es a.1) refl
  | inr h ↦ rw (h, all_after e.id last es a.1 h) refl
]
