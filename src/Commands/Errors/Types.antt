-- ===== src/Commands/Errors/Types.antt =====
-- A value of another type is not read as one of the type that a command works on.
use pulse_db.Commands.Hashes.{is_hash_type}
use pulse_db.Commands.Lists.{is_list_type, is_none_type}
use pulse_db.Commands.ZSets.{not_zset}
use pulse_db.Prelude.{Option, false, none, refl, some, true, ℤ, ◌≡◌, ◌≢◌, subst, sym, ap}
use pulse_db.Store.Hashes.{as_hash}
use pulse_db.Store.Keys.{Typed, held, mismatched}
use pulse_db.Store.Lists.{as_list}
use pulse_db.Store.Live.{Content}
use pulse_db.Store.Streams.{as_stream}
use pulse_db.Store.Strings.{as_str}
use pulse_db.Store.Types.{StoreType, Value, type_of}
use pulse_db.Store.Update.{typed_content}
use pulse_db.Store.ZSets.{as_zset}

pub other_str : (x : Value) → type_of x ≢ StoreType.string → as_str x ≡ none
other_str (Value.str a) h = absurd (h refl)
other_str (Value.list a) h = refl
other_str (Value.hash a) h = refl
other_str (Value.zset a) h = refl
other_str (Value.stream a) h = refl

pub other_list : (x : Value) → type_of x ≢ StoreType.list → as_list x ≡ none
other_list (Value.str a) h = refl
other_list (Value.list a) h = absurd (h refl)
other_list (Value.hash a) h = refl
other_list (Value.zset a) h = refl
other_list (Value.stream a) h = refl

pub other_hash : (x : Value) → type_of x ≢ StoreType.hash → as_hash x ≡ none
other_hash (Value.str a) h = refl
other_hash (Value.list a) h = refl
other_hash (Value.hash a) h = absurd (h refl)
other_hash (Value.zset a) h = refl
other_hash (Value.stream a) h = refl

pub other_zset : (x : Value) → type_of x ≢ StoreType.zset → as_zset x ≡ none
other_zset (Value.str a) h = refl
other_zset (Value.list a) h = refl
other_zset (Value.hash a) h = refl
other_zset (Value.zset a) h = absurd (h refl)
other_zset (Value.stream a) h = refl

pub other_stream : (x : Value) → type_of x ≢ StoreType.stream → as_stream x ≡ none
other_stream (Value.str a) h = refl
other_stream (Value.list a) h = refl
other_stream (Value.hash a) h = refl
other_stream (Value.zset a) h = refl
other_stream (Value.stream a) h = absurd (h refl)

pub not_list : (x : Value) → type_of x ≢ StoreType.list → is_list_type (type_of x) ≡ false
not_list (Value.str a) h = refl
not_list (Value.list a) h = absurd (h refl)
not_list (Value.hash a) h = refl
not_list (Value.zset a) h = refl
not_list (Value.stream a) h = refl

pub not_hash : (x : Value) → type_of x ≢ StoreType.hash → is_hash_type (type_of x) ≡ false
not_hash (Value.str a) h = refl
not_hash (Value.list a) h = refl
not_hash (Value.hash a) h = absurd (h refl)
not_hash (Value.zset a) h = refl
not_hash (Value.stream a) h = refl

pub other_type : (x : Value) → type_of x ≢ StoreType.zset → not_zset (type_of x) ≡ true
other_type (Value.str a) h = refl
other_type (Value.list a) h = refl
other_type (Value.hash a) h = refl
other_type (Value.zset a) h = absurd (h refl)
other_type (Value.stream a) h = refl

pub some_type : (x : Value) → is_none_type (type_of x) ≡ false
some_type (Value.str a) = refl
some_type (Value.list a) = refl
some_type (Value.hash a) = refl
some_type (Value.zset a) = refl
some_type (Value.stream a) = refl

abbrev typed_of {ℓ} : {A : Type ℓ} → Option A → Typed A
typed_of none = mismatched
typed_of (some a) = held a

pub other_content {ℓ} :
    {A : Type ℓ} (read : Value → Option A) (t : StoreType)
    → ((y : Value) → type_of y ≢ t → read y ≡ none)
    → (x : Value) (e : ℤ) (c : Option Content) → c ≡ some (x, e)
    → type_of x ≢ t
    → typed_content read c ≡ mismatched
other_content read t other x e c h n =
    subst (λ d. typed_content read d ≡ mismatched) (sym h) (ap typed_of (other x n))
