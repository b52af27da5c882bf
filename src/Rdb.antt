-- ===== src/Rdb.antt =====
-- src/rdb.c: the loader of a snapshot, over the bytes of the file, and the store that src/main.c
-- starts the server with. A byte is below 256, so `|` of shifted bytes is their sum.
use pulse_db.Commands.Process.{c_str}
use pulse_db.Prelude.{
  Option, [], if◌then◌else◌, length, ltb, negsuc, none, pos, some, suc, zero, ℕ, ℤ, ◌%◌, ◌*◌, ◌+◌,
  ◌-◌, ◌/◌, ◌==◌, ◌^◌, ◌∷◌, ◌>>=◌,
}
use pulse_db.Prelude.Bytes.{Bytes, codes, str_eq}
use pulse_db.Prelude.Decimal.{signed_decimal}
use pulse_db.Store.Keys.{store_create}
use pulse_db.Store.Strings.{store_set}
use pulse_db.Store.Types.{Store}
pub mod Ends
pub mod Writer
pub mod RoundTrip

abbrev pub rdb_op_aux : ℕ
rdb_op_aux = 250

abbrev pub rdb_op_resizedb : ℕ
rdb_op_resizedb = 251

abbrev pub rdb_op_expire_ms : ℕ
rdb_op_expire_ms = 252

abbrev pub rdb_op_expire_sec : ℕ
rdb_op_expire_sec = 253

abbrev pub rdb_op_selectdb : ℕ
rdb_op_selectdb = 254

abbrev pub rdb_op_eof : ℕ
rdb_op_eof = 255

abbrev pub rdb_type_string : ℕ
rdb_type_string = 0

abbrev pub max_rdb_string : ℕ
max_rdb_string = 512 * 1024 * 1024

pub data RdbStatus : Type 0 where
  ok not_found parse_error unsupported : RdbStatus

-- `fread(b, 1, n, f) == n`: the bytes, and the rest of the file.
unfoldable pub fread : ℕ → Bytes → Option (Bytes × Bytes)
fread zero f = some ([], f)
fread (suc n) [] = none
fread (suc n) (b ∷ f) = elim (fread n f) [ none ↦ none | some (bs, g) ↦ some (b ∷ bs, g) ]

-- The bytes as a number, the first one the highest, behind the digits `v`.
unfoldable pub big_endian : ℕ → Bytes → ℕ
big_endian v [] = v
big_endian v (b ∷ bs) = big_endian (v * 256 + b) bs

-- The bytes as a number, the first one the lowest.
unfoldable pub little_endian : Bytes → ℕ
little_endian [] = 0
little_endian (b ∷ bs) = b + 256 * little_endian bs

-- The cast of a number to a signed integer, of which `half` is the bound.
abbrev pub signed : ℕ → ℕ → ℤ
signed half n = if ltb n half then pos n else negsuc (half * 2 - 1 - n)

-- `*out` with `*encoded`
pub data RdbLength : Type 0 where
  plain encoded : ℕ → RdbLength

-- A number of `n` bytes.
abbrev pub read_number : (Bytes → ℕ) → ℕ → Bytes → Option (ℕ × Bytes)
read_number value n f = fread n f >>= (λ (b, g). some (value b, g))

abbrev pub plain_length : Option (ℕ × Bytes) → Option (RdbLength × Bytes)
plain_length r = r >>= (λ (n, g). some (plain n, g))

-- The switch of `read_length` on the first byte.
unfoldable pub length_after : ℕ → Bytes → Option (RdbLength × Bytes)
length_after byte f =
    let kind = byte / 64 % 4 in
    if kind == 0
    then some (plain (byte % 64), f)
    else if kind == 1
    then plain_length (read_number (big_endian (byte % 64)) 1 f)
    else if kind == 2
    then (if byte == 128
        then plain_length (read_number (big_endian 0) 4 f)
        else if byte == 129
        then plain_length (read_number (big_endian 0) 8 f)
        else none)
    else some (encoded (byte % 64), f)

unfoldable pub read_length : Bytes → Option (RdbLength × Bytes)
read_length [] = none
read_length (byte ∷ f) = length_after byte f

-- `read_length(f, &n, NULL)`: what is left of the file.
abbrev pub skip_length : Bytes → Option Bytes
skip_length f = elim (read_length f) [
  | none ↦ none
  | some (encoded _, g) ↦ none
  | some (plain _, g) ↦ some g
]

-- An integer of `n` bytes as text.
abbrev pub integer_text : ℕ → ℕ → Bytes → Option (Bytes × Bytes)
integer_text n half f =
    read_number little_endian n f >>= (λ (v, g). some (signed_decimal (signed half v), g))

-- The rest of `read_string`, behind the length. A C string ends at its first NUL.
unfoldable pub string_after : RdbLength → Bytes → Option (Bytes × Bytes)
string_after (plain len) f =
    if ltb max_rdb_string len then none else fread len f >>= (λ (b, g). some (c_str b, g))
string_after (encoded kind) f =
    if kind == 0
    then integer_text 1 (2 ^ 7) f
    else if kind == 1
    then integer_text 2 (2 ^ 15) f
    else if kind == 2
    then integer_text 4 (2 ^ 31) f
    else none

unfoldable pub read_string : Bytes → Option (Bytes × Bytes)
read_string f = read_length f >>= (λ (l, g). string_after l g)

-- Two strings, a failure of either one being a failure.
abbrev pub read_pair : Bytes → Option ((Bytes × Bytes) × Bytes)
read_pair f = read_string f >>= (λ (k, g). read_string g >>= (λ (v, h). some ((k, v), h)))

-- The store and `expiry_ms`, with the number of the next reading of the clock.
pub record Loader : Type 0 where
  pub store : Store
  pub expiry_ms : ℤ
  pub ticks : ℕ

-- The end of the loop, or what is left of the file.
pub data LoadStep : Type 0 where
  finished : RdbStatus → LoadStep
  continued : Bytes → Loader → LoadStep

-- A step that goes on if its operands were there.
abbrev pub went_on : {A : Type 0} → Option (A × Bytes) → (A → Loader) → LoadStep
went_on none next = finished RdbStatus.parse_error
went_on (some (a, g)) next = continued g (next a)

abbrev pub skipped : Option Bytes → Loader → LoadStep
skipped none l = finished RdbStatus.parse_error
skipped (some g) l = continued g l

-- A turn that ended the loop, or the turns that follow.
abbrev pub after_step :
    Loader → (Bytes → Loader → Option (RdbStatus × Loader)) → LoadStep → Option (RdbStatus × Loader)
after_step l next (finished st) = some (st, l)
after_step l next (continued f l') = next f l'

module _ (clock : ℕ → ℤ) where
  -- `store_set(store, key, value, expiry_ms)` and the reset of the expiry
  abbrev pub load_entry : Loader → Bytes × Bytes → Loader
  load_entry l (key, value) = record {
    store = store_set l.store key value l.expiry_ms (clock l.ticks);
    expiry_ms = pos 0;
    ticks = l.ticks + 1;
  }

  -- One turn of the loop of `rdb_load`, behind the opcode.
  unfoldable pub load_op : ℕ → Bytes → Loader → LoadStep
  load_op op f l =
      if op == rdb_op_eof
      then finished RdbStatus.ok
      else if op == rdb_op_aux
      then went_on (read_pair f) (λ p. l)
      else if op == rdb_op_selectdb
      then skipped (skip_length f) l
      else if op == rdb_op_resizedb
      then skipped (skip_length f >>= skip_length) l
      else if op == rdb_op_expire_ms
      then went_on (read_number little_endian 8 f) (λ v. record l { expiry_ms = signed (2 ^ 63) v })
      else if op == rdb_op_expire_sec
      then went_on (read_number little_endian 4 f) (λ v. record l { expiry_ms = pos (v * 1000) })
      else if op == rdb_type_string
      then went_on (read_pair f) (load_entry l)
      else finished RdbStatus.unsupported

  -- The loop; `none` is out of fuel.
  unfoldable pub load_loop : ℕ → Bytes → Loader → Option (RdbStatus × Loader)
  load_loop zero f l = none
  load_loop (suc n) [] l = some (RdbStatus.parse_error, l)
  load_loop (suc n) (op ∷ f) l = after_step l (load_loop n) (load_op op f l)

  -- The header: the magic text and four bytes of version.
  abbrev pub after_header : Bytes → Option Bytes
  after_header file = fread 5 file >>= (λ (magic, f).
      if str_eq magic (codes "REDIS") then fread 4 f >>= (λ (version, g). some g) else none)

  abbrev pub fresh_loader : Store → ℕ → Loader
  fresh_loader s ticks = record { store = s; expiry_ms = pos 0; ticks = ticks }

  -- The loop over what follows the header; the length of the file is enough fuel.
  unfoldable pub load_from : Option Bytes → Loader → Option (RdbStatus × Loader)
  load_from none l = some (RdbStatus.parse_error, l)
  load_from (some f) l = load_loop (length f + 1) f l

  -- The file is `none` if it cannot be opened.
  unfoldable pub rdb_load : Store → ℕ → Option Bytes → Option (RdbStatus × Loader)
  rdb_load s ticks none = some (RdbStatus.not_found, fresh_loader s ticks)
  rdb_load s ticks (some f) = load_from (after_header f) (fresh_loader s ticks)

  -- The store that the server starts with: what was loaded, or a fresh one in its place.
  abbrev pub kept_store : RdbStatus → Loader → Store
  kept_store RdbStatus.ok l = l.store
  kept_store RdbStatus.not_found l = l.store
  kept_store _ l = store_create

  unfoldable pub start_store : ℕ → Option Bytes → Option Store
  start_store ticks file = rdb_load store_create ticks file >>= (λ (st, l). some (kept_store st l))
