-- ===== src/Rdb/Writer.antt =====
-- A writer of snapshots: what the loader of src/rdb.c reads back. It stands for the program that
-- wrote the file.
use pulse_db.Prelude.{
  negsuc, pos, true, ℤ, ◌-◌, append_assoc, false, subst, ◌>>=◌, ◌∙◌, List, [], ap, arith, length,
  ltb, refl, some, suc, zero, ℕ, ◌%◌, ◌*◌, ◌++◌, ◌+◌, ◌/◌, ◌<◌, ◌^◌, ◌∷◌, ◌≡◌, ◌≤◌,
}
use pulse_db.Rdb.{
  big_endian, fread, integer_text, length_after, little_endian, max_rdb_string, plain, read_length,
  read_number, read_string, signed, string_after,
}
use pulse_db.Commands.Process.{c_str}
use pulse_db.Prelude.Bytes.{Bytes, codes}
use pulse_db.Prelude.Decimal.{signed_decimal}

-- The lowest byte first, in `n` bytes.
abbrev pub low_first : ℕ → ℕ → Bytes
low_first zero v = []
low_first (suc n) v = v % 256 ∷ low_first n (v / 256)

-- The forms of a length: in the first byte, in two bytes, in five and in nine.
pub data Form : Type 0 where
  one two five nine : Form

-- The form has room for the length.
abbrev pub InForm : Form → ℕ → Type 0
InForm one n = n < 64
InForm two n = n < 16384
InForm five n = n < 2 ^ 32
InForm nine n = n < 2 ^ 64

abbrev pub write_length : Form → ℕ → Bytes
write_length one n = n ∷ []
write_length two n = (64 + n / 256) ∷ (n % 256) ∷ []
write_length five n = 128 ∷ (n / 2 ^ 24) ∷ (n / 2 ^ 16 % 256) ∷ (n / 2 ^ 8 % 256) ∷ (n % 256) ∷ []
write_length nine n =
    129
    ∷ (n / 2 ^ 56)
    ∷ (n / 2 ^ 48 % 256)
    ∷ (n / 2 ^ 40 % 256)
    ∷ (n / 2 ^ 32 % 256)
    ∷ (n / 2 ^ 24 % 256)
    ∷ (n / 2 ^ 16 % 256)
    ∷ (n / 2 ^ 8 % 256)
    ∷ (n % 256)
    ∷ []

-- A string of a file: its bytes behind their length, or an integer of one, two or four bytes.
pub data Coded : Type 0 where
  raw : Form → Bytes → Coded
  int8 int16 int32 : ℤ → Coded

-- An integer in the two's complement of which `half` is the bound.
abbrev pub complement : ℕ → ℤ → ℕ
complement half (pos n) = n
complement half (negsuc n) = half * 2 - 1 - n

abbrev pub InHalf : ℕ → ℤ → Type 0
InHalf half (pos n) = n < half
InHalf half (negsuc n) = n < half

abbrev pub write_string : Coded → Bytes
write_string (raw form s) = write_length form (length s) ++ s
write_string (int8 z) = 192 ∷ low_first 1 (complement (2 ^ 7) z)
write_string (int16 z) = 193 ∷ low_first 2 (complement (2 ^ 15) z)
write_string (int32 z) = 194 ∷ low_first 4 (complement (2 ^ 31) z)

-- The text that a string stands for: an integer stands for its decimal digits.
abbrev pub text_of : Coded → Bytes
text_of (raw form s) = s
text_of (int8 z) = signed_decimal z
text_of (int16 z) = signed_decimal z
text_of (int32 z) = signed_decimal z

-- What a file is made of: a string entry, the expiry of the next entry in milliseconds or in
-- seconds, and the items that stand for nothing.
pub data Item : Type 0 where
  aux : Coded → Coded → Item
  select_db : Form → ℕ → Item
  resize_db : Form → ℕ → Form → ℕ → Item
  expire_ms expire_sec : ℕ → Item
  entry : Coded → Coded → Item

abbrev pub write_item : Item → Bytes
write_item (aux k v) = 250 ∷ (write_string k ++ write_string v)
write_item (select_db form n) = 254 ∷ write_length form n
write_item (resize_db form n form' m) = 251 ∷ (write_length form n ++ write_length form' m)
write_item (expire_ms n) = 252 ∷ low_first 8 n
write_item (expire_sec n) = 253 ∷ low_first 4 n
write_item (entry k v) = 0 ∷ (write_string k ++ write_string v)

abbrev pub write_items : List Item → Bytes
write_items [] = []
write_items (i ∷ is) = write_item i ++ write_items is

-- The version is any four bytes, and what follows the end is a checksum.
abbrev pub write_file : ℕ → ℕ → ℕ → ℕ → List Item → Bytes → Bytes
write_file a b c d items checksum =
    codes "REDIS" ++ (a ∷ b ∷ c ∷ d ∷ (write_items items ++ 255 ∷ checksum))

-- Bytes without NUL, at most 512 MB, in a form with room for their length; or an integer in range.
abbrev pub IsCoded : Coded → Type 0
IsCoded (raw form s) = (c_str s ≡ s) × (length s ≤ max_rdb_string) × InForm form (length s)
IsCoded (int8 z) = InHalf (2 ^ 7) z
IsCoded (int16 z) = InHalf (2 ^ 15) z
IsCoded (int32 z) = InHalf (2 ^ 31) z

abbrev pub IsItem : Item → Type 0
IsItem (aux k v) = IsCoded k × IsCoded v
IsItem (select_db form n) = InForm form n
IsItem (resize_db form n form' m) = InForm form n × InForm form' m
IsItem (expire_ms n) = n < 2 ^ 63
IsItem (expire_sec n) = n < 2 ^ 32
IsItem (entry k v) = IsCoded k × IsCoded v

pub fread-append : (b g : Bytes) → fread (length b) (b ++ g) ≡ some (b, g)
unfolding fread
fread-append [] g = refl
fread-append (x ∷ b) g = rw (fread-append b g) refl

-- 256 to the power of `n`
abbrev words : ℕ → ℕ
words zero = 1
words (suc n) = 256 * words n

little_endian-low_first : (n v : ℕ) → v < words n → little_endian (low_first n v) ≡ v
unfolding little_endian
little_endian-low_first zero v h = omega arith
little_endian-low_first (suc n) v h =
    omega (arith, little_endian-low_first n (v / 256) (omega arith))

length-low_first : (n v : ℕ) → length (low_first n v) ≡ n
length-low_first zero v = refl
length-low_first (suc n) v = ap suc (length-low_first n (v / 256))

-- A number that was written in `n` bytes is read back.
pub read_number-low_first :
    (n v : ℕ) (g : Bytes)
    → v < words n
    → read_number little_endian n (low_first n v ++ g) ≡ some (v, g)
read_number-low_first n v g h =
    let read : fread n (low_first n v ++ g) ≡ some (low_first n v, g) =
      subst (λ m. fread m (low_first n v ++ g) ≡ some (low_first n v, g)) (length-low_first n v)
        (fread-append (low_first n v) g) in
    ap (λ o. o >>= (λ (b, f). some (little_endian b, f))) read
    ∙ ap (λ m. some (m, g)) (little_endian-low_first n v h)

one_byte : (n : ℕ) (g : Bytes) → n < 64 → length_after n g ≡ some (plain n, g)
unfolding length_after
one_byte n g h =
    let kind : n / 64 % 4 ≡ 0 = omega arith in
    let low : n % 64 ≡ n = omega arith in rw (kind, low) refl

two_bytes :
    (n : ℕ) (g : Bytes) → n < 16384 → length_after (64 + n / 256) (n % 256 ∷ g) ≡ some (plain n, g)
unfolding length_after fread big_endian
two_bytes n g h =
    let kind : (64 + n / 256) / 64 % 4 ≡ 1 = omega arith in
    let value : (64 + n / 256) % 64 * 256 + n % 256 ≡ n = omega arith in rw (kind, value) refl

-- A length that was written is read back.
pub read_length-write_length :
    (form : Form) (n : ℕ) (g : Bytes)
    → InForm form n
    → read_length (write_length form n ++ g) ≡ some (plain n, g)
unfolding read_length length_after fread big_endian
read_length-write_length one n g h = one_byte n g h
read_length-write_length two n g h = two_bytes n g h
read_length-write_length five n g h = ap (λ m. some (plain m, g)) (omega arith)
read_length-write_length nine n g h = ap (λ m. some (plain m, g)) (omega arith)

signed-complement : (half : ℕ) (z : ℤ) → InHalf half z → signed half (complement half z) ≡ z
signed-complement half (pos n) h = let small : ltb n half ≡ true = ground arith in rw small refl
signed-complement half (negsuc n) h =
    let large : ltb (half * 2 - 1 - n) half ≡ false = ground arith in
    rw large (ap negsuc (omega arith))

complement-small : (half : ℕ) (z : ℤ) → InHalf half z → complement half z < half * 2
complement-small half (pos n) h = omega arith
complement-small half (negsuc n) h = omega arith

-- An integer that was written is read back as its digits.
integer_text-low_first :
    (n half : ℕ) (z : ℤ) (g : Bytes)
    → half * 2 ≡ words n
    → InHalf half z
    → integer_text n half (low_first n (complement half z) ++ g) ≡ some (signed_decimal z, g)
integer_text-low_first n half z g same h =
    let small : complement half z < words n = omega (arith, complement-small half z h, same) in
    rw (read_number-low_first n (complement half z) g small)
      (ap (λ y. some (signed_decimal y, g)) (signed-complement half z h))

-- A string that was written is read back as its text.
pub read_string-write_string :
    (c : Coded) (g : Bytes) → IsCoded c → read_string (write_string c ++ g) ≡ some (text_of c, g)
unfolding read_string string_after read_length length_after
read_string-write_string (raw form s) g (no_nul, size, room) =
    let short : ltb max_rdb_string (length s) ≡ false = ground arith in
    rw
      (
        append_assoc (write_length form (length s)) s g,
        read_length-write_length form (length s) (s ++ g) room,
        short,
        fread-append s g,
        no_nul,
      )
      refl
read_string-write_string (int8 z) g h = integer_text-low_first 1 (2 ^ 7) z g refl h
read_string-write_string (int16 z) g h = integer_text-low_first 2 (2 ^ 15) z g refl h
read_string-write_string (int32 z) g h = integer_text-low_first 4 (2 ^ 31) z g refl h
