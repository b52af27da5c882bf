-- ===== src/Buffer.antt =====
-- src/util.c: the byte buffer of a connection. Its bytes are those of `data` below `len`.
use pulse_db.Prelude.{
  zero, suc, [], ◌∷◌, false, ℕ, ◌+◌, ◌*◌, ◌≤◌, ◌<◌, leb, ltb, ◌++◌, length, drop, if◌then◌else◌,
  arith, ◌==◌, ◌≡◌, length-append, length-drop, drop-length,
}
use pulse_db.Prelude.Bytes.{Bytes}

pub record Buffer : Type 0 where
  pub bytes : Bytes
  pub cap : ℕ

abbrev pub buffer_init : Buffer
buffer_init = record { bytes = []; cap = 0 }

-- `while (cap < need) cap *= 2`
unfoldable pub double_until : ℕ → ℕ → ℕ → ℕ
double_until zero need cap = cap
double_until (suc fuel) need cap =
    let more = double_until fuel need (cap * 2) in if ltb cap need then more else cap

-- The capacity that is asked for: doubling from 256 reaches any need within that many steps.
unfoldable pub grown : Buffer → ℕ → ℕ
grown b need = double_until need need (if b.cap == 0 then 256 else b.cap)

unfoldable pub buffer_append : Buffer → Bytes → Buffer
buffer_append b src = record {
  bytes = b.bytes ++ src;
  cap =
      if ltb b.cap (length b.bytes + length src)
      then grown b (length b.bytes + length src)
      else b.cap;
}

unfoldable pub buffer_consume : Buffer → ℕ → Buffer
buffer_consume b n = record b { bytes = if leb (length b.bytes) n then [] else drop n b.bytes }

-- The bytes fit the block.
abbrev pub IsWithin : Buffer → Type 0
IsWithin b = length b.bytes ≤ b.cap

double_until-le :
    (fuel need cap : ℕ) → 0 < cap → need ≤ fuel + cap → need ≤ double_until fuel need cap
unfolding double_until
double_until-le zero need cap p h = omega arith
double_until-le (suc fuel) need cap p h = ground (arith, double_until-le fuel need (cap * 2))

grown-le : (b : Buffer) (need : ℕ) → need ≤ grown b need
unfolding grown
grown-le b need = ground (arith, double_until-le need need (if b.cap == 0 then 256 else b.cap))

buffer_append-IsWithin : (b : Buffer) (src : Bytes) → IsWithin b → IsWithin (buffer_append b src)
unfolding buffer_append
buffer_append-IsWithin b src h =
    ground (arith, length-append b.bytes src, grown-le b (length b.bytes + length src))

buffer_consume-IsWithin : (b : Buffer) (n : ℕ) → IsWithin b → IsWithin (buffer_consume b n)
unfolding buffer_consume
buffer_consume-IsWithin b n h = ground (arith, length-drop n b.bytes)

consumed :
    (xs ys : Bytes)
    → (if leb (length (xs ++ ys)) (length xs) then [] else drop (length xs) (xs ++ ys)) ≡ ys
consumed xs [] = rw (drop-length xs []) (ground arith)
consumed xs (y ∷ ys) =
    let more : leb (length (xs ++ y ∷ ys)) (length xs) ≡ false =
      ground (arith, length-append xs (y ∷ ys)) in
    rw more (drop-length xs (y ∷ ys))

-- For a buffer whose bytes fit its block, what `buffer_append` puts behind the bytes is what is
-- left when `buffer_consume` takes those away, and the bytes fit the block after either call.
pub buffer_consume-buffer_append :
    (b : Buffer) (src : Bytes)
    → IsWithin b
    → ((buffer_consume (buffer_append b src) (length b.bytes)).bytes ≡ src)
      × IsWithin (buffer_append b src)
      × IsWithin (buffer_consume (buffer_append b src) (length b.bytes))
unfolding buffer_consume buffer_append
buffer_consume-buffer_append b src h = (
  consumed b.bytes src,
  buffer_append-IsWithin b src h,
  buffer_consume-IsWithin _ _ (buffer_append-IsWithin b src h),
)
