-- ===== src/Serde/Ints/Codes.antt =====
-- The number that stands on the wire for an integer, of each type.
use Prim.Native.Nat.{bit_xor}
use native.Mathlib.Nat.{pow-suc, mod-eq_of_lt}
use pyservicelib.Base.{
  ℕ, suc, ◌+◌, ◌-◌, ◌*◌, ◌%◌, ◌^◌, ◌<◌, ◌≡◌, Bool, true, false, ◌++◌, arith, take, take-append, ok,
}
use pyservicelib.Base.Int.{ℤ, pos, negsuc, pos_part}
use pyservicelib.Base.Bits.{bit_xor-pow_set, bit_xor-pow_clear}
use pyservicelib.Serde.Struct.{Bytes, be_bytes, be_number, pack, unpack}
use pyservicelib.Serde.Struct.Laws.{length-be_bytes, be_number-be_bytes}
use pyservicelib.Serde.Ints.{
  IntType, int8, uint8, int16, uint16, int32, uint32, int64, uint64, int, uint, int_serde,
  wire_value, field_value,
}

-- The sizes in bytes.
abbrev pub width : IntType → ℕ
width int8 = 1
width uint8 = 1
width int16 = 2
width uint16 = 2
width int32 = 4
width uint32 = 4
width _ = 8

abbrev pub is_signed : IntType → Bool
is_signed uint8 = false
is_signed uint16 = false
is_signed uint32 = false
is_signed uint64 = false
is_signed uint = false
is_signed _ = true

-- The values of the type: 0 ≤ v < 256 ^ w, or -256 ^ w / 2 ≤ v < 256 ^ w / 2.
abbrev pub InRangeOf : Bool → ℕ → ℤ → Type 0
InRangeOf true half (pos n) = n < half
InRangeOf true half (negsuc n) = n < half
InRangeOf false half (pos n) = n < half * 2
InRangeOf false half (negsuc n) = ⊥

abbrev pub half_range : IntType → ℕ
half_range t = 2 ^ (width t * 8 - 1)

abbrev pub InRange : IntType → ℤ → Type 0
InRange t = InRangeOf (is_signed t) (half_range t)

abbrev pub offset_code : ℕ → ℤ → ℕ
offset_code half (pos n) = n + half
offset_code half (negsuc n) = half - 1 - n

abbrev pub wire_code : IntType → ℤ → ℕ
wire_code int8 (pos n) = n
wire_code int8 (negsuc n) = 255 - n
wire_code int16 v = offset_code (2 ^ 15) v
wire_code int32 v = offset_code (2 ^ 31) v
wire_code int64 v = offset_code (2 ^ 63) v
wire_code int v = offset_code (2 ^ 63) v
wire_code _ v = pos_part v

flip_pos : (k n : ℕ) → n < 2 ^ k → bit_xor (n % 2 ^ suc k) (2 ^ k) ≡ n + 2 ^ k
flip_pos k n h =
    let low : n % 2 ^ suc k ≡ n = mod-eq_of_lt (omega (arith, pow-suc 2 k)) in
    rw low (bit_xor-pow_set k n h)

flip_negsuc :
    (k n : ℕ) → n < 2 ^ k → bit_xor (2 ^ suc k - 1 - n % 2 ^ suc k) (2 ^ k) ≡ 2 ^ k - 1 - n
flip_negsuc k n h =
    let low : n % 2 ^ suc k ≡ n = mod-eq_of_lt (omega (arith, pow-suc 2 k)) in
    let top : 2 ^ suc k - 1 - n % 2 ^ suc k ≡ 2 ^ k - 1 - n + 2 ^ k =
      omega (arith, low, pow-suc 2 k) in
    rw top (bit_xor-pow_clear k (2 ^ k - 1 - n) (omega arith))

abbrev FlipLemmas : (k : ℕ) (n : ℕ) → Type 0
FlipLemmas k n =
    n < 2 ^ k
    → (bit_xor (n % 2 ^ suc k) (2 ^ k) ≡ n + 2 ^ k)
      × (bit_xor (2 ^ suc k - 1 - n % 2 ^ suc k) (2 ^ k) ≡ 2 ^ k - 1 - n)

flips : (k n : ℕ) → FlipLemmas k n
flips k n h = (flip_pos k n h, flip_negsuc k n h)

-- The number handed to `pack`, for a value in range.
pub wire_value-code :
    (t : IntType) (v : ℤ)
    → InRange t v
    → pack (int_serde t).unsigned_fmt (wire_value (int_serde t) v)
      ≡ ok (be_bytes (width t) (wire_code t v))
unfolding int_serde wire_value pack
wire_value-code int8 (pos n) h = ground arith
wire_value-code int8 (negsuc n) h = ground arith
wire_value-code int16 (pos n) h = ground (arith, flips 15 n h)
wire_value-code int16 (negsuc n) h = ground (arith, flips 15 n h)
wire_value-code int32 (pos n) h = ground (arith, flips 31 n h)
wire_value-code int32 (negsuc n) h = ground (arith, flips 31 n h)
wire_value-code int64 (pos n) h = ground (arith, flips 63 n h)
wire_value-code int64 (negsuc n) h = ground (arith, flips 63 n h)
wire_value-code int (pos n) h = ground (arith, flips 63 n h)
wire_value-code int (negsuc n) h = ground (arith, flips 63 n h)
wire_value-code _ (pos n) h = ground arith
wire_value-code _ (negsuc n) h = absurd h

pub wire_code-lt : (t : IntType) (v : ℤ) → InRange t v → wire_code t v < 256 ^ width t
wire_code-lt int8 (pos n) h = omega arith
wire_code-lt int8 (negsuc n) h = omega arith
wire_code-lt int16 (pos n) h = omega arith
wire_code-lt int16 (negsuc n) h = omega arith
wire_code-lt int32 (pos n) h = omega arith
wire_code-lt int32 (negsuc n) h = omega arith
wire_code-lt int64 (pos n) h = omega arith
wire_code-lt int64 (negsuc n) h = omega arith
wire_code-lt int (pos n) h = omega arith
wire_code-lt int (negsuc n) h = omega arith
wire_code-lt _ (pos n) h = omega arith
wire_code-lt _ (negsuc n) h = absurd h

-- Unflipping.
clears :
    (k n : ℕ)
    → n < 2 ^ k
    → (bit_xor (n + 2 ^ k) (2 ^ k) ≡ n) × (bit_xor (2 ^ k - 1 - n) (2 ^ k) ≡ 2 ^ k - 1 - n + 2 ^ k)
clears k n h = (bit_xor-pow_clear k n h, bit_xor-pow_set k (2 ^ k - 1 - n) (omega arith))

-- The bytes of a wire code are read back as that number.
read_code :
    (t : IntType) (v : ℤ) (rest : Bytes)
    → InRange t v
    → be_number (take (width t) (be_bytes (width t) (wire_code t v) ++ rest)) ≡ wire_code t v
read_code t v rest h =
    rw (take-append (be_bytes (width t) (wire_code t v)) rest (width t) (length-be_bytes _ _))
      (be_number-be_bytes (width t) (wire_code t v) (wire_code-lt t v h))

pub field_value-code :
    (t : IntType) (v : ℤ) (rest : Bytes)
    → InRange t v
    → field_value (int_serde t) (be_bytes (width t) (wire_code t v) ++ rest) ≡ v
unfolding int_serde field_value unpack
field_value-code int8 (pos n) rest h = ground (arith, read_code int8 (pos n) rest h)
field_value-code int8 (negsuc n) rest h = ground (arith, read_code int8 (negsuc n) rest h)
field_value-code int16 (pos n) rest h =
    ground (arith, clears 15 n h, read_code int16 (pos n) rest h)
field_value-code int16 (negsuc n) rest h =
    ground (arith, clears 15 n h, read_code int16 (negsuc n) rest h)
field_value-code int32 (pos n) rest h =
    ground (arith, clears 31 n h, read_code int32 (pos n) rest h)
field_value-code int32 (negsuc n) rest h =
    ground (arith, clears 31 n h, read_code int32 (negsuc n) rest h)
field_value-code int64 (pos n) rest h =
    ground (arith, clears 63 n h, read_code int64 (pos n) rest h)
field_value-code int64 (negsuc n) rest h =
    ground (arith, clears 63 n h, read_code int64 (negsuc n) rest h)
field_value-code int (pos n) rest h = ground (arith, clears 63 n h, read_code int (pos n) rest h)
field_value-code int (negsuc n) rest h =
    ground (arith, clears 63 n h, read_code int (negsuc n) rest h)
field_value-code t (pos n) rest h = ground (arith, read_code t (pos n) rest h)
field_value-code _ (negsuc n) rest h = absurd h
