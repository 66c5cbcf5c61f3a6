-- ===== src/Serde/Ints/RoundTrip.antt =====
-- IntSerde and RuneSerde: what is read back, for values inside and outside the range of the type.
use native.Mathlib.Nat.{mod-lt}
use pyservicelib.Base.{
  ℕ, ◌-◌, ◌*◌, ◌^◌, ◌<◌, ◌≡◌, ◌∙◌, refl, Bool, true, false, ◌++◌, arith, ltb, length, take,
  take-append, length-append, ok, err, struct_error, le→ltb,
}
use pyservicelib.Base.Int.{ℤ, pos, negsuc}
use pyservicelib.Serde.Struct.{Bytes, be_bytes, be_number, pack, from_code}
use pyservicelib.Serde.Struct.Laws.{length-be_bytes, be_number-be_bytes}
use pyservicelib.Serde.Ints.{
  IntType, int8, uint8, int16, uint16, int32, uint32, int64, int, int_serde, low_bits, wire_value,
  serialize, deserialize, rune_serialize, rune_deserialize,
}
use pyservicelib.Serde.Ints.Codes.{
  width, InRangeOf, InRange, wire_code, wire_value-code, field_value-code,
}

-- The bytes of a value in range stand behind the buffer.
pub serialize-code :
    (t : IntType) (v : ℤ) (b : Bytes)
    → InRange t v
    → serialize (int_serde t) v b ≡ ok (b ++ be_bytes (width t) (wire_code t v))
unfolding serialize
serialize-code t v b h = rw (wire_value-code t v h)

pub size-width : (t : IntType) → (int_serde t).size ≡ width t
unfolding int_serde
size-width int8 = refl
size-width uint8 = refl
size-width int16 = refl
size-width uint16 = refl
size-width int32 = refl
size-width uint32 = refl
size-width _ = refl

pub deserialize-code :
    (t : IntType) (v : ℤ) (rest : Bytes)
    → InRange t v
    → deserialize (int_serde t) (be_bytes (width t) (wire_code t v) ++ rest) ≡ ok v
unfolding deserialize
deserialize-code t v rest h =
    let bytes = be_bytes (width t) (wire_code t v) in
    let enough : ltb (length (bytes ++ rest)) (int_serde t).size ≡ false = le→ltb _ _ (
      omega (
        arith,
        size-width t,
        length-append bytes rest,
        length-be_bytes (width t) (wire_code t v),
      )) in
    rw (enough, field_value-code t v rest h)

-- For each of the ten integer types and each value in its range: serialize appends exactly the
-- size of the type, and deserialize reads the value back, whatever follows it.
pub deserialize-serialize :
    (t : IntType) (v : ℤ) (b rest : Bytes)
    → InRange t v
    → (e : Bytes) × (serialize (int_serde t) v b ≡ ok (b ++ e))
      × (length e ≡ (int_serde t).size)
      × (deserialize (int_serde t) (e ++ rest) ≡ ok v)
deserialize-serialize t v b rest h = (
  be_bytes (width t) (wire_code t v),
  serialize-code t v b h,
  rw (size-width t, length-be_bytes (width t) (wire_code t v)),
  deserialize-code t v rest h,
)

-- The signed types but int8 are stored with the sign bit flipped.
abbrev pub is_flipped : IntType → Bool
is_flipped int16 = true
is_flipped int32 = true
is_flipped int64 = true
is_flipped int = true
is_flipped _ = false

-- The types that are not flipped refuse a value out of range.
pub serialize-out_of_range :
    (t : IntType) (v : ℤ) (b : Bytes)
    → is_flipped t ≡ false
    → ¬ InRange t v
    → serialize (int_serde t) v b ≡ err struct_error
unfolding serialize wire_value int_serde pack
serialize-out_of_range int8 (pos n) b f h = ground (arith, h)
serialize-out_of_range int8 (negsuc n) b f h = ground (arith, h)
serialize-out_of_range int16 v b f h = cc
serialize-out_of_range int32 v b f h = cc
serialize-out_of_range int64 v b f h = cc
serialize-out_of_range int v b f h = cc
serialize-out_of_range _ (pos n) b f h = ground (arith, h)
serialize-out_of_range _ (negsuc n) b f h = refl

-- The value of the type that has the same low bits.
pub wrap : IntType → ℤ → ℤ
unfolding from_code
wrap t v = from_code (2 ^ (width t * 8)) (low_bits v (width t * 8))

low_bits-lt : (v : ℤ) (bits : ℕ) → 0 < 2 ^ bits → low_bits v bits < 2 ^ bits
low_bits-lt (pos n) bits h = mod-lt n h
low_bits-lt (negsuc n) bits h = omega arith

-- Two's complement keeps the low bits, and lands in the signed range.
abbrev Refit : ℕ → ℕ → Type 0
Refit bits m =
    (low_bits (from_code (2 ^ bits) m) bits ≡ m)
    × InRangeOf true (2 ^ (bits - 1)) (from_code (2 ^ bits) m)

refit16 : (m : ℕ) → m < 2 ^ 16 → Refit 16 m
unfolding from_code
refit16 m h = ground arith

refit32 : (m : ℕ) → m < 2 ^ 32 → Refit 32 m
unfolding from_code
refit32 m h = ground arith

refit64 : (m : ℕ) → m < 2 ^ 64 → Refit 64 m
unfolding from_code
refit64 m h = ground arith

-- Only the low bits of a value are stored.
serialize-low_bits :
    (t : IntType) (v : ℤ) (b : Bytes)
    → is_flipped t ≡ true
    → (serialize (int_serde t) v b ≡ serialize (int_serde t) (wrap t v) b) × InRange t (wrap t v)
unfolding serialize wire_value int_serde wrap
serialize-low_bits int16 v b f =
    let (same, fits) = refit16 (low_bits v 16) (low_bits-lt v 16 (omega arith)) in (rw same, fits)
serialize-low_bits int32 v b f =
    let (same, fits) = refit32 (low_bits v 32) (low_bits-lt v 32 (omega arith)) in (rw same, fits)
serialize-low_bits int64 v b f =
    let (same, fits) = refit64 (low_bits v 64) (low_bits-lt v 64 (omega arith)) in (rw same, fits)
serialize-low_bits int v b f =
    let (same, fits) = refit64 (low_bits v 64) (low_bits-lt v 64 (omega arith)) in (rw same, fits)
serialize-low_bits _ v b f = cc

-- The flipped types take every integer, in their range or not: serialize succeeds and appends exactly
-- the size of the type, as it does for the value of the type with the same low bits, and
-- deserialize reads that value, whatever follows it.
pub serialize-wrap :
    (t : IntType) (v : ℤ) (b rest : Bytes)
    → is_flipped t ≡ true
    → (e : Bytes) × (serialize (int_serde t) v b ≡ ok (b ++ e))
      × (serialize (int_serde t) (wrap t v) b ≡ ok (b ++ e))
      × InRange t (wrap t v)
      × (length e ≡ (int_serde t).size)
      × (deserialize (int_serde t) (e ++ rest) ≡ ok (wrap t v))
serialize-wrap t v b rest f =
    let (same, fits) = serialize-low_bits t v b f in
    let (e, stored, sized, read) = deserialize-serialize t (wrap t v) b rest fits in
    (e, same ∙ stored, stored, fits, sized, read)

rune_code :
    (v : ℤ) (rest : Bytes)
    → InRange int32 v
    → be_number (take 4 (be_bytes 4 (low_bits v 32) ++ rest)) ≡ low_bits v 32
rune_code v rest h =
    rw (take-append (be_bytes 4 (low_bits v 32)) rest 4 (length-be_bytes _ _))
      (be_number-be_bytes 4 (low_bits v 32) (low_bits-lt v 32 (omega arith)))

pub rune_serialize-code :
    (v : ℤ) (b : Bytes)
    → InRange int32 v
    → rune_serialize v b ≡ ok (b ++ be_bytes 4 (low_bits v 32))
unfolding rune_serialize pack
rune_serialize-code (pos n) b h = ground arith
rune_serialize-code (negsuc n) b h = ground arith

pub rune_deserialize-code :
    (v : ℤ) (rest : Bytes)
    → InRange int32 v
    → rune_deserialize (be_bytes 4 (low_bits v 32) ++ rest) ≡ ok v
unfolding rune_deserialize
rune_deserialize-code (pos n) rest h = ground (
  arith,
  rune_code (pos n) rest h,
  length-append (be_bytes 4 (low_bits (pos n) 32)) rest,
  length-be_bytes 4 (low_bits (pos n) 32),
)
rune_deserialize-code (negsuc n) rest h = ground (
  arith,
  rune_code (negsuc n) rest h,
  length-append (be_bytes 4 (low_bits (negsuc n) 32)) rest,
  length-be_bytes 4 (low_bits (negsuc n) 32),
)

-- RuneSerde reads back every value of an int32.
pub rune_deserialize-rune_serialize :
    (v : ℤ) (b rest : Bytes)
    → InRange int32 v
    → (e : Bytes) × (rune_serialize v b ≡ ok (b ++ e))
      × (length e ≡ 4)
      × (rune_deserialize (e ++ rest) ≡ ok v)
rune_deserialize-rune_serialize v b rest h = (
  be_bytes 4 (low_bits v 32),
  rune_serialize-code v b h,
  length-be_bytes 4 _,
  rune_deserialize-code v rest h,
)
