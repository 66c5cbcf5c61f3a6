-- ===== src/Serde/Ints.antt =====
-- runtime/serde/serde.py: IntSerde for the ten integer types, and RuneSerde.
pub mod Codes
pub mod RoundTrip
pub mod Order
use Prim.Native.Nat.{bit_xor}
use Prim.Native.String.{String}
use text.Mathlib.Text.{◌==◌ as str_eq}
use pyservicelib.Base.{
  ℕ, zero, suc, ◌+◌, ◌-◌, ◌*◌, ◌%◌, ◌^◌, Bool, true, false, List, [], ◌∷◌, ◌++◌, ltb, leb, ◌==◌,
  if◌then◌else◌, length, take, Result, ok, err, value_error, ◌>>=◌,
}
use pyservicelib.Base.Int.{ℤ, pos, negsuc, sub_ℕ}
use pyservicelib.Serde.Struct.{Bytes, be_bytes, be_number, Fmt, pack, unpack, from_code}

pub data IntType : Type 0 where
  int8 uint8 int16 uint16 int32 uint32 int64 uint64 int uint : IntType

-- The type names that IntSerde accepts.
unfoldable pub int_type : String → Result IntType
int_type name =
    if str_eq name "int8"
    then ok int8
    else if str_eq name "uint8"
    then ok uint8
    else if str_eq name "int16"
    then ok int16
    else if str_eq name "uint16"
    then ok uint16
    else if str_eq name "int32"
    then ok int32
    else if str_eq name "uint32"
    then ok uint32
    else if str_eq name "int64"
    then ok int64
    else if str_eq name "uint64"
    then ok uint64
    else if str_eq name "int"
    then ok int
    else if str_eq name "uint"
    then ok uint
    else err value_error

pub record IntSerde : Type 0 where
  pub unsigned_fmt : Fmt
  pub signed_fmt : Fmt
  pub size : ℕ
  pub xor_mask : ℕ

abbrev pub signed_bytes : ℕ → Fmt
signed_bytes w = record { width = w; signed = true }

abbrev pub unsigned_bytes : ℕ → Fmt
unsigned_bytes w = record { width = w; signed = false }

-- `flipped` for the branches with a mask, `plain` for the unsigned ones.
abbrev flipped : ℕ → ℕ → IntSerde
flipped w mask = record {
  unsigned_fmt = unsigned_bytes w;
  signed_fmt = signed_bytes w;
  size = w;
  xor_mask = mask;
}

abbrev plain : ℕ → IntSerde
plain w = record {
  unsigned_fmt = unsigned_bytes w;
  signed_fmt = unsigned_bytes w;
  size = w;
  xor_mask = 0;
}

unfoldable pub int_serde : IntType → IntSerde
int_serde int8 = record {
  unsigned_fmt = signed_bytes 1;
  signed_fmt = signed_bytes 1;
  size = 1;
  xor_mask = 0;
}
int_serde uint8 = plain 1
int_serde int16 = flipped 2 0x8000
int_serde uint16 = plain 2
int_serde int32 = flipped 4 0x80000000
int_serde uint32 = plain 4
int_serde int64 = flipped 8 0x8000000000000000
int_serde uint64 = plain 8
int_serde int = flipped 8 0x8000000000000000
int_serde uint = plain 8

-- `v & ((1 << bits) - 1)`.
abbrev pub low_bits : ℤ → ℕ → ℕ
low_bits (pos n) bits = n % 2 ^ bits
low_bits (negsuc n) bits = 2 ^ bits - 1 - n % 2 ^ bits

-- The number that is handed to `struct.pack`.
unfoldable pub wire_value : IntSerde → ℤ → ℤ
wire_value s v = if s.xor_mask == 0 then v else pos (bit_xor (low_bits v (s.size * 8)) s.xor_mask)

unfoldable pub serialize : IntSerde → ℤ → Bytes → Result Bytes
unfolding wire_value
serialize s v b = do bytes ← pack s.unsigned_fmt (wire_value s v); ok (b ++ bytes)

-- What is read from one field: `raw` unflipped, with the sign taken back.
unfoldable pub field_value : IntSerde → Bytes → ℤ
field_value s bytes =
    let raw = bit_xor (be_number (take s.size bytes)) s.xor_mask in
    if s.xor_mask == 0
    then unpack s.signed_fmt bytes
    else if leb (2 ^ (s.size * 8 - 1)) raw
    then sub_ℕ raw (2 ^ (s.size * 8))
    else pos raw

unfoldable pub deserialize : IntSerde → Bytes → Result ℤ
unfolding field_value
deserialize s bytes =
    if ltb (length bytes) s.size then err value_error else ok (field_value s bytes)

-- RuneSerde: four bytes, not flipped, read back as an int32.
pub rune_serialize : ℤ → Bytes → Result Bytes
rune_serialize v b = do bytes ← pack (unsigned_bytes 4) (pos (low_bits v 32)); ok (b ++ bytes)

pub rune_deserialize : Bytes → Result ℤ
rune_deserialize bytes =
    let raw = be_number (take 4 bytes) in
    if ltb (length bytes) 4
    then err value_error
    else if ltb raw 0x80000000
    then ok (pos raw)
    else ok (sub_ℕ raw 0x100000000)
