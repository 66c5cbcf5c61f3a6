-- ===== src/Serde/Arrays.antt =====
-- runtime/serde/serde.py: IntListSerde, FloatListSerde, BoolListSerde and StringListSerde.
mod Elements
pub mod Laws
use Prim.Native.Nat.{bit_xor}
use Prim.Native.String.{String}
use text.Mathlib.Text.{◌==◌ as str_eq}
use pyservicelib.Base.{
  ℕ, ◌+◌, ◌-◌, ◌*◌, ◌^◌, Bool, true, false, not, List, [], ◌∷◌, ◌++◌, ltb, ◌==◌, if◌then◌else◌,
  length, take, drop, replicate, map, Result, ok, err, value_error, ◌>>=◌,
}
use pyservicelib.Base.Int.{ℤ, pos, sub_ℕ}
use pyservicelib.Serde.Struct.{Bytes, pack, unpack, be_number, get_size}
use pyservicelib.Serde.Framing.{append_size}
use pyservicelib.Serde.Sequences.{pack_many, unpack_many, write_all, read_all}
use pyservicelib.Serde.Ints.{
  IntType, int8, uint8, int16, uint16, int32, uint32, int64, uint64, int, uint, IntSerde, low_bits,
}
use pyservicelib.Serde.Utf8.{decode}
use pyservicelib.Serde.Scalars.{
  string_serialize, first_byte_set, Floats, FloatType, float32, float64, float_size,
}

-- The type names that IntListSerde and FloatListSerde accept. The formats, sizes and masks are
-- those of the element types.
unfoldable pub int_list_type : String → Result IntType
int_list_type name =
    if str_eq name "[]int8"
    then ok int8
    else if str_eq name "[]uint8"
    then ok uint8
    else if str_eq name "[]int16"
    then ok int16
    else if str_eq name "[]uint16"
    then ok uint16
    else if str_eq name "[]int32"
    then ok int32
    else if str_eq name "[]uint32"
    then ok uint32
    else if str_eq name "[]int64"
    then ok int64
    else if str_eq name "[]uint64"
    then ok uint64
    else if str_eq name "[]int"
    then ok int
    else if str_eq name "[]uint"
    then ok uint
    else err value_error

unfoldable pub float_list_type : String → Result FloatType
float_list_type name =
    if str_eq name "[]float32"
    then ok float32
    else if str_eq name "[]float64"
    then ok float64
    else err value_error

-- One number of the generator: `(v & mask) ^ xor_mask`.
pub flipped_element : IntSerde → ℤ → ℤ
flipped_element s v = pos (bit_xor (low_bits v (s.size * 8)) s.xor_mask)

pub int_list_serialize : IntSerde → List ℤ → Bytes → Result Bytes
unfolding flipped_element
int_list_serialize s obj b = do
  b' ← append_size b (length obj)
  bytes ←
      if s.xor_mask == 0
      then pack_many (pack s.unsigned_fmt) obj
      else pack_many (λ v. pack s.unsigned_fmt (flipped_element s v)) obj
  ok (b' ++ bytes)

-- One number of a list with a mask: `v ^ xor_mask`, and `v if v < half else v - full`.
pub unflipped_element : IntSerde → Bytes → ℤ
unflipped_element s bytes =
    let v = bit_xor (be_number bytes) s.xor_mask in
    if ltb v (2 ^ (s.size * 8 - 1)) then pos v else sub_ℕ v (2 ^ (s.size * 8))

pub int_list_deserialize : IntSerde → Bytes → Result (List ℤ)
unfolding unflipped_element
int_list_deserialize s bytes = do
  (count, n) ← get_size bytes 0
  if ltb (length bytes) (count * s.size + n)
      then err value_error
      else if s.xor_mask == 0
      then ok (unpack_many s.size (unpack s.signed_fmt) count (drop n bytes))
      else ok (unpack_many s.size (unflipped_element s) count (drop n bytes))

module _ (fl : Floats) where
  open fl use {Float, pack_float, unpack_float}

  pub float_list_serialize : FloatType → List Float → Bytes → Result Bytes
  float_list_serialize t obj b = do
    b' ← append_size b (length obj)
    bytes ← pack_many (pack_float (float_size t)) obj
    ok (b' ++ bytes)

  pub float_list_deserialize : FloatType → Bytes → Result (List Float)
  float_list_deserialize t bytes = do
    (count, n) ← get_size bytes 0
    if ltb (length bytes) (count * float_size t + n)
        then err value_error
        else ok (unpack_many (float_size t) (unpack_float (float_size t)) count (drop n bytes))

-- The format `?`: one byte, 0 or 1; every byte but 0 is read as true.
pub pack_bool : Bool → Result Bytes
pack_bool v = ok ((if v then 1 else 0) ∷ [])

pub unpack_bool : Bytes → Bool
unpack_bool [] = false
unpack_bool (x ∷ xs) = not (x == 0)

-- `b.extend(bytearray(count)); struct.pack_into(f'>{count}?', b, n, *obj)`
pub bool_list_serialize : List Bool → Bytes → Result Bytes
bool_list_serialize obj b = do
  b' ← append_size b (length obj)
  let n = length b'
  let room = b' ++ replicate (length obj) 0
  bytes ← pack_many pack_bool obj
  ok (take n room ++ (bytes ++ drop (n + length bytes) room))

pub bool_list_deserialize : Bytes → Result (List Bool)
bool_list_deserialize bytes = do
  (count, n) ← get_size bytes 0
  if ltb (length bytes) (count + n)
      then err value_error
      else ok (unpack_many 1 unpack_bool count (drop n bytes))

-- Each text is written as StringSerde writes it.
unfoldable pub string_list_serialize : List (List ℕ) → Bytes → Result Bytes
string_list_serialize obj b = do b' ← append_size b (length obj); write_all string_serialize obj b'

pub string_list_deserialize : Bytes → Result (List (List ℕ))
string_list_deserialize bytes = do
  (count, n) ← get_size bytes 0
  read_all decode count (drop n bytes)
