-- ===== src/Serde/Scalars.antt =====
-- runtime/serde/serde.py: BytesSerde, FloatSerde, BoolSerde and StringSerde.
pub mod Laws
use Prim.Native.String.{String}
use text.Mathlib.Text.{◌==◌ as str_eq}
use pyservicelib.Base.{
  ℕ, ◌≡◌, Bool, true, false, not, List, [], ◌∷◌, ◌++◌, ltb, ◌==◌, if◌then◌else◌, length, take,
  get_elem?, Option, none, some, Result, ok, err, value_error, index_error, ◌>>=◌,
}
use pyservicelib.Serde.Struct.{Bytes, get_size}
use pyservicelib.Serde.Framing.{append_size, read_sized}
use pyservicelib.Serde.Utf8.{encode, decode}

pub bytes_serialize : Bytes → Bytes → Result Bytes
bytes_serialize obj b = do b' ← append_size b (length obj); ok (b' ++ obj)

pub bytes_deserialize : Bytes → Result Bytes
bytes_deserialize bytes = do (value, rest) ← read_sized bytes; ok value

-- A text is the list of its code points.
unfoldable pub string_serialize : List ℕ → Bytes → Result Bytes
string_serialize obj b = do
  encoded_value ← encode obj
  b' ← append_size b (length encoded_value)
  ok (b' ++ encoded_value)

pub string_deserialize : Bytes → Result (List ℕ)
string_deserialize bytes = do (value, rest) ← read_sized bytes; decode value

pub bool_serialize : Bool → Bytes → Result Bytes
bool_serialize obj b = ok (b ++ ((if obj then 1 else 0) ∷ []))

-- `data[0] != 0`
pub first_byte_set : Bytes → Result Bool
first_byte_set [] = err index_error
first_byte_set (x ∷ xs) = ok (not (x == 0))

pub bool_deserialize : Bytes → Result Bool
unfolding first_byte_set
bool_deserialize bytes = if ltb (length bytes) 1 then err value_error else first_byte_set bytes

-- Floating point numbers, and what `struct` documents of the formats `f` (four bytes) and `d`
-- (eight): a number that the format holds exactly is packed in so many bytes, and unpacked from
-- them.
pub record Floats : Type 1 where
  pub Float : Type 0
  pub pack_float : ℕ → Float → Result Bytes
  pub unpack_float : ℕ → Bytes → Float
  pub IsExact : ℕ → Float → Type 0
  pub code : ℕ → Float → Bytes
  pub pack_exact : (w : ℕ) (x : Float) → IsExact w x → pack_float w x ≡ ok (code w x)
  pub code_width : (w : ℕ) (x : Float) → IsExact w x → length (code w x) ≡ w
  pub unpack_exact : (w : ℕ) (x : Float) → IsExact w x → unpack_float w (code w x) ≡ x

pub data FloatType : Type 0 where
  float32 float64 : FloatType

abbrev pub float_size : FloatType → ℕ
float_size float32 = 4
float_size float64 = 8

-- The type names that FloatSerde accepts.
unfoldable pub float_type : String → Result FloatType
float_type name =
    if str_eq name "float32"
    then ok float32
    else if str_eq name "float64"
    then ok float64
    else err value_error

module _ (fl : Floats) where
  open fl use {Float, pack_float, unpack_float}

  pub float_serialize : FloatType → Float → Bytes → Result Bytes
  float_serialize t obj b = do bytes ← pack_float (float_size t) obj; ok (b ++ bytes)

  pub float_deserialize : FloatType → Bytes → Result Float
  float_deserialize t bytes =
      if ltb (length bytes) (float_size t)
      then err value_error
      else ok (unpack_float (float_size t) (take (float_size t) bytes))
