-- ===== src/Serde/Objects.antt =====
-- runtime/serde/serde.py: the serializers as the runtime handles them, by `serialize_obj` and
-- `deserialize_obj` on values of any type, and make_default_serde.
pub mod Fits
mod Dicts
pub mod Parts
mod Lists
pub mod RoundTrip
pub mod Types
use Prim.Native.String.{String}
use text.Mathlib.Text.{◌==◌ as str_eq}
use pyservicelib.Base.{
  ℕ, Bool, true, false, ◌||◌, List, [], ◌∷◌, ◌++◌, map, drop, length, if◌then◌else◌, Option, none,
  some, Result, ok, err, value_error, struct_error, type_error, attribute_error,
  not_implemented_error, ◌==◌, ◌>>=◌,
}
use pyservicelib.Base.Int.{ℤ}
use pyservicelib.Serde.Struct.{Bytes, get_size}
use pyservicelib.Serde.Framing.{append_size, framed, read_sized}
use pyservicelib.Serde.Sequences.{write_all, read_all}
use pyservicelib.Serde.Ints.{
  IntType, int_type, int_serde as int_formats, serialize, deserialize, rune_serialize,
  rune_deserialize,
}
use pyservicelib.Serde.Scalars.{
  bytes_serialize, bytes_deserialize, string_serialize, string_deserialize, bool_serialize,
  bool_deserialize, Floats, FloatType, float_type, float_serialize, float_deserialize,
}
use pyservicelib.Serde.Arrays.{
  int_list_type, float_list_type, int_list_serialize, int_list_deserialize, float_list_serialize,
  float_list_deserialize, bool_list_serialize, bool_list_deserialize, string_list_serialize,
  string_list_deserialize,
}
use pyservicelib.Serde.Values.{
  Value, null, bool, int, float, str, bytes, list, tuple, dict, Items, Dynamic, elements, items,
  pairs, entries, of_bool, each, as_int, as_float, iterate, truth, dict_zip,
}
use pyservicelib.Serde.Wrappers.{
  int_serialize_obj, rune_serialize_obj, float_serialize_obj, bool_serialize_obj,
  string_serialize_obj, bytes_serialize_obj, int_list_serialize_obj, as_text,
  string_list_serialize_obj, float_list_serialize_obj, bool_list_serialize_obj, elements_serialize,
  list_serialize_obj, tuple_serialize_obj, dict_serialize_obj, elements_deserialize,
  list_deserialize_obj, tuple_deserialize_obj, dict_deserialize_obj,
}

-- The subclasses of Serde, with what their constructors keep.
pub data Serializer : Type 0 where
  stub_serde : String → Serializer
  bytes_serde bool_serde string_serde rune_serde bool_list_serde string_list_serde : Serializer
  int_serde int_list_serde : IntType → Serializer
  float_serde float_list_serde : FloatType → Serializer
  list_serde tuple_serde : Serializer → Serializer
  dict_serde : Serializer → Serializer → Serializer

abbrev pub is_stub : Serializer → Bool
is_stub (stub_serde name) = true
is_stub (list_serde s) = is_stub s
is_stub (tuple_serde s) = is_stub s
is_stub (dict_serde ks vs) = is_stub vs || is_stub ks
is_stub _ = false

abbrev default_of {ℓ} :
    {A : Type ℓ} → (A → Serializer) → Result A → Option Serializer → Option Serializer
default_of make (ok t) other = some (make t)
default_of make (err e) other = other

-- The names of each branch are those that the class accepts.
abbrev pub make_default_serde : String → Option Serializer
unfolding int_type float_type int_list_type float_list_type
make_default_serde name = default_of int_serde (int_type name) (
    default_of float_serde (float_type name) (
      if str_eq name "bool"
      then some bool_serde
      else if str_eq name "str"
      then some string_serde
      else if str_eq name "rune"
      then some rune_serde
      else if str_eq name "bytes"
      then some bytes_serde
      else default_of int_list_serde (int_list_type name) (
          default_of float_list_serde (float_list_type name) (
            if str_eq name "[]bool"
            then some bool_list_serde
            else if str_eq name "[]str"
            then some string_list_serde
            else none))))

module _ (fl : Floats) where
  open fl use {Float}

  module _ (dyn : Dynamic Float) where
    pub serialize_obj : Serializer → Value Float → Bytes → Result Bytes
    serialize_obj (stub_serde name) v b = err not_implemented_error
    serialize_obj bytes_serde v b = bytes_serialize_obj fl v b
    serialize_obj bool_serde v b = bool_serialize_obj fl v b
    serialize_obj string_serde v b = string_serialize_obj fl v b
    serialize_obj rune_serde v b = rune_serialize_obj fl v b
    serialize_obj bool_list_serde v b = bool_list_serialize_obj fl dyn v b
    serialize_obj string_list_serde v b = string_list_serialize_obj fl v b
    serialize_obj (int_serde t) v b = int_serialize_obj fl t v b
    serialize_obj (int_list_serde t) v b = int_list_serialize_obj fl t v b
    serialize_obj (float_serde t) v b = float_serialize_obj fl t v b
    serialize_obj (float_list_serde t) v b = float_list_serialize_obj fl dyn t v b
    serialize_obj (list_serde s) v b = list_serialize_obj fl (serialize_obj s) v b
    serialize_obj (tuple_serde s) v b = tuple_serialize_obj fl (serialize_obj s) v b
    serialize_obj (dict_serde ks vs) v b =
        dict_serialize_obj fl (serialize_obj ks) (serialize_obj vs) v b

    pub deserialize_obj : Serializer → Bytes → Result (Value Float)
    deserialize_obj (stub_serde name) buf = err not_implemented_error
    deserialize_obj bytes_serde buf = do v ← bytes_deserialize buf; ok (bytes v)
    deserialize_obj bool_serde buf = do v ← bool_deserialize buf; ok (bool v)
    deserialize_obj string_serde buf = do v ← string_deserialize buf; ok (str v)
    deserialize_obj rune_serde buf = do v ← rune_deserialize buf; ok (int v)
    deserialize_obj bool_list_serde buf = do
      vs ← bool_list_deserialize buf
      ok (list (items (map bool vs)))
    deserialize_obj string_list_serde buf = do
      vs ← string_list_deserialize buf
      ok (list (items (map str vs)))
    deserialize_obj (int_serde t) buf = do v ← deserialize (int_formats t) buf; ok (int v)
    deserialize_obj (int_list_serde t) buf = do
      vs ← int_list_deserialize (int_formats t) buf
      ok (list (items (map int vs)))
    deserialize_obj (float_serde t) buf = do v ← float_deserialize fl t buf; ok (float v)
    deserialize_obj (float_list_serde t) buf = do
      vs ← float_list_deserialize fl t buf
      ok (list (items (map float vs)))
    deserialize_obj (list_serde s) buf = list_deserialize_obj fl (deserialize_obj s) buf
    deserialize_obj (tuple_serde s) buf = tuple_deserialize_obj fl (deserialize_obj s) buf
    deserialize_obj (dict_serde ks vs) buf =
        dict_deserialize_obj fl dyn (deserialize_obj ks) (deserialize_obj vs) buf
