-- ===== src/Serde/Objects/Types.antt =====
-- What serialize_obj does with a value of a wrong type.
use pyservicelib.Base.{
  ◌≡◌, Bool, true, false, arith, err, Error, value_error, not_implemented_error,
}
use pyservicelib.Serde.Struct.{Bytes}
use pyservicelib.Serde.Scalars.{Floats}
use pyservicelib.Serde.Values.{
  Value, null, bool, int, float, str, bytes, list, tuple, dict, Dynamic,
}
use pyservicelib.Serde.Objects.{
  Serializer, stub_serde, bytes_serde, bool_serde, string_serde, rune_serde, bool_list_serde,
  string_list_serde, int_serde, int_list_serde, float_serde, float_list_serde, list_serde,
  tuple_serde, dict_serde, serialize_obj,
}
use pyservicelib.Serde.Wrappers.{
  int_serialize_obj, rune_serialize_obj, float_serialize_obj, bool_serialize_obj,
  string_serialize_obj, bytes_serialize_obj, int_list_serialize_obj, string_list_serialize_obj,
  float_list_serialize_obj, bool_list_serialize_obj, list_serialize_obj, tuple_serialize_obj,
  dict_serialize_obj,
}

-- The types of Python's values.
pub data PythonType : Type 0 where
  none_type bool_type int_type float_type str_type bytes_type list_type tuple_type dict_type :
      PythonType

abbrev pub type_of : {F : Type 0} → Value F → PythonType
type_of null = none_type
type_of (bool v) = bool_type
type_of (int v) = int_type
type_of (float v) = float_type
type_of (str v) = str_type
type_of (bytes v) = bytes_type
type_of (list v) = list_type
type_of (tuple v) = tuple_type
type_of (dict v) = dict_type

-- The type of the outermost value that each serializer takes; a bool is an int.
abbrev pub accepts : Serializer → PythonType → Bool
accepts bytes_serde bytes_type = true
accepts bool_serde bool_type = true
accepts string_serde str_type = true
accepts rune_serde int_type = true
accepts rune_serde bool_type = true
accepts (int_serde t) int_type = true
accepts (int_serde t) bool_type = true
accepts (float_serde t) float_type = true
accepts bool_list_serde list_type = true
accepts string_list_serde list_type = true
accepts (int_list_serde t) list_type = true
accepts (float_list_serde t) list_type = true
accepts (list_serde s) list_type = true
accepts (tuple_serde s) tuple_type = true
accepts (dict_serde ks vs) dict_type = true
accepts _ _ = false

abbrev pub refusal : Serializer → Error
refusal (stub_serde name) = not_implemented_error
refusal _ = value_error

-- Each serializer refuses a value whose outermost type is not its own with `ValueError`, a stub
-- every value with `NotImplementedError`.
pub serialize_obj-refusal :
    (fl : Floats) (dyn : Dynamic fl.Float) (s : Serializer) (v : Value fl.Float) (b : Bytes)
    → accepts s (type_of v) ≡ false
    → serialize_obj fl dyn s v b ≡ err (refusal s)
unfolding serialize_obj int_serialize_obj rune_serialize_obj float_serialize_obj bool_serialize_obj
    string_serialize_obj bytes_serialize_obj int_list_serialize_obj string_list_serialize_obj
    float_list_serialize_obj bool_list_serialize_obj list_serialize_obj tuple_serialize_obj
    dict_serialize_obj
serialize_obj-refusal fl dyn s v b h = ground arith
