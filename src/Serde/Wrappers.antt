-- ===== src/Serde/Wrappers.antt =====
-- runtime/serde/serde.py: `serialize_obj` of each class, the test of the value's type included, and
-- `deserialize_obj` of the classes that hold other serializers.
use pyservicelib.Base.{
  ℕ, List, [], map, drop, length, if◌then◌else◌, Result, ok, err, value_error, struct_error,
  type_error, attribute_error, ◌==◌, ◌>>=◌,
}
use pyservicelib.Serde.Struct.{Bytes, get_size}
use pyservicelib.Serde.Framing.{append_size, framed, read_sized}
use pyservicelib.Serde.Sequences.{write_all, read_all}
use pyservicelib.Serde.Ints.{IntType, int_serde as int_formats, serialize, rune_serialize}
use pyservicelib.Serde.Scalars.{
  bytes_serialize, string_serialize, bool_serialize, Floats, FloatType, float_serialize,
}
use pyservicelib.Serde.Arrays.{int_list_serialize, float_list_serialize, bool_list_serialize}
use pyservicelib.Serde.Values.{
  Value, bool, int, float, str, bytes, list, tuple, dict, Dynamic, elements, items, pairs, entries,
  of_bool, each, as_int, as_float, iterate, truth, dict_zip,
}

module _ (fl : Floats) where
  open fl use {Float}

  unfoldable pub int_serialize_obj : IntType → Value Float → Bytes → Result Bytes
  int_serialize_obj t (int v) b = serialize (int_formats t) v b
  int_serialize_obj t (bool v) b = serialize (int_formats t) (of_bool v) b
  int_serialize_obj t _ b = err value_error

  unfoldable pub rune_serialize_obj : Value Float → Bytes → Result Bytes
  rune_serialize_obj (int v) b = rune_serialize v b
  rune_serialize_obj (bool v) b = rune_serialize (of_bool v) b
  rune_serialize_obj _ b = err value_error

  unfoldable pub float_serialize_obj : FloatType → Value Float → Bytes → Result Bytes
  float_serialize_obj t (float v) b = float_serialize fl t v b
  float_serialize_obj t _ b = err value_error

  unfoldable pub bool_serialize_obj : Value Float → Bytes → Result Bytes
  bool_serialize_obj (bool v) b = bool_serialize v b
  bool_serialize_obj _ b = err value_error

  unfoldable pub string_serialize_obj : Value Float → Bytes → Result Bytes
  string_serialize_obj (str v) b = string_serialize v b
  string_serialize_obj _ b = err value_error

  unfoldable pub bytes_serialize_obj : Value Float → Bytes → Result Bytes
  bytes_serialize_obj (bytes v) b = bytes_serialize v b
  bytes_serialize_obj _ b = err value_error

  -- Only the list is tested, not its elements. With a mask they meet `&`, which raises TypeError
  -- before anything is packed, and without one `struct`.
  unfoldable pub int_list_serialize_obj : IntType → Value Float → Bytes → Result Bytes
  int_list_serialize_obj t (list xs) b = do
    header ← append_size b (length (elements xs))
    vs ←
        each (as_int (if (int_formats t).xor_mask == 0 then struct_error else type_error))
          (elements xs)
    int_list_serialize (int_formats t) vs b
  int_list_serialize_obj t _ b = err value_error

  abbrev pub as_text : Value Float → Result (List ℕ)
  as_text (str s) = ok s
  as_text _ = err attribute_error

  -- `v.encode('utf-8')` of each element in turn.
  unfoldable pub string_list_serialize_obj : Value Float → Bytes → Result Bytes
  string_list_serialize_obj (list xs) b = do
    b' ← append_size b (length (elements xs))
    write_all (λ x c. do s ← as_text x; string_serialize s c) (elements xs) b'
  string_list_serialize_obj _ b = err value_error

  module _ (dyn : Dynamic Float) where
    unfoldable pub float_list_serialize_obj : FloatType → Value Float → Bytes → Result Bytes
    float_list_serialize_obj t (list xs) b = do
      header ← append_size b (length (elements xs))
      vs ← each (as_float dyn struct_error) (elements xs)
      float_list_serialize fl t vs b
    float_list_serialize_obj t _ b = err value_error

    -- The format `?` takes the truth value of anything.
    unfoldable pub bool_list_serialize_obj : Value Float → Bytes → Result Bytes
    bool_list_serialize_obj (list xs) b = bool_list_serialize (map (truth dyn) (elements xs)) b
    bool_list_serialize_obj _ b = err value_error

  module _ (write_value : Value Float → Bytes → Result Bytes) where
    unfoldable pub elements_serialize : List (Value Float) → Bytes → Result Bytes
    elements_serialize xs b = do
      b' ← append_size b (length xs)
      write_all (λ x. framed (write_value x)) xs b'

    unfoldable pub list_serialize_obj : Value Float → Bytes → Result Bytes
    unfolding elements_serialize
    list_serialize_obj (list xs) b = elements_serialize (elements xs) b
    list_serialize_obj _ b = err value_error

    unfoldable pub tuple_serialize_obj : Value Float → Bytes → Result Bytes
    unfolding elements_serialize
    tuple_serialize_obj (tuple xs) b = elements_serialize (elements xs) b
    tuple_serialize_obj _ b = err value_error

  unfoldable pub dict_serialize_obj :
      (write_keys write_values : Value Float → Bytes → Result Bytes)
      → Value Float
      → Bytes
      → Result Bytes
  dict_serialize_obj write_keys write_values (dict m) b = do
    b' ← framed (write_keys (list (items (map (λ e. e.0) (pairs m))))) b
    framed (write_values (list (items (map (λ e. e.1) (pairs m))))) b'
  dict_serialize_obj write_keys write_values _ b = err value_error

  unfoldable pub elements_deserialize :
      (Bytes → Result (Value Float)) → Bytes → Result (List (Value Float))
  elements_deserialize read_value buf = do
    (count, n) ← get_size buf 0
    read_all read_value count (drop n buf)

  unfoldable pub list_deserialize_obj :
      (Bytes → Result (Value Float)) → Bytes → Result (Value Float)
  unfolding elements_deserialize
  list_deserialize_obj read_value buf = do
    xs ← elements_deserialize read_value buf
    ok (list (items xs))

  unfoldable pub tuple_deserialize_obj :
      (Bytes → Result (Value Float)) → Bytes → Result (Value Float)
  unfolding elements_deserialize
  tuple_deserialize_obj read_value buf = do
    xs ← elements_deserialize read_value buf
    ok (tuple (items xs))

  unfoldable pub dict_deserialize_obj :
      Dynamic Float
      → (read_keys read_values : Bytes → Result (Value Float)) → Bytes
      → Result (Value Float)
  dict_deserialize_obj dyn read_keys read_values buf = do
    (keys_data, rest) ← read_sized buf
    keys ← read_keys keys_data
    (values_data, after) ← read_sized rest
    values ← read_values values_data
    ks ← iterate keys
    vs ← iterate values
    m ← dict_zip dyn [] ks vs
    ok (dict (entries m))
