-- ===== src/Serde/Objects/RoundTrip.antt =====
-- Every serializer reads back what it wrote, to any depth of nesting.
use pyservicelib.Base.{◌^◌, ◌<◌, ◌≡◌, refl, List, ◌++◌, length, All, All-map, ok}
use pyservicelib.Serde.Struct.{Bytes}
use pyservicelib.Serde.Framing.{framed}
use pyservicelib.Serde.Sequences.Laws.{Frames}
use pyservicelib.Serde.Scalars.{Floats}
use pyservicelib.Serde.Scalars.Laws.{bytes-Codes, string-Codes, bool-Codes, float-Codes}
use pyservicelib.Serde.Values.{
  Value, bool, int, float, str, bytes, list, tuple, dict, Dynamic, elements,
}
use pyservicelib.Serde.Objects.{
  Serializer, stub_serde, bytes_serde, bool_serde, string_serde, rune_serde, bool_list_serde,
  string_list_serde, int_serde, int_list_serde, float_serde, float_list_serde, list_serde,
  tuple_serde, dict_serde, serialize_obj, deserialize_obj,
}
use pyservicelib.Serde.Wrappers.{
  bytes_serialize_obj, bool_serialize_obj, string_serialize_obj, rune_serialize_obj,
  int_serialize_obj, float_serialize_obj, list_serialize_obj, list_deserialize_obj,
  tuple_serialize_obj, tuple_deserialize_obj,
}
use pyservicelib.Serde.Objects.Fits.{FitsIn, encoded_size}
use pyservicelib.Serde.Objects.Dicts.{dict-Codes}
use pyservicelib.Serde.Objects.Parts.{
  int-Codes, rune-Codes, wrapped-Codes, framed-Frames, elements-Codes, collection-Codes,
}
use pyservicelib.Serde.Objects.Lists.{
  ObjectCodes, int_list-obj, float_list-obj, bool_list-obj, string_list-obj,
}

module _ (fl : Floats) (dyn : Dynamic fl.Float) where
  open fl use {Float}

  element-Frames :
      (s : Serializer)
      → ((x : Value Float) → FitsIn fl dyn s x → ObjectCodes fl dyn s x)
      → (xs : List (Value Float)) → All (λ x. FitsIn fl dyn s x × (encoded_size s x < 2 ^ 64)) xs
      → All
          (Frames
            (λ x. framed (serialize_obj fl dyn s x))
            (deserialize_obj fl dyn s)
            (encoded_size s))
          xs
  element-Frames s codes = All-map (λ x (f, small). framed-Frames _ _ _ x (codes x f) small)

  -- Every value that fits is written as so many bytes, and read back whatever follows it.
  object-Codes : (s : Serializer) (v : Value Float) → FitsIn fl dyn s v → ObjectCodes fl dyn s v
  unfolding serialize_obj deserialize_obj bytes_serialize_obj bool_serialize_obj
      string_serialize_obj rune_serialize_obj int_serialize_obj float_serialize_obj
      list_serialize_obj list_deserialize_obj tuple_serialize_obj tuple_deserialize_obj
  object-Codes bytes_serde (bytes v) h =
      wrapped-Codes bytes _ _ (λ b. refl) (λ buf. refl) (bytes-Codes v h)
  object-Codes bytes_serde _ h = absurd h
  object-Codes bool_serde (bool v) h =
      wrapped-Codes bool _ _ (λ b. refl) (λ buf. refl) (bool-Codes v)
  object-Codes bool_serde _ h = absurd h
  object-Codes string_serde (str v) h =
      wrapped-Codes str _ _ (λ b. refl) (λ buf. refl) (string-Codes v h.0 h.1)
  object-Codes string_serde _ h = absurd h
  object-Codes rune_serde (int v) h =
      wrapped-Codes int _ _ (λ b. refl) (λ buf. refl) (rune-Codes v h)
  object-Codes rune_serde _ h = absurd h
  object-Codes (int_serde t) (int v) h =
      wrapped-Codes int _ _ (λ b. refl) (λ buf. refl) (int-Codes t v h)
  object-Codes (int_serde t) _ h = absurd h
  object-Codes (float_serde t) (float v) h =
      wrapped-Codes float _ _ (λ b. refl) (λ buf. refl) (float-Codes fl t v h)
  object-Codes (float_serde t) _ h = absurd h
  object-Codes (int_list_serde t) (list xs) h = int_list-obj fl dyn t xs h
  object-Codes (int_list_serde t) _ h = absurd h
  object-Codes (float_list_serde t) (list xs) h = float_list-obj fl dyn t xs h
  object-Codes (float_list_serde t) _ h = absurd h
  object-Codes bool_list_serde (list xs) h = bool_list-obj fl dyn xs h
  object-Codes bool_list_serde _ h = absurd h
  object-Codes string_list_serde (list xs) h = string_list-obj fl dyn xs h
  object-Codes string_list_serde _ h = absurd h
  object-Codes (list_serde s) (list xs) (h, fits) =
      collection-Codes fl list _ _ _ _ xs (λ b. refl) (λ buf. refl)
        (elements-Codes fl _ _ _ (elements xs) h (element-Frames s (object-Codes s) _ fits))
  object-Codes (list_serde s) _ h = absurd h
  object-Codes (tuple_serde s) (tuple xs) (h, fits) =
      collection-Codes fl tuple _ _ _ _ xs (λ b. refl) (λ buf. refl)
        (elements-Codes fl _ _ _ (elements xs) h (element-Frames s (object-Codes s) _ fits))
  object-Codes (tuple_serde s) _ h = absurd h
  object-Codes (dict_serde ks vs) (dict m) (keys, fits_keys, hk, fits_values, hv) =
      dict-Codes fl dyn m keys (object-Codes ks _ fits_keys) hk (object-Codes vs _ fits_values) hv
  object-Codes (dict_serde ks vs) _ h = absurd h
  object-Codes (stub_serde name) v h = absurd h

  -- For every serializer but a stub, nested to any depth, and each value that fits: serialize_obj
  -- appends `encoded_size` bytes to the buffer, and deserialize_obj reads the value back from
  -- them, whatever follows.
  pub deserialize_obj-serialize_obj :
      (s : Serializer) (v : Value Float) (b rest : Bytes)
      → FitsIn fl dyn s v
      → (e : Bytes) × (length e ≡ encoded_size s v)
        × (serialize_obj fl dyn s v b ≡ ok (b ++ e))
        × (deserialize_obj fl dyn s (e ++ rest) ≡ ok v)
  deserialize_obj-serialize_obj s v b rest h =
      let c = object-Codes s v h in (c.code, c.code_length, c.written b, c.read rest)
