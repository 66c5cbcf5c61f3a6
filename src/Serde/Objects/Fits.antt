-- ===== src/Serde/Objects/Fits.antt =====
-- Which values a serializer takes and gives back, and the bytes that they need.
use pyservicelib.Base.{
  ℕ, ◌+◌, ◌*◌, ◌^◌, ◌<◌, ◌≡◌, Bool, true, false, List, [], ◌∷◌, map, length, All, sum_of,
}
use pyservicelib.Base.Int.{ℤ}
use pyservicelib.Serde.Ints.{int32, int_serde as int_formats}
use pyservicelib.Serde.Ints.Codes.{InRange}
use pyservicelib.Serde.Utf8.RoundTrip.{AllScalar, text_length}
use pyservicelib.Serde.Scalars.{Floats, float_size}
use pyservicelib.Serde.Values.{
  Value, bool, int, float, str, bytes, list, tuple, dict, Dynamic, elements, items, pairs,
}
use pyservicelib.Serde.Objects.{
  Serializer, bytes_serde, bool_serde, string_serde, rune_serde, bool_list_serde, string_list_serde,
  int_serde, int_list_serde, float_serde, float_list_serde, list_serde, tuple_serde, dict_serde,
}

module _ {F : Type 0} where
  abbrev pub keys_of : List (Value F × Value F) → List (Value F)
  keys_of = map (λ e. e.0)

  abbrev pub values_of : List (Value F × Value F) → List (Value F)
  values_of = map (λ e. e.1)

  abbrev pub text_size : Value F → ℕ
  text_size (str s) = text_length s
  text_size _ = 0

  -- The number of bytes.
  abbrev pub encoded_size : Serializer → Value F → ℕ
  encoded_size bytes_serde (bytes v) = 8 + length v
  encoded_size bool_serde v = 1
  encoded_size string_serde (str v) = 8 + text_length v
  encoded_size rune_serde v = 4
  encoded_size bool_list_serde (list xs) = 8 + length (elements xs)
  encoded_size string_list_serde (list xs) = 8 + sum_of (λ x. 8 + text_size x) (elements xs)
  encoded_size (int_serde t) v = (int_formats t).size
  encoded_size (int_list_serde t) (list xs) = 8 + length (elements xs) * (int_formats t).size
  encoded_size (float_serde t) v = float_size t
  encoded_size (float_list_serde t) (list xs) = 8 + length (elements xs) * float_size t
  encoded_size (list_serde s) (list xs) = 8 + sum_of (λ x. 8 + encoded_size s x) (elements xs)
  encoded_size (tuple_serde s) (tuple xs) = 8 + sum_of (λ x. 8 + encoded_size s x) (elements xs)
  encoded_size (dict_serde ks vs) (dict m) =
      16
      + (encoded_size ks (list (items (keys_of (pairs m))))
          + encoded_size vs (list (items (values_of (pairs m)))))
  encoded_size _ v = 0

  -- No key is the same as one before it.
  abbrev pub IsNew : Dynamic F → Value F → List (Value F × Value F) → Type 0
  IsNew dyn k = All (λ e. dyn.same_key e.0 k ≡ false)

  abbrev pub AreKeys : Dynamic F → List (Value F × Value F) → Type 0
  AreKeys dyn [] = Unit
  AreKeys dyn ((k, v) ∷ m) =
      (dyn.hashable k ≡ true) × All (λ e. dyn.same_key k e.0 ≡ false) m × AreKeys dyn m

module _ (fl : Floats) where
  open fl use {Float, IsExact}

  -- A value that the serializer takes: of its type, in its range, and no part longer than a size
  -- can say. The keys and the values of a dict are handed on as lists.
  abbrev pub FitsIn : Dynamic Float → Serializer → Value Float → Type 0
  FitsIn dyn bytes_serde (bytes v) = length v < 2 ^ 64
  FitsIn dyn bool_serde (bool v) = Unit
  FitsIn dyn string_serde (str v) = AllScalar v × (text_length v < 2 ^ 64)
  FitsIn dyn rune_serde (int v) = InRange int32 v
  FitsIn dyn bool_list_serde (list xs) =
      (length (elements xs) < 2 ^ 64) × All (λ x. (v : Bool) × (x ≡ bool v)) (elements xs)
  FitsIn dyn string_list_serde (list xs) =
      (length (elements xs) < 2 ^ 64)
      × All (λ x. (v : List ℕ) × (x ≡ str v) × AllScalar v × (text_length v < 2 ^ 64)) (elements xs)
  FitsIn dyn (int_serde t) (int v) = InRange t v
  FitsIn dyn (int_list_serde t) (list xs) =
      (length (elements xs) < 2 ^ 64) × All (λ x. (v : ℤ) × (x ≡ int v) × InRange t v) (elements xs)
  FitsIn dyn (float_serde t) (float v) = IsExact (float_size t) v
  FitsIn dyn (float_list_serde t) (list xs) =
      (length (elements xs) < 2 ^ 64)
      × All (λ x. (v : Float) × (x ≡ float v) × IsExact (float_size t) v) (elements xs)
  FitsIn dyn (list_serde s) (list xs) =
      (length (elements xs) < 2 ^ 64)
      × All (λ x. FitsIn dyn s x × (encoded_size s x < 2 ^ 64)) (elements xs)
  FitsIn dyn (tuple_serde s) (tuple xs) =
      (length (elements xs) < 2 ^ 64)
      × All (λ x. FitsIn dyn s x × (encoded_size s x < 2 ^ 64)) (elements xs)
  FitsIn dyn (dict_serde ks vs) (dict m) =
      AreKeys dyn (pairs m)
      × FitsIn dyn ks (list (items (keys_of (pairs m))))
      × (encoded_size ks (list (items (keys_of (pairs m)))) < 2 ^ 64)
      × FitsIn dyn vs (list (items (values_of (pairs m))))
      × (encoded_size vs (list (items (values_of (pairs m)))) < 2 ^ 64)
  FitsIn dyn _ v = ⊥
