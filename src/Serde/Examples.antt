-- ===== src/Serde/Examples.antt =====
-- The theorems about the serializers at concrete values.
use pyservicelib.Base.{
  ℕ, ◌^◌, ◌<◌, ◌≡◌, ◌↔◌, refl, Bool, true, false, List, [], ◌∷◌, ◌++◌, arith, length, ok, err,
  struct_error, value_error, ◌==◌,
}
use pyservicelib.Base.Int.{ℤ, pos, negsuc, ◌<ℤ◌}
use pyservicelib.Serde.Struct.{Bytes, be_bytes, be_number}
use pyservicelib.Serde.Struct.Laws.{length-be_bytes, be_number-be_bytes}
use pyservicelib.Serde.Ints.{
  int16, uint16, int_serde, serialize, deserialize, rune_serialize, rune_deserialize,
}
use pyservicelib.Serde.Ints.Codes.{InRange}
use pyservicelib.Serde.Ints.RoundTrip.{
  deserialize-serialize, serialize-out_of_range, serialize-wrap, rune_deserialize-rune_serialize,
  wrap,
}
use pyservicelib.Serde.Ints.Order.{LexLt, serialize-LexLt}
use pyservicelib.Serde.Scalars.{Floats, string_serialize, string_deserialize}
use pyservicelib.Serde.Scalars.Laws.{Codes, string-Codes}
use pyservicelib.Serde.Values.{Value, int, str, list, dict, nil, cons, end, entry, Dynamic}
use pyservicelib.Serde.Objects.{
  Serializer, dict_serde, int_list_serde, list_serde, string_list_serde, serialize_obj,
  deserialize_obj,
}
use pyservicelib.Serde.Objects.Fits.{FitsIn, encoded_size}
use pyservicelib.Serde.Objects.Parts.{int-Codes}
use pyservicelib.Serde.Objects.RoundTrip.{deserialize_obj-serialize_obj}
use pyservicelib.Serde.Objects.Types.{serialize_obj-refusal}
use pyservicelib.Serde.Streams.{
  Serde, KeyValue, serialize as pair_serialize, deserialize as pair_deserialize, serialize_key,
  serialize_value, deserialize_key_value,
}
use pyservicelib.Serde.Streams.Laws.{deserialize-serialize_pair}

-- Numbers below 256 ^ w in the place of the floating point numbers.
abbrev whole_floats : Floats
whole_floats = record {
  Float = ℕ;
  pack_float = λ w x. ok (be_bytes w x);
  unpack_float = λ w b. be_number b;
  IsExact = λ w x. x < 256 ^ w;
  code = be_bytes;
  pack_exact = λ w x h. refl;
  code_width = λ w x h. length-be_bytes w x;
  unpack_exact = λ w x h. be_number-be_bytes w x h;
}

abbrev same_number : ℤ → ℤ → Bool
same_number (pos n) (pos m) = n == m
same_number (negsuc n) (negsuc m) = n == m
same_number _ _ = false

abbrev same_value : Value ℕ → Value ℕ → Bool
same_value (int v) (int u) = same_number v u
same_value _ _ = false

abbrev whole_dynamic : Dynamic ℕ
whole_dynamic = record {
  hashable = λ v. true;
  same_key = same_value;
  float_of_int = λ v. err struct_error;
  float_truth = λ x. true;
}

-- `{-3: ['é'], 7: []}`
abbrev accents : Value ℕ
accents =
    dict (
      entry (int (negsuc 2)) (list (cons (str (233 ∷ [])) nil))
        (entry (int (pos 7)) (list nil) end))

abbrev accents_serde : Serializer
accents_serde = dict_serde (int_list_serde int16) (list_serde string_list_serde)

accents-FitsIn : FitsIn whole_floats whole_dynamic accents_serde accents
unfolding int_serde
accents-FitsIn = (
  (refl, (refl, tt), (refl, tt, tt)),
  (omega arith, ((negsuc 2, refl, omega arith), ((pos 7, refl, omega arith), tt))),
  omega arith,
  (
    omega arith,
    ((
      ((omega arith, ((233 ∷ [], refl, ((refl, omega arith), tt), omega arith), tt)), omega arith),
      (((omega arith, tt), omega arith), tt),
    )),
  ),
  omega arith,
)

deserialize_obj-serialize_obj_example :
    (e : Bytes) × (length e ≡ encoded_size accents_serde accents)
    × (serialize_obj whole_floats whole_dynamic accents_serde accents [] ≡ ok ([] ++ e))
    × (deserialize_obj whole_floats whole_dynamic accents_serde (e ++ []) ≡ ok accents)
deserialize_obj-serialize_obj_example =
    deserialize_obj-serialize_obj whole_floats whole_dynamic accents_serde accents [] []
      accents-FitsIn

deserialize-serialize_example :
    (e : Bytes) × (serialize (int_serde int16) (negsuc 299) (9 ∷ []) ≡ ok ((9 ∷ []) ++ e))
    × (length e ≡ (int_serde int16).size)
    × (deserialize (int_serde int16) (e ++ (1 ∷ [])) ≡ ok (negsuc 299))
deserialize-serialize_example =
    deserialize-serialize int16 (negsuc 299) (9 ∷ []) (1 ∷ []) (omega arith)

rune_deserialize-rune_serialize_example :
    (e : Bytes) × (rune_serialize (negsuc 4) [] ≡ ok ([] ++ e))
    × (length e ≡ 4)
    × (rune_deserialize (e ++ []) ≡ ok (negsuc 4))
rune_deserialize-rune_serialize_example =
    rune_deserialize-rune_serialize (negsuc 4) [] [] (omega arith)

serialize-LexLt_example :
    (e f : Bytes) × (serialize (int_serde int16) (negsuc 299) [] ≡ ok e)
    × (serialize (int_serde int16) (pos 5) [] ≡ ok f)
    × ((negsuc 299 <ℤ pos 5) ↔ LexLt e f)
serialize-LexLt_example =
    serialize-LexLt int16 (negsuc 299) (pos 5) (λ e. cc) (omega arith) (omega arith)

serialize-wrap_example :
    (e : Bytes) × (serialize (int_serde int16) (pos 40000) [] ≡ ok ([] ++ e))
    × (serialize (int_serde int16) (wrap int16 (pos 40000)) [] ≡ ok ([] ++ e))
    × InRange int16 (wrap int16 (pos 40000))
    × (length e ≡ (int_serde int16).size)
    × (deserialize (int_serde int16) (e ++ []) ≡ ok (wrap int16 (pos 40000)))
serialize-wrap_example = serialize-wrap int16 (pos 40000) [] [] refl

serialize-out_of_range_example : serialize (int_serde uint16) (pos 65536) [] ≡ err struct_error
serialize-out_of_range_example =
    serialize-out_of_range uint16 (pos 65536) [] refl (λ h. omega arith)

abbrev count_serde : Serde ℤ
count_serde = record {
  serialize = serialize (int_serde int16);
  deserialize = deserialize (int_serde int16);
}

abbrev word_serde : Serde (List ℕ)
word_serde = record { serialize = string_serialize; deserialize = string_deserialize }

abbrev two_words : KeyValue ℤ (List ℕ)
two_words = record { key = pos 2; value = 97 ∷ 98 ∷ [] }

two-Codes : Codes count_serde.serialize count_serde.deserialize (pos 2) 2
unfolding int_serde
two-Codes = int-Codes int16 (pos 2) (omega arith)

words-Codes : Codes word_serde.serialize word_serde.deserialize (97 ∷ 98 ∷ []) 10
words-Codes =
    string-Codes (97 ∷ 98 ∷ []) ((refl, omega arith), ((refl, omega arith), tt)) (omega arith)

deserialize-serialize_pair_example :
    (k v : Bytes) × (serialize_key count_serde word_serde two_words ≡ ok k)
    × (serialize_value count_serde word_serde two_words ≡ ok v)
    × (pair_serialize count_serde word_serde two_words
        ≡ ok (be_bytes 8 (length k) ++ (k ++ (be_bytes 8 (length v) ++ v))))
    × (pair_deserialize count_serde word_serde
          (be_bytes 8 (length k) ++ (k ++ (be_bytes 8 (length v) ++ (v ++ []))))
        ≡ ok two_words)
    × (deserialize_key_value count_serde word_serde k v ≡ ok two_words)
deserialize-serialize_pair_example =
    deserialize-serialize_pair count_serde word_serde two_words two-Codes words-Codes []
      (omega arith) (omega arith)

serialize_obj-refusal_example :
    serialize_obj whole_floats whole_dynamic accents_serde (int (pos 7)) [] ≡ err value_error
serialize_obj-refusal_example =
    serialize_obj-refusal whole_floats whole_dynamic accents_serde (int (pos 7)) [] refl
