-- ===== src/Serde/Objects/Lists.antt =====
-- Round trips of the lists of numbers, of Booleans and of texts.
use pyservicelib.Base.{
  ℕ, ◌+◌, ◌*◌, ◌^◌, ◌<◌, ◌≡◌, refl, sym, ap, subst, fun_ext, ◌∙◌, Bool, List, [], ◌∷◌, arith, map,
  length, length-map, All, All-map, sum_of, Result, ok, ◌>>=◌,
}
use pyservicelib.Serde.Struct.{Bytes}
use pyservicelib.Serde.Framing.{append_size}
use pyservicelib.Serde.Sequences.{write_all}
use pyservicelib.Serde.Framing.Laws.{append_size_lem}
use pyservicelib.Serde.Ints.{IntType, int_serde as int_formats}
use pyservicelib.Serde.Ints.Codes.{InRange}
use pyservicelib.Serde.Scalars.{Floats, FloatType, float_size, string_serialize}
use pyservicelib.Serde.Arrays.{string_list_serialize}
use pyservicelib.Serde.Utf8.RoundTrip.{AllScalar, text_length}
use pyservicelib.Serde.Scalars.Laws.{Codes}
use pyservicelib.Serde.Arrays.Laws.{
  int_list-Codes, bool_list-Codes, string_list-Codes, float_list-Codes,
}
use pyservicelib.Serde.Values.{
  Value, bool, int, float, str, list, Dynamic, Items, elements, items, items-elements,
  elements-items, each, as_int, as_float, truth,
}
use pyservicelib.Serde.Objects.{
  Serializer, bool_list_serde, string_list_serde, int_list_serde, float_list_serde, serialize_obj,
  deserialize_obj,
}
use pyservicelib.Serde.Wrappers.{
  int_list_serialize_obj, float_list_serialize_obj, bool_list_serialize_obj,
  string_list_serialize_obj, as_text,
}
use pyservicelib.Serde.Objects.Fits.{FitsIn, encoded_size, text_size}
use pyservicelib.Serde.Objects.Parts.{wrapped-Codes}

-- A list of values of one type, as the list of what they hold.
extract {ℓ} :
    {F A : Type 0} (make : A → Value F) (P : A → Type ℓ) (xs : List (Value F))
    → All (λ x. (v : A) × (x ≡ make v) × P v) xs
    → (vs : List A) × (xs ≡ map make vs) × All P vs
extract make P [] h = ([], refl, tt)
extract make P (x ∷ xs) ((v, e, p), hs) =
    let (vs, es, ps) = extract make P xs hs in (v ∷ vs, rw (e, es), (p, ps))

extract_bools :
    {F : Type 0} (xs : List (Value F))
    → All (λ x. (v : Bool) × (x ≡ bool v)) xs
    → (vs : List Bool) × (xs ≡ map bool vs)
extract_bools [] h = ([], refl)
extract_bools (x ∷ xs) ((v, e), hs) = let (vs, es) = extract_bools xs hs in (v ∷ vs, rw (e, es))

each-map {ℓ} :
    {A B : Type 0} {C : Type ℓ} (f : B → Result C) (make : A → B) (g : A → C)
    → ((v : A) → f (make v) ≡ ok (g v))
    → (vs : List A) → each f (map make vs) ≡ ok (map g vs)
unfolding each
each-map f make g h [] = refl
each-map f make g h (v ∷ vs) = rw (h v, each-map f make g h vs)

map-id : {A : Type 0} (xs : List A) → map (λ x. x) xs ≡ xs
map-id [] = refl
map-id (x ∷ xs) = ap (◌∷◌ x) (map-id xs)

module _ (fl : Floats) where
  open fl use {Float}

  module _ (dyn : Dynamic Float) where
    abbrev pub ObjectCodes : Serializer → Value Float → Type 0
    ObjectCodes s v = Codes (serialize_obj fl dyn s) (deserialize_obj fl dyn s) v (encoded_size s v)

    -- A list of values of one type is the list of what they hold.
    at_list :
        {A : Type 0} (make : A → Value Float) (s : Serializer) (size : List (Value Float) → ℕ)
        (xs : Items Float) (vs : List A)
        → elements xs ≡ map make vs
        → Codes
            (serialize_obj fl dyn s)
            (deserialize_obj fl dyn s)
            (list (items (map make vs)))
            (size (map make vs))
        → Codes (serialize_obj fl dyn s) (deserialize_obj fl dyn s) (list xs) (size (elements xs))
    at_list make s size xs vs same c =
        let again : items (map make vs) ≡ xs = sym (ap items same) ∙ items-elements xs in
        subst
          (λ ys.
            Codes (serialize_obj fl dyn s) (deserialize_obj fl dyn s) (list ys)
              (size (elements xs)))
          again (rw same c)

    pub int_list-obj :
        (t : IntType) (xs : Items Float)
        → FitsIn fl dyn (int_list_serde t) (list xs)
        → ObjectCodes (int_list_serde t) (list xs)
    unfolding serialize_obj deserialize_obj int_list_serialize_obj as_int
    int_list-obj t xs (h, fits) =
        let (vs, same, ranges) = extract int (InRange t) (elements xs) fits in
        let few : length vs < 2 ^ 64 =
          omega (arith, ap length same, length-map {B = Value Float} vs int) in
        at_list int (int_list_serde t) (λ ys. 8 + length ys * (int_formats t).size) xs vs same
          (rw (length-map {B = Value Float} vs int) (
            wrapped-Codes (λ us. list (items (map int us))) _ _
              (λ b. rw (
                elements-items (map int vs),
                length-map {B = Value Float} vs int,
                append_size_lem b (length vs) few,
                each-map (as_int _) int (λ v. v) (λ v. refl) vs,
                map-id vs,
              ))
              (λ buf. refl) (int_list-Codes t vs few ranges)))

    pub float_list-obj :
        (t : FloatType) (xs : Items Float)
        → FitsIn fl dyn (float_list_serde t) (list xs)
        → ObjectCodes (float_list_serde t) (list xs)
    unfolding serialize_obj deserialize_obj float_list_serialize_obj as_float
    float_list-obj t xs (h, fits) =
        let (vs, same, exact) = extract float (fl.IsExact (float_size t)) (elements xs) fits in
        let few : length vs < 2 ^ 64 =
          omega (arith, ap length same, length-map {B = Value Float} vs float) in
        at_list float (float_list_serde t) (λ ys. 8 + length ys * float_size t) xs vs same
          (rw (length-map {B = Value Float} vs float) (
            wrapped-Codes (λ us. list (items (map float us))) _ _
              (λ b. rw (
                elements-items (map float vs),
                length-map {B = Value Float} vs float,
                append_size_lem b (length vs) few,
                each-map (as_float dyn _) float (λ v. v) (λ v. refl) vs,
                map-id vs,
              ))
              (λ buf. refl) (float_list-Codes fl t vs few exact)))

    truth-bool : (vs : List Bool) → map (truth dyn) (map bool vs) ≡ vs
    unfolding truth
    truth-bool [] = refl
    truth-bool (v ∷ vs) = ap (◌∷◌ v) (truth-bool vs)

    pub bool_list-obj :
        (xs : Items Float)
        → FitsIn fl dyn bool_list_serde (list xs)
        → ObjectCodes bool_list_serde (list xs)
    unfolding serialize_obj deserialize_obj bool_list_serialize_obj
    bool_list-obj xs (h, fits) =
        let (vs, same) = extract_bools (elements xs) fits in
        let few : length vs < 2 ^ 64 =
          omega (arith, ap length same, length-map {B = Value Float} vs bool) in
        at_list bool bool_list_serde (λ ys. 8 + length ys) xs vs same
          (rw (length-map {B = Value Float} vs bool) (
            wrapped-Codes (λ us. list (items (map bool us))) _ _
              (λ b. rw (elements-items (map bool vs), truth-bool vs)) (λ buf. refl)
              (bool_list-Codes vs few)))

    sum_text :
        (vs : List (List ℕ))
        → sum_of (λ x. 8 + text_size x) (map {B = Value Float} str vs)
          ≡ sum_of (λ v. 8 + text_length v) vs
    sum_text [] = refl
    sum_text (v ∷ vs) = ap (λ (n : ℕ). (8 + text_length v) + n) (sum_text vs)

    write_texts :
        (vs : List (List ℕ)) (b : Bytes)
        → write_all (λ x c. as_text fl x >>= λ s. string_serialize s c) (map str vs) b
          ≡ write_all string_serialize vs b
    unfolding write_all
    write_texts [] b = refl
    write_texts (v ∷ vs) b = ap (λ k. string_serialize v b >>= k) (fun_ext (write_texts vs))

    pub string_list-obj :
        (xs : Items Float)
        → FitsIn fl dyn string_list_serde (list xs)
        → ObjectCodes string_list_serde (list xs)
    unfolding serialize_obj deserialize_obj string_list_serialize_obj string_list_serialize
    string_list-obj xs (h, fits) =
        let (vs, same, texts) =
          extract str (λ v. AllScalar v × (text_length v < 2 ^ 64)) (elements xs)
            (All-map (λ x (v, e, p, q). (v, e, (p, q))) (elements xs) fits) in
        let few : length vs < 2 ^ 64 =
          omega (arith, ap length same, length-map {B = Value Float} vs str) in
        at_list str string_list_serde (λ ys. 8 + sum_of (λ x. 8 + text_size x) ys) xs vs same
          (rw sum_text (
            wrapped-Codes (λ us. list (items (map str us))) _ _
              (λ b.
                rw (elements-items (map str vs), length-map {B = Value Float} vs str)
                  (ap (λ k. append_size b (length vs) >>= k) (fun_ext (write_texts vs))))
              (λ buf. refl) (string_list-Codes vs few texts)))
