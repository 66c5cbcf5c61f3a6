-- ===== src/Serde/Arrays/Laws.antt =====
-- What the list serdes write, and that they read it back whatever follows.
use pyservicelib.Base.{
  ℕ, ◌+◌, ◌*◌, ◌^◌, ◌<◌, ◌≡◌, Bool, false, List, ◌++◌, arith, ltb, length, length-append,
  length-replicate, append_assoc, drop, replicate, All, All-map, sum_of, Bool-cases, inl, inr,
  Result, ok, le→ltb,
}
use pyservicelib.Base.Int.{ℤ}
use pyservicelib.Serde.Struct.{Bytes, be_bytes, unpack, get_size}
use pyservicelib.Serde.Struct.Laws.{length-be_bytes}
use pyservicelib.Serde.Framing.Laws.{append_size_lem}
use pyservicelib.Serde.Sequences.{pack_many, unpack_many}
use pyservicelib.Serde.Sequences.Laws.{Packs, Frames, unpack_many-pack_many, read_all-write_all}
use pyservicelib.Serde.Scalars.Laws.{Codes}
use pyservicelib.Serde.Ints.{IntType, int_serde}
use pyservicelib.Serde.Ints.Codes.{InRange}
use pyservicelib.Serde.Ints.RoundTrip.{is_flipped}
use pyservicelib.Serde.Utf8.{decode}
use pyservicelib.Serde.Utf8.RoundTrip.{AllScalar, text_length, decode-encode}
use pyservicelib.Serde.Framing.{append_size}
use pyservicelib.Serde.Scalars.{string_serialize, Floats, FloatType, float_size}
use pyservicelib.Serde.Arrays.{
  float_list_serialize, float_list_deserialize, int_list_serialize, int_list_deserialize,
  string_list_serialize, string_list_deserialize, unflipped_element, pack_bool, unpack_bool,
  bool_list_serialize, bool_list_deserialize,
}
use pyservicelib.Serde.Arrays.Elements.{
  All-bool-Packs, counted, get_size-counted, drop-counted, length-counted, pack_into_end,
  plain_mask, flipped_mask, plain-Packs, flipped-Packs,
}

pub bool_list-Codes :
    (obj : List Bool)
    → length obj < 2 ^ 64
    → Codes bool_list_serialize bool_list_deserialize obj (8 + length obj)
unfolding bool_list_serialize bool_list_deserialize
bool_list-Codes obj h =
    let (e, packed, size, unpacked) =
      unpack_many-pack_many pack_bool unpack_bool 1 obj (All-bool-Packs obj) in
    let width : length e ≡ length obj = omega arith in
    record {
      code = be_bytes 8 (length obj) ++ e;
      code_length =
          omega (arith, length-append (be_bytes 8 (length obj)) e, length-be_bytes 8 (length obj));
      written = λ b.
          let header = b ++ be_bytes 8 (length obj) in
          rw (
            append_size_lem b (length obj) h,
            packed,
            pack_into_end header (replicate (length obj) 0) e
                (omega (arith, length-replicate {A = ℕ} (length obj) 0)),
            append_assoc,
          );
      read = λ rest.
          let room : ltb (length (counted (length obj) e rest)) (length obj + 8) ≡ false =
            le→ltb _ _ (omega (arith, length-counted (length obj) e rest)) in
          rw (
            get_size-counted (length obj) e rest h,
            room,
            drop-counted (length obj) e rest,
            unpacked rest,
          );
    }

-- A list serde over `struct`: its count, and the packed elements behind it.
module _ {A : Type 0} (serialize : List A → Bytes → Result Bytes)
    (deserialize : Bytes → Result (List A)) (pack_one : A → Result Bytes) (unpack_one : Bytes → A)
    (width : ℕ) (xs : List A) where
  packed-Codes :
      length xs < 2 ^ 64
      → All (Packs pack_one unpack_one width) xs
      → ((b b' e : Bytes)
          → append_size b (length xs) ≡ ok b'
          → pack_many pack_one xs ≡ ok e
          → serialize xs b ≡ ok (b' ++ e))
      → ((count : ℕ) (bytes : Bytes)
          → get_size bytes 0 ≡ ok (count, 8)
          → ltb (length bytes) (count * width + 8) ≡ false
          → deserialize bytes ≡ ok (unpack_many width unpack_one count (drop 8 bytes)))
      → Codes serialize deserialize xs (8 + length xs * width)
  packed-Codes h packs written read =
      let (e, packed, size, unpacked) = unpack_many-pack_many pack_one unpack_one width xs packs in
      let header = be_bytes 8 (length xs) in
      record {
        code = header ++ e;
        code_length = omega (arith, length-append header e, length-be_bytes 8 (length xs));
        written = λ b.
            rw (written b (b ++ header) e (append_size_lem b (length xs) h) packed, append_assoc);
        read = λ rest.
            let bytes = counted (length xs) e rest in
            let room : ltb (length bytes) (length xs * width + 8) ≡ false =
              le→ltb _ _ (omega (arith, length-counted (length xs) e rest)) in
            rw (
              read (length xs) bytes (get_size-counted (length xs) e rest h) room,
              drop-counted (length xs) e rest,
              unpacked rest,
            );
      }

pub int_list-Codes :
    (t : IntType) (obj : List ℤ)
    → length obj < 2 ^ 64
    → All (InRange t) obj
    → Codes
        (int_list_serialize (int_serde t))
        (int_list_deserialize (int_serde t))
        obj
        (8 + length obj * (int_serde t).size)
unfolding int_list_serialize int_list_deserialize
int_list-Codes t obj h fits = elim (Bool-cases (is_flipped t)) [
  | inl f ↦
      let mask = flipped_mask t f in
      packed-Codes _ _ _ (unflipped_element (int_serde t)) _ obj h
        (All-map (λ v. flipped-Packs t v f) obj fits)
        (λ b b' e header packed. rw (header, mask, packed))
        (λ count bytes header room. rw (header, room, mask))
  | inr f ↦
      let mask = plain_mask t f in
      packed-Codes _ _ _ (unpack (int_serde t).signed_fmt) _ obj h
        (All-map (λ v. plain-Packs t v f) obj fits)
        (λ b b' e header packed. rw (header, mask, packed))
        (λ count bytes header room. rw (header, room, mask))
]

module _ (fl : Floats) where
  open fl use {Float, pack_float, unpack_float, IsExact}

  float-Packs :
      (t : FloatType) (x : Float)
      → IsExact (float_size t) x
      → Packs (pack_float (float_size t)) (unpack_float (float_size t)) (float_size t) x
  float-Packs t x h = record {
    code = fl.code (float_size t) x;
    code_length = fl.code_width (float_size t) x h;
    packed = fl.pack_exact (float_size t) x h;
    unpacked = fl.unpack_exact (float_size t) x h;
  }

  pub float_list-Codes :
      (t : FloatType) (obj : List Float)
      → length obj < 2 ^ 64
      → All (IsExact (float_size t)) obj
      → Codes
          (float_list_serialize fl t)
          (float_list_deserialize fl t)
          obj
          (8 + length obj * float_size t)
  unfolding float_list_serialize float_list_deserialize
  float_list-Codes t obj h fits =
      packed-Codes _ _ _ (unpack_float (float_size t)) _ obj h (All-map (float-Packs t) obj fits)
        (λ b b' e header packed. rw (header, packed)) (λ count bytes header room. rw (header, room))

string-Frames :
    (s : List ℕ)
    → AllScalar s × (text_length s < 2 ^ 64)
    → Frames string_serialize decode text_length s
unfolding string_serialize
string-Frames s (scalar, h) =
    let (e, encoded, size, decoded) = decode-encode s scalar in
    let small : length e < 2 ^ 64 = omega arith in
    record {
      code = e;
      code_length = size;
      small = small;
      written = λ b. rw (encoded, append_size_lem b (length e) small, append_assoc);
      read = decoded;
    }

pub string_list-Codes :
    (obj : List (List ℕ))
    → length obj < 2 ^ 64
    → All (λ s. AllScalar s × (text_length s < 2 ^ 64)) obj
    → Codes string_list_serialize string_list_deserialize obj
        (8 + sum_of (λ s. 8 + text_length s) obj)
unfolding string_list_serialize string_list_deserialize
string_list-Codes obj h fits =
    let (e, size, written, read) =
      read_all-write_all string_serialize decode text_length obj (All-map string-Frames obj fits) in
    record {
      code = be_bytes 8 (length obj) ++ e;
      code_length =
          omega (arith, length-append (be_bytes 8 (length obj)) e, length-be_bytes 8 (length obj));
      written = λ b.
          rw (
            append_size_lem b (length obj) h,
            written (b ++ be_bytes 8 (length obj)),
            append_assoc,
          );
      read = λ rest.
          rw (get_size-counted (length obj) e rest h, drop-counted (length obj) e rest, read rest);
    }
