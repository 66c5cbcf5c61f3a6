-- ===== src/Serde/Scalars/Laws.antt =====
-- What the serdes of single values write, and that they read it back whatever follows.
use pyservicelib.Base.{
  ℕ, ◌+◌, ◌^◌, ◌<◌, ◌≡◌, refl, Bool, true, false, List, [], ◌∷◌, ◌++◌, arith, ltb, length,
  length-append, append_assoc, take-append, Result, ok, le→ltb,
}
use pyservicelib.Serde.Struct.{Bytes, be_bytes}
use pyservicelib.Serde.Struct.Laws.{length-be_bytes}
use pyservicelib.Serde.Framing.Laws.{append_size_lem, read_sized_lem}
use pyservicelib.Serde.Utf8.RoundTrip.{AllScalar, text_length, decode-encode}
use pyservicelib.Serde.Scalars.{
  bytes_serialize, bytes_deserialize, string_serialize, string_deserialize, bool_serialize,
  bool_deserialize, Floats, FloatType, float_size, float_serialize, float_deserialize,
}

-- A value is written as `e`, behind whatever the buffer holds, and is read from it again.
pub record Codes {A : Type 0} (serialize : A → Bytes → Result Bytes)
    (deserialize : Bytes → Result A) (a : A) (size : ℕ) : Type 0 where
  pub code : Bytes
  pub code_length : length code ≡ size
  pub written : (b : Bytes) → serialize a b ≡ ok (b ++ code)
  pub read : (rest : Bytes) → deserialize (code ++ rest) ≡ ok a

pub bytes-Codes :
    (obj : Bytes)
    → length obj < 2 ^ 64
    → Codes bytes_serialize bytes_deserialize obj (8 + length obj)
unfolding bytes_serialize bytes_deserialize
bytes-Codes obj h = record {
  code = be_bytes 8 (length obj) ++ obj;
  code_length =
      omega (arith, length-append (be_bytes 8 (length obj)) obj, length-be_bytes 8 (length obj));
  written = λ b. rw (append_size_lem b (length obj) h, append_assoc);
  read = λ rest. rw (append_assoc, read_sized_lem obj rest h);
}

pub string-Codes :
    (obj : List ℕ)
    → AllScalar obj
    → text_length obj < 2 ^ 64
    → Codes string_serialize string_deserialize obj (8 + text_length obj)
unfolding string_serialize string_deserialize
string-Codes obj scalar h =
    let (e, encoded, size, decoded) = decode-encode obj scalar in
    let small : length e < 2 ^ 64 = omega arith in
    record {
      code = be_bytes 8 (length e) ++ e;
      code_length =
          omega (arith, length-append (be_bytes 8 (length e)) e, length-be_bytes 8 (length e));
      written = λ b. rw (encoded, append_size_lem b (length e) small, append_assoc);
      read = λ rest. rw (append_assoc, read_sized_lem e rest small, decoded);
    }

pub bool-Codes : (obj : Bool) → Codes bool_serialize bool_deserialize obj 1
unfolding bool_serialize bool_deserialize
bool-Codes true = record {
  code = 1 ∷ [];
  code_length = refl;
  written = λ b. refl;
  read = λ rest. ground arith;
}
bool-Codes false = record {
  code = 0 ∷ [];
  code_length = refl;
  written = λ b. refl;
  read = λ rest. ground arith;
}

module _ (fl : Floats) where
  open fl use {Float, IsExact}

  pub float-Codes :
      (t : FloatType) (x : Float)
      → IsExact (float_size t) x
      → Codes (float_serialize fl t) (float_deserialize fl t) x (float_size t)
  unfolding float_serialize float_deserialize
  float-Codes t x h =
      let w = float_size t in
      let size : length (fl.code w x) ≡ w = fl.code_width w x h in
      record {
        code = fl.code w x;
        code_length = size;
        written = λ b. rw (fl.pack_exact w x h);
        read = λ rest.
            let room : ltb (length (fl.code w x ++ rest)) w ≡ false =
              le→ltb _ _ (omega (arith, length-append (fl.code w x) rest)) in
            rw (room, take-append (fl.code w x) rest w size, fl.unpack_exact w x h);
      }
