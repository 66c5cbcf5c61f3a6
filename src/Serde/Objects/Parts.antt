-- ===== src/Serde/Objects/Parts.antt =====
-- Round trips of the parts: a typed serde behind the test of the type, and the elements of a list.
use pyservicelib.Base.{
  ℕ, ◌+◌, ◌^◌, ◌<◌, ◌≡◌, ◌∙◌, List, [], ◌++◌, arith, length, length-append, append_assoc,
  append-nil, drop-append, All, sum_of, Result, ok, ◌>>=◌,
}
use pyservicelib.Base.Int.{ℤ}
use pyservicelib.Serde.Struct.{Bytes, be_bytes}
use pyservicelib.Serde.Struct.Laws.{length-be_bytes, get_size-be_bytes}
use pyservicelib.Serde.Framing.{framed}
use pyservicelib.Serde.Framing.Laws.{append_size_lem, framed_lem}
use pyservicelib.Serde.Sequences.Laws.{Frames, read_all-write_all}
use pyservicelib.Serde.Ints.{
  IntType, int32, int_serde as int_formats, serialize, deserialize, low_bits, rune_serialize,
  rune_deserialize,
}
use pyservicelib.Serde.Ints.Codes.{InRange, width, wire_code}
use pyservicelib.Serde.Ints.RoundTrip.{
  rune_serialize-code, rune_deserialize-code, serialize-code, deserialize-code, size-width,
}
use pyservicelib.Serde.Scalars.{Floats}
use pyservicelib.Serde.Scalars.Laws.{Codes}
use pyservicelib.Serde.Values.{Value, Items, elements, items, items-elements}
use pyservicelib.Serde.Wrappers.{elements_serialize, elements_deserialize}

pub int-Codes :
    (t : IntType) (v : ℤ)
    → InRange t v
    → Codes (serialize (int_formats t)) (deserialize (int_formats t)) v (int_formats t).size
int-Codes t v h = record {
  code = be_bytes (width t) (wire_code t v);
  code_length = rw (size-width t, length-be_bytes (width t) (wire_code t v));
  written = λ b. serialize-code t v b h;
  read = λ rest. deserialize-code t v rest h;
}

-- A typed serde behind the test of the type.
module _ {A F : Type 0} {ser : A → Bytes → Result Bytes} {des : Bytes → Result A} {a : A}
    {size : ℕ} where
  pub wrapped-Codes :
      (make : A → Value F) (ser_obj : Value F → Bytes → Result Bytes)
      (des_obj : Bytes → Result (Value F))
      → ((b : Bytes) → ser_obj (make a) b ≡ ser a b)
      → ((buf : Bytes) → des_obj buf ≡ (des buf >>= λ v. ok (make v)))
      → Codes ser des a size
      → Codes ser_obj des_obj (make a) size
  wrapped-Codes make ser_obj des_obj s d c = record {
    code = c.code;
    code_length = c.code_length;
    written = λ b. s b ∙ c.written b;
    read = λ rest. rw (d (c.code ++ rest), c.read rest);
  }

pub rune-Codes : (v : ℤ) → InRange int32 v → Codes rune_serialize rune_deserialize v 4
rune-Codes v h = record {
  code = be_bytes 4 (low_bits v 32);
  code_length = length-be_bytes 4 _;
  written = λ b. rune_serialize-code v b h;
  read = λ rest. rune_deserialize-code v rest h;
}

module _ {F : Type 0} (write_value : Value F → Bytes → Result Bytes)
    (read_value : Bytes → Result (Value F)) (size : Value F → ℕ) where
  pub framed-Frames :
      (x : Value F)
      → Codes write_value read_value x (size x)
      → size x < 2 ^ 64
      → Frames (λ x. framed (write_value x)) read_value size x
  framed-Frames x c h =
      let small : length c.code < 2 ^ 64 = omega (arith, c.code_length) in
      record {
        code = c.code;
        code_length = c.code_length;
        small = small;
        written = λ b. framed_lem (write_value x) b c.code small (c.written _);
        read = rw append-nil at (c.read []);
      }

module _ (fl : Floats) where
  open fl use {Float}

  module _ (write_value : Value Float → Bytes → Result Bytes)
      (read_value : Bytes → Result (Value Float)) (size : Value Float → ℕ) where
    pub elements-Codes :
        (xs : List (Value Float))
        → length xs < 2 ^ 64
        → All (Frames (λ x. framed (write_value x)) read_value size) xs
        → Codes
            (elements_serialize fl write_value)
            (elements_deserialize fl read_value)
            xs
            (8 + sum_of (λ x. 8 + size x) xs)
    unfolding elements_serialize elements_deserialize be_bytes
    elements-Codes xs h frames =
        let (e, total, written, read) = read_all-write_all _ read_value size xs frames in
        let header = be_bytes 8 (length xs) in
        let size_read = λ (rest : Bytes). get_size-be_bytes (length xs) (e ++ rest) h in
        record {
          code = header ++ e;
          code_length = omega (arith, length-append header e, length-be_bytes 8 (length xs));
          written = λ b. rw (append_size_lem b (length xs) h, written (b ++ header), append_assoc);
          read = λ rest. rw (
            append_assoc,
            size_read rest,
            drop-append header (e ++ rest) 8 (length-be_bytes 8 (length xs)),
            read rest,
          );
        }

  -- A list or a tuple, from its elements.
  pub collection-Codes :
      (make : Items Float → Value Float) (write_value : Value Float → Bytes → Result Bytes)
      (read_value : Bytes → Result (Value Float)) (write : Value Float → Bytes → Result Bytes)
      (read : Bytes → Result (Value Float)) (xs : Items Float) {n : ℕ}
      → ((b : Bytes) → write (make xs) b ≡ elements_serialize fl write_value (elements xs) b)
      → ((buf : Bytes)
          → read buf ≡ (elements_deserialize fl read_value buf >>= λ ys. ok (make (items ys))))
      → Codes
          (elements_serialize fl write_value)
          (elements_deserialize fl read_value)
          (elements xs)
          n
      → Codes write read (make xs) n
  collection-Codes make write_value read_value write read xs s d c = record {
    code = c.code;
    code_length = c.code_length;
    written = λ b. s b ∙ c.written b;
    read = λ rest. rw (d (c.code ++ rest), c.read rest, items-elements xs);
  }
