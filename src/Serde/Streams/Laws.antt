-- ===== src/Serde/Streams/Laws.antt =====
-- StreamKeyValueSerde reads back what it wrote, whole or as a key and a value.
use pyservicelib.Base.{ℕ, ◌^◌, ◌<◌, ◌≡◌, [], ◌++◌, arith, length, append_assoc, append-nil, ok}
use pyservicelib.Serde.Struct.{Bytes, be_bytes}
use pyservicelib.Serde.Framing.Laws.{framed_lem, read_sized_lem}
use pyservicelib.Serde.Scalars.Laws.{Codes}
use pyservicelib.Serde.Streams.{
  Serde, KeyValue, serialize, deserialize, serialize_key, serialize_value, deserialize_key_value,
}

module _ {K V : Type 0} (serde_key : Serde K) (serde_value : Serde V) (obj : KeyValue K V) {n m : ℕ}
    (key_codes : Codes serde_key.serialize serde_key.deserialize obj.key n)
    (value_codes : Codes serde_value.serialize serde_value.deserialize obj.value m) where
  -- A pair whose parts are shorter than 2 ^ 64 bytes is written as the key's size, the key, the
  -- value's size and the value, as serialize_key and serialize_value write them. From these bytes
  -- deserialize reads the pair back, whatever follows, and so does deserialize_key_value from the
  -- two parts.
  pub deserialize-serialize_pair :
      (rest : Bytes)
      → n < 2 ^ 64
      → m < 2 ^ 64
      → (k : Bytes) × (v : Bytes) × (serialize_key serde_key serde_value obj ≡ ok k)
        × (serialize_value serde_key serde_value obj ≡ ok v)
        × (serialize serde_key serde_value obj
            ≡ ok (be_bytes 8 (length k) ++ (k ++ (be_bytes 8 (length v) ++ v))))
        × (deserialize serde_key serde_value
              (be_bytes 8 (length k) ++ (k ++ (be_bytes 8 (length v) ++ (v ++ rest))))
            ≡ ok obj)
        × (deserialize_key_value serde_key serde_value k v ≡ ok obj)
  unfolding serialize deserialize serialize_key serialize_value deserialize_key_value
  deserialize-serialize_pair rest hn hm =
      let k = key_codes.code in
      let v = value_codes.code in
      let hk : length k < 2 ^ 64 = omega (arith, key_codes.code_length) in
      let hv : length v < 2 ^ 64 = omega (arith, value_codes.code_length) in
      let key_read : serde_key.deserialize k ≡ ok obj.key = rw append-nil at (key_codes.read []) in
      let value_read : serde_value.deserialize v ≡ ok obj.value =
        rw append-nil at (value_codes.read []) in
      let head = be_bytes 8 (length k) ++ k in
      (
        k,
        v,
        key_codes.written [],
        value_codes.written [],
        rw
            (
              framed_lem (serde_key.serialize obj.key) [] k hk (key_codes.written _),
              framed_lem (serde_value.serialize obj.value) head v hv (value_codes.written _),
            )
            (rw append_assoc),
        rw (read_sized_lem k _ hk, key_read, read_sized_lem v rest hv, value_read),
        rw (key_read, value_read),
      )
