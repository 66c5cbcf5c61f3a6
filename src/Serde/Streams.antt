-- ===== src/Serde/Streams.antt =====
-- runtime/serde/serde.py: Serde as the streams use it, StreamSerde and StreamKeyValueSerde;
-- runtime/datastruct: KeyValue.
pub mod Laws
use pyservicelib.Base.{ℕ, [], Result, ok, ◌>>=◌}
use pyservicelib.Serde.Struct.{Bytes}
use pyservicelib.Serde.Framing.{framed, read_sized}

-- The two operations that every Serde has.
pub record Serde (A : Type 0) : Type 0 where
  pub serialize : A → Bytes → Result Bytes
  pub deserialize : Bytes → Result A

pub record KeyValue (K V : Type 0) : Type 0 where
  pub key : K
  pub value : V

module _ {A : Type 0} (serde : Serde A) where
  abbrev pub stream_serialize : A → Result Bytes
  stream_serialize obj = serde.serialize obj []

  abbrev pub stream_deserialize : Bytes → Result A
  stream_deserialize buf = serde.deserialize buf

module _ {K V : Type 0} (serde_key : Serde K) (serde_value : Serde V) where
  -- Each part is written behind room for its size.
  unfoldable pub serialize : KeyValue K V → Result Bytes
  serialize obj = do
    b ← framed (serde_key.serialize obj.key) []
    framed (serde_value.serialize obj.value) b

  unfoldable pub deserialize : Bytes → Result (KeyValue K V)
  deserialize buf = do
    (key_data, rest) ← read_sized buf
    key ← serde_key.deserialize key_data
    (value_data, after) ← read_sized rest
    value ← serde_value.deserialize value_data
    ok (record { key = key; value = value })

  pub serialize_key : KeyValue K V → Result Bytes
  serialize_key obj = serde_key.serialize obj.key []

  pub serialize_value : KeyValue K V → Result Bytes
  serialize_value obj = serde_value.serialize obj.value []

  pub deserialize_key_value : Bytes → Bytes → Result (KeyValue K V)
  deserialize_key_value key_data value_data = do
    key ← serde_key.deserialize key_data
    value ← serde_value.deserialize value_data
    ok (record { key = key; value = value })
