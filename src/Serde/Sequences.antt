-- ===== src/Serde/Sequences.antt =====
-- runtime/serde/serde.py: the loops over the elements of a list, as the list serdes share them.
pub mod Laws
use pyservicelib.Base.{ℕ, zero, suc, List, [], ◌∷◌, ◌++◌, take, drop, Result, ok, err, ◌>>=◌}
use pyservicelib.Serde.Struct.{Bytes}
use pyservicelib.Serde.Framing.{read_sized}

module _ {A : Type 0} where
  -- `struct.pack(f'>{count}{fmt}', *values)`
  pub pack_many : (A → Result Bytes) → List A → Result Bytes
  pack_many pack_one [] = ok []
  pack_many pack_one (x ∷ xs) = do
    bytes ← pack_one x
    rest ← pack_many pack_one xs
    ok (bytes ++ rest)

  -- `struct.unpack_from(f'>{count}{fmt}', data)`, of elements of `width` bytes.
  pub unpack_many : ℕ → (Bytes → A) → ℕ → Bytes → List A
  unpack_many width unpack_one zero bytes = []
  unpack_many width unpack_one (suc count) bytes =
      unpack_one (take width bytes) ∷ unpack_many width unpack_one count (drop width bytes)

  -- `for element in obj:` appends each element to the buffer.
  unfoldable pub write_all : (A → Bytes → Result Bytes) → List A → Bytes → Result Bytes
  write_all write_one [] b = ok b
  write_all write_one (x ∷ xs) b = do b' ← write_one x b; write_all write_one xs b'

  -- `for i in range(count):` reads a size, so many bytes, and the element from them.
  pub read_all : (Bytes → Result A) → ℕ → Bytes → Result (List A)
  read_all read_one zero bytes = ok []
  read_all read_one (suc count) bytes = do
    (value, rest) ← read_sized bytes
    x ← read_one value
    xs ← read_all read_one count rest
    ok (x ∷ xs)
