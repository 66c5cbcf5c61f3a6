-- ===== src/Serde/Framing.antt =====
-- runtime/serde/serde.py: the eight-byte length that stands before a text, a list or an element,
-- as every serde of variable size writes and reads it.
pub mod Laws
use pyservicelib.Base.{
  ℕ, ◌+◌, ◌-◌, ◌++◌, ltb, ◌==◌, if◌then◌else◌, length, take, drop, Result, ok, err, value_error,
  struct_error, ◌>>=◌,
}
use pyservicelib.Serde.Struct.{Bytes, zeros, max_size_length, set_size, get_size}

-- `b.extend(bytearray(MAX_SIZE_LENGTH)); n = set_size(b, b_length, size)`, and the shortening of
-- the header by `del`.
pub append_size : Bytes → ℕ → Result Bytes
append_size b size = do
  (b', n) ← set_size (b ++ zeros max_size_length) (length b) size
  ok (if n == max_size_length then b' else take (length b + n) b')

-- The move of `size` bytes at `start + 8` up to `start + n`.
pub close_gap : Bytes → ℕ → ℕ → ℕ → Bytes
close_gap b start n size =
    if n == max_size_length
    then b
    else take (start + n) b ++ take size (drop (start + max_size_length) b)

-- Room for the size is left, the content is written behind it, and its size is filled in. A
-- writer that returned a shorter buffer would make the size negative, which `struct` refuses.
pub framed : (Bytes → Result Bytes) → Bytes → Result Bytes
framed write b = do
  inner ← write (b ++ zeros max_size_length)
  let size = length inner - length b - max_size_length
  (b', n) ←
      if ltb (length inner) (length b + max_size_length)
      then err struct_error
      else set_size inner (length b) size
  ok (close_gap b' (length b) n size)

-- A size, so many bytes, and the data behind them.
pub read_sized : Bytes → Result (Bytes × Bytes)
read_sized bytes = do
  (size, n) ← get_size bytes 0
  let rest = drop n bytes
  if ltb (length rest) size then err value_error else ok (take size rest, drop size rest)
