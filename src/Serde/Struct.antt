-- ===== src/Serde/Struct.antt =====
-- runtime/serde/serde.py: the length header, and what the codec uses of Python's `struct`
-- (big-endian formats). A byte string is a list of numbers.
pub mod Laws
use pyservicelib.Base.{
  ℕ, zero, suc, ◌+◌, ◌-◌, ◌*◌, ◌/◌, ◌%◌, ◌^◌, Bool, true, false, List, [], ◌∷◌, ◌++◌, ltb, leb,
  if◌then◌else◌, length, take, drop, Result, ok, err, value_error, struct_error,
}
use pyservicelib.Base.Int.{ℤ, pos, negsuc, sub_ℕ}

abbrev pub Bytes : Type 0
Bytes = List ℕ

-- The w bytes of a number below 256 ^ w, the highest first.
unfoldable pub be_bytes : ℕ → ℕ → Bytes
be_bytes zero n = []
be_bytes (suc w) n = n / 256 ^ w ∷ be_bytes w (n % 256 ^ w)

pub be_number : Bytes → ℕ
be_number [] = 0
be_number (b ∷ bs) = b * 256 ^ length bs + be_number bs

-- An integer format of `struct`: `>b` is one signed byte, `>Q` eight unsigned ones.
pub record Fmt : Type 0 where
  pub width : ℕ
  pub signed : Bool

-- What `struct.pack` accepts: n for n < 256 ^ w, or -256 ^ w / 2 ≤ v < 256 ^ w / 2.
pack_code : Bool → ℕ → ℤ → Result ℕ
pack_code false w (pos n) = if ltb n (256 ^ w) then ok n else err struct_error
pack_code false w (negsuc n) = err struct_error
pack_code true w (pos n) = if ltb n (256 ^ w / 2) then ok n else err struct_error
pack_code true w (negsuc n) = if ltb n (256 ^ w / 2) then ok (256 ^ w - 1 - n) else err struct_error

-- Two's complement.
unfoldable pub from_code : ℕ → ℕ → ℤ
from_code full n = if ltb n (full / 2) then pos n else sub_ℕ n full

abbrev encode_code : ℕ → Result ℕ → Result Bytes
encode_code w (ok n) = ok (be_bytes w n)
encode_code w (err e) = err e

unfoldable pub pack : Fmt → ℤ → Result Bytes
unfolding pack_code
pack f v = encode_code f.width (pack_code f.signed f.width v)

-- `struct.unpack_from(f, data)[0]`, on data that is long enough.
unfoldable pub unpack : Fmt → Bytes → ℤ
unfolding from_code
unpack f bytes =
    let n = be_number (take f.width bytes) in
    if f.signed then from_code (256 ^ f.width) n else pos n

abbrev pub size_bytes : ℕ
size_bytes = 8

abbrev pub max_size_length : ℕ
max_size_length = size_bytes

-- `bytearray(n)`.
abbrev pub zeros : ℕ → Bytes
zeros zero = []
zeros (suc n) = 0 ∷ zeros n

-- `struct.pack_into('>Q', b, offset, size)` writes in place, and returns the bytes written.
pub set_size : Bytes → ℕ → ℕ → Result (Bytes × ℕ)
set_size b offset size =
    if leb (2 ^ 64) size
    then err struct_error
    else if ltb (length b) (offset + 8)
    then err struct_error
    else ok (take offset b ++ (be_bytes 8 size ++ drop (offset + 8) b), size_bytes)

pub get_size : Bytes → ℕ → Result (ℕ × ℕ)
get_size b offset =
    if ltb (length b - offset) size_bytes
    then err value_error
    else ok (be_number (take 8 (drop offset b)), size_bytes)
