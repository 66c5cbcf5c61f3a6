-- ===== src/Serde/Framing/Laws.antt =====
-- What stands in the buffer after a frame is written, and what is read from it.
use pyservicelib.Base.{
  ℕ, ◌+◌, ◌-◌, ◌^◌, ◌<◌, ◌≡◌, refl, false, [], ◌++◌, arith, ltb, length, take-append, drop-append,
  length-append, append_assoc, Result, ok, le→ltb,
}
use pyservicelib.Serde.Struct.{Bytes, be_bytes, zeros, set_size}
use pyservicelib.Serde.Struct.Laws.{length-be_bytes, set_size-gap, get_size-be_bytes}
use pyservicelib.Serde.Framing.{append_size, close_gap, framed, read_sized}

pub append_size_lem : (b : Bytes) (n : ℕ) → n < 2 ^ 64 → append_size b n ≡ ok (b ++ be_bytes 8 n)
unfolding append_size be_bytes
append_size_lem b n h =
    let gap : set_size (b ++ zeros 8) (length b) n ≡ ok (b ++ be_bytes 8 n, 8) =
      set_size-gap b [] n h in
    rw gap

pub framed_lem :
    (write : Bytes → Result Bytes) (b e : Bytes)
    → length e < 2 ^ 64
    → write (b ++ zeros 8) ≡ ok ((b ++ zeros 8) ++ e)
    → framed write b ≡ ok (b ++ (be_bytes 8 (length e) ++ e))
unfolding framed close_gap
framed_lem write b e h w =
    let total : length (b ++ (zeros 8 ++ e)) ≡ length b + 8 + length e =
      omega (arith, length-append b (zeros 8 ++ e), length-append (zeros 8) e) in
    let size : length (b ++ (zeros 8 ++ e)) - length b - 8 ≡ length e = omega arith in
    let room : ltb (length (b ++ (zeros 8 ++ e))) (length b + 8) ≡ false =
      le→ltb _ _ (omega arith) in
    rw (w, append_assoc, room, size, set_size-gap b e (length e) h)

pub read_sized_lem :
    (e rest : Bytes)
    → length e < 2 ^ 64
    → read_sized (be_bytes 8 (length e) ++ (e ++ rest)) ≡ ok (e, rest)
unfolding read_sized
read_sized_lem e rest h =
    let room : ltb (length (e ++ rest)) (length e) ≡ false =
      le→ltb _ _ (omega (arith, length-append e rest)) in
    rw (
      get_size-be_bytes (length e) (e ++ rest) h,
      drop-append (be_bytes 8 (length e)) (e ++ rest) 8 (length-be_bytes 8 (length e)),
      room,
      take-append e rest (length e) refl,
      drop-append e rest (length e) refl,
    )
