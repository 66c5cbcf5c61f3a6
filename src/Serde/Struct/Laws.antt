-- ===== src/Serde/Struct/Laws.antt =====
-- The laws of the big-endian codes and of the length header.
use native.Mathlib.Nat.{div-add-mod', mod-lt, pow-suc}
use pyservicelib.Base.{
  ℕ, zero, suc, ◌+◌, ◌-◌, ◌%◌, ◌^◌, ◌<◌, ◌≡◌, refl, ap, false, ◌++◌, arith, ltb, leb, length, drop,
  take-append, drop-append, length-append, append_assoc, ok, le→ltb,
}
use pyservicelib.Serde.Struct.{Bytes, be_bytes, be_number, zeros, set_size, get_size}

pub pow256-pos : (w : ℕ) → 0 < 256 ^ w
pow256-pos zero = omega arith
pow256-pos (suc w) = omega (arith, pow256-pos w, pow-suc 256 w)

pub length-be_bytes : (w n : ℕ) → length (be_bytes w n) ≡ w
unfolding be_bytes
length-be_bytes zero n = refl
length-be_bytes (suc w) n = ap suc (length-be_bytes w (n % 256 ^ w))

pub be_number-be_bytes : (w n : ℕ) → n < 256 ^ w → be_number (be_bytes w n) ≡ n
unfolding be_bytes be_number
be_number-be_bytes zero n h = omega arith
be_number-be_bytes (suc w) n h =
    let low : n % 256 ^ w < 256 ^ w = mod-lt n (pow256-pos w) in
    rw (length-be_bytes w (n % 256 ^ w), be_number-be_bytes w (n % 256 ^ w) low)
      (div-add-mod' n (256 ^ w))

length-zeros : (n : ℕ) → length (zeros n) ≡ n
length-zeros zero = refl
length-zeros (suc n) = ap suc (length-zeros n)

drop_gap : (p z q : Bytes) → length z ≡ 8 → drop (length p + 8) (p ++ (z ++ q)) ≡ q
drop_gap p z q h =
    rw (← append_assoc) (drop-append (p ++ z) q (length p + 8) (omega (arith, length-append p z)))

-- A header written into the gap that was left for it.
pub set_size-gap :
    (p q : Bytes) (n : ℕ)
    → n < 2 ^ 64
    → set_size (p ++ (zeros 8 ++ q)) (length p) n ≡ ok (p ++ (be_bytes 8 n ++ q), 8)
unfolding set_size
set_size-gap p q n h =
    let small : leb (2 ^ 64) n ≡ false = ground arith in
    let room : ltb (length (p ++ (zeros 8 ++ q))) (length p + 8) ≡ false =
      le→ltb _ _ (omega (arith, length-append p (zeros 8 ++ q))) in
    rw (small, room, take-append p (zeros 8 ++ q) (length p) refl, drop_gap p (zeros 8) q refl)

-- and read back from it.
pub get_size-be_bytes :
    (n : ℕ) (rest : Bytes) → n < 2 ^ 64 → get_size (be_bytes 8 n ++ rest) 0 ≡ ok (n, 8)
unfolding get_size
get_size-be_bytes n rest h =
    let room : ltb (length (be_bytes 8 n ++ rest) - 0) 8 ≡ false =
      le→ltb _ _ (omega (arith, length-append (be_bytes 8 n) rest, length-be_bytes 8 n)) in
    rw (room, take-append (be_bytes 8 n) rest 8 (length-be_bytes 8 n), be_number-be_bytes 8 n h)
