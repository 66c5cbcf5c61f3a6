-- ===== src/Serde/Arrays/Elements.antt =====
-- What `struct` does with one element, and with the header of a list.
use Prim.Native.Nat.{bit_xor}
use pyservicelib.Base.{
  ℕ, ◌+◌, ◌-◌, ◌*◌, ◌^◌, ◌<◌, ◌≡◌, refl, Bool, true, false, List, [], ◌∷◌, ◌++◌, arith, ltb, ◌==◌,
  leb, if◌then◌else◌, ◌∙◌, length, length-append, append_assoc, append-nil, take-append,
  drop-append, take, drop, zero, suc, All, ok,
}
use pyservicelib.Base.Int.{ℤ, pos, sub_ℕ}
use pyservicelib.Serde.Struct.{Bytes, be_bytes, pack, unpack, be_number, get_size}
use pyservicelib.Serde.Struct.Laws.{length-be_bytes, get_size-be_bytes}
use pyservicelib.Serde.Sequences.Laws.{Packs}
use pyservicelib.Serde.Ints.{
  IntType, IntSerde, int8, int16, int32, int64, int, int_serde, wire_value, field_value,
}
use pyservicelib.Serde.Ints.Codes.{width, InRange, wire_code, wire_value-code, field_value-code}
use pyservicelib.Serde.Ints.RoundTrip.{is_flipped, size-width}
use pyservicelib.Serde.Arrays.{flipped_element, unflipped_element, pack_bool, unpack_bool}

bool-Packs : (v : Bool) → Packs pack_bool unpack_bool 1 v
unfolding pack_bool unpack_bool
bool-Packs true = record {
  code = 1 ∷ [];
  code_length = refl;
  packed = refl;
  unpacked = ground arith;
}
bool-Packs false = record {
  code = 0 ∷ [];
  code_length = refl;
  packed = refl;
  unpacked = ground arith;
}

pub All-bool-Packs : (vs : List Bool) → All (Packs pack_bool unpack_bool 1) vs
All-bool-Packs [] = tt
All-bool-Packs (v ∷ vs) = (bool-Packs v, All-bool-Packs vs)

-- The header is read, and enough data stands behind it.
abbrev pub counted : ℕ → Bytes → Bytes → Bytes
counted count e rest = (be_bytes 8 count ++ e) ++ rest

pub get_size-counted :
    (count : ℕ) (e rest : Bytes)
    → count < 2 ^ 64
    → get_size (counted count e rest) 0 ≡ ok (count, 8)
get_size-counted count e rest h = rw append_assoc (get_size-be_bytes count (e ++ rest) h)

pub drop-counted : (count : ℕ) (e rest : Bytes) → drop 8 (counted count e rest) ≡ e ++ rest
drop-counted count e rest =
    rw append_assoc (drop-append (be_bytes 8 count) (e ++ rest) 8 (length-be_bytes 8 count))

pub length-counted :
    (count : ℕ) (e rest : Bytes) → length (counted count e rest) ≡ 8 + length e + length rest
length-counted count e rest = omega (
  arith,
  length-append (be_bytes 8 count ++ e) rest,
  length-append (be_bytes 8 count) e,
  length-be_bytes 8 count,
)

drop_all : (xs : Bytes) (n : ℕ) → length xs ≡ n → drop n xs ≡ []
drop_all [] zero h = refl
drop_all [] (suc n) h = absurd (omega arith)
drop_all (x ∷ xs) zero h = absurd (omega arith)
drop_all (x ∷ xs) (suc n) h = drop_all xs n (omega arith)

-- `pack_into` at the end of the buffer fills the room that was made there.
pub pack_into_end :
    (b room e : Bytes)
    → length room ≡ length e
    → take (length b) (b ++ room) ++ (e ++ drop (length b + length e) (b ++ room)) ≡ b ++ e
pack_into_end b room e h =
    let end : length (b ++ room) ≡ length b + length e = omega (arith, length-append b room) in
    rw (
      take-append b room (length b) refl,
      drop_all (b ++ room) (length b + length e) end,
      append-nil,
    )

-- The types without a mask, and those with one.
pub plain_mask : (t : IntType) → is_flipped t ≡ false → ((int_serde t).xor_mask == 0) ≡ true
unfolding int_serde
plain_mask int8 h = refl
plain_mask int16 h = cc
plain_mask int32 h = cc
plain_mask int64 h = cc
plain_mask int h = cc
plain_mask _ h = refl

pub flipped_mask : (t : IntType) → is_flipped t ≡ true → ((int_serde t).xor_mask == 0) ≡ false
unfolding int_serde
flipped_mask int16 h = refl
flipped_mask int32 h = refl
flipped_mask int64 h = refl
flipped_mask int h = refl
flipped_mask _ h = cc

pub plain-Packs :
    (t : IntType) (v : ℤ)
    → is_flipped t ≡ false
    → InRange t v
    → Packs (pack (int_serde t).unsigned_fmt) (unpack (int_serde t).signed_fmt) (int_serde t).size v
unfolding wire_value field_value be_bytes
plain-Packs t v f h =
    let mask = plain_mask t f in
    record {
      code = be_bytes (width t) (wire_code t v);
      code_length = rw (size-width t, length-be_bytes (width t) (wire_code t v));
      packed = rw mask at (wire_value-code t v h);
      unpacked = rw mask at (rw append-nil at (field_value-code t v [] h));
    }

if_swap : (a b : ℕ) (x y : ℤ) → (if ltb a b then x else y) ≡ (if leb b a then y else x)
if_swap a b x y = ground arith

-- IntListSerde reads one element as IntSerde does.
unflipped_element-field_value :
    (s : IntSerde) (bytes : Bytes)
    → (s.xor_mask == 0) ≡ false
    → length bytes ≡ s.size
    → unflipped_element s bytes ≡ field_value s bytes
unfolding unflipped_element field_value
unflipped_element-field_value s bytes mask size =
    let whole : take s.size bytes ≡ bytes = rw append-nil at (take-append bytes [] s.size size) in
    let v = bit_xor (be_number bytes) s.xor_mask in
    rw (mask, whole) (if_swap v (2 ^ (s.size * 8 - 1)) (pos v) (sub_ℕ v (2 ^ (s.size * 8))))

pub flipped-Packs :
    (t : IntType) (v : ℤ)
    → is_flipped t ≡ true
    → InRange t v
    → Packs
        (λ u. pack (int_serde t).unsigned_fmt (flipped_element (int_serde t) u))
        (unflipped_element (int_serde t))
        (int_serde t).size
        v
unfolding wire_value be_bytes flipped_element
flipped-Packs t v f h =
    let mask = flipped_mask t f in
    let c = be_bytes (width t) (wire_code t v) in
    let size : length c ≡ (int_serde t).size =
      rw (size-width t, length-be_bytes (width t) (wire_code t v)) in
    record {
      code = c;
      code_length = size;
      packed = rw mask at (wire_value-code t v h);
      unpacked =
          unflipped_element-field_value _ _ mask size
          ∙ rw append-nil at (field_value-code t v [] h);
    }
