-- ===== src/Serde/Sequences/Laws.antt =====
-- What the loops write and read, from what each element writes and reads.
use pyservicelib.Base.{
  ℕ, ◌+◌, ◌*◌, ◌^◌, ◌<◌, ◌≡◌, refl, List, [], ◌∷◌, ◌++◌, arith, length, length-append, append_assoc,
  append-nil, take-append, drop-append, All, sum_of, Result, ok,
}
use pyservicelib.Serde.Struct.{Bytes, be_bytes}
use pyservicelib.Serde.Struct.Laws.{length-be_bytes}
use pyservicelib.Serde.Framing.Laws.{read_sized_lem}
use pyservicelib.Serde.Sequences.{pack_many, unpack_many, write_all, read_all}

module _ {A : Type 0} where
  -- An element that `struct` packs into `width` bytes, and unpacks from them.
  pub record Packs (pack_one : A → Result Bytes) (unpack_one : Bytes → A) (width : ℕ) (x : A)
      : Type 0 where
    pub code : Bytes
    pub code_length : length code ≡ width
    pub packed : pack_one x ≡ ok code
    pub unpacked : unpack_one code ≡ x

  -- An element that is written behind its size, and read from its own bytes.
  pub record Frames (write_one : A → Bytes → Result Bytes) (read_one : Bytes → Result A)
      (size : A → ℕ) (x : A) : Type 0 where
    pub code : Bytes
    pub code_length : length code ≡ size x
    pub small : length code < 2 ^ 64
    pub written : (b : Bytes) → write_one x b ≡ ok (b ++ (be_bytes 8 (length code) ++ code))
    pub read : read_one code ≡ ok x

module _ {A : Type 0} (pack_one : A → Result Bytes) (unpack_one : Bytes → A) (width : ℕ) where
  pub unpack_many-pack_many :
      (xs : List A)
      → All (Packs pack_one unpack_one width) xs
      → (e : Bytes) × (pack_many pack_one xs ≡ ok e)
        × (length e ≡ length xs * width)
        × ((rest : Bytes) → unpack_many width unpack_one (length xs) (e ++ rest) ≡ xs)
  unfolding pack_many unpack_many
  unpack_many-pack_many [] h = ([], refl, omega arith, λ rest. refl)
  unpack_many-pack_many (x ∷ xs) (p, ps) =
      let (e, packed, size, unpacked) = unpack_many-pack_many xs ps in
      let c = p.code in
      (
        c ++ e,
        rw (p.packed, packed),
        omega (arith, length-append c e, p.code_length),
        λ rest. rw (
          append_assoc,
          take-append c (e ++ rest) width p.code_length,
          drop-append c (e ++ rest) width p.code_length,
          p.unpacked,
          unpacked rest,
        ),
      )

module _ {A : Type 0} (write_one : A → Bytes → Result Bytes) (read_one : Bytes → Result A)
    (size : A → ℕ) where
  pub read_all-write_all :
      (xs : List A)
      → All (Frames write_one read_one size) xs
      → (e : Bytes) × (length e ≡ sum_of (λ x. 8 + size x) xs)
        × ((b : Bytes) → write_all write_one xs b ≡ ok (b ++ e))
        × ((rest : Bytes) → read_all read_one (length xs) (e ++ rest) ≡ ok xs)
  unfolding write_all read_all
  read_all-write_all [] h = ([], refl, λ b. rw append-nil, λ rest. refl)
  read_all-write_all (x ∷ xs) (f, fs) =
      let (e, total, written, read) = read_all-write_all xs fs in
      let c = f.code in
      let header = be_bytes 8 (length c) in
      (
        header ++ (c ++ e),
        omega (
          arith,
          length-append header (c ++ e),
          length-append c e,
          length-be_bytes 8 (length c),
          f.code_length,
        ),
        λ b. rw (f.written b, written (b ++ (header ++ c))) (simp append_assoc),
        λ rest. simp append_assoc (rw (read_sized_lem c (e ++ rest) f.small, f.read, read rest)),
      )
