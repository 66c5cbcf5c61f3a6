-- ===== src/Serde/Ints/Order.antt =====
-- The bytes of the integer types are in the order of the numbers, as Python compares `bytes`.
use native.Mathlib.Nat.{div-add-mod', mod-lt}
use native.Mathlib.Decide.{dec_lt}
use pyservicelib.Base.{
  ℕ, zero, suc, ◌*◌, ◌/◌, ◌%◌, ◌^◌, ◌≤◌, ◌<◌, ◌≡◌, ◌≢◌, ◌⊎◌, inl, inr, ◌↔◌, refl, ap, [], ◌∷◌,
  arith, ok,
}
use pyservicelib.Base.Int.{ℤ, pos, negsuc, ◌<ℤ◌}
use pyservicelib.Serde.Struct.{Bytes, be_bytes}
use pyservicelib.Serde.Struct.Laws.{pow256-pos}
use pyservicelib.Serde.Ints.{IntType, int8, int_serde, serialize}
use pyservicelib.Serde.Ints.Codes.{width, InRange, wire_code, wire_code-lt}
use pyservicelib.Serde.Ints.RoundTrip.{serialize-code}

-- `bytes` compare by the first place where they differ, and a proper prefix is smaller.
abbrev pub LexLt : Bytes → Bytes → Type 0
LexLt [] [] = ⊥
LexLt [] (y ∷ ys) = Unit {0}
LexLt (x ∷ xs) [] = ⊥
LexLt (x ∷ xs) (y ∷ ys) = (x < y) ⊎ ((x ≡ y) × LexLt xs ys)

LexLt-asymm : (xs ys : Bytes) → LexLt xs ys → ¬ LexLt ys xs
LexLt-asymm [] [] h k = h
LexLt-asymm [] (y ∷ ys) h k = k
LexLt-asymm (x ∷ xs) [] h k = h
LexLt-asymm (x ∷ xs) (y ∷ ys) h k = ground (arith, LexLt-asymm xs ys)

high_digits_mono : (m n p : ℕ) → 0 < p → m < n → m / p ≤ n / p
high_digits_mono m n p h lt =
    grind (arith, div-add-mod' m p, div-add-mod' n p, mod-lt m h, mod-lt n h)

be_bytes-LexLt : (w m n : ℕ) → n < 256 ^ w → m < n → LexLt (be_bytes w m) (be_bytes w n)
unfolding be_bytes
be_bytes-LexLt zero m n h lt = omega arith
be_bytes-LexLt (suc w) m n h lt = elim (dec_lt (m / 256 ^ w) (n / 256 ^ w)) [
  | yes smaller ↦ inl smaller
  | no level ↦
      let same : m / 256 ^ w ≡ n / 256 ^ w =
        omega (arith, high_digits_mono m n (256 ^ w) (pow256-pos w) lt) in
      inr (
        same,
        be_bytes-LexLt w (m % 256 ^ w) (n % 256 ^ w) (mod-lt n (pow256-pos w)) (
            omega (
              arith,
              ap (λ (t : ℕ). t * 256 ^ w) same,
              div-add-mod' m (256 ^ w),
              div-add-mod' n (256 ^ w),
            )),
      )
]

LexLt-irrefl : (xs : Bytes) → ¬ LexLt xs xs
LexLt-irrefl xs h = LexLt-asymm xs xs h h

be_bytes-LexLt_iff :
    (w m n : ℕ) → m < 256 ^ w → n < 256 ^ w → (m < n) ↔ LexLt (be_bytes w m) (be_bytes w n)
be_bytes-LexLt_iff w m n hm hn = (be_bytes-LexLt w m n hn, back)
  where
    back : LexLt (be_bytes w m) (be_bytes w n) → m < n
    back h = elim (dec_lt m n) [
      | yes lt ↦ lt
      | no le ↦ elim (dec_lt n m) [
        | yes gt ↦ absurd (LexLt-asymm _ _ h (be_bytes-LexLt w n m hm gt))
        | no ge ↦ let e : m ≡ n = omega arith in absurd (LexLt-irrefl (be_bytes w n) (rw e at h))
      ]
    ]

wire_code_mono :
    (t : IntType) (v u : ℤ)
    → t ≢ int8
    → InRange t v
    → InRange t u
    → (v <ℤ u) ↔ (wire_code t v < wire_code t u)
wire_code_mono int8 v u no8 hv hu = absurd (no8 refl)
wire_code_mono t (pos n) (pos m) no8 hv hu = omega arith
wire_code_mono t (pos n) (negsuc m) no8 hv hu = omega arith
wire_code_mono t (negsuc n) (pos m) no8 hv hu = omega arith
wire_code_mono t (negsuc n) (negsuc m) no8 hv hu = omega arith

-- For every integer type but int8, two values in range compare as their bytes do.
pub serialize-LexLt :
    (t : IntType) (v u : ℤ)
    → t ≢ int8
    → InRange t v
    → InRange t u
    → (e f : Bytes) × (serialize (int_serde t) v [] ≡ ok e)
      × (serialize (int_serde t) u [] ≡ ok f)
      × ((v <ℤ u) ↔ LexLt e f)
serialize-LexLt t v u no8 hv hu = (
  be_bytes (width t) (wire_code t v),
  be_bytes (width t) (wire_code t u),
  serialize-code t v [] hv,
  serialize-code t u [] hu,
  let codes =
        be_bytes-LexLt_iff (width t) (wire_code t v) (wire_code t u) (wire_code-lt t v hv)
          (wire_code-lt t u hu) in
      let order = wire_code_mono t v u no8 hv hu in
      (λ h. codes.0 (order.0 h), λ h. order.1 (codes.1 h)),
)
