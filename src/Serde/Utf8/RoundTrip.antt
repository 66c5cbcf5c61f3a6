-- ===== src/Serde/Utf8/RoundTrip.antt =====
-- Decoding gives back the text that was encoded.
use pyservicelib.Base.{
  ℕ, ◌+◌, ◌/◌, ◌%◌, ◌<◌, ◌≡◌, refl, inl, inr, true, false, List, [], ◌∷◌, ◌++◌, arith, ltb, length,
  length-append, Bool-cases, if◌then◌else◌, Result, ok, err, ◌>>=◌,
}
use pyservicelib.Serde.Struct.{Bytes}
use pyservicelib.Serde.Utf8.{
  is_surrogate, encode_char, encode, idle, more, feed, decode_from, decode,
}

-- A code point that a text may hold: not a surrogate, and below 0x110000.
abbrev pub IsScalar : ℕ → Type 0
IsScalar c = (is_surrogate c ≡ false) × (c < 0x110000)

abbrev pub AllScalar : List ℕ → Type 0
AllScalar [] = Unit {0}
AllScalar (c ∷ cs) = IsScalar c × AllScalar cs

-- The number of bytes.
abbrev pub char_length : ℕ → ℕ
char_length c = if ltb c 0x80 then 1 else if ltb c 0x800 then 2 else if ltb c 0x10000 then 3 else 4

abbrev pub text_length : List ℕ → ℕ
text_length [] = 0
text_length (c ∷ cs) = char_length c + text_length cs

abbrev CharRoundTrip : ℕ → Bytes → Type 0
CharRoundTrip c rest =
    (e : Bytes) × (encode_char c ≡ ok e)
    × (length e ≡ char_length c)
    × (decode_from idle (e ++ rest) ≡ (decode_from idle rest >>= λ cs. ok (c ∷ cs)))

bind-ok : (m : Result (List ℕ)) → (m >>= λ cs. ok cs) ≡ m
bind-ok (ok cs) = refl
bind-ok (err e) = refl

two_bytes : (c : ℕ) (rest : Bytes) → ltb c 0x80 ≡ false → ltb c 0x800 ≡ true → CharRoundTrip c rest
unfolding encode_char decode_from
two_bytes c rest big small =
    let first : feed idle (0xc0 + c / 64) ≡ ok ([], more 0 (c / 64) 0x80) =
      unfold feed in ground arith in
    let last : feed (more 0 (c / 64) 0x80) (0x80 + c % 64) ≡ ok (c ∷ [], idle) =
      unfold feed in ground arith in
    ((0xc0 + c / 64) ∷ (0x80 + c % 64) ∷ [], ground arith, ground arith, rw (first, last, bind-ok))

three_bytes :
    (c : ℕ) (rest : Bytes)
    → ltb c 0x800 ≡ false
    → ltb c 0x10000 ≡ true
    → is_surrogate c ≡ false
    → CharRoundTrip c rest
unfolding encode_char decode_from
three_bytes c rest big small s =
    let first : feed idle (0xe0 + c / 4096) ≡ ok ([], more 1 (c / 4096) 0x800) =
      unfold feed in ground arith in
    let next : feed (more 1 (c / 4096) 0x800) (0x80 + c / 64 % 64)
        ≡ ok ([], more 0 (c / 64) 0x800) =
      unfold feed in ground arith in
    let last : feed (more 0 (c / 64) 0x800) (0x80 + c % 64) ≡ ok (c ∷ [], idle) =
      unfold feed in ground arith in
    (
      (0xe0 + c / 4096) ∷ (0x80 + c / 64 % 64) ∷ (0x80 + c % 64) ∷ [],
      ground arith,
      ground arith,
      rw (first, next, last) (simp bind-ok),
    )

four_bytes : (c : ℕ) (rest : Bytes) → ltb c 0x10000 ≡ false → c < 0x110000 → CharRoundTrip c rest
unfolding encode_char decode_from
four_bytes c rest big small =
    let first : feed idle (0xf0 + c / 262144) ≡ ok ([], more 2 (c / 262144) 0x10000) =
      unfold feed in ground arith in
    let next : feed (more 2 (c / 262144) 0x10000) (0x80 + c / 4096 % 64)
        ≡ ok ([], more 1 (c / 4096) 0x10000) =
      unfold feed in ground arith in
    let third : feed (more 1 (c / 4096) 0x10000) (0x80 + c / 64 % 64)
        ≡ ok ([], more 0 (c / 64) 0x10000) =
      unfold feed in ground arith in
    let last : feed (more 0 (c / 64) 0x10000) (0x80 + c % 64) ≡ ok (c ∷ [], idle) =
      unfold feed in ground arith in
    (
      (0xf0 + c / 262144) ∷ (0x80 + c / 4096 % 64) ∷ (0x80 + c / 64 % 64) ∷ (0x80 + c % 64) ∷ [],
      ground arith,
      ground arith,
      rw (first, next, third, last) (simp bind-ok),
    )

one_byte : (c : ℕ) (rest : Bytes) → ltb c 0x80 ≡ true → CharRoundTrip c rest
unfolding encode_char decode_from
one_byte c rest small =
    let first : feed idle c ≡ ok (c ∷ [], idle) = unfold feed in ground arith in
    (c ∷ [], ground arith, ground arith, rw first)

char_round_trip : (c : ℕ) (rest : Bytes) → IsScalar c → CharRoundTrip c rest
char_round_trip c rest (s, bound) = elim (Bool-cases (ltb c 0x80)) [
  | inl one ↦ one_byte c rest one
  | inr big ↦ elim (Bool-cases (ltb c 0x800)) [
    | inl two ↦ two_bytes c rest big two
    | inr big' ↦ elim (Bool-cases (ltb c 0x10000)) [
      | inl three ↦ three_bytes c rest big' three s
      | inr four ↦ four_bytes c rest four bound
    ]
  ]
]

-- Every text without surrogates is encoded in the expected number of bytes, and decoded back.
pub decode-encode :
    (cs : List ℕ)
    → AllScalar cs
    → (e : Bytes) × (encode cs ≡ ok e) × (length e ≡ text_length cs) × (decode e ≡ ok cs)
unfolding encode decode decode_from
decode-encode [] h = ([], refl, refl, refl)
decode-encode (c ∷ cs) (h, hs) =
    let (rest, encoded, size, decoded) = decode-encode cs hs in
    let (e, encoded_char, size_char, step) = char_round_trip c rest h in
    (e ++ rest, rw (encoded_char, encoded), omega (arith, length-append e rest), rw (step, decoded))
