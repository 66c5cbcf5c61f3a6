-- ===== src/Serde/Utf8.antt =====
-- What the codec uses of Python's text: `str.encode('utf-8')` and `bytes.decode('utf-8')`, both
-- strict. A text is the list of its code points.
pub mod RoundTrip
use pyservicelib.Base.{
  ℕ, zero, suc, ◌+◌, ◌-◌, ◌*◌, ◌/◌, ◌%◌, Bool, List, [], ◌∷◌, ◌++◌, ◌&&◌, ◌||◌, not, ltb, leb,
  if◌then◌else◌, Result, ok, err, unicode_error, ◌>>=◌,
}
use pyservicelib.Serde.Struct.{Bytes}

abbrev pub is_surrogate : ℕ → Bool
is_surrogate c = leb 0xd800 c && ltb c 0xe000

-- The bytes of one code point; a surrogate has none.
pub encode_char : ℕ → Result Bytes
encode_char c =
    if ltb c 0x80
    then ok (c ∷ [])
    else if ltb c 0x800
    then ok ((0xc0 + c / 64) ∷ (0x80 + c % 64) ∷ [])
    else if is_surrogate c
    then err unicode_error
    else if ltb c 0x10000
    then ok ((0xe0 + c / 4096) ∷ (0x80 + c / 64 % 64) ∷ (0x80 + c % 64) ∷ [])
    else if ltb c 0x110000
    then ok
        ((0xf0 + c / 262144) ∷ (0x80 + c / 4096 % 64) ∷ (0x80 + c / 64 % 64) ∷ (0x80 + c % 64) ∷ [])
    else err unicode_error

pub encode : List ℕ → Result Bytes
encode [] = ok []
encode (c ∷ cs) = do bytes ← encode_char c; rest ← encode cs; ok (bytes ++ rest)

-- Between two characters, or in one: the bytes still to come after the next one, the bits read so
-- far, and the least code point that takes so many bytes.
pub data Pending : Type 0 where
  idle : Pending
  more : ℕ → ℕ → ℕ → Pending

abbrev first_byte : ℕ → Result (List ℕ × Pending)
first_byte b =
    if ltb b 0x80
    then ok (b ∷ [], idle)
    else if ltb b 0xc2
    then err unicode_error
    else if ltb b 0xe0
    then ok ([], more 0 (b - 0xc0) 0x80)
    else if ltb b 0xf0
    then ok ([], more 1 (b - 0xe0) 0x800)
    else if ltb b 0xf5
    then ok ([], more 2 (b - 0xf0) 0x10000)
    else err unicode_error

abbrev last_byte : ℕ → ℕ → Result (List ℕ × Pending)
last_byte c low =
    if leb low c && not (is_surrogate c) && ltb c 0x110000
    then ok (c ∷ [], idle)
    else err unicode_error

abbrev next_byte : ℕ → ℕ → ℕ → Result (List ℕ × Pending)
next_byte zero c low = last_byte c low
next_byte (suc k) c low = ok ([], more k c low)

pub feed : Pending → ℕ → Result (List ℕ × Pending)
feed idle b = first_byte b
feed (more k bits low) b =
    if leb 0x80 b && ltb b 0xc0 then next_byte k (bits * 64 + (b - 0x80)) low else err unicode_error

pub decode_from : Pending → Bytes → Result (List ℕ)
unfolding feed
decode_from idle [] = ok []
decode_from (more k bits low) [] = err unicode_error
decode_from p (b ∷ bs) = feed p b >>= λ (out, q). decode_from q bs >>= λ cs. ok (out ++ cs)

pub decode : Bytes → Result (List ℕ)
unfolding decode_from
decode = decode_from idle
