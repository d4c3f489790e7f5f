-- ===== src/Vint/Signed.antt =====
-- `encode_vint` of lib/bup/vint.py, through the C encoder where that is used.
use bup.Base.{
  ℕ, zero, suc, ◌+◌, ◌/◌, ◌%◌, ◌^◌, ◌≤◌, ◌<◌, ◌≡◌, refl, ◌∙◌, ◌⊎◌, inl, inr, arith, List, [], ◌∷◌,
  ltb, ◌==◌, ==_iff, ◌-◌, if◌then◌else◌, Bool-cases, Bool, true, false, bit_and, bit_or, ap,
}
use bup.Base.Bits.{and_0x3f, or_0x80, or_0x40, or_0}
use bup.Base.Int.{ℤ, pos, negsuc, abs}
use bup.Base.Error.{Result, ok, undefined}
use bup.Vint.{
  fits_long_long, in_buffer, or_on_overflow, vint_encode_abs, vint_encode, bup_vint_encode,
  encode_big_vint, encode_big_vint_abs, encode_vint,
}
use bup.Vint.Groups.{groups, vint_encode_loop-eq-groups, vint_encode_loop-zero, length-groups}
use bup.Vint.Unsigned.{vuint_bytes, vuint_bytes_small, encode_vuint_branches}

-- The integers that `encode_vint` encodes.
abbrev pub IsEncodable : ℤ → Type 0
IsEncodable x = (abs x < 2 ^ 55) ⊎ (2 ^ 69 ≤ abs x)

abbrev pub is_negative : ℤ → Bool
is_negative (pos n) = false
is_negative (negsuc n) = true

abbrev pub sign_bit : Bool → ℕ
sign_bit negative = if negative then 64 else 0

-- Six bits and the sign in the first byte, then groups of seven bits.
unfoldable pub vint_bytes : Bool → ℕ → List ℕ
vint_bytes negative m =
    if m / 64 == 0
    then (m % 64 + sign_bit negative) ∷ []
    else (m % 64 + sign_bit negative + 128) ∷ vuint_bytes (m / 64)

with_sign :
    (negative : Bool) (m : ℕ)
    → bit_or (bit_and m 0x3f) (sign_bit negative) ≡ m % 64 + sign_bit negative
with_sign true m = rw (and_0x3f m) (or_0x40 (m % 64) (omega arith))
with_sign false m = rw (and_0x3f m) (or_0 (m % 64) (omega arith) ∙ omega arith)

-- The first byte of a vint.
unfoldable pub first_byte : Bool → ℕ → ℕ
first_byte negative m = m % 64 + sign_bit negative

pub first_byte-lt : (negative : Bool) (m : ℕ) → first_byte negative m < 128
unfolding first_byte
first_byte-lt true m = omega arith
first_byte-lt false m = omega arith

pub vint_bytes_short :
    (negative : Bool) (m : ℕ)
    → (m / 64 == 0) ≡ true
    → vint_bytes negative m ≡ first_byte negative m ∷ []
unfolding vint_bytes first_byte
vint_bytes_short negative m short = rw short

pub vint_bytes_long :
    (negative : Bool) (m : ℕ)
    → (m / 64 == 0) ≡ false
    → vint_bytes negative m ≡ (first_byte negative m + 128) ∷ vuint_bytes (m / 64)
unfolding vint_bytes first_byte
vint_bytes_long negative m long = rw long

with_sign_lem :
    (negative : Bool) (m : ℕ) → bit_or (bit_and m 0x3f) (sign_bit negative) ≡ first_byte negative m
unfolding first_byte
with_sign_lem = with_sign

vint_encode_abs_lem :
    (negative : Bool) (m : ℕ)
    → m < 2 ^ 63
    → vint_encode_abs (sign_bit negative) m ≡ vint_bytes negative m
unfolding vint_encode_abs
vint_encode_abs_lem negative m h = elim (Bool-cases (m / 64 == 0)) [
  | inl short ↦
      rw (short, vint_bytes_short negative m short)
        (ground (arith, with_sign_lem negative m, vint_encode_loop-zero 64))
  | inr long ↦
      rw (long, vint_bytes_long negative m long)
        (ground (
          arith,
          with_sign_lem negative m,
          or_0x80 (first_byte negative m) (first_byte-lt negative m),
          vint_encode_loop-eq-groups 64 (m / 64) (ground arith),
          vuint_bytes_small (m / 64) (omega arith),
        ))
]

in_buffer_long :
    (b q : ℕ)
    → q < 2 ^ 63
    → in_buffer (b ∷ groups 64 q) ≡ (if ltb q (2 ^ 49) then ok (b ∷ groups 64 q) else undefined)
unfolding in_buffer
in_buffer_long b q h = ground (arith, length-groups 6 64 q)

in_buffer_short : (b : ℕ) → in_buffer (b ∷ []) ≡ ok (b ∷ [])
unfolding in_buffer
in_buffer_short b = refl

in_buffer-vint_bytes :
    (negative : Bool) (m : ℕ)
    → m < 2 ^ 63
    → in_buffer (vint_bytes negative m)
      ≡ (if ltb m (2 ^ 55) then ok (vint_bytes negative m) else undefined)
in_buffer-vint_bytes negative m h = elim (Bool-cases (m / 64 == 0)) [
  | inl short ↦ rw (vint_bytes_short negative m short, in_buffer_short) (ground arith)
  | inr long ↦
      rw
        (
          vint_bytes_long negative m long,
          vuint_bytes_small (m / 64) (omega arith),
          in_buffer_long (first_byte negative m + 128) (m / 64) (omega arith),
        )
        (ground arith)
]

-- The branches of `encode_vint`, on the absolute value.
encoded : Bool → ℕ → Result (List ℕ)
encoded negative m =
    if ltb m (2 ^ 55)
    then ok (vint_bytes negative m)
    else if ltb m (2 ^ 69)
    then undefined
    else ok (vint_bytes negative m)

encode_big_vint_abs_lem :
    (negative : Bool) (m s : ℕ)
    → 2 ^ 63 ≤ m
    → s ≡ first_byte negative m
    → encode_big_vint_abs s m ≡ encoded negative m
unfolding encode_big_vint_abs encoded
encode_big_vint_abs_lem negative m s h e =
    rw
      (
        vint_bytes_long negative m (ground arith),
        e,
        or_0x80 (first_byte negative m) (first_byte-lt negative m),
        (encode_vuint_branches (m / 64) 0).0,
      )
      (ground arith)

encode_vint_small :
    (x : ℤ)
    → fits_long_long x ≡ true
    → vint_encode x ≡ ok (vint_bytes (is_negative x) (abs x))
    → abs x < 2 ^ 63
    → encode_vint x ≡ encoded (is_negative x) (abs x)
unfolding encode_vint bup_vint_encode or_on_overflow encoded
encode_vint_small x fits e h =
    rw (fits, e, in_buffer-vint_bytes (is_negative x) (abs x) h) (ground arith)

encode_vint_big :
    (x : ℤ)
    → fits_long_long x ≡ false
    → encode_big_vint x ≡ encoded (is_negative x) (abs x)
    → encode_vint x ≡ encoded (is_negative x) (abs x)
unfolding encode_vint bup_vint_encode or_on_overflow
encode_vint_big x big e = rw (big, e)

six_bits : (m : ℕ) → bit_and m 0x3f ≡ first_byte false m
unfolding first_byte
six_bits m = omega (arith, and_0x3f m)

encode_big_vint_lem : (x : ℤ) → 2 ^ 63 ≤ abs x → encode_big_vint x ≡ encoded (is_negative x) (abs x)
unfolding encode_big_vint
encode_big_vint_lem (pos zero) h = absurd (omega arith)
encode_big_vint_lem (pos (suc n)) h =
    encode_big_vint_abs_lem false (suc n) (bit_and (suc n) 0x3f) h (six_bits (suc n))
encode_big_vint_lem (negsuc n) h =
    encode_big_vint_abs_lem true (suc n) (bit_or (bit_and (suc n) 0x3f) 0x40) h
      (with_sign_lem true (suc n))

least_long_long : encode_vint (negsuc (2 ^ 63 - 1)) ≡ encoded true (2 ^ 63)
unfolding encode_vint bup_vint_encode or_on_overflow vint_encode fits_long_long encoded
least_long_long = refl

encoded_lem : (x : ℤ) → encode_vint x ≡ encoded (is_negative x) (abs x)
encoded_lem (pos n) = elim (Bool-cases (ltb n (2 ^ 63))) [
  | inl small ↦
      encode_vint_small (pos n) (unfold fits_long_long in small)
        (unfold vint_encode in ap ok (vint_encode_abs_lem false n (ground arith))) (ground arith)
  | inr big ↦
      encode_vint_big (pos n) (unfold fits_long_long in big)
        (encode_big_vint_lem (pos n) (ground arith))
]
encoded_lem (negsuc n) = elim (Bool-cases (ltb n (2 ^ 63))) [
  | inl small ↦ elim (Bool-cases (n == 2 ^ 63 - 1)) [
    | inl least ↦ rw ((==_iff _ _).0 least) least_long_long
    | inr other ↦
        encode_vint_small (negsuc n) (unfold fits_long_long in small)
          (unfold vint_encode in rw (other, vint_encode_abs_lem true (suc n) (ground arith)))
          (ground arith)
  ]
  | inr big ↦
      encode_vint_big (negsuc n) (unfold fits_long_long in big)
        (encode_big_vint_lem (negsuc n) (ground arith))
]

-- Every branch of encode_vint: an integer whose absolute value is below 2^55 or at least 2^69 is
-- encoded as its sign, six bits and groups of seven; between them the C encoder writes past its
-- buffer or negates the least long long, which is not defined.
pub encode_vint_branches :
    (x : ℤ)
    → encode_vint x ≡ (
        if ltb (abs x) (2 ^ 55)
        then ok (vint_bytes (is_negative x) (abs x))
        else if ltb (abs x) (2 ^ 69)
        then undefined
        else ok (vint_bytes (is_negative x) (abs x)))
unfolding encoded
encode_vint_branches = encoded_lem

pub encode_vint_lem :
    (x : ℤ) → IsEncodable x → encode_vint x ≡ ok (vint_bytes (is_negative x) (abs x))
unfolding encoded
encode_vint_lem x h = ground (arith, encoded_lem x)

-- The C encoder itself, for a caller that has room for the bytes.
pub vint_encode_lem :
    (x : ℤ) → abs x < 2 ^ 63 → vint_encode x ≡ ok (vint_bytes (is_negative x) (abs x))
unfolding vint_encode
vint_encode_lem (pos n) h = ap ok (vint_encode_abs_lem false n h)
vint_encode_lem (negsuc n) h =
    let other : (n == 2 ^ 63 - 1) ≡ false = ground arith in
    rw (other, vint_encode_abs_lem true (suc n) h)
