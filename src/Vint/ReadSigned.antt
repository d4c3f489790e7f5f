-- ===== src/Vint/ReadSigned.antt =====
-- `read_vint` of lib/bup/vint.py reads what `encode_vint` writes.
use bup.Base.{
  ℕ, suc, ◌+◌, ◌/◌, ◌%◌, ◌≡◌, refl, ◌∙◌, inl, inr, arith, some, List, [], ◌∷◌, ◌++◌, ◌==◌, not,
  if◌then◌else◌, Bool-cases, Bool, true, false, bit_and, bit_or, ap,
}
use bup.Base.Bits.{and_0x80, and_0x3f, and_0x40, zero-or}
use bup.Base.Int.{ℤ, pos, negsuc, abs}
use bup.Base.Error.{ok, ◌>>=◌}
use bup.Vint.{encode_vint, read_vint, read_vint_rest, signed}
use bup.Vint.Groups.{groups, read_from, read_from-groups}
use bup.Vint.Unsigned.{vuint_bytes, vuint_bytes-rounds}
use bup.Vint.Signed.{
  IsEncodable, is_negative, first_byte, vint_bytes, vint_bytes_short, vint_bytes_long,
  encode_vint_lem,
}

-- The first byte `b`, with the top bit `t` or without, read back.
record IsFirst (negative : Bool) (m : ℕ) (last : Bool) (b : ℕ) : Type 0 where
  top : (bit_and b 0x80 == 0) ≡ last
  sign : not (bit_and b 0x40 == 0) ≡ negative
  six : bit_or 0 (bit_and b 0x3f) ≡ m % 64

first_byte-IsFirst : (negative : Bool) (m : ℕ) → IsFirst negative m true (first_byte negative m)
unfolding first_byte
first_byte-IsFirst true m = record {
  top = ground (arith, and_0x80 (m % 64 + 64));
  sign = ground (arith, and_0x40 (m % 64 + 64));
  six = zero-or _ ∙ omega (arith, and_0x3f (m % 64 + 64));
}
first_byte-IsFirst false m = record {
  top = ground (arith, and_0x80 (m % 64 + 0));
  sign = ground (arith, and_0x40 (m % 64 + 0));
  six = zero-or _ ∙ omega (arith, and_0x3f (m % 64 + 0));
}

first_byte_more-IsFirst :
    (negative : Bool) (m : ℕ) → IsFirst negative m false (first_byte negative m + 128)
unfolding first_byte
first_byte_more-IsFirst true m = record {
  top = ground (arith, and_0x80 (m % 64 + 64 + 128));
  sign = ground (arith, and_0x40 (m % 64 + 64 + 128));
  six = zero-or _ ∙ omega (arith, and_0x3f (m % 64 + 64 + 128));
}
first_byte_more-IsFirst false m = record {
  top = ground (arith, and_0x80 (m % 64 + 0 + 128));
  sign = ground (arith, and_0x40 (m % 64 + 0 + 128));
  six = zero-or _ ∙ omega (arith, and_0x3f (m % 64 + 0 + 128));
}

read_vint_step :
    (negative : Bool) (m : ℕ) (last : Bool) (b : ℕ) (port : List ℕ)
    → IsFirst negative m last b
    → read_vint (b ∷ port) ≡ (
        if last
        then ok (some (signed negative (m % 64)), port)
        else read_vint_rest port negative (m % 64))
unfolding read_vint
read_vint_step negative m last b port f = rw (f.top, f.sign, f.six)

signed-abs : (x : ℤ) → signed (is_negative x) (abs x) ≡ x
unfolding signed
signed-abs (pos n) = refl
signed-abs (negsuc n) = refl

read_vint_rest_lem :
    (port rest : List ℕ) (negative : Bool) (result x : ℕ)
    → read_from port result 6 ≡ ok (x, rest)
    → read_vint_rest port negative result ≡ ok (some (signed negative x), rest)
unfolding read_vint_rest
read_vint_rest_lem [] rest negative result x e = cc
read_vint_rest_lem (c ∷ port) rest negative result x e = rw e

read_vint-vint_bytes :
    (negative : Bool) (m : ℕ) (port : List ℕ)
    → read_vint (vint_bytes negative m ++ port) ≡ ok (some (signed negative m), port)
read_vint-vint_bytes negative m port = elim (Bool-cases (m / 64 == 0)) [
  | inl short ↦
      let whole : m % 64 ≡ m = ground arith in
      rw
        (
          vint_bytes_short negative m short,
          read_vint_step negative m true _ port (first_byte-IsFirst negative m),
        )
        (rw whole)
  | inr long ↦
      let (f, e, h) = vuint_bytes-rounds (m / 64) in
      rw
        (
          vint_bytes_long negative m long,
          read_vint_step negative m false _ (vuint_bytes (m / 64) ++ port)
              (first_byte_more-IsFirst negative m),
          e,
        )
        (read_vint_rest_lem (groups (suc f) (m / 64) ++ port) port negative (m % 64) m (
          read_from-groups f (m / 64) (m % 64) 6 port h (omega arith)
          ∙ ap (λ (t : ℕ). ok (t, port)) (omega arith)))
]

pub read_vint-written :
    (x : ℤ) (port : List ℕ)
    → read_vint (vint_bytes (is_negative x) (abs x) ++ port) ≡ ok (some x, port)
read_vint-written x port =
    read_vint-vint_bytes (is_negative x) (abs x) port
    ∙ ap (λ (t : ℤ). ok (some t, port)) (signed-abs x)

-- read_vint returns the integer that encode_vint encoded, sign included, and leaves what follows
-- its bytes, for an absolute value below 2^55 or from 2^69 on.
pub read_vint-encode_vint :
    (x : ℤ) (port : List ℕ)
    → IsEncodable x
    → (do bytes ← encode_vint x; read_vint (bytes ++ port)) ≡ ok (some x, port)
read_vint-encode_vint x port h = rw (encode_vint_lem x h) (read_vint-written x port)
