-- ===== src/Midx/Words.antt =====
-- The first 32 bits of an oid as a number, in the order of the oids.
use native.Mathlib.Nat.{
  one-le-pow, div-lt_iff_lt-mul, div-mul-le_self, lt-div-mul-add, pow-suc, add-suc, add-zero,
  mul_assoc,
}
use bup.Base.{
  ℕ, zero, suc, ◌+◌, ◌-◌, ◌*◌, ◌/◌, ◌^◌, ◌≤◌, ◌<◌, ◌≡◌, refl, ap, ◌∙◌, arith, true, false, ltb,
  ◌||◌, ◌==◌, List, [], ◌∷◌, length, All,
}
use bup.Base.Bits.{and_mask}
use bup.Base.Lex.{bytes_lt}
use bup.Base.Error.{ok}
use bup.Midx.{firstword, extract_bits}

abbrev pub IsByte : ℕ → Type 0
IsByte b = b < 256

-- An oid: 20 bytes.
abbrev pub IsOid : List ℕ → Type 0
IsOid oid = (length oid ≡ 20) × All IsByte oid

unfoldable pub word : List ℕ → ℕ
word (a ∷ b ∷ c ∷ d ∷ buf) = ((a * 256 + b) * 256 + c) * 256 + d
word _ = 0

pub firstword-eq-word : (oid : List ℕ) → IsOid oid → firstword oid ≡ ok (word oid)
unfolding firstword word
firstword-eq-word (a ∷ b ∷ c ∷ d ∷ buf) h = refl
firstword-eq-word [] h = absurd (omega arith)
firstword-eq-word (a ∷ []) h = absurd (omega arith)
firstword-eq-word (a ∷ b ∷ []) h = absurd (omega arith)
firstword-eq-word (a ∷ b ∷ c ∷ []) h = absurd (omega arith)

pub word_bound : (oid : List ℕ) → IsOid oid → word oid < 2 ^ 32
unfolding word
word_bound (a ∷ b ∷ c ∷ d ∷ buf) h = omega arith
word_bound [] h = absurd (omega arith)
word_bound (a ∷ []) h = absurd (omega arith)
word_bound (a ∷ b ∷ []) h = absurd (omega arith)
word_bound (a ∷ b ∷ c ∷ []) h = absurd (omega arith)

-- An oid that is less has no greater first word.
pub word_mono : (x y : List ℕ) → IsOid x → IsOid y → bytes_lt x y ≡ true → word x ≤ word y
unfolding word bytes_lt
word_mono (a ∷ b ∷ c ∷ d ∷ x) (a' ∷ b' ∷ c' ∷ d' ∷ y) hx hy h = ground arith
word_mono [] y hx hy h = absurd (omega arith)
word_mono (a ∷ []) y hx hy h = absurd (omega arith)
word_mono (a ∷ b ∷ []) y hx hy h = absurd (omega arith)
word_mono (a ∷ b ∷ c ∷ []) y hx hy h = absurd (omega arith)
word_mono (a ∷ b ∷ c ∷ d ∷ x) [] hx hy h = absurd (omega arith)
word_mono (a ∷ b ∷ c ∷ d ∷ x) (a' ∷ []) hx hy h = absurd (omega arith)
word_mono (a ∷ b ∷ c ∷ d ∷ x) (a' ∷ b' ∷ []) hx hy h = absurd (omega arith)
word_mono (a ∷ b ∷ c ∷ d ∷ x) (a' ∷ b' ∷ c' ∷ []) hx hy h = absurd (omega arith)

two_pow_add : (a b : ℕ) → 2 ^ (a + b) ≡ 2 ^ a * 2 ^ b
two_pow_add a zero = rw add-zero (omega arith)
two_pow_add a (suc b) =
    rw (add-suc a b, pow-suc 2 (a + b), pow-suc 2 b, two_pow_add a b) (mul_assoc (2 ^ a) (2 ^ b) 2)

-- The fanout slot of an oid.
unfoldable pub slot : List ℕ → ℕ → ℕ
slot oid bits = word oid / 2 ^ (32 - bits)

pub slot_bound : (oid : List ℕ) (bits : ℕ) → IsOid oid → bits ≤ 32 → slot oid bits < 2 ^ bits
unfolding slot
slot_bound oid bits h small =
    (div-lt_iff_lt-mul (one-le-pow (32 - bits) 2 (omega arith))).1
      (rw (← two_pow_add bits (32 - bits), up) (word_bound oid h))
  where
    up : bits + (32 - bits) ≡ 32
    up = omega arith

pub extract_bits-eq-slot :
    (oid : List ℕ) (bits : ℕ)
    → IsOid oid
    → 1 ≤ bits
    → bits ≤ 30
    → extract_bits oid bits ≡ ok (slot oid bits)
unfolding extract_bits
extract_bits-eq-slot oid bits h some_bits few_bits =
    let defined : (bits == 0 || ltb 30 bits) ≡ false = ground arith in
    rw (firstword-eq-word oid h, defined)
      (ap ok (
          and_mask bits (word oid / 2 ^ (32 - bits))
            (unfold slot in slot_bound oid bits h (omega arith)))
        ∙ unfold slot in refl)

pub slot_range :
    (oid : List ℕ) (bits : ℕ)
    → (slot oid bits * 2 ^ (32 - bits) ≤ word oid)
      × (word oid < (slot oid bits + 1) * 2 ^ (32 - bits))
unfolding slot
slot_range oid bits =
    let place : 0 < 2 ^ (32 - bits) = one-le-pow (32 - bits) 2 (omega arith) in
    (
      div-mul-le_self (word oid) (2 ^ (32 - bits)),
      omega (arith, lt-div-mul-add {a = word oid} place),
    )
