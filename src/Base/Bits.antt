-- ===== src/Base/Bits.antt =====
-- Masks and unions of bits as arithmetic, at every width.
use Prim.Native.Nat.{
  ℕ, zero, suc, ◌+◌, ◌-◌, ◌*◌, ◌/◌, ◌%◌, ◌^◌, ◌≤◌, ◌<◌, max, min, bit_and, bit_or, digits,
  bit_and-bitwise, bit_or-bitwise,
}
use mathlib.Core.Path.{◌≡◌, refl, ap}
use mathlib.Core.Bool.{Bool, true, ◌&&◌}
use native.Mathlib.Omega.{arith}
use native.Mathlib.Nat.{pow-suc, one-le-pow}
use bup.Base.Tests.{◌==◌, ==_iff}

-- The count of rounds given to `digits` does not matter once it covers the first number.
rounds-digits :
    (z : ℕ → ℕ) (f : ℕ → ℕ → ℕ) (r s x y : ℕ) → x ≤ r → x ≤ s → digits z f r x y ≡ digits z f s x y
rounds-digits z f zero zero x y hr hs = refl
rounds-digits z f zero (suc s) zero y hr hs = refl
rounds-digits z f (suc r) zero zero y hr hs = refl
rounds-digits z f (suc r) (suc s) zero y hr hs = refl
rounds-digits z f (suc r) (suc s) (suc x) y hr hs =
    ap (λ (t : ℕ). t * 2 + f (suc x % 2) (y % 2))
      (rounds-digits z f r s (suc x / 2) (y / 2) (omega arith) (omega arith))
rounds-digits z f zero (suc s) (suc x) y hr hs = absurd (omega arith)
rounds-digits z f (suc r) zero (suc x) y hr hs = absurd (omega arith)

or_lowest : (a b : ℕ) → bit_or a b ≡ 2 * bit_or (a / 2) (b / 2) + max (a % 2) (b % 2)
or_lowest zero b = omega (arith, bit_or-bitwise 0 b, bit_or-bitwise 0 (b / 2))
or_lowest (suc a) b =
    let half : ℕ = suc a / 2 in
    omega (
      arith,
      bit_or-bitwise (suc a) b,
      bit_or-bitwise (suc a / 2) (b / 2),
      rounds-digits (λ b. b) max a (suc a / 2) (suc a / 2) (b / 2) (omega arith) (omega arith),
    )

and_lowest : (a b : ℕ) → bit_and a b ≡ 2 * bit_and (a / 2) (b / 2) + min (a % 2) (b % 2)
and_lowest zero b = omega (arith, bit_and-bitwise 0 b, bit_and-bitwise 0 (b / 2))
and_lowest (suc a) b = omega (
  arith,
  bit_and-bitwise (suc a) b,
  bit_and-bitwise (suc a / 2) (b / 2),
  rounds-digits (λ b. zero) min a (suc a / 2) (suc a / 2) (b / 2) (omega arith) (omega arith),
)

and_zero_below : (n a : ℕ) → a ≤ n → bit_and a 0 ≡ 0
and_zero_below n zero h = refl
and_zero_below zero (suc a) h = absurd (omega arith)
and_zero_below (suc n) (suc a) h =
    omega (arith, and_lowest (suc a) 0, and_zero_below n (suc a / 2) (omega arith))

pub zero-or : (b : ℕ) → bit_or 0 b ≡ b
zero-or b = bit_or-bitwise 0 b

-- `r | (q << k)` is a sum when `r` fits `k` bits.
pub or-shifted : (k q r : ℕ) → r < 2 ^ k → bit_or r (q * 2 ^ k) ≡ r + q * 2 ^ k
or-shifted zero q r h = ground (arith, zero-or q)
or-shifted (suc k) q r h = ground (
  arith,
  or_lowest r (q * 2 ^ suc k),
  ap (λ (t : ℕ). q * t) (pow-suc 2 k),
  pow-suc 2 k,
  or-shifted k q (r / 2) (omega (arith, pow-suc 2 k)),
)

and_1 : (a : ℕ) → bit_and a 1 ≡ a % 2
and_1 a = omega (arith, and_lowest a 1, and_zero_below (a / 2) (a / 2) (omega arith))

and_7 : (a : ℕ) → bit_and a 7 ≡ a % 8
and_7 a = omega (arith, and_lowest a 7, and_lowest (a / 2) 3, and_1 (a / 2 / 2))

pub and_0x0f : (a : ℕ) → bit_and a 0x0f ≡ a % 16
and_0x0f a = omega (arith, and_lowest a 15, and_7 (a / 2))

and_0x1f : (a : ℕ) → bit_and a 0x1f ≡ a % 32
and_0x1f a = omega (arith, and_lowest a 31, and_0x0f (a / 2))

pub and_0x3f : (a : ℕ) → bit_and a 0x3f ≡ a % 64
and_0x3f a = omega (arith, and_lowest a 63, and_0x1f (a / 2))

pub and_0x7f : (a : ℕ) → bit_and a 0x7f ≡ a % 128
and_0x7f a = omega (arith, and_lowest a 127, and_0x3f (a / 2))

-- Over a small range an equation is checked at every value.
agree : ℕ → (ℕ → ℕ) → (ℕ → ℕ) → Bool
agree zero f g = true
agree (suc n) f g = f n == g n && agree n f g

agree-eq : (n : ℕ) (f g : ℕ → ℕ) → agree n f g ≡ true → (x : ℕ) → x < n → f x ≡ g x
unfolding agree
agree-eq zero f g h x lt = absurd (omega arith)
agree-eq (suc n) f g h x lt =
    ground (arith, (==_iff (f n) (g n)).0 (ground arith), agree-eq n f g (ground arith) x)

pub and_0x80 : (b : ℕ) → b < 256 → bit_and b 0x80 ≡ b / 128 * 128
unfolding agree
and_0x80 = agree-eq 256 (λ b. bit_and b 0x80) (λ b. b / 128 * 128) refl

pub and_0x40 : (b : ℕ) → b < 256 → bit_and b 0x40 ≡ b / 64 % 2 * 64
unfolding agree
and_0x40 = agree-eq 256 (λ b. bit_and b 0x40) (λ b. b / 64 % 2 * 64) refl

pub and_0x70 : (b : ℕ) → b < 256 → bit_and b 0x70 / 2 ^ 4 ≡ b / 16 % 8
unfolding agree
and_0x70 = agree-eq 256 (λ b. bit_and b 0x70 / 2 ^ 4) (λ b. b / 16 % 8) refl

pub or_0x80 : (b : ℕ) → b < 128 → bit_or 0x80 b ≡ b + 128
unfolding agree
or_0x80 = agree-eq 128 (λ b. bit_or 0x80 b) (λ b. b + 128) refl

pub or_0x40 : (b : ℕ) → b < 64 → bit_or b 0x40 ≡ b + 64
unfolding agree
or_0x40 = agree-eq 64 (λ b. bit_or b 0x40) (λ b. b + 64) refl

pub or_0 : (b : ℕ) → b < 64 → bit_or b 0 ≡ b
unfolding agree
or_0 = agree-eq 64 (λ b. bit_or b 0) (λ b. b) refl

-- A mask of `k` ones keeps a number that fits it.
pub and_mask : (k a : ℕ) → a < 2 ^ k → bit_and a (2 ^ k - 1) ≡ a
and_mask zero a h = omega (arith, and_zero_below a a (omega arith))
and_mask (suc k) a h =
    let pos : 1 ≤ 2 ^ k = one-le-pow k 2 (omega arith) in
    let half_mask : (2 ^ suc k - 1) / 2 ≡ 2 ^ k - 1 = omega (arith, pow-suc 2 k) in
    let odd : (2 ^ suc k - 1) % 2 ≡ 1 = omega (arith, pow-suc 2 k) in
    let low : bit_and (a / 2) ((2 ^ suc k - 1) / 2) ≡ a / 2 =
      rw half_mask (and_mask k (a / 2) (omega (arith, pow-suc 2 k))) in
    omega (arith, and_lowest a (2 ^ suc k - 1), low, odd)

absorbed : (n a b : ℕ) → b ≤ n → bit_and (bit_or a b) b ≡ b
absorbed n a zero h = and_zero_below (bit_or a 0) (bit_or a 0) (omega arith)
absorbed zero a (suc b) h = absurd (omega arith)
absorbed (suc n) a (suc b) h =
    let half : bit_or a (suc b) / 2 ≡ bit_or (a / 2) (suc b / 2) =
      omega (arith, or_lowest a (suc b)) in
    let rest : bit_and (bit_or a (suc b) / 2) (suc b / 2) ≡ suc b / 2 =
      rw half (absorbed n (a / 2) (suc b / 2) (omega arith)) in
    omega (arith, or_lowest a (suc b), and_lowest (bit_or a (suc b)) (suc b), rest)

-- Bits that were set are set.
pub and-or : (a b : ℕ) → bit_and (bit_or a b) b ≡ b
and-or a b = absorbed b a b (omega arith)
