-- ===== src/Base/Hex/Order.antt =====
-- Padded hexadecimal numbers of one width are ordered as the numbers are.
use Prim.Native.Nat.{ℕ, zero, suc, ◌-◌, ◌/◌, ◌%◌, ◌^◌, ◌<◌, ◌≤◌}
use mathlib.Core.Path.{◌≡◌, refl, sym, ap, ◌∙◌}
use mathlib.Core.Logic.{inl, inr}
use mathlib.Core.Bool.{true}
use mathlib.Core.List.{List, [], ◌∷◌, ◌++◌, append_assoc}
use native.Mathlib.Omega.{arith}
use native.Mathlib.Nat.{pow-suc}
use bup.Base.Tests.{ltb, ◌==◌, ==_iff, Bool-cases}
use bup.Base.Lists.{length, length-append}
use bup.Base.Lex.{bytes_lt, bytes_lt-append, bytes_lt-prefix}
use bup.Base.Hex.{hex_digit, hex_loop, hex, replicate, hex_padded}

-- A number in a number of digits.
digits : ℕ → ℕ → List ℕ
digits zero n = []
digits (suc v) n = digits v (n / 16) ++ hex_digit (n % 16) ∷ []

length-digits : (v n : ℕ) → length (digits v n) ≡ v
unfolding digits
length-digits zero n = refl
length-digits (suc v) n =
    omega
      (arith, length-append (digits v (n / 16)) (hex_digit (n % 16) ∷ []), length-digits v (n / 16))

replicate-append : (v c : ℕ) → replicate v c ++ c ∷ [] ≡ c ∷ replicate v c
unfolding replicate
replicate-append zero c = refl
replicate-append (suc v) c = ap (λ (t : List ℕ). c ∷ t) (replicate-append v c)

digits_zero : (v : ℕ) → digits v 0 ≡ replicate v b'0'
unfolding digits replicate hex_digit
digits_zero zero = refl
digits_zero (suc v) = ap (λ (t : List ℕ). t ++ b'0' ∷ []) (digits_zero v) ∙ replicate-append v b'0'

-- Digits enough, and a number padded to more of them.
hex_loop-length :
    (rounds n : ℕ)
    → n < rounds
    → (n < 16 ^ length (hex_loop rounds n)) × (1 ≤ length (hex_loop rounds n))
unfolding hex_loop
hex_loop-length zero n h = absurd (omega arith)
hex_loop-length (suc rounds) n h = elim (Bool-cases (n / 16 == 0)) [
  | inl small ↦
      let zero_left : n / 16 ≡ 0 = (==_iff (n / 16) 0).0 small in
      rw small (omega (arith, zero_left), omega arith)
  | inr big ↦
      let some_left : 0 < n / 16 = ground (arith, big) in
      let front = hex_loop rounds (n / 16) in
      let (fits, filled) = hex_loop-length rounds (n / 16) (omega (arith, some_left)) in
      let long : length (front ++ hex_digit (n % 16) ∷ []) ≡ suc (length front) =
        omega (arith, length-append front (hex_digit (n % 16) ∷ [])) in
      rw (big, long) (omega (arith, pow-suc 16 (length front), fits), omega arith)
]

hex_loop-digits :
    (rounds n v : ℕ)
    → n < rounds
    → n < 16 ^ v
    → 1 ≤ v
    → (length (hex_loop rounds n) ≤ v)
      × (replicate (v - length (hex_loop rounds n)) b'0' ++ hex_loop rounds n ≡ digits v n)
unfolding hex_loop digits
hex_loop-digits zero n v h k p = absurd (omega arith)
hex_loop-digits (suc rounds) n zero h k p = absurd (omega arith)
hex_loop-digits (suc rounds) n (suc v) h k p = elim (Bool-cases (n / 16 == 0)) [
  | inl small ↦
      let zero_left : n / 16 ≡ 0 = (==_iff (n / 16) 0).0 small in
      let rest : n % 16 ≡ n = omega (arith, zero_left) in
      let width : suc v - 1 ≡ v = omega arith in
      rw (small, zero_left, rest, width, digits_zero v) (omega arith, refl)
  | inr big ↦
      let some_left : 0 < n / 16 = ground (arith, big) in
      let fits : n / 16 < 16 ^ v = omega (arith, pow-suc 16 v, k) in
      let front = hex_loop rounds (n / 16) in
      let last = hex_digit (n % 16) ∷ [] in
      let long : length (front ++ last) ≡ suc (length front) =
        omega (arith, length-append front last) in
      let width : suc v - suc (length front) ≡ v - length front = omega arith in
      let (short, same) =
        hex_loop-digits rounds (n / 16) v (omega (arith, some_left)) fits
          (positive v fits some_left) in
      rw (big, long, width)
        (
          omega (arith, short),
          sym (append_assoc (replicate (v - length front) b'0') front last)
              ∙ ap (λ (t : List ℕ). t ++ last) same,
        )
]
  where
    positive : (v : ℕ) → n / 16 < 16 ^ v → 0 < n / 16 → 1 ≤ v
    positive zero fits some_left = absurd (omega arith)
    positive (suc v) fits some_left = omega arith

hex_digit-lt : (c d : ℕ) → c < d → d < 16 → ltb (hex_digit c) (hex_digit d) ≡ true
unfolding hex_digit
hex_digit-lt c d h k = ground arith

digits-lt : (v a b : ℕ) → a < b → b < 16 ^ v → bytes_lt (digits v a) (digits v b) ≡ true
unfolding digits bytes_lt
digits-lt zero a b h k = absurd (omega arith)
digits-lt (suc v) a b h k = elim (Bool-cases (a / 16 == b / 16)) [
  | inl same ↦
      let front : a / 16 ≡ b / 16 = (==_iff (a / 16) (b / 16)).0 same in
      let less : a % 16 < b % 16 = omega (arith, front) in
      let last : bytes_lt (hex_digit (a % 16) ∷ []) (hex_digit (b % 16) ∷ []) ≡ true =
        ground (arith, hex_digit-lt (a % 16) (b % 16) less (omega arith)) in
      rw front (
        bytes_lt-prefix (digits v (b / 16)) (hex_digit (a % 16) ∷ []) (hex_digit (b % 16) ∷ [])
        ∙ last)
  | inr apart ↦
      let less : a / 16 < b / 16 = ground (arith, apart) in
      bytes_lt-append (digits v (a / 16)) (digits v (b / 16)) (hex_digit (a % 16) ∷ [])
        (hex_digit (b % 16) ∷ []) (length-digits v (a / 16) ∙ sym (length-digits v (b / 16)))
        (digits-lt v (a / 16) (b / 16) less (omega (arith, pow-suc 16 v)))
]

hex_padded-digits : (v n : ℕ) → n < 16 ^ v → 1 ≤ v → hex_padded v n ≡ digits v n
unfolding hex_padded hex
hex_padded-digits v n h k = (hex_loop-digits (suc n) n v (omega arith) h k).1

pub hex-length : (n : ℕ) → (n < 16 ^ length (hex n)) × (1 ≤ length (hex n))
unfolding hex
hex-length n = hex_loop-length (suc n) n (omega arith)

pub hex_padded-lt :
    (v a b : ℕ)
    → a < b
    → b < 16 ^ v
    → 1 ≤ v
    → (length (hex_padded v a) ≡ length (hex_padded v b))
      × (bytes_lt (hex_padded v a) (hex_padded v b) ≡ true)
hex_padded-lt v a b h k p =
    rw (hex_padded-digits v a (omega arith) p, hex_padded-digits v b k p)
      (length-digits v a ∙ sym (length-digits v b), digits-lt v a b h k)
