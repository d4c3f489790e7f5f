-- ===== src/Vint/Groups.antt =====
-- The seven-bit groups that every encoder of vint.py and _helpers.c writes, in plain arithmetic,
-- and what the reading loop makes of them.
use native.Mathlib.Nat.{pow-suc}
use native.Mathlib.Numerals.{towards_suc}
use bup.Base.{
  ℕ, zero, suc, ◌+◌, ◌*◌, ◌/◌, ◌%◌, ◌^◌, ◌≤◌, ◌<◌, ◌≡◌, refl, ap, ◌∙◌, ◌≢◌, ◌↔◌, arith, List, [],
  ◌∷◌, ◌++◌, ◌==◌, if◌then◌else◌, true, false, length, Bool-cases, inl, inr,
}
use bup.Base.Bits.{and_0x7f, and_0x80, or_0x80, or-shifted}
use bup.Base.Error.{Result, ok, err, eof_error}
use bup.Vint.{vuint_encode_loop, vint_encode_loop, encode_vuint_loop, read_loop}

-- Lowest group first; all but the last carry the top bit.
unfoldable pub groups : ℕ → ℕ → List ℕ
groups zero x = []
groups (suc f) x =
    let rest = groups f (x / 128) in if x / 128 == 0 then x ∷ [] else (x % 128 + 128) ∷ rest

pub vuint_encode_loop-eq-groups : (f x : ℕ) → vuint_encode_loop f x ≡ groups f x
unfolding vuint_encode_loop groups
vuint_encode_loop-eq-groups zero x = refl
vuint_encode_loop-eq-groups (suc f) x =
    ground (arith, and_0x7f x, or_0x80 (x % 128), vuint_encode_loop-eq-groups f (x / 128))

pub encode_vuint_loop-eq-groups : (f x : ℕ) → encode_vuint_loop f x ≡ groups f x
unfolding encode_vuint_loop groups
encode_vuint_loop-eq-groups zero x = refl
encode_vuint_loop-eq-groups (suc f) x =
    ground (arith, and_0x7f x, or_0x80 (x % 128), encode_vuint_loop-eq-groups f (x / 128))

pub vint_encode_loop-zero : (f : ℕ) → vint_encode_loop f 0 ≡ []
unfolding vint_encode_loop
vint_encode_loop-zero zero = refl
vint_encode_loop-zero (suc f) = refl

pub vint_encode_loop-eq-groups : (f x : ℕ) → x ≢ 0 → vint_encode_loop f x ≡ groups f x
unfolding vint_encode_loop groups
vint_encode_loop-eq-groups zero x h = refl
vint_encode_loop-eq-groups (suc f) x h = ground (
  arith,
  and_0x7f x,
  or_0x80 (x % 128),
  vint_encode_loop-zero f,
  vint_encode_loop-eq-groups f (x / 128),
)

-- The last byte of a number: the port keeps what follows it.
pub last_byte :
    (port : List ℕ) (b result offset : ℕ)
    → b < 128
    → result < 2 ^ offset
    → read_loop port b result offset ≡ ok (result + b * 2 ^ offset, port)
unfolding read_loop
last_byte [] b r o hb hr = ground (arith, and_0x80 b, or-shifted o b r)
last_byte (c ∷ port) b r o hb hr = ground (arith, and_0x80 b, or-shifted o b r)

inner_byte :
    (c : ℕ) (port : List ℕ) (g result offset : ℕ)
    → g < 128
    → result < 2 ^ offset
    → read_loop (c ∷ port) (g + 128) result offset
      ≡ read_loop port c (result + g * 2 ^ offset) (offset + 7)
unfolding read_loop
inner_byte c port g r o hg hr =
    ground (arith, and_0x80 (g + 128), and_0x7f (g + 128), or-shifted o g r)

inner_byte_eof :
    (g result offset : ℕ) → g < 128 → read_loop [] (g + 128) result offset ≡ err eof_error
unfolding read_loop
inner_byte_eof g r o hg = ground (arith, and_0x80 (g + 128))

pow_seven : (o : ℕ) → 2 ^ (o + 7) ≡ 128 * 2 ^ o
pow_seven o = simp towards_suc (omega arith)

-- A round adds its group at its place, below the next offset.
place_of_group : (x o r : ℕ) → r < 2 ^ o → r + x % 128 * 2 ^ o < 2 ^ (o + 7)
place_of_group x o r h = grind (arith, pow_seven o)

-- The value of a number is its lowest group and the others, each at its place.
value_of_groups : (x o : ℕ) → x * 2 ^ o ≡ x % 128 * 2 ^ o + x / 128 * 2 ^ (o + 7)
value_of_groups x o =
    let parts : x ≡ x % 128 + x / 128 * 128 = omega arith in
    omega (arith, ap (λ (t : ℕ). t * 2 ^ o) parts, ap (λ (t : ℕ). x / 128 * t) (pow_seven o))

one_le_pow : (k : ℕ) → 1 ≤ 128 ^ suc k
one_le_pow zero = omega arith
one_le_pow (suc k) = omega (arith, pow-suc 128 (suc k), one_le_pow k)

-- Reading with no byte in hand: what `c = port.read(1)` and the rest of a round do.
abbrev pub read_from : List ℕ → ℕ → ℕ → Result (ℕ × List ℕ)
read_from [] result offset = err eof_error
read_from (b ∷ port) result offset = read_loop port b result offset

inner_byte_lem :
    (port : List ℕ) (g result offset : ℕ)
    → g < 128
    → result < 2 ^ offset
    → read_from ((g + 128) ∷ port) result offset
      ≡ read_from port (result + g * 2 ^ offset) (offset + 7)
inner_byte_lem [] g r o hg hr = inner_byte_eof g r o hg
inner_byte_lem (c ∷ port) g r o hg hr = inner_byte c port g r o hg hr

half_of_bound : (f x : ℕ) → x < 2 ^ suc f → x / 128 < 2 ^ f
half_of_bound f x h = omega (arith, pow-suc 2 f)

-- The loop reads back the number whose groups stand at the front of the port.
pub read_from-groups :
    (f x result offset : ℕ) (port : List ℕ)
    → x < 2 ^ suc f
    → result < 2 ^ offset
    → read_from (groups (suc f) x ++ port) result offset ≡ ok (result + x * 2 ^ offset, port)
unfolding groups
read_from-groups zero x r o port h hr = ground (arith, last_byte port x r o)
read_from-groups (suc f) x r o port h hr = elim (Bool-cases (x / 128 == 0)) [
  | inl done ↦ rw done (last_byte port x r o (ground arith) hr)
  | inr more ↦ rw more (
      inner_byte_lem (groups (suc f) (x / 128) ++ port) (x % 128) r o (omega arith) hr
      ∙ (read_from-groups f (x / 128) (r + x % 128 * 2 ^ o) (o + 7) port (half_of_bound (suc f) x h)
            (place_of_group x o r hr)
          ∙ ap (λ (t : ℕ). ok (t, port)) (omega (arith, value_of_groups x o))))
]

groups_one : (f x : ℕ) → (x / 128 == 0) ≡ true → groups (suc f) x ≡ x ∷ []
unfolding groups
groups_one f x done = rw done

groups_more :
    (f x : ℕ) → (x / 128 == 0) ≡ false → groups (suc f) x ≡ (x % 128 + 128) ∷ groups f (x / 128)
unfolding groups
groups_more f x more = rw more

append_cons-ne-nil : (front : List ℕ) (b : ℕ) (back : List ℕ) → front ++ b ∷ back ≢ []
append_cons-ne-nil [] b back e = cc
append_cons-ne-nil (c ∷ front) b back e = cc

-- Cut short inside a number, the loop raises EOFError.
pub read_from-cut :
    (f x result offset : ℕ) (front : List ℕ) (b : ℕ) (back : List ℕ)
    → result < 2 ^ offset
    → groups f x ≡ front ++ b ∷ back
    → read_from front result offset ≡ err eof_error
read_from-cut f x r o [] b back hr e = refl
read_from-cut zero x r o (c ∷ front) b back hr e = unfold groups in cc
read_from-cut (suc f) x r o (c ∷ front) b back hr e = elim (Bool-cases (x / 128 == 0)) [
  | inl done ↦
      let none_left : front ++ b ∷ back ≡ [] = cc (groups_one f x done) in
      absurd (append_cons-ne-nil front b back none_left)
  | inr more ↦
      let first : c ≡ x % 128 + 128 = cc (groups_more f x more) in
      let others : groups f (x / 128) ≡ front ++ b ∷ back = cc (groups_more f x more) in
      rw first (
        inner_byte_lem front (x % 128) r o (omega arith) hr
        ∙ read_from-cut f (x / 128) (r + x % 128 * 2 ^ o) (o + 7) front b back
            (place_of_group x o r hr) others)
]

groups_some : (f x : ℕ) → 1 ≤ length (groups (suc f) x)
groups_some f x = elim (Bool-cases (x / 128 == 0)) [
  | inl done ↦ rw (groups_one f x done) (omega arith)
  | inr more ↦ rw (groups_more f x more) (omega arith)
]

-- Given a bound on the number, it has at most k + 1 groups exactly when it is below 128 ^ (k + 1).
pub length-groups :
    (k f x : ℕ) → k < f → x < 2 ^ f → (length (groups f x) ≤ suc k) ↔ (x < 128 ^ suc k)
length-groups k zero x hk h = absurd (omega arith)
length-groups zero (suc zero) x hk h = elim (Bool-cases (x / 128 == 0)) [
  | inl done ↦ rw (groups_one 0 x done) (omega arith)
  | inr more ↦ absurd (ground arith)
]
length-groups zero (suc (suc f)) x hk h = elim (Bool-cases (x / 128 == 0)) [
  | inl done ↦ rw (groups_one (suc f) x done) (ground arith)
  | inr more ↦ rw (groups_more (suc f) x more) (ground (arith, groups_some f (x / 128)))
]
length-groups (suc k) (suc f) x hk h = elim (Bool-cases (x / 128 == 0)) [
  | inl done ↦ rw (groups_one f x done) (ground (arith, pow-suc 128 (suc k), one_le_pow k))
  | inr more ↦ rw (groups_more f x more) (
      ground (
        arith,
        pow-suc 128 (suc k),
        length-groups k f (x / 128) (omega arith) (half_of_bound f x h),
      ))
]
