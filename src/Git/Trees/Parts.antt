-- ===== src/Git/Trees/Parts.antt =====
-- The mode, the name and the oid of an entry of a tree, found again in its bytes.
use bup.Base.{
  ℕ, zero, suc, ◌+◌, ◌-◌, ◌/◌, ◌%◌, ◌≤◌, ◌<◌, ◌≡◌, ◌≢◌, refl, sym, ap, ◌∙◌, arith, false, some,
  List, [], ◌∷◌, ◌++◌, ◌==◌, length, take, drop, All, Bool-cases, inl, inr, append_assoc,
  take-length_append, drop-length_append, length-append,
}
use bup.Base.Bytes.{slice}
use bup.Base.Error.{Result, ok, err, undefined, ◌>>=◌}
use bup.Git.Trees.{
  octal_loop, octal, further_on, index_of, find_from, between, digit, digits, int_8,
}

index_of-append :
    (c : ℕ) (front back : List ℕ)
    → All (λ b. b ≢ c) front
    → index_of c (front ++ c ∷ back) ≡ some (length front)
unfolding index_of further_on
index_of-append c [] back h = ground arith
index_of-append c (b ∷ front) back (h, hs) =
    let other : (b == c) ≡ false = ground arith in
    rw (other, index_of-append c front back hs) (ap some (omega arith))

bind_ok : (r : Result ℕ) → (do n ← r; ok n) ≡ r
bind_ok (ok n) = refl
bind_ok (err e) = refl
bind_ok undefined = refl

bind_digit :
    (r : Result ℕ) (xs : List ℕ) (c : ℕ)
    → ((m : ℕ) → digits m (xs ++ c ∷ []) ≡ (do v ← digits m xs; digit v c))
    → (do m ← r; digits m (xs ++ c ∷ [])) ≡ (do v ← (do m ← r; digits m xs); digit v c)
bind_digit (ok m) xs c h = h m
bind_digit (err e) xs c h = refl
bind_digit undefined xs c h = refl

digits-append :
    (n : ℕ) (xs : List ℕ) (c : ℕ) → digits n (xs ++ c ∷ []) ≡ (do v ← digits n xs; digit v c)
unfolding digits
digits-append n [] c = bind_ok (digit n c)
digits-append n (x ∷ xs) c = bind_digit (digit n x) xs c (λ m. digits-append m xs c)

digits-octal_loop : (rounds n : ℕ) → n < rounds → digits 0 (octal_loop rounds n) ≡ ok n
unfolding octal_loop digits digit
digits-octal_loop zero n h = absurd (omega arith)
digits-octal_loop (suc rounds) n h = elim (Bool-cases (n / 8 == 0)) [
  | inl small ↦ rw small (ground arith)
  | inr big ↦
      rw
        (
          big,
          digits-append 0 (octal_loop rounds (n / 8)) (b'0' + n % 8),
          digits-octal_loop rounds (n / 8) (ground arith),
        )
        (ground arith)
]

pub All-append : (P : ℕ → Type 0) (xs ys : List ℕ) → All P xs → All P ys → All P (xs ++ ys)
All-append P [] ys h k = k
All-append P (x ∷ xs) ys (p, h) k = (p, All-append P xs ys h k)

octal_loop-digits : (rounds n : ℕ) → n < rounds → All (λ c. 48 ≤ c) (octal_loop rounds n)
unfolding octal_loop
octal_loop-digits zero n h = absurd (omega arith)
octal_loop-digits (suc rounds) n h = elim (Bool-cases (n / 8 == 0)) [
  | inl small ↦ rw small (omega arith, tt)
  | inr big ↦ rw big (
      All-append (λ c. 48 ≤ c) (octal_loop rounds (n / 8)) ((b'0' + n % 8) ∷ [])
        (octal_loop-digits rounds (n / 8) (ground arith)) (omega arith, tt))
]

octal_loop-ne-nil : (rounds n : ℕ) → n < rounds → 0 < length (octal_loop rounds n)
unfolding octal_loop
octal_loop-ne-nil zero n h = absurd (omega arith)
octal_loop-ne-nil (suc rounds) n h = elim (Bool-cases (n / 8 == 0)) [
  | inl small ↦ rw small (omega arith)
  | inr big ↦
      rw big (omega (arith, length-append (octal_loop rounds (n / 8)) ((b'0' + n % 8) ∷ [])))
]

int_8-filled : (cs : List ℕ) → 0 < length cs → int_8 cs ≡ digits 0 cs
unfolding int_8
int_8-filled [] h = absurd (omega arith)
int_8-filled (c ∷ cs) h = refl

pub int_8-octal : (n : ℕ) → int_8 (octal n) ≡ ok n
unfolding octal
int_8-octal n =
    int_8-filled (octal_loop (suc n) n) (octal_loop-ne-nil (suc n) n (omega arith))
    ∙ digits-octal_loop (suc n) n (omega arith)

All-other : (c : ℕ) (xs : List ℕ) → c < 48 → All (λ b. 48 ≤ b) xs → All (λ b. b ≢ c) xs
All-other c [] h k = tt
All-other c (x ∷ xs) h (p, k) = ((λ e. omega arith), All-other c xs h k)

pub All-not_nul : (xs : List ℕ) → All (λ b. 0 < b) xs → All (λ b. b ≢ 0) xs
All-not_nul [] k = tt
All-not_nul (x ∷ xs) (p, k) = ((λ e. omega arith), All-not_nul xs k)

pub octal-other : (c n : ℕ) → c < 48 → All (λ b. b ≢ c) (octal n)
unfolding octal
octal-other c n h = All-other c (octal_loop (suc n) n) h (octal_loop-digits (suc n) n (omega arith))

-- The parts of what is read from a place on, where the mode, the name and the oid stand there.
module _ (front mode name oid back : List ℕ) (oid_length : length oid ≡ 20)
    (blank_free : All (λ b. b ≢ b' ') mode)
    (nul_free : All (λ b. b ≢ 0) (mode ++ (b' ' ∷ name))) where
  unfoldable pub tree_data : List ℕ
  tree_data = front ++ (mode ++ (b' ' ∷ (name ++ (0 ∷ (oid ++ back)))))

  pub find_nul :
      find_from 0 tree_data (length front) ≡ some (length front + (length mode + 1 + length name))
  unfolding find_from tree_data further_on
  find_nul =
      rw
        (
          drop-length_append front (mode ++ (b' ' ∷ (name ++ (0 ∷ (oid ++ back))))),
          ← append_assoc mode (b' ' ∷ name) (0 ∷ (oid ++ back)),
          index_of-append 0 (mode ++ (b' ' ∷ name)) (oid ++ back) nul_free,
          length-append mode (b' ' ∷ name),
        )
        (ap some (omega arith))

  pub find_blank : find_from b' ' tree_data (length front) ≡ some (length front + length mode)
  unfolding find_from tree_data further_on
  find_blank = rw (
    drop-length_append front (mode ++ (b' ' ∷ (name ++ (0 ∷ (oid ++ back))))),
    index_of-append b' ' mode (name ++ (0 ∷ (oid ++ back))) blank_free,
  )

  -- A part of the bytes that stands between two others.
  middle :
      (xs ys zs : List ℕ) (start n : ℕ)
      → tree_data ≡ xs ++ (ys ++ zs)
      → start ≡ length xs
      → n ≡ length ys
      → take n (drop start tree_data) ≡ ys
  middle xs ys zs start n e es en =
      rw (e, es, en, drop-length_append xs (ys ++ zs), take-length_append ys zs)

  pub mode_part : between tree_data (length front) (length front + length mode) ≡ mode
  unfolding tree_data
  mode_part =
      middle front mode (b' ' ∷ (name ++ (0 ∷ (oid ++ back)))) (length front)
        (length front + length mode - length front) refl refl (omega arith)

  pub name_part :
      between tree_data
        (length front + length mode + 1)
        (length front + (length mode + 1 + length name))
      ≡ name
  unfolding tree_data
  name_part =
      middle ((front ++ mode) ++ b' ' ∷ []) name (0 ∷ (oid ++ back))
        (length front + length mode + 1)
        (length front + (length mode + 1 + length name) - (length front + length mode + 1)) at_name
        (sym
          (length-append (front ++ mode) (b' ' ∷ []) ∙ ap (λ n. n + 1) (length-append front mode)))
        (omega arith)
    where
      at_name : tree_data ≡ ((front ++ mode) ++ b' ' ∷ []) ++ (name ++ (0 ∷ (oid ++ back)))
      at_name = simp append_assoc

  pub oid_part : slice tree_data (length front + (length mode + 1 + length name) + 1) 20 ≡ oid
  unfolding tree_data
  oid_part =
      middle (((front ++ mode) ++ (b' ' ∷ name)) ++ 0 ∷ []) oid back
        (length front + (length mode + 1 + length name) + 1) 20 at_oid
        (omega (
          arith,
          length-append ((front ++ mode) ++ (b' ' ∷ name)) (0 ∷ []),
          length-append (front ++ mode) (b' ' ∷ name),
          length-append front mode,
        ))
        (sym oid_length)
    where
      at_oid : tree_data ≡ (((front ++ mode) ++ (b' ' ∷ name)) ++ 0 ∷ []) ++ (oid ++ back)
      at_oid = simp append_assoc
