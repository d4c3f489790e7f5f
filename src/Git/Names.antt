-- ===== src/Git/Names.antt =====
-- `mangle_name` and `demangle_name` of lib/bup/git.py: names of chunked files in git trees.
use bup.Base.{
  ℕ, ◌≡◌, refl, sym, ap, ◌∙◌, Bool, true, false, ◌&&◌, ◌||◌, not, List, [], ◌∷◌, ◌++◌, append_assoc,
  ◌==◌, if◌then◌else◌, bit_and, Bool-cases, inl, inr,
}
use bup.Base.Bytes.{
  ascii, drop_end, drop_end-append, ends_with, ends_with-append, ends_with-other_last,
  ends_with→append,
}
use bup.Base.Error.{Result, ok, err, assertion_error, value_error, ◌>>=◌}

-- The tests of Python's `stat` on the file type bits of a mode.
abbrev pub s_isdir : ℕ → Bool
s_isdir mode = bit_and mode 0o170000 == 0o040000

abbrev pub s_isreg : ℕ → Bool
s_isreg mode = bit_and mode 0o170000 == 0o100000

pub data Kind : Type 0 where
  bup_normal bup_chunked : Kind

abbrev pub dot_bup : List ℕ
dot_bup = ascii ".bup"

unfoldable pub mangle_name : List ℕ → ℕ → ℕ → Result (List ℕ)
mangle_name name mode gitmode =
    if s_isreg mode && not (s_isreg gitmode)
    then (if s_isdir gitmode then ok (name ++ dot_bup) else err assertion_error)
    else if ends_with name dot_bup || ends_with (drop_end name 1) dot_bup
    then ok (name ++ ascii ".bupl")
    else ok name

pub demangle_name : List ℕ → ℕ → Result (List ℕ × Kind)
demangle_name name mode =
    if ends_with name (ascii ".bupl")
    then ok (drop_end name 5, bup_normal)
    else if ends_with name dot_bup
    then ok (drop_end name 4, bup_chunked)
    else if ends_with name (ascii ".bupm")
    then ok (drop_end name 5, if s_isdir mode then bup_chunked else bup_normal)
    else if ends_with name (ascii ".bupd")
    then err value_error
    else ok (name, bup_normal)

-- A regular file that git keeps as a tree is chunked.
abbrev pub is_chunked : ℕ → ℕ → Bool
is_chunked mode gitmode = s_isreg mode && not (s_isreg gitmode)

-- A name that ends in `.bup` and one more character ends in `.bup` without its last one.
bup_and_one :
    (name : List ℕ) (c : ℕ)
    → ends_with name (dot_bup ++ c ∷ []) ≡ true
    → ends_with (drop_end name 1) dot_bup ≡ true
bup_and_one name c h =
    let front : List ℕ = drop_end name 5 in
    let whole : name ≡ (front ++ dot_bup) ++ c ∷ [] =
      ends_with→append name (dot_bup ++ c ∷ []) h ∙ sym (append_assoc front dot_bup (c ∷ [])) in
    let short : drop_end name 1 ≡ front ++ dot_bup =
      ap (λ (t : List ℕ). drop_end t 1) whole
      ∙ drop_end-append (front ++ dot_bup) (c ∷ []) 1 refl in
    rw short (ends_with-append front dot_bup)

demangle-bup :
    (name : List ℕ) (mode : ℕ) → demangle_name (name ++ dot_bup) mode ≡ ok (name, bup_chunked)
unfolding demangle_name
demangle-bup name mode =
    let bup_last : name ++ dot_bup ≡ (name ++ ascii ".bu") ++ b'p' ∷ [] =
      sym (append_assoc name (ascii ".bu") (b'p' ∷ [])) in
    let not_bupl : ends_with (name ++ dot_bup) (ascii ".bupl") ≡ false =
      ap (λ (t : List ℕ). ends_with t (ascii ".bupl")) bup_last
      ∙ ends_with-other_last (name ++ ascii ".bu") (ascii ".bup") b'p' b'l' refl in
    rw (not_bupl, ends_with-append name dot_bup, drop_end-append name dot_bup 4 refl)

demangle-bupl :
    (name : List ℕ) (mode : ℕ) → demangle_name (name ++ ascii ".bupl") mode ≡ ok (name, bup_normal)
unfolding demangle_name
demangle-bupl name mode =
    rw (ends_with-append name (ascii ".bupl"), drop_end-append name (ascii ".bupl") 5 refl)

-- A name without `.bup` at its end or before its last character keeps its form.
demangle-plain :
    (name : List ℕ) (mode : ℕ)
    → ends_with name dot_bup ≡ false
    → ends_with (drop_end name 1) dot_bup ≡ false
    → demangle_name name mode ≡ ok (name, bup_normal)
unfolding demangle_name
demangle-plain name mode no_bup no_inner = rw (other b'l', no_bup, other b'm', other b'd')
  where
    other : (c : ℕ) → ends_with name (dot_bup ++ c ∷ []) ≡ false
    other c = elim (Bool-cases (ends_with name (dot_bup ++ c ∷ []))) [
      | inl h ↦ cc (bup_and_one name c h)
      | inr h ↦ h
    ]

-- demangle_name, with whatever mode, returns the name that mangle_name mangled, and says that the
-- file is chunked exactly when it is a regular file that git keeps as something else, where that is
-- a tree.
pub demangle-mangle :
    (name : List ℕ) (mode gitmode mode' : ℕ)
    → (is_chunked mode gitmode ≡ true → s_isdir gitmode ≡ true)
    → (do mangled ← mangle_name name mode gitmode; demangle_name mangled mode')
      ≡ ok (name, if is_chunked mode gitmode then bup_chunked else bup_normal)
unfolding mangle_name
demangle-mangle name mode gitmode mode' tree = elim (Bool-cases (is_chunked mode gitmode)) [
  | inl chunked ↦ rw (chunked, tree chunked) (demangle-bup name mode')
  | inr whole ↦ elim (Bool-cases (ends_with name dot_bup)) [
    | inl ends ↦ rw (whole, ends) (demangle-bupl name mode')
    | inr plain ↦ elim (Bool-cases (ends_with (drop_end name 1) dot_bup)) [
      | inl inner ↦ rw (whole, plain, inner) (demangle-bupl name mode')
      | inr none_inner ↦ rw (whole, plain, none_inner) (demangle-plain name mode' plain none_inner)
    ]
  ]
]
