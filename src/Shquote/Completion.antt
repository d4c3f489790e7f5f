-- ===== src/Shquote/Completion.antt =====
-- What completes a word that was begun.
use bup.Base.{
  ℕ, ◌≡◌, refl, ap, ◌∙◌, inl, inr, arith, Bool, true, false, ◌||◌, Option, none, some, List, [],
  ◌∷◌, ◌++◌, ◌==◌, if◌then◌else◌, length, drop, drop-length_append, append_assoc, append-nil,
  Bool-cases,
}
use bup.Shquote.{q, qq, backslash, is_space, escape, escape_all, quotify, starts_with, what_to_add}

starts_with→append :
    (word prefix : List ℕ)
    → starts_with word prefix ≡ true
    → word ≡ prefix ++ drop (length prefix) word
unfolding starts_with
starts_with→append word [] h = refl
starts_with→append [] (d ∷ prefix) h = absurd (ground (arith, h))
starts_with→append (c ∷ word) (d ∷ prefix) h =
    let rest = starts_with→append word prefix (ground (arith, h)) in
    let same : c ≡ d = ground (arith, h) in rw same (ap (λ t. d ∷ t) rest)

escape-append : (c : ℕ) (xs ys : List ℕ) → escape c (xs ++ ys) ≡ escape c xs ++ escape c ys
unfolding escape
escape-append c [] ys = refl
escape-append c (d ∷ xs) ys = elim (Bool-cases (d == c)) [
  | inl same ↦ rw same (ap (λ t. backslash ∷ d ∷ t) (escape-append c xs ys))
  | inr other ↦ rw other (ap (λ t. d ∷ t) (escape-append c xs ys))
]

escape_all-append : (xs ys : List ℕ) → escape_all (xs ++ ys) ≡ escape_all xs ++ escape_all ys
unfolding escape_all
escape_all-append [] ys = refl
escape_all-append (d ∷ xs) ys = elim (Bool-cases (d == q || d == qq || is_space d)) [
  | inl special ↦ rw special (ap (λ t. backslash ∷ d ∷ t) (escape_all-append xs ys))
  | inr other ↦ rw other (ap (λ t. d ∷ t) (escape_all-append xs ys))
]

-- What follows the quoted beginning.
quotify-append :
    (qtype : Option ℕ) (xs ys : List ℕ) (terminate : Bool)
    → (more : List ℕ) × (quotify qtype (xs ++ ys) terminate ≡ quotify qtype xs false ++ more)
unfolding quotify
quotify-append none xs ys terminate = (escape_all ys, escape_all-append xs ys)
quotify-append (some c) xs ys terminate = elim (Bool-cases (c == qq || c == q)) [
  | inr bare ↦ (escape_all ys, rw bare (escape_all-append xs ys))
  | inl quoted ↦
      let end : List ℕ = if terminate then c ∷ [] else [] in
      (
        escape c ys ++ end,
        rw (quoted, append-nil (escape c xs), escape-append c xs ys)
            (ap (λ t. c ∷ t) (append_assoc (escape c xs) (escape c ys) end)),
      )
]

-- If a new word starts with the original one, then the original word quoted without its closing
-- quote, followed by what_to_add, is the new word quoted; otherwise what_to_add is empty. This
-- holds for every type of quotes, with and without the closing quote.
pub quotify-what_to_add :
    (qtype : Option ℕ) (origword newword : List ℕ) (terminate : Bool)
    → (if starts_with newword origword
        then quotify qtype origword false ++ what_to_add qtype origword newword terminate
        else what_to_add qtype origword newword terminate)
      ≡ (if starts_with newword origword then quotify qtype newword terminate else [])
unfolding what_to_add
quotify-what_to_add qtype origword newword terminate =
    elim (Bool-cases (starts_with newword origword)) [
      | inr other ↦ rw other
      | inl begun ↦
          let (more, e) =
            quotify-append qtype origword (drop (length origword) newword) terminate in
          let whole : quotify qtype newword terminate ≡ quotify qtype origword false ++ more =
            ap (λ t. quotify qtype t terminate) (starts_with→append newword origword begun) ∙ e in
          rw (begun, whole, drop-length_append (quotify qtype origword false) more)
    ]
