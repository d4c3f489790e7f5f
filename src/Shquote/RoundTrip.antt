-- ===== src/Shquote/RoundTrip.antt =====
-- Quoted words, split again.
use bup.Base.{
  ℕ, ◌+◌, ◌≡◌, ◌⊎◌, inl, inr, refl, sym, ap, ◌∙◌, arith, Bool, true, false, ◌||◌, ◌&&◌, not, Option,
  none, some, List, [], ◌∷◌, ◌++◌, ◌==◌, append_assoc, append-nil, Bool-cases, All,
}
use bup.Shquote.{
  q, qq, backslash, Splitting, Word, is_open, is_quote, is_empty, is_space, pending, split_step,
  split_loop, quotesplit, escape, escape_all, quotify, has, qtype_of, join_words, quoted_words,
  quotify_list,
}

abbrev pub is_backslash : ℕ → Bool
is_backslash c = c == backslash

-- The words without their offsets.
pub words_only : List Word → List (List ℕ)
words_only [] = []
words_only ((wordstart, word) ∷ words) = word ∷ words_only words

-- Between two words.
abbrev clean : ℕ → Splitting
clean wordstart = record { inquote = none; inescape = false; wordstart = wordstart; word = [] }

abbrev inside : Option ℕ → ℕ → List ℕ → Splitting
inside inquote wordstart word = record {
  inquote = inquote;
  inescape = false;
  wordstart = wordstart;
  word = word;
}

abbrev words_of : ℕ → Splitting → List ℕ → List (List ℕ)
words_of i s line = words_only (split_loop i s line).0

-- What a round leads to by what it yields.
loop_quiet :
    (i c : ℕ) (s s' : Splitting) (line : List ℕ)
    → split_step i c s ≡ ([], s')
    → words_of i s (c ∷ line) ≡ words_of (i + 1) s' line
unfolding split_loop
loop_quiet i c s s' line e = rw e

loop_yields :
    (i c wordstart : ℕ) (word : List ℕ) (s s' : Splitting) (line : List ℕ)
    → split_step i c s ≡ ((wordstart, word) ∷ [], s')
    → words_of i s (c ∷ line) ≡ word ∷ words_of (i + 1) s' line
unfolding split_loop words_only
loop_yields i c wordstart word s s' line e = rw e

-- A backslash, and a character that it stands before.
abbrev escaping : Option ℕ → ℕ → List ℕ → Splitting
escaping inquote wordstart word = record {
  inquote = inquote;
  inescape = true;
  wordstart = wordstart;
  word = word;
}

take_escaped :
    (inquote : Option ℕ) (i wordstart d : ℕ) (w line : List ℕ)
    → is_quote inquote backslash ≡ false
    → is_quote inquote q && not (d == q) ≡ false
    → words_of i (inside inquote wordstart w) (backslash ∷ d ∷ line)
      ≡ words_of (i + 1 + 1) (inside inquote wordstart (w ++ d ∷ [])) line
unfolding split_step
take_escaped inquote i wordstart d w line b e =
    loop_quiet i backslash (inside inquote wordstart w) (escaping inquote wordstart w) (d ∷ line)
      refl
    ∙ loop_quiet (i + 1) d (escaping inquote wordstart w) (inside inquote wordstart (w ++ d ∷ []))
        line (rw e)

-- A character that is taken as it is.
take_plain :
    (inquote : Option ℕ) (i wordstart d : ℕ) (w line : List ℕ)
    → d == backslash ≡ false
    → is_quote inquote d ≡ false
    → not (is_open inquote) && is_empty w && (d == q || d == qq) ≡ false
    → not (is_open inquote) && is_space d ≡ false
    → words_of i (inside inquote wordstart w) (d ∷ line)
      ≡ words_of (i + 1) (inside inquote wordstart (w ++ d ∷ [])) line
unfolding split_step
take_plain inquote i wordstart d w line b e o s =
    loop_quiet i d (inside inquote wordstart w) (inside inquote wordstart (w ++ d ∷ [])) line
      (rw (b, e, o, s))

-- Up to the closing quote.
in_quote :
    (c : ℕ) (word : List ℕ) (i wordstart : ℕ) (w rest : List ℕ)
    → c == backslash ≡ false
    → has is_backslash word ≡ false
    → (j : ℕ) × (words_of i (inside (some c) wordstart w) (escape c word ++ c ∷ rest)
        ≡ (w ++ word) ∷ words_of j (clean j) rest)
unfolding split_step escape has is_quote is_open
in_quote c [] i wordstart w rest h k = (
  i + 1,
  loop_yields i c wordstart (w ++ []) (inside (some c) wordstart w) (clean (i + 1)) rest
      (ground (arith, append-nil w)),
)
in_quote c (d ∷ word) i wordstart w rest h k = elim (Bool-cases (d == c)) [
  | inl same ↦
      let (j, e) = in_quote c word (i + 1 + 1) wordstart (w ++ d ∷ []) rest h (ground (arith, k)) in
      (
        j,
        rw same (
            take_escaped (some c) i wordstart d w (escape c word ++ c ∷ rest) (ground (arith, h))
              (ground (arith, same))
            ∙ (e ∙ ap (λ x. x ∷ words_of j (clean j) rest) (append_assoc w (d ∷ []) word))),
      )
  | inr other ↦
      let (j, e) = in_quote c word (i + 1) wordstart (w ++ d ∷ []) rest h (ground (arith, k)) in
      (
        j,
        rw other (
            take_plain (some c) i wordstart d w (escape c word ++ c ∷ rest) (ground (arith, k))
              (ground (arith, other)) refl refl
            ∙ (e ∙ ap (λ x. x ∷ words_of j (clean j) rest) (append_assoc w (d ∷ []) word))),
      )
]

-- A word without quotes.
bare :
    (word : List ℕ) (i wordstart : ℕ) (w rest : List ℕ)
    → has is_backslash word ≡ false
    → (j : ℕ) × (words_of i (inside none wordstart w) (escape_all word ++ rest)
        ≡ words_of j (inside none wordstart (w ++ word)) rest)
unfolding escape_all has is_quote is_open
bare [] i wordstart w rest k =
    (i, ap (λ x. words_of i (inside none wordstart x) rest) (sym (append-nil w)))
bare (d ∷ word) i wordstart w rest k = elim (Bool-cases (d == q || d == qq || is_space d)) [
  | inl special ↦
      let (j, e) = bare word (i + 1 + 1) wordstart (w ++ d ∷ []) rest (ground (arith, k)) in
      (
        j,
        rw special (
            take_escaped none i wordstart d w (escape_all word ++ rest) refl refl
            ∙ (e
                ∙ ap (λ x. words_of j (inside none wordstart x) rest)
                    (append_assoc w (d ∷ []) word))),
      )
  | inr other ↦
      let (j, e) = bare word (i + 1) wordstart (w ++ d ∷ []) rest (ground (arith, k)) in
      (
        j,
        rw other (
            take_plain none i wordstart d w (escape_all word ++ rest) (ground (arith, k)) refl
              (ground (arith, other)) (ground (arith, other))
            ∙ (e
                ∙ ap (λ x. words_of j (inside none wordstart x) rest)
                    (append_assoc w (d ∷ []) word))),
      )
]

quoted_word :
    (c : ℕ) (word : List ℕ) (i wordstart : ℕ) (rest : List ℕ)
    → c == qq || c == q ≡ true
    → has is_backslash word ≡ false
    → (j : ℕ) × (words_of i (clean wordstart) (quotify (some c) word true ++ rest)
        ≡ word ∷ words_of j (clean j) rest)
unfolding quotify split_step is_open is_quote is_empty
quoted_word c word i wordstart rest h k =
    let (j, e) = in_quote c word (i + 1) i [] rest (ground (arith, h)) k in
    (
      j,
      rw (h, append_assoc (escape c word) (c ∷ []) rest)
          (loop_quiet i c (clean wordstart) (inside (some c) i []) (escape c word ++ c ∷ rest)
              (ground (arith, h))
            ∙ e),
    )

bare_yields :
    (word : List ℕ) (j wordstart : ℕ) (rest : List ℕ)
    → is_empty word ≡ false
    → words_of j (inside none wordstart word) (32 ∷ rest)
      ≡ word ∷ words_of (j + 1) (clean (j + 1)) rest
unfolding is_empty split_step is_open is_quote is_space pending
bare_yields [] j wordstart rest h = absurd (ground (arith, h))
bare_yields (c ∷ word) j wordstart rest h =
    loop_yields j 32 wordstart (c ∷ word) (inside none wordstart (c ∷ word)) (clean (j + 1)) rest
      refl

bare_ends :
    (word : List ℕ) (j wordstart : ℕ)
    → is_empty word ≡ false
    → words_of j (inside none wordstart word) [] ≡ word ∷ []
unfolding is_empty split_loop pending words_only
bare_ends [] j wordstart h = absurd (ground (arith, h))
bare_ends (c ∷ word) j wordstart h = refl

qtype_cases :
    (word : List ℕ)
    → ((qtype_of word ≡ none) × (is_empty word ≡ false))
      ⊎ ((c : ℕ) × (qtype_of word ≡ some c) × (c == qq || c == q ≡ true))
unfolding qtype_of
qtype_cases word =
    elim (Bool-cases (
      not (is_empty word)
      && not (has (λ c. is_space c || c == 11 || c == 12 || c == qq || c == q) word))) [
        | inl plain ↦ inl (rw plain, ground (arith, plain))
        | inr special ↦
            elim (Bool-cases (has (λ c. c == q) word && not (has (λ c. c == qq) word))) [
              | inl double ↦ inr (qq, rw (special, double), refl)
              | inr single ↦ inr (q, rw (special, single), refl)
            ]
      ]

word_then :
    (word : List ℕ) (i wordstart : ℕ) (rest : List ℕ)
    → has is_backslash word ≡ false
    → (j : ℕ) × (words_of i (clean wordstart) (quotify (qtype_of word) word true ++ 32 ∷ rest)
        ≡ word ∷ words_of j (clean j) rest)
unfolding quotify split_step is_open is_quote is_empty is_space pending
word_then word i wordstart rest k = elim (qtype_cases word) [
  | inl (t, some_char) ↦
      let (j, e) = bare word i wordstart [] (32 ∷ rest) k in
      (j + 1, rw t (e ∙ bare_yields word j wordstart rest some_char))
  | inr (c, t, h) ↦
      let (j, e) = quoted_word c word i wordstart (32 ∷ rest) h k in
      (
        j + 1,
        ap (λ t. words_of i (clean wordstart) (quotify t word true ++ 32 ∷ rest)) t
            ∙ (e ∙ ap (λ x. word ∷ x) (loop_quiet j 32 (clean j) (clean (j + 1)) rest refl)),
      )
]

word_ends :
    (word : List ℕ) (i wordstart : ℕ)
    → has is_backslash word ≡ false
    → words_of i (clean wordstart) (quotify (qtype_of word) word true) ≡ word ∷ []
unfolding quotify split_loop pending words_only
word_ends word i wordstart k = elim (qtype_cases word) [
  | inl (t, some_char) ↦
      let (j, e) = bare word i wordstart [] [] k in
      rw (t, ← append-nil (escape_all word)) (e ∙ bare_ends word j wordstart some_char)
  | inr (c, t, h) ↦
      let (j, e) = quoted_word c word i wordstart [] h k in
      ap (λ t. words_of i (clean wordstart) (quotify t word true)) t
      ∙ (ap (λ l. words_of i (clean wordstart) l) (sym (append-nil (quotify (some c) word true)))
          ∙ e)
]

words_back :
    (words : List (List ℕ)) (i wordstart : ℕ)
    → All (λ word. has is_backslash word ≡ false) words
    → words_of i (clean wordstart) (join_words (quoted_words words)) ≡ words
unfolding join_words quoted_words split_loop pending words_only
words_back [] i wordstart h = refl
words_back (word ∷ []) i wordstart (k, _) = word_ends word i wordstart k
words_back (word ∷ next ∷ words) i wordstart (k, h) =
    let (j, e) = word_then word i wordstart (join_words (quoted_words (next ∷ words))) k in
    e ∙ ap (λ x. word ∷ x) (words_back (next ∷ words) j j h)

-- For any list of words that have no backslash, empty words and words with blanks and quotes of
-- both kinds included, quotesplit of the line of quotify_list gives exactly these words in their
-- order.
pub quotesplit-quotify_list :
    (words : List (List ℕ))
    → All (λ word. has is_backslash word ≡ false) words
    → words_only (quotesplit (quotify_list words)) ≡ words
unfolding quotesplit quotify_list
quotesplit-quotify_list words h = words_back words 0 0 h
