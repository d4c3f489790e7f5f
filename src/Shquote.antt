-- ===== src/Shquote.antt =====
-- lib/bup/shquote.py: splitting a command line into words, and quoting words for it. A quote type is
-- none for b''.
pub mod RoundTrip
pub mod Completion
mod Tests
use bup.Base.{
  ℕ, zero, suc, ◌+◌, Bool, true, false, ◌||◌, ◌&&◌, not, Option, none, some, List, [], ◌∷◌, ◌++◌,
  ◌==◌, if◌then◌else◌, length, drop,
}
use bup.Base.Error.{Result, ok, err, unbound_local_error}

abbrev pub q : ℕ
q = b'\''

abbrev pub qq : ℕ
qq = b'"'

abbrev pub backslash : ℕ
backslash = b'\\'

-- The variables of `_quotesplit`.
pub record Splitting : Type 0 where
  pub inquote : Option ℕ
  pub inescape : Bool
  pub wordstart : ℕ
  pub word : List ℕ

abbrev pub Word : Type 0
Word = ℕ × List ℕ

pub is_open : Option ℕ → Bool
is_open none = false
is_open (some c) = true

pub is_quote : Option ℕ → ℕ → Bool
is_quote none c = false
is_quote (some d) c = c == d

pub is_empty : List ℕ → Bool
is_empty [] = true
is_empty (c ∷ word) = false

pub is_space : ℕ → Bool
is_space c = c == 32 || c == 10 || c == 13 || c == 9

-- What is yielded for a word, if there is one.
pub pending : ℕ → List ℕ → List Word
pending wordstart [] = []
pending wordstart (c ∷ word) = (wordstart, c ∷ word) ∷ []

-- One round of the loop, at index `i`: what it yields, and the variables after it.
pub split_step : ℕ → ℕ → Splitting → List Word × Splitting
split_step i c s =
    if s.inescape
    then (
      [],
      record s {
        word =
            if is_quote s.inquote q && not (c == q)
            then s.word ++ backslash ∷ c ∷ []
            else s.word ++ c ∷ [];
        inescape = false;
      },
    )
    else if c == backslash
    then ([], record s { inescape = true })
    else if is_quote s.inquote c
    then (
      (s.wordstart, s.word) ∷ [],
      record { inquote = none; inescape = false; wordstart = i + 1; word = [] },
    )
    else if not (is_open s.inquote) && is_empty s.word && (c == q || c == qq)
    then ([], record s { inquote = some c; wordstart = i })
    else if not (is_open s.inquote) && is_space c
    then (pending s.wordstart s.word, record s { word = []; wordstart = i + 1 })
    else ([], record s { word = s.word ++ c ∷ [] })

-- The words that `_quotesplit` yields, and whether it raises QuoteError at the end.
pub split_loop : ℕ → Splitting → List ℕ → List Word × Bool
split_loop i s [] =
    (pending s.wordstart s.word, is_open s.inquote || s.inescape || not (is_empty s.word))
split_loop i s (c ∷ line) =
    let (yielded, s') = split_step i c s in
    let (words, raises) = split_loop (i + 1) s' line in (yielded ++ words, raises)

abbrev pub unquoted : Splitting
unquoted = record { inquote = none; inescape = false; wordstart = 0; word = [] }

pub quotesplit : List ℕ → List Word
quotesplit line = (split_loop 0 unquoted line).0

pub first_char : List ℕ → Option ℕ
first_char [] = none
first_char (c ∷ line) = if c == q || c == qq then some c else none

-- The handler of QuoteError, which uses what the loop was at last.
pub unfinished : List ℕ → List Word → Result (Option ℕ × List ℕ)
unfinished line [] = err unbound_local_error
unfinished line ((wordstart, word) ∷ []) = ok (first_char (drop wordstart line), word)
unfinished line (first ∷ second ∷ words) = unfinished line (second ∷ words)

pub unfinished_word : List ℕ → Result (Option ℕ × List ℕ)
unfinished_word line =
    let (words, raises) = split_loop 0 unquoted line in
    if raises then unfinished line words else ok (none, [])

-- word.replace(c, b'\\' + c)
pub escape : ℕ → List ℕ → List ℕ
escape c [] = []
escape c (d ∷ word) = if d == c then backslash ∷ d ∷ escape c word else d ∷ escape c word

-- re.sub(br'([\"\' \t\n\r])', br'\\\1', word)
pub escape_all : List ℕ → List ℕ
escape_all [] = []
escape_all (d ∷ word) =
    if d == q || d == qq || is_space d then backslash ∷ d ∷ escape_all word else d ∷ escape_all word

pub quotify : Option ℕ → List ℕ → Bool → List ℕ
quotify none word terminate = escape_all word
quotify (some c) word terminate =
    if c == qq || c == q
    then c ∷ escape c word ++ (if terminate then c ∷ [] else [])
    else escape_all word

unfoldable pub has : (ℕ → Bool) → List ℕ → Bool
has test [] = false
has test (c ∷ word) = test c || has test word

-- \s also has \f and \v.
pub qtype_of : List ℕ → Option ℕ
qtype_of word =
    if not (is_empty word)
      && not (has (λ c. is_space c || c == 11 || c == 12 || c == qq || c == q) word)
    then none
    else if has (λ c. c == q) word && not (has (λ c. c == qq) word)
    then some qq
    else some q

pub join_words : List (List ℕ) → List ℕ
join_words [] = []
join_words (word ∷ []) = word
join_words (word ∷ next ∷ words) = word ++ 32 ∷ join_words (next ∷ words)

pub quoted_words : List (List ℕ) → List (List ℕ)
quoted_words [] = []
quoted_words (word ∷ words) = quotify (qtype_of word) word true ∷ quoted_words words

pub quotify_list : List (List ℕ) → List ℕ
quotify_list words = join_words (quoted_words words)

pub starts_with : List ℕ → List ℕ → Bool
starts_with word [] = true
starts_with [] (d ∷ prefix) = false
starts_with (c ∷ word) (d ∷ prefix) = c == d && starts_with word prefix

pub what_to_add : Option ℕ → List ℕ → List ℕ → Bool → List ℕ
what_to_add qtype origword newword terminate =
    if starts_with newword origword
    then drop (length (quotify qtype origword false)) (quotify qtype newword terminate)
    else []
