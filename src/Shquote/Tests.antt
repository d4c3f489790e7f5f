-- ===== src/Shquote/Tests.antt =====
-- Lines and words, and the theorems on them.
use bup.Base.{◌≡◌, refl, true, some, [], ◌∷◌, ◌++◌}
use bup.Base.Bytes.{ascii}
use bup.Base.Error.{err, unbound_local_error}
use bup.Shquote.{
  qq, backslash, split_step, split_loop, is_open, is_quote, is_empty, is_space, pending, quotesplit,
  unfinished, unfinished_word, escape, quotify, has, quotify_list,
}
use bup.Shquote.RoundTrip.{words_only, quotesplit-quotify_list}

splits_unfinished :
    quotesplit (ascii "  this is \"unfinished")
    ≡ (2, ascii "this") ∷ (7, ascii "is") ∷ (10, ascii "unfinished") ∷ []
unfolding quotesplit split_loop split_step is_open is_quote is_empty is_space pending
splits_unfinished = refl

-- `quotify` leaves a backslash as it is, which then escapes the closing quote: the word changes.
backslash_lost :
    quotesplit (quotify (some qq) (ascii "a" ++ backslash ∷ []) true) ≡ (0, ascii "a\"") ∷ []
unfolding quotesplit split_loop split_step is_open is_quote is_empty is_space pending quotify escape
backslash_lost = refl

-- No word was yielded, so that `wordstart` has no value.
lone_quote : unfinished_word (ascii "\"") ≡ err unbound_local_error
unfolding unfinished_word unfinished split_loop split_step is_open is_quote is_empty is_space
    pending
lone_quote = refl

quotesplit-quotify_list_example :
    words_only (
      quotesplit
        (quotify_list (ascii "a" ∷ [] ∷ ascii "two words" ∷ ascii "it's" ∷ ascii "'\"" ∷ [])))
    ≡ ascii "a" ∷ [] ∷ ascii "two words" ∷ ascii "it's" ∷ ascii "'\"" ∷ []
unfolding has
quotesplit-quotify_list_example =
    quotesplit-quotify_list (ascii "a" ∷ [] ∷ ascii "two words" ∷ ascii "it's" ∷ ascii "'\"" ∷ [])
      (refl, (refl, (refl, (refl, (refl, tt)))))
