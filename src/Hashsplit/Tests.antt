-- ===== src/Hashsplit/Tests.antt =====
-- Runs of `split_to_blob_or_tree`, and the theorems at concrete inputs. An object's id stands for the
-- object: it is the bytes that the object reads as.
use mathlib.Core.Path.{◌≡◌, refl}
use bup.Base.{ℕ, List, [], ◌∷◌, length, All, arith}
use bup.Hashsplit.{Entry, TreeEntry, git_mode_file, squish, split_to_blob_or_tree}
use bup.Hashsplit.Rounds.{squish-IsRoomy, IsRoomy}
use bup.Hashsplit.Order.{sorted_entries}
use bup.Hashsplit.Content.{tree_content, content-split_to_blob_or_tree}

abbrev itself : List ℕ → List ℕ
itself s = s

abbrev maketree : List (TreeEntry (List ℕ)) → List ℕ
maketree l = tree_content itself (sorted_entries l)

-- Two blobs at the end of which the splitter reports a level, and one more.
abbrev splitter : List (List ℕ × ℕ)
splitter = (b'a' ∷ b'b' ∷ [], 1) ∷ (b'c' ∷ [], 2) ∷ (b'd' ∷ [], 0) ∷ []

content-split_to_blob_or_tree_example :
    (split_to_blob_or_tree maketree itself length [] splitter).1 ≡ b'a' ∷ b'b' ∷ b'c' ∷ b'd' ∷ []
content-split_to_blob_or_tree_example =
    content-split_to_blob_or_tree itself maketree (λ l. refl) itself length itself (λ b. refl) []
      splitter refl (omega arith, (omega arith, (omega arith, tt)))

abbrev one : Entry (List ℕ)
one = record { mode = git_mode_file; sha = b'a' ∷ []; size = 1 }

squish-IsRoomy_example :
    All (IsRoomy maketree) (squish maketree ((one ∷ one ∷ []) ∷ (one ∷ []) ∷ []) 1)
squish-IsRoomy_example =
    squish-IsRoomy maketree (one ∷ one ∷ []) ((one ∷ []) ∷ []) 1 (omega arith, tt)
