-- ===== src/Index/Stored.antt =====
-- The levels of the writer against what its file lists, when a level is left.
use bup.Base.{
  ℕ, zero, suc, ◌<◌, ◌≡◌, refl, sym, arith, true, false, some, List, [], ◌∷◌, ◌++◌, ltb, length,
  append_assoc, append-nil, length-append, All,
}
use bup.Base.Error.{ok}
use bup.Index.{Entry, Platform}
use bup.Index.Writer.{Level, receive, last_name}
use bup.Index.Reader.{iter_entry}
use bup.Index.Listing.{
  as_read, IsListable, Written, AreListed, AreListed-map, AreListed-append, iter_children_lem,
}

-- What lies below an entry, in the file and in every file that begins with it.
unfoldable pub Yields : Platform → List ℕ → Entry → List Entry → Type 0
Yields p f c out =
    (rest : List ℕ) (fuel : ℕ)
    → length f < fuel
    → iter_entry p (f ++ rest) [] (λ e. true) fuel c ≡ ok out

Yields-append :
    (p : Platform) (f g : List ℕ) (c : Entry) (out : List Entry)
    → Yields p f c out
    → Yields p (f ++ g) c out
unfolding Yields
Yields-append p f g c out h rest fuel k =
    rw (append_assoc f g rest) (h (g ++ rest) fuel (omega (arith, length-append f g)))

Written-some :
    (p : Platform) (e : Entry) (es : List Entry) (b : List ℕ) → Written p (e ∷ es) b → 0 < length b
unfolding Written
Written-some p e es b (b1, b2, k, w, c) =
    rw c (omega (arith, length-append e.basename (0 ∷ (b1 ++ b2))))

-- An entry whose children are the entries that were just written.
Yields-Written :
    (p : Platform) (f b : List ℕ) (es out : List Entry) (c : Entry)
    → All IsListable es
    → Written p es b
    → AreListed (Yields p f) c.name es out
    → c.children_ofs ≡ length f
    → c.children_n ≡ length es
    → Yields p (f ++ b) c out
unfolding Yields iter_entry
Yields-Written p f b es out c good w l o n rest zero k = absurd (omega arith)
Yields-Written p f b es out c good w l o n rest (suc fuel) k =
    let inside : ltb (length ((f ++ b) ++ rest)) (length f) ≡ false =
      ground (arith, length-append (f ++ b) rest, length-append f b) in
    rw (o, n, inside, append_assoc f b rest)
      (iter_children_lem p (iter_entry p ((f ++ b) ++ rest) [] (λ e. true) fuel) c.name es out b f
        rest (length f) good w (below es w l) refl)
  where
    under :
        (length f < fuel)
        → (d : Entry) (o : List Entry) → Yields p f d o
        → iter_entry p ((f ++ b) ++ rest) [] (λ e. true) fuel d ≡ ok o
    under less d o h = rw append_assoc (h (b ++ rest) fuel less)

    below :
        (es : List Entry)
        → Written p es b
        → AreListed (Yields p f) c.name es out
        → AreListed
            (λ d o. iter_entry p ((f ++ b) ++ rest) [] (λ e. true) fuel d ≡ ok o)
            c.name
            es
            out
    below [] w l = l
    below (e ∷ es) w l =
        AreListed-map (Yields p f) _
          (under (omega (arith, length-append f b, Written-some p e es b w))) c.name (e ∷ es) out l

-- The names of a level under its parent.
abbrev pub IsName : List ℕ → Type 0
IsName x = (0 < length x) × All (λ c. 0 < c) x

abbrev pub joined : List (List ℕ) → List ℕ
joined [] = []
joined (x ∷ ename) = x ++ joined ename

joined-append : (ename : List (List ℕ)) (x : List ℕ) → joined (ename ++ x ∷ []) ≡ joined ename ++ x
joined-append [] x = append-nil x
joined-append (y ∷ ename) x = rw (joined-append ename x) (sym (append_assoc y (joined ename) x))

pub last_name-append : (ename : List (List ℕ)) (x : List ℕ) → last_name (ename ++ x ∷ []) ≡ x
unfolding last_name
last_name-append [] x = refl
last_name-append (y ∷ []) x = refl
last_name-append (y ∷ z ∷ ename) x = last_name-append (z ∷ ename) x

unfoldable pub IsLevel : Level → List Level → Type 0
IsLevel l [] = l.ename ≡ []
IsLevel l (parent ∷ above) = (x : List ℕ) × IsName x × (l.ename ≡ parent.ename ++ x ∷ [])

-- What the file lists of the levels: the entries of the root first.
unfoldable pub Lists : Platform → List ℕ → List Level → List Entry → Type 0
Lists p f [] out = out ≡ []
Lists p f (l ∷ above) out =
    (o1 : List Entry) × (o2 : List Entry) × Lists p f above o1
    × IsLevel l above
    × All IsListable l.list
    × AreListed (Yields p f) (joined l.ename) l.list o2
    × (out ≡ o1 ++ o2)

pub Lists-append :
    (p : Platform) (f b : List ℕ) (levels : List Level) (out : List Entry)
    → Lists p f levels out
    → Lists p (f ++ b) levels out
unfolding Lists
Lists-append p f b [] out h = h
Lists-append p f b (l ∷ above) out (o1, o2, h, i, g, a, e) = (
  o1,
  o2,
  Lists-append p f b above o1 h,
  i,
  g,
  AreListed-map (Yields p f) _ (Yields-append p f b) (joined l.ename) l.list o2 a,
  e,
)

pub Lists-root :
    (p : Platform) (f : List ℕ) (l : Level) (out : List Entry)
    → Lists p f (l ∷ []) out
    → l.ename ≡ []
unfolding Lists IsLevel
Lists-root p f l out h = h.3

All-append :
    (P : Entry → Type 0) (es : List Entry) (e : Entry) → All P es → P e → All P (es ++ e ∷ [])
All-append P [] e h k = (k, tt)
All-append P (d ∷ es) e (h, hs) k = (h, All-append P es e hs k)

IsLevel-receive :
    (closed : Entry × ℕ) (l : Level) (above : List Level)
    → IsLevel l above
    → IsLevel (receive (some closed) l) above
unfolding IsLevel receive
IsLevel-receive closed l [] h = h
IsLevel-receive closed l (parent ∷ above) h = h

-- The level that is left becomes an entry of its parent.
pub Lists-leave :
    (p : Platform) (f b : List ℕ) (l parent : Level) (above : List Level) (out : List Entry)
    (n : Entry) (counted : ℕ)
    → Lists p f (l ∷ parent ∷ above) out
    → Written p l.list b
    → n.basename ≡ last_name l.ename
    → length n.sha ≡ 20
    → n.children_ofs ≡ length f
    → n.children_n ≡ length l.list
    → Lists p
        (f ++ b)
        (receive (some (n, counted)) parent ∷ above)
        (out ++ as_read (joined l.ename) n ∷ [])
unfolding Lists IsLevel receive
Lists-leave p f b l parent above out n counted (o1, o2, h, (x, named, under), good, listed, whole) w
      last sha ofs number =
    let (q1, q2, h', i', g', a', e') = Lists-append p f b (parent ∷ above) o1 h in
    let base : n.basename ≡ x = rw (last, under) (last_name-append parent.ename x) in
    let full : joined parent.ename ++ n.basename ≡ joined l.ename =
      rw (base, under) (sym (joined-append parent.ename x)) in
    let below : Yields p (f ++ b) (as_read (joined l.ename) n) o2 =
      Yields-Written p f b l.list o2 (as_read (joined l.ename) n) good w listed ofs number in
    let name : IsListable n = (rw base named.0, rw base named.1, sha) in
    let added : AreListed (Yields p (f ++ b)) (joined parent.ename) (parent.list ++ n ∷ [])
        (q2 ++ (o2 ++ as_read (joined l.ename) n ∷ [])) =
      rw (← full) (
        AreListed-append (Yields p (f ++ b)) (joined parent.ename) parent.list n q2 o2 a'
          (rw full below)) in
    (
      q1,
      q2 ++ (o2 ++ as_read (joined l.ename) n ∷ []),
      h',
      IsLevel-receive (n, counted) parent above i',
      All-append IsListable parent.list n g' name,
      added,
      rw (whole, e') (simp append_assoc),
    )
