-- ===== src/Base/Packs.antt =====
-- Values that struct.pack takes, one by one.
use mathlib.Core.Path.{◌≡◌, refl}
use mathlib.Core.List.{List, [], ◌∷◌, ◌++◌}
use Prim.Native.Nat.{ℕ}
use native.Mathlib.Omega.{arith}
use bup.Base.Lists.{length}
use bup.Base.Error.{Result, ok, err, undefined, ◌>>=◌}
use bup.Base.Struct.{Format, Value, pack_value, pack}

-- Every value fits its format.
abbrev pub AllFit : List Format → List Value → Type 0
AllFit [] [] = Unit
AllFit (f ∷ fmt) (v ∷ values) = ((b : List ℕ) × (pack_value f v ≡ ok b)) × AllFit fmt values
AllFit [] (v ∷ values) = ⊥
AllFit (f ∷ fmt) [] = ⊥

-- What is returned by two steps was returned by the first.
first_returns :
    {A B : Type 0} (r : Result A) (f : A → Result B) (b : B)
    → (r >>= f) ≡ ok b
    → (a : A) × (r ≡ ok a) × (f a ≡ ok b)
first_returns (ok a) f b h = (a, refl, h)
first_returns (err e) f b h = absurd (cc)
first_returns undefined f b h = absurd (cc)

pub pack-AllFit :
    (fmt : List Format) (values : List Value) (b : List ℕ)
    → pack fmt values ≡ ok b
    → AllFit fmt values
unfolding pack
pack-AllFit [] [] b h = tt
pack-AllFit [] (v ∷ values) b h = absurd (cc)
pack-AllFit (f ∷ fmt) [] b h = absurd (cc)
pack-AllFit (f ∷ fmt) (v ∷ values) b h =
    let (front, e, k) = first_returns (pack_value f v) _ b h in
    let (rest, e', k') = first_returns (pack fmt values) _ b k in
    ((front, e), pack-AllFit fmt values rest e')

pub AllFit-pack :
    (fmt : List Format) (values : List Value)
    → AllFit fmt values
    → (b : List ℕ) × (pack fmt values ≡ ok b)
unfolding pack
AllFit-pack [] [] h = ([], refl)
AllFit-pack [] (v ∷ values) h = absurd h
AllFit-pack (f ∷ fmt) [] h = absurd h
AllFit-pack (f ∷ fmt) (v ∷ values) ((b, e), h) =
    let (rest, e') = AllFit-pack fmt values h in (b ++ rest, rw (e, e') refl)

-- Other values behind the first ones.
pub AllFit-after :
    (front : List Format) (values : List Value) (fmt : List Format) (old new : List Value)
    → length front ≡ length values
    → (AllFit fmt old → AllFit fmt new)
    → AllFit (front ++ fmt) (values ++ old)
    → AllFit (front ++ fmt) (values ++ new)
AllFit-after [] [] fmt old new l k h = k h
AllFit-after [] (v ∷ values) fmt old new l k h = absurd (omega (arith, l))
AllFit-after (f ∷ front) [] fmt old new l k h = absurd (omega (arith, l))
AllFit-after (f ∷ front) (v ∷ values) fmt old new l k (h, hs) =
    (h, AllFit-after front values fmt old new (omega (arith, l)) k hs)
