-- ===== src/Base/Hex.antt =====
-- Python's `%x` and `%0*x` on numbers that are not negative.
pub mod Order
use Prim.Native.Nat.{ℕ, zero, suc, ◌+◌, ◌-◌, ◌/◌, ◌%◌}
use mathlib.Core.List.{List, [], ◌∷◌, ◌++◌}
use bup.Base.Tests.{ltb, ◌==◌, if◌then◌else◌}
use bup.Base.Lists.{length}

hex_digit : ℕ → ℕ
hex_digit d = if ltb d 10 then b'0' + d else b'a' + (d - 10)

-- The digits of `n`, with `rounds` digits at most.
hex_loop : ℕ → ℕ → List ℕ
hex_loop zero n = []
hex_loop (suc rounds) n =
    let front = hex_loop rounds (n / 16) in
    if n / 16 == 0 then hex_digit n ∷ [] else front ++ hex_digit (n % 16) ∷ []

-- '%x' % n; a number has at most as many digits as it counts, and one more.
pub hex : ℕ → List ℕ
hex n = hex_loop (suc n) n

unfoldable pub replicate : ℕ → ℕ → List ℕ
replicate zero c = []
replicate (suc n) c = c ∷ replicate n c

-- '%0*x' % (width, n)
pub hex_padded : ℕ → ℕ → List ℕ
hex_padded width n = replicate (width - length (hex n)) b'0' ++ hex n
