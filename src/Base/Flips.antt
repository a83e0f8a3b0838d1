-- ===== src/Base/Flips.antt =====
-- Flipping all bits of one byte.
use Prim.Native.Nat.{ℕ, zero, suc, ◌-◌, ◌<◌}
use mathlib.Core.Path.{◌≡◌, refl, ap}
use mathlib.Core.Logic.{◌≢◌}
use mathlib.Core.List.{[], ◌∷◌}
use native.Mathlib.Omega.{arith}
use tessera_transparency.Base.Lists.{length}
use tessera_transparency.Base.ByteStrings.{Bytes, IsBytes}

-- `^= 0xFF` of the byte at an index.
abbrev pub flip_at : ℕ → Bytes → Bytes
flip_at i [] = []
flip_at zero (b ∷ bs) = (255 - b) ∷ bs
flip_at (suc i) (b ∷ bs) = b ∷ flip_at i bs

pub flip_at-flip_at : (i : ℕ) (d : Bytes) → IsBytes d → flip_at i (flip_at i d) ≡ d
flip_at-flip_at i [] h = refl
flip_at-flip_at zero (b ∷ d) (hb, h) = ap (λ c. c ∷ d) (omega arith)
flip_at-flip_at (suc i) (b ∷ d) (hb, h) = ap (λ t. b ∷ t) (flip_at-flip_at i d h)

pub flip_at_ne : (i : ℕ) (d : Bytes) → IsBytes d → i < length d → flip_at i d ≢ d
flip_at_ne i [] h inside e = absurd (omega arith)
flip_at_ne zero (b ∷ d) (hb, h) inside e = ground arith
flip_at_ne (suc i) (b ∷ d) (hb, h) inside e = flip_at_ne i d h (omega arith) (ground arith)

pub length-flip_at : (i : ℕ) (d : Bytes) → length (flip_at i d) ≡ length d
length-flip_at i [] = refl
length-flip_at zero (b ∷ d) = refl
length-flip_at (suc i) (b ∷ d) = ap suc (length-flip_at i d)
