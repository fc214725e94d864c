-- ===== src/Base/Chunks.antt =====
-- A transfer in units: how much a round takes of what is left.
use Prim.Native.Nat.{ℕ, ◌<◌, ◌≤◌}
use mathlib.Core.Path.{◌≡◌, refl}
use mathlib.Core.Logic.{◌⊎◌, inl, inr}
use native.Mathlib.Omega.{arith}
use native.Mathlib.Decide.{dec_lt}

-- A round takes `s` of the `n` that are left: a whole unit, or the rest.
abbrev pub Takes : ℕ → ℕ → ℕ → Type 0
Takes unit n s = ((s ≡ unit) × (unit < n)) ⊎ ((s ≡ n) × (n ≤ unit))

pub takes : (unit n : ℕ) → (s : ℕ) × Takes unit n s
takes unit n = elim (dec_lt unit n) [
  | yes h ↦ (unit, inl (refl, h))
  | no h ↦ (n, inr (refl, omega (arith, h)))
]
