-- ===== src/Prelude/Maps.antt =====
-- Total functions from numbers, updated at one index.
use Prim.Native.Nat.{ℕ}
use systems_programming_port.Prelude.Tests.{◌==◌, if◌then◌else◌}

module _ {ℓ} {A : Type ℓ} where
  abbrev pub update : (ℕ → A) → ℕ → A → ℕ → A
  update f i a j = if i == j then a else f j
