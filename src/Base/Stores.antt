-- ===== src/Base/Stores.antt =====
-- Memory as functions from pointers, and its update at one pointer.
use Prim.Native.Nat.{ℕ}
use mathlib.Core.Path.{◌≡◌}
use mathlib.Core.Logic.{◌≢◌}
use native.Mathlib.Omega.{arith}
use ats.Base.Tests.{◌==◌, if◌then◌else◌, ==_refl}

module _ {ℓ} {A : Type ℓ} where
  abbrev pub update : (ℕ → A) → ℕ → A → ℕ → A
  update f i a j = if i == j then a else f j

  pub update_self : (f : ℕ → A) (i : ℕ) (a : A) → update f i a i ≡ a
  update_self f i a = ground (arith, ==_refl i)

  pub update_ne : (f : ℕ → A) (i j : ℕ) (a : A) → i ≢ j → update f i a j ≡ f j
  update_ne f i j a h = ground arith
