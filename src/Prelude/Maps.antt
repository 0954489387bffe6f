-- ===== src/Prelude/Maps.antt =====
-- Arrays and pointer fields as functions from an index or an address.
use Prim.Native.Nat.{ℕ}
use mathlib.Core.Path.{◌≡◌}
use mathlib.Core.Logic.{◌≢◌}
use native.Mathlib.Omega.{arith}
use njuos.Prelude.Tests.{◌==◌, if◌then◌else◌}

abbrev pub update {ℓ} : {A : Type ℓ} → (ℕ → A) → ℕ → A → ℕ → A
update f i v j = if i == j then v else f j

module _ {ℓ} {A : Type ℓ} (f : ℕ → A) (i : ℕ) where
  pub update_self : (v : A) → update f i v i ≡ v
  update_self v = ground arith

  pub update_ne : (v : A) (j : ℕ) → i ≢ j → update f i v j ≡ f j
  update_ne v j h = ground arith

  -- Writing the old value back undoes a write.
  pub update_undo : (v w : A) (j : ℕ) → f i ≡ v → update (update f i w) i v j ≡ f j
  update_undo v w j h = ground arith
