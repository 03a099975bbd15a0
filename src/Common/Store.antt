-- ===== src/Common/Store.antt =====
-- C arrays as functions of their index, written at one place.
use abtst.Common.Tests.{◌==◌, if◌then◌else◌}
use Prim.Native.Nat.{ℕ}

abbrev pub Array {ℓ} : Type ℓ → Type ℓ
Array A = ℕ → A

abbrev pub write {ℓ} : {A : Type ℓ} → Array A → ℕ → A → Array A
write f i v j = if j == i then v else f j
