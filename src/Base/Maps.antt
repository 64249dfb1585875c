-- ===== src/Base/Maps.antt =====
-- Maps from addresses, with a value at each.
use Prim.Native.Nat.{ℕ}
use cs_courses.Base.Tests.{◌==◌, if◌then◌else◌}

abbrev pub update {ℓ} : {A : Type ℓ} → (ℕ → A) → ℕ → A → ℕ → A
update f p a q = if q == p then a else f q
