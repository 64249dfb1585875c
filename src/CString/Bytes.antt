-- ===== src/CString/Bytes.antt =====
-- Memory as bytes by address, for CS330_projects/proj1/lib/string.c.
use cs_courses.Base.{ℕ, ◌+◌, ◌<◌, ◌≡◌, ◌==◌, if◌then◌else◌, List, [], ◌∷◌}

abbrev pub Memory : Type 0
Memory = ℕ → ℕ

abbrev pub store : Memory → ℕ → ℕ → Memory
store m a v b = if b == a then v else m b

-- A failed ASSERT is `panic`; a loop that has not ended in its rounds is `out_of_fuel`.
pub data Run (A : Type 0) : Type 0 where
  ok : A → Run A
  panic : Run A
  out_of_fuel : Run A

infixl 5 ◌>>=◌
abbrev pub ◌>>=◌ : {A B : Type 0} → Run A → (A → Run B) → Run B
ok a >>= k = k a
panic >>= k = panic
out_of_fuel >>= k = out_of_fuel

-- A string of non-null characters at an address, with its null terminator behind it.
abbrev pub IsStr : Memory → ℕ → List ℕ → Type 0
IsStr m p [] = m p ≡ 0
IsStr m p (c ∷ cs) = (m p ≡ c) × (0 < c) × IsStr m (p + 1) cs
