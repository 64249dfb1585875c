-- ===== src/KernelList/Links.antt =====
-- The heap of links under CS330_projects/proj1/lib/kernel/list.c, and commands over it.
use cs_courses.Base.{ℕ, Bool, ◌==◌, if◌then◌else◌}

abbrev pub Ptr : Type 0
Ptr = ℕ

abbrev pub null : Ptr
null = 0

-- The two fields of every list element, by its address.
pub record Heap : Type 0 where
  pub prev : Ptr → Ptr
  pub next : Ptr → Ptr

-- How a command ends: with a value, at a failed ASSERT, at the dereference of NULL, or cut off.
pub data Run (A : Type 0) : Type 0 where
  panic fault out_of_fuel : Run A
  ok : A → Heap → Run A

abbrev pub Cmd : Type 0 → Type 0
Cmd A = Heap → Run A

abbrev pub pure : {A : Type 0} → A → Cmd A
pure = ok

-- What follows a command, run where that command has returned.
abbrev pub continue : {A B : Type 0} → (A → Cmd B) → Run A → Run B
continue rest panic = panic
continue rest fault = fault
continue rest out_of_fuel = out_of_fuel
continue rest (ok a h) = rest a h

infixl 5 ◌>>=◌ ◌>>◌
abbrev pub ◌>>=◌ : {A B : Type 0} → Cmd A → (A → Cmd B) → Cmd B
c >>= rest = λ h. continue rest (c h)

abbrev pub ◌>>◌ : {A B : Type 0} → Cmd A → Cmd B → Cmd B
c >> rest = λ h. continue (λ _. rest) (c h)

-- A field with one address written.
abbrev pub update : (Ptr → Ptr) → Ptr → Ptr → Ptr → Ptr
update f p v a = if a == p then v else f a

unfoldable pub get_next : Ptr → Cmd Ptr
get_next e h = if e == null then fault else ok (h.next e) h

unfoldable pub get_prev : Ptr → Cmd Ptr
get_prev e h = if e == null then fault else ok (h.prev e) h

unfoldable pub set_next : Ptr → Ptr → Cmd (Unit {0})
set_next e q h = if e == null then fault else ok tt (record h { next = update h.next e q })

unfoldable pub set_prev : Ptr → Ptr → Cmd (Unit {0})
set_prev e q h = if e == null then fault else ok tt (record h { prev = update h.prev e q })

-- ASSERT, of a condition on the heap
unfoldable pub assert : (Heap → Bool) → Cmd (Unit {0})
assert c h = if c h then ok tt h else panic
