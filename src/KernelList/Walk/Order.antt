-- ===== src/KernelList/Walk/Order.antt =====
-- list_insert_ordered of CS330_projects/proj1/lib/kernel/list.c.
use mathlib.Core.Path.{subst}
use cs_courses.Base.{
  ℕ, zero, suc, ◌<◌, ◌≡◌, refl, ◌≢◌, Bool, false, ◌==◌, List, [], ◌∷◌, ◌++◌, arith, if◌then◌else◌,
  sym, length, Bool-cases, inl, inr,
}
use cs_courses.KernelList.Links.{Ptr, null, Heap, ok, assert}
use cs_courses.KernelList.{Header}
use cs_courses.KernelList.Path.{has}
use cs_courses.KernelList.Shape.{path, IsList, SameOutside, first_or}
use cs_courses.KernelList.Insert.{list_insert-IsList}
use cs_courses.KernelList.Ends.{list_begin-first_or}
use cs_courses.KernelList.Walk.{place_loop, list_insert_ordered}
use cs_courses.KernelList.Walk.Read.{Walk, Walk-inside, Walk-IsList, list_next-Walk}

-- No element is less than the one in front of it.
abbrev pub IsSorted : (Ptr → Ptr → Bool) → List Ptr → Type 0
IsSorted less [] = Unit
IsSorted less (a ∷ []) = Unit
IsSorted less (a ∷ b ∷ r) = (less b a ≡ false) × IsSorted less (b ∷ r)

module _ (less : Ptr → Ptr → Bool) (e : Ptr) where
  -- The elements that the search passes, and those at which it stops.
  unfoldable pub passed : List Ptr → List Ptr
  passed [] = []
  passed (x ∷ xs) = if less e x then [] else x ∷ passed xs

  unfoldable pub left : List Ptr → List Ptr
  left [] = []
  left (x ∷ xs) = if less e x then x ∷ xs else left xs

  passed-left : (xs : List Ptr) → passed xs ++ left xs ≡ xs
  unfolding passed left
  passed-left [] = refl
  passed-left (x ∷ xs) = ground (arith, passed-left xs)

  place_loop-left :
      (h : Heap) (t : Ptr) (k : ℕ) (xs : List Ptr)
      → Walk h t xs
      → length xs < k
      → place_loop less k t e (first_or xs t) h ≡ ok (first_or (left xs) t) h
  unfolding place_loop left
  place_loop-left h t zero xs w fuel = absurd (omega arith)
  place_loop-left h t (suc k) [] w fuel = ground arith
  place_loop-left h t (suc k) (x ∷ xs) w fuel = elim (Bool-cases (less e x)) [
    | inl stop ↦ rw (Walk-inside h t x xs w, stop)
    | inr on ↦
        rw (Walk-inside h t x xs w, on, list_next-Walk h t x xs w)
          (place_loop-left h t k xs w.4 (omega arith))
  ]

  -- list_insert_ordered puts the new element behind those that it is not less than, up to the first
  -- that it is less than, in any list, and changes nothing outside.
  pub list_insert_ordered-placed :
      (fuel : ℕ) (h : Heap) (l : Header) (xs : List Ptr)
      → IsList h l xs
      → has e (path l xs) ≡ false
      → e ≢ null
      → length xs < fuel
      → (g : Heap) × (list_insert_ordered less fuel l e h ≡ ok tt g)
        × IsList g l (passed xs ++ (e ∷ left xs))
        × SameOutside (path l (passed xs ++ (e ∷ left xs))) h g
  unfolding list_insert_ordered assert
  list_insert_ordered-placed fuel h l xs is fresh e_ne enough =
      let whole = passed-left xs in
      let live : (e == null) ≡ false = ground arith in
      let (g, run, done, same) =
        list_insert-IsList h l (passed xs) (left xs) e (subst (IsList h l) (sym whole) is)
          (subst (λ zs. has e (path l zs) ≡ false) (sym whole) fresh) e_ne in
      (
        g,
        rw
            (
              live,
              list_begin-first_or h l xs is,
              place_loop-left h l.tail fuel xs (Walk-IsList h l xs is) enough,
            )
            run,
        done,
        same,
      )
