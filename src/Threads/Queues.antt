-- ===== src/Threads/Queues.antt =====
-- The queues of the kernel are linked lists of CS330_projects/proj1/lib/kernel/list.c: what the sequences of
-- Threads do is what the lists do.
use cs_courses.Base.{
  ℕ, ◌<◌, ◌≡◌, refl, ap, ◌≢◌, Bool, false, List, [], ◌∷◌, ◌++◌, length, Bool-cases, inl, inr,
}
use mathlib.Core.Path.{subst}
use cs_courses.KernelList.Links.{Ptr, null, Heap, ok}
use cs_courses.KernelList.{Header}
use cs_courses.KernelList.Path.{has}
use cs_courses.KernelList.Shape.{path, IsList, SameOutside}
use cs_courses.KernelList.Walk.{list_insert_ordered}
use cs_courses.KernelList.Walk.Order.{passed, left, list_insert_ordered-placed}
use cs_courses.Threads.{insert_ordered}

insert_ordered-passed :
    (less : Ptr → Ptr → Bool) (e : Ptr) (xs : List Ptr)
    → passed less e xs ++ (e ∷ left less e xs) ≡ insert_ordered less e xs
unfolding passed left
insert_ordered-passed less e [] = refl
insert_ordered-passed less e (x ∷ xs) = elim (Bool-cases (less e x)) [
  | inl stop ↦ rw (passed, left, stop) refl
  | inr on ↦ rw (passed, left, on) (ap (λ ys. x ∷ ys) (insert_ordered-passed less e xs))
]

-- list_insert_ordered on the linked list, with any comparison and a round of fuel more than the list has
-- elements, ends, and the list then holds what insert_ordered makes of its elements; no link outside
-- the list has changed.
pub list_insert_ordered-insert_ordered :
    (less : Ptr → Ptr → Bool) (e : Ptr) (fuel : ℕ) (h : Heap) (l : Header) (xs : List Ptr)
    → IsList h l xs
    → has e (path l xs) ≡ false
    → e ≢ null
    → length xs < fuel
    → (g : Heap) × (list_insert_ordered less fuel l e h ≡ ok tt g)
      × IsList g l (insert_ordered less e xs)
      × SameOutside (path l (insert_ordered less e xs)) h g
list_insert_ordered-insert_ordered less e fuel h l xs is fresh e_ne enough =
    let (g, run, done, same) = list_insert_ordered-placed less e fuel h l xs is fresh e_ne enough in
    let whole = insert_ordered-passed less e xs in
    (g, run, subst (IsList g l) whole done, subst (λ ys. SameOutside (path l ys) h g) whole same)
