-- ===== src/KernelList/Tests.antt =====
-- Concrete runs of CS330_projects/proj1/lib/kernel/list.c.
use cs_courses.Base.{
  ℕ, ◌/◌, zero, suc, ◌≡◌, refl, Bool, ◌==◌, ltb, List, [], ◌∷◌, arith, if◌then◌else◌, none, some,
}
use cs_courses.KernelList.Links.{Ptr, Heap, Run, ok, panic, fault, out_of_fuel, Cmd, pure, ◌>>◌}
use cs_courses.KernelList.{Header, list_init, list_push_back, list_insert, list_remove}
use cs_courses.KernelList.Shape.{path, IsList, SameOutside}
use cs_courses.KernelList.Insert.{list_insert-IsList}
use cs_courses.KernelList.Remove.{list_remove-IsList}
use cs_courses.Threads.{insert_ordered}
use cs_courses.Threads.Queues.{list_insert_ordered-insert_ordered}
use cs_courses.KernelList.Walk.{list_sort, list_reverse, list_unique, list_insert_ordered}

abbrev list_at : Header
list_at = record { head = 1; tail = 2 }

abbrev blank : Heap
blank = record { prev = λ a. 0; next = λ a. 0 }

-- The elements from the head to the tail, with at most `k` of them.
abbrev elements : ℕ → Heap → Ptr → List Ptr
elements zero h e = []
elements (suc k) h e = if e == 2 then [] else e ∷ elements k h (h.next e)

abbrev contents : Run (Unit {0}) → List Ptr
contents (ok u h) = elements 9 h (h.next 1)
contents panic = 7777 ∷ []
contents fault = 8888 ∷ []
contents out_of_fuel = 9999 ∷ []

abbrev pushes : List Ptr → Cmd (Unit {0})
pushes [] = pure tt
pushes (x ∷ xs) = list_push_back list_at x >> pushes xs

abbrev make : List Ptr → Cmd (Unit {0})
make xs = list_init list_at >> pushes xs

-- Elements compare by their addresses, in tens.
abbrev by_tens : Ptr → Ptr → Bool
by_tens a b = ltb (a / 10) (b / 10)

sort_run :
    contents ((make (52 ∷ 31 ∷ 44 ∷ 30 ∷ 12 ∷ []) >> list_sort by_tens 20 list_at) blank)
    ≡ 12 ∷ 31 ∷ 30 ∷ 44 ∷ 52 ∷ []
unfolding list_init list_push_back list_sort
sort_run = refl

reverse_run :
    contents ((make (52 ∷ 31 ∷ 44 ∷ []) >> list_reverse 9 list_at) blank) ≡ 44 ∷ 31 ∷ 52 ∷ []
unfolding list_init list_push_back list_reverse
reverse_run = refl

unique_run :
    contents ((make (31 ∷ 32 ∷ 44 ∷ 33 ∷ 34 ∷ []) >> list_unique by_tens 9 list_at none) blank)
    ≡ 31 ∷ 44 ∷ 33 ∷ []
unfolding list_init list_push_back list_unique
unique_run = refl

unique_moves :
    contents (
      (list_init (record { head = 3; tail = 4 })
          >> make (31 ∷ 32 ∷ 44 ∷ [])
          >> list_unique by_tens 9 list_at (some (record { head = 3; tail = 4 })))
        blank)
    ≡ 31 ∷ 44 ∷ []
unfolding list_init list_push_back list_unique
unique_moves = refl

-- A list of the elements 15 and 37.
abbrev pair : Heap
pair = record {
  next = λ a. if a == 1 then 15 else if a == 15 then 37 else if a == 37 then 2 else 0;
  prev = λ a. if a == 2 then 37 else if a == 37 then 15 else if a == 15 then 1 else 0;
}

pair-IsList : IsList pair list_at (15 ∷ 37 ∷ [])
pair-IsList = record {
  linked = (refl, refl, (refl, refl, (refl, refl, tt)));
  distinct = (refl, (refl, (refl, (refl, tt))));
  nonnull = refl;
  front = refl;
  back = refl;
}

list_insert-IsList_example :
    (g : Heap) × (list_insert 37 20 pair ≡ ok tt g)
    × IsList g list_at (15 ∷ 20 ∷ 37 ∷ [])
    × SameOutside (path list_at (15 ∷ 20 ∷ 37 ∷ [])) pair g
list_insert-IsList_example =
    list_insert-IsList pair list_at (15 ∷ []) (37 ∷ []) 20 pair-IsList refl (omega arith)

list_remove-IsList_example :
    (g : Heap) × (list_remove 15 pair ≡ ok 37 g)
    × IsList g list_at (37 ∷ [])
    × SameOutside (path list_at (37 ∷ [])) pair g
list_remove-IsList_example = list_remove-IsList pair list_at [] (37 ∷ []) 15 pair-IsList

list_insert_ordered-insert_ordered_example :
    (g : Heap) × (list_insert_ordered by_tens 3 list_at 20 pair ≡ ok tt g)
    × IsList g list_at (insert_ordered by_tens 20 (15 ∷ 37 ∷ []))
    × SameOutside (path list_at (insert_ordered by_tens 20 (15 ∷ 37 ∷ []))) pair g
list_insert_ordered-insert_ordered_example =
    list_insert_ordered-insert_ordered by_tens 20 3 pair list_at (15 ∷ 37 ∷ []) pair-IsList refl
      (omega arith) (omega arith)
