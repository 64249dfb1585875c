-- ===== src/KernelList/Shape.antt =====
-- What a list of CS330_projects/proj1/lib/kernel/list.c looks like on the heap.
use cs_courses.Base.{◌≡◌, refl, false, List, [], ◌∷◌, ◌++◌, ap}
use cs_courses.KernelList.Links.{Ptr, null, Heap}
use cs_courses.KernelList.{Header}
use cs_courses.KernelList.Path.{has, Distinct, Linked}

-- The elements with the headers around them.
abbrev pub path : Header → List Ptr → List Ptr
path l xs = l.head ∷ (xs ++ l.tail ∷ [])

-- The links lead along the addresses `ps`, none of which is null or stands twice, and the outer
-- links of the headers are null.
pub record IsPath (h : Heap) (l : Header) (ps : List Ptr) : Type 0 where
  pub linked : Linked h ps
  pub distinct : Distinct ps
  pub nonnull : has null ps ≡ false
  pub front : h.prev l.head ≡ null
  pub back : h.next l.tail ≡ null

-- On the heap `h` the list `l` holds the elements `xs`, in this order.
abbrev pub IsList : Heap → Header → List Ptr → Type 0
IsList h l xs = IsPath h l (path l xs)

-- The two heaps agree at every element outside the path.
abbrev pub SameOutside : List Ptr → Heap → Heap → Type 0
SameOutside ps h g = (a : Ptr) → has a ps ≡ false → (g.next a ≡ h.next a) × (g.prev a ≡ h.prev a)

-- The first of the elements, or the default where there are none.
abbrev pub first_or : List Ptr → Ptr → Ptr
first_or [] d = d
first_or (x ∷ xs) d = x

abbrev pub behind_first : List Ptr → Ptr → List Ptr
behind_first [] t = []
behind_first (x ∷ xs) t = xs ++ t ∷ []

pub first-behind : (vs : List Ptr) (t : Ptr) → vs ++ t ∷ [] ≡ first_or vs t ∷ behind_first vs t
first-behind [] t = refl
first-behind (x ∷ xs) t = refl

-- The path cut behind its elements `us`: `p` is the last of them, or the head.
pub record Cut (x : Ptr) (us : List Ptr) (t : Ptr) : Type 0 where
  pub before : List Ptr
  pub last : Ptr
  pub splits : (zs : List Ptr) → x ∷ ((us ++ zs) ++ t ∷ []) ≡ before ++ (last ∷ (zs ++ t ∷ []))

pub cut : (x : Ptr) (us : List Ptr) (t : Ptr) → Cut x us t
cut x [] t = record { before = []; last = x; splits = λ zs. refl }
cut x (y ∷ us) t =
    let c = cut y us t in
    record { before = x ∷ c.before; last = c.last; splits = λ zs. ap (◌∷◌ x) (c.splits zs) }
