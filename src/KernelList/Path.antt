-- ===== src/KernelList/Path.antt =====
-- Paths of linked elements, for CS330_projects/proj1/lib/kernel/list.c.
use cs_courses.Base.{◌≡◌, refl, Bool, true, false, ◌||◌, ◌==◌, List, [], ◌∷◌, ◌++◌, arith}
use cs_courses.KernelList.Links.{Ptr, Heap}

abbrev pub has : Ptr → List Ptr → Bool
has a [] = false
has a (x ∷ xs) = (a == x) || has a xs

-- No address stands twice.
abbrev pub Distinct : List Ptr → Type 0
Distinct [] = Unit
Distinct (x ∷ xs) = (has x xs ≡ false) × Distinct xs

-- Each element points at the next one, and is pointed at by it.
abbrev pub Linked : Heap → List Ptr → Type 0
Linked h [] = Unit
Linked h (a ∷ []) = Unit
Linked h (a ∷ b ∷ r) = (h.next a ≡ b) × (h.prev b ≡ a) × Linked h (b ∷ r)

pub has-append : (a : Ptr) (us vs : List Ptr) → has a (us ++ vs) ≡ (has a us || has a vs)
has-append a [] vs = refl
has-append a (u ∷ us) vs = ground (arith, has-append a us vs)

pub Distinct-left : (xs ys : List Ptr) → Distinct (xs ++ ys) → Distinct xs
Distinct-left [] ys d = tt
Distinct-left (x ∷ xs) ys d = (ground (arith, has-append x xs ys, d), Distinct-left xs ys d.1)

pub Distinct-right : (xs ys : List Ptr) → Distinct (xs ++ ys) → Distinct ys
Distinct-right [] ys d = d
Distinct-right (x ∷ xs) ys d = Distinct-right xs ys d.1

-- The two halves share no address.
pub Distinct-apart :
    (xs ys : List Ptr) (a : Ptr) → Distinct (xs ++ ys) → has a xs ≡ true → has a ys ≡ false
Distinct-apart [] ys a d m = ground arith
Distinct-apart (x ∷ xs) ys a d m =
    ground (arith, has-append x xs ys, d.0, Distinct-apart xs ys a d.1)

pub Distinct-append :
    (xs ys : List Ptr)
    → Distinct xs
    → Distinct ys
    → ((a : Ptr) → has a xs ≡ true → has a ys ≡ false)
    → Distinct (xs ++ ys)
Distinct-append [] ys d e apart = e
Distinct-append (x ∷ xs) ys d e apart = (
  ground (arith, has-append x xs ys, apart x, d.0),
  Distinct-append xs ys d.1 e (λ a m. apart a (ground arith)),
)

module _ (h : Heap) where
  pub Linked-left :
      (xs : List Ptr) (p : Ptr) (ys : List Ptr)
      → Linked h (xs ++ (p ∷ ys))
      → Linked h (xs ++ (p ∷ []))
  Linked-left [] p ys k = tt
  Linked-left (a ∷ []) p ys k = (k.0, k.1, tt)
  Linked-left (a ∷ b ∷ r) p ys k = (k.0, k.1, Linked-left (b ∷ r) p ys k.2)

  pub Linked-right :
      (xs : List Ptr) (p : Ptr) (ys : List Ptr) → Linked h (xs ++ (p ∷ ys)) → Linked h (p ∷ ys)
  Linked-right [] p ys k = k
  Linked-right (a ∷ []) p ys k = k.2
  Linked-right (a ∷ b ∷ r) p ys k = Linked-right (b ∷ r) p ys k.2

  pub Linked-join :
      (xs : List Ptr) (p : Ptr) (ys : List Ptr)
      → Linked h (xs ++ (p ∷ []))
      → Linked h (p ∷ ys)
      → Linked h (xs ++ (p ∷ ys))
  Linked-join [] p ys k m = m
  Linked-join (a ∷ []) p ys k m = (k.0, k.1, m)
  Linked-join (a ∷ b ∷ r) p ys k m = (k.0, k.1, Linked-join (b ∷ r) p ys k.2 m)

module _ (h g : Heap) where
  -- A path in front of `p` survives a change that spares its links.
  pub Linked-before :
      (us : List Ptr) (p : Ptr)
      → ((a : Ptr) → has a us ≡ true → g.next a ≡ h.next a)
      → ((a : Ptr) → has a (us ++ (p ∷ [])) ≡ true → g.prev a ≡ h.prev a)
      → Linked h (us ++ (p ∷ []))
      → Linked g (us ++ (p ∷ []))
  Linked-before [] p n v k = tt
  Linked-before (a ∷ []) p n v k = (ground (arith, n a, k.0), ground (arith, v p, k.1), tt)
  Linked-before (a ∷ b ∷ r) p n v k = (
    ground (arith, n a, k.0),
    ground (arith, v b, k.1),
    Linked-before (b ∷ r) p (λ c m. n c (ground arith)) (λ c m. v c (ground arith)) k.2,
  )

  pub Linked-after :
      (b : Ptr) (vs : List Ptr)
      → ((a : Ptr) → has a (b ∷ vs) ≡ true → g.next a ≡ h.next a)
      → ((a : Ptr) → has a vs ≡ true → g.prev a ≡ h.prev a)
      → Linked h (b ∷ vs)
      → Linked g (b ∷ vs)
  Linked-after b [] n v k = tt
  Linked-after b (c ∷ r) n v k = (
    ground (arith, n b, k.0),
    ground (arith, v c, k.1),
    Linked-after c r (λ a m. n a (ground arith)) (λ a m. v a (ground arith)) k.2,
  )
