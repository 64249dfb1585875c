-- ===== src/Stdlib/Sorted.antt =====
-- sort of CS330_projects/proj1/lib/stdlib.c puts an array in order.
use cs_courses.Base.{
  ℕ, zero, suc, ◌+◌, ◌-◌, ◌/◌, ◌≤◌, ◌<◌, ◌≡◌, refl, sym, ap, ◌∙◌, ℤ, leb, ◌==◌, Bool-cases, inl,
  inr, arith, leb→le, ==→eq,
}
use mathlib.Core.Path.{subst}
use cs_courses.Stdlib.{Run, done, do_swap, heapify, build_loop, extract_loop, sort}
use cs_courses.Stdlib.Sort.{
  Rearranged, Rearranged-trans, Rearranged-wider, do_swap-Rearranged, heapify-Rearranged,
  sort-Rearranged,
}
use cs_courses.Stdlib.Heap.{
  AtMost, IsPreorder, node, IsHeap, IsHeapBut, node-right, node-other, along, heapify-IsHeap,
}

module _ {A : Type 0} where
  abbrev value_or : A → Run A → A
  value_or d (done a) = a
  value_or d _ = d

  done-injective : {a b : A} → done a ≡ done b → a ≡ b
  done-injective {a = a} e = ap (value_or a) e

from-inside :
    {A : Type 0} (n : ℕ) (a b : ℕ → A) (r : Rearranged n a b) (k : ℕ) → k < n → r.from k < n
from-inside n a b r k h = elim (Bool-cases (leb n (r.from k))) [
  | inr off ↦ ground arith
  | inl on ↦
      let fixed = r.outside (r.from k) (leb→le n (r.from k) on) in
      let same = sym (r.back_from (r.from k)) ∙ ap r.back fixed ∙ r.back_from k in
      ground (arith, same, leb→le n (r.from k) on)
]

module _ {A : Type 0} (compare : A → A → ℤ) (law : IsPreorder compare) where
  -- The first cnt elements are in ascending order.
  abbrev pub IsSorted : (ℕ → A) → ℕ → Type 0
  IsSorted a cnt = (j k : ℕ) → j ≤ k → k < cnt → AtMost compare (a j) (a k)

  -- From node i on, no element is smaller than one before it.
  abbrev IsDone : (ℕ → A) → ℕ → ℕ → Type 0
  IsDone a i cnt =
      (j k : ℕ)
      → 0 < j
      → j ≤ k
      → i < k
      → k ≤ cnt
      → AtMost compare (node compare a j) (node compare a k)

  root-AtMost :
      (bound n : ℕ) (a : ℕ → A) (j : ℕ)
      → IsHeap compare a 1 n
      → 0 < j
      → j ≤ n
      → j ≤ bound
      → AtMost compare (node compare a j) (node compare a 1)
  root-AtMost zero n a j heap p h b = ground arith
  root-AtMost (suc bound) n a j heap p h b = elim (Bool-cases (j == 1)) [
    | inl one ↦
        subst (λ x. AtMost compare (node compare a x) (node compare a 1)) (sym (==→eq j 1 one))
          (law.reflexive _)
    | inr more ↦
        law.transitive _ _ _ (heap j h (ground arith) (ground arith))
          (root-AtMost bound n a (j / 2) heap (ground arith) (omega arith) (ground arith))
  ]

  build_loop-IsHeap :
      (fuel cnt i : ℕ) (a : ℕ → A)
      → cnt < fuel
      → IsHeap compare a (i + 1) cnt
      → (b : ℕ → A) × (build_loop compare fuel cnt i a ≡ done b) × IsHeap compare b 1 cnt
  unfolding build_loop
  build_loop-IsHeap fuel cnt zero a f heap = (a, refl, heap)
  build_loop-IsHeap fuel cnt (suc i) a f heap =
      let (b, e, r) =
        heapify-IsHeap compare law fuel a (suc i) (i + 1) cnt (omega arith) (omega arith)
          ((λ c h p g n. heap c h p (ground arith)), (λ c h e p g. ground arith)) in
      let (c, e', r') = build_loop-IsHeap fuel cnt i b f r in (c, rw (e, build_loop) e', r')

  heapify_both :
      (fuel : ℕ) (a : ℕ → A) (cnt : ℕ)
      → cnt < fuel
      → IsHeapBut compare a 1 1 cnt
      → (b : ℕ → A) × (heapify compare fuel a 1 cnt ≡ done b)
        × IsHeap compare b 1 cnt
        × Rearranged cnt a b
  heapify_both fuel a cnt f but =
      let (b, e, heap) =
        heapify-IsHeap compare law fuel a 1 1 cnt (omega arith) (omega arith) but in
      let (b', e', r) = heapify-Rearranged compare fuel a 1 cnt (omega arith) (omega arith) in
      (b, e, heap, subst (λ x. Rearranged cnt a x) (done-injective (sym e' ∙ e)) r)

  -- The root moves behind the heap of the nodes up to suc i; only the new root is out of order.
  swap_root :
      (a : ℕ → A) (i : ℕ)
      → 0 < i
      → IsHeap compare a 1 (suc i)
      → IsHeapBut compare (do_swap a 1 (suc i)) 1 1 i
  swap_root a i i_pos heap = (
    (λ c h p g n.
        along compare law
          (node-other compare a 1 (suc i) c (omega arith) (omega arith) (omega arith) (ground arith)
            (ground arith))
          (node-other compare a 1 (suc i) (c / 2) (omega arith) (omega arith) p n (ground arith))
          (heap c (omega arith) p g)),
    (λ c h e p g. ground arith),
  )

  node-outside :
      (n : ℕ) (a b : ℕ → A)
      → Rearranged n a b
      → (k : ℕ) → n < k
      → node compare b k ≡ node compare a k
  node-outside n a b r k h = r.reads (k - 1) ∙ ap a (r.outside (k - 1) (omega arith))

  node-inside :
      (n : ℕ) (a b : ℕ → A)
      → Rearranged n a b
      → (j : ℕ) → 0 < j
      → j ≤ n
      → (i : ℕ) × (0 < i) × (i ≤ n) × (node compare b j ≡ node compare a i)
  node-inside n a b r j p h = (
    r.from (j - 1) + 1,
    omega arith,
    omega (arith, from-inside n a b r (j - 1) (omega arith)),
    r.reads (j - 1) ∙ ap a (omega arith),
  )

  -- One round of the second loop: the elements from node suc i on are done.
  round-IsDone :
      (a b : ℕ → A) (i cnt : ℕ)
      → 0 < i
      → suc i ≤ cnt
      → IsHeap compare a 1 (suc i)
      → IsDone a (suc i) cnt
      → Rearranged i (do_swap a 1 (suc i)) b
      → IsDone b i cnt
  round-IsDone a b i cnt i_pos le heap upper r j k p h lt k_le =
      let s =
        Rearranged-trans (suc i) a (do_swap a 1 (suc i)) b
          (do_swap-Rearranged (suc i) a 1 (suc i) (omega arith) (omega arith) (omega arith)
            (omega arith))
          (Rearranged-wider i (suc i) (do_swap a 1 (suc i)) b (omega arith) r) in
      elim (Bool-cases (k == suc i)) [
        | inl last ↦
            let (j', p', le', e) =
              node-inside (suc i) a b s j p (omega (arith, ==→eq k (suc i) last)) in
            along compare law e
              (ap (node compare b) (==→eq k (suc i) last)
                ∙ node-outside i (do_swap a 1 (suc i)) b r (suc i) (omega arith)
                ∙ node-right compare a 1 (suc i))
              (root-AtMost (suc i) (suc i) a j' heap p' le' le')
        | inr behind ↦ elim (Bool-cases (leb j (suc i))) [
          | inl low ↦
              let (j', p', le', e) = node-inside (suc i) a b s j p (leb→le j (suc i) low) in
              along compare law e (node-outside (suc i) a b s k (ground arith))
                (upper j' k p' (ground arith) (ground arith) k_le)
          | inr high ↦
              along compare law (node-outside (suc i) a b s j (ground arith))
                (node-outside (suc i) a b s k (ground arith)) (upper j k p h (ground arith) k_le)
        ]
      ]

  extract_loop-IsDone :
      (fuel i cnt : ℕ) (a : ℕ → A)
      → i ≤ cnt
      → cnt < fuel
      → IsHeap compare a 1 i
      → IsDone a i cnt
      → (b : ℕ → A) × (extract_loop compare fuel i a ≡ done b) × IsDone b 0 cnt
  unfolding extract_loop
  extract_loop-IsDone fuel zero cnt a h f heap upper = (a, refl, upper)
  extract_loop-IsDone fuel (suc zero) cnt a h f heap upper = (
    a,
    refl,
    (λ j k p le lt k_le. elim (Bool-cases (k == 1)) [
      | inl one ↦
          subst (λ x. AtMost compare (node compare a x) (node compare a k))
            (omega (arith, ==→eq k 1 one)) (law.reflexive (node compare a k))
      | inr more ↦ upper j k p le (ground arith) k_le
    ]),
  )
  extract_loop-IsDone fuel (suc (suc i)) cnt a h f heap upper =
      let (b, e, heap', r) =
        heapify_both fuel (do_swap a 1 (suc (suc i))) (suc i) (omega arith)
          (swap_root a (suc i) (omega arith) heap) in
      let (c, e', d) =
        extract_loop-IsDone fuel (suc i) cnt b (omega arith) f heap'
          (round-IsDone a b (suc i) cnt (omega arith) h heap upper r) in
      (c, rw (e, extract_loop) e', d)

  IsDone-IsSorted : (a : ℕ → A) (cnt : ℕ) → IsDone a 0 cnt → IsSorted a cnt
  IsDone-IsSorted a cnt d j k le lt =
      along compare law (ap a (omega arith)) (ap a (omega arith))
        (d (j + 1) (k + 1) (omega arith) (omega arith) (omega arith) (omega arith))

  -- With a round of fuel more than there are elements, sort ends with the first `cnt` elements in
  -- ascending order: the array holds the same elements, of which only those have changed places. The
  -- comparison is a total preorder.
  pub sort-IsSorted :
      (fuel cnt : ℕ) (a : ℕ → A)
      → cnt < fuel
      → (b : ℕ → A) × (sort compare fuel a cnt ≡ done b) × IsSorted b cnt × Rearranged cnt a b
  unfolding sort
  sort-IsSorted fuel cnt a f =
      let (b, e, heap) = build_loop-IsHeap fuel cnt (cnt / 2) a f (λ c h p g. ground arith) in
      let (c, e', d) =
        extract_loop-IsDone fuel cnt cnt b (omega arith) f heap
          (λ j k p le lt k_le. ground arith) in
      let (c', e'', r) = sort-Rearranged compare fuel cnt a f in
      let sorts : sort compare fuel a cnt ≡ done c = rw (e, sort) e' in
      (
        c,
        sorts,
        IsDone-IsSorted c cnt d,
        subst (λ x. Rearranged cnt a x) (done-injective (sym e'' ∙ sorts)) r,
      )
