-- ===== src/KernelList/Insert.antt =====
-- list_insert of CS330_projects/proj1/lib/kernel/list.c.
use cs_courses.Base.{◌≡◌, ◌≢◌, false, List, [], ◌∷◌, ◌++◌, arith, ap, sym, ◌∙◌}
use mathlib.Core.Path.{subst}
use cs_courses.KernelList.Links.{Ptr, null, Heap, ok, update}
use cs_courses.KernelList.{Header, list_insert}
use cs_courses.KernelList.Shape.{
  path, IsPath, IsList, SameOutside, first_or, behind_first, first-behind, cut,
}
use cs_courses.KernelList.Path.{
  has, Distinct, Linked, has-append, Distinct-left, Distinct-right, Distinct-apart, Distinct-append,
  Linked-left, Linked-right, Linked-join, Linked-before, Linked-after,
}

-- The links behind the call.
abbrev pub after_insert : Heap → Ptr → Ptr → Heap
after_insert h b e = record {
  prev = update (update h.prev e (h.prev b)) b e;
  next = update (update h.next e b) (h.prev b) e;
}

pub list_insert_runs :
    (h : Heap) (b e : Ptr)
    → b ≢ null
    → h.prev b ≢ null
    → e ≢ null
    → e ≢ b
    → list_insert b e h ≡ ok tt (after_insert h b e)
unfolding list_insert
list_insert_runs h b e b_ne p_ne e_ne other = ground arith

module _ (h : Heap) (us : List Ptr) (p b : Ptr) (vs : List Ptr) (e : Ptr)
    (path : Linked h (us ++ (p ∷ b ∷ vs))) (own : Distinct (us ++ (p ∷ b ∷ vs)))
    (fresh : has e (us ++ (p ∷ b ∷ vs)) ≡ false) where
  before_own : h.prev b ≡ p
  before_own = (Linked-right h us p (b ∷ vs) path).1

  -- The element goes between the two that were linked.
  pub after_insert-Linked : Linked (after_insert h b e) (us ++ (p ∷ e ∷ b ∷ vs))
  after_insert-Linked =
      let g = after_insert h b e in
      let rest = Linked-right h us p (b ∷ vs) path in
      let tail_own = Distinct-right us (p ∷ b ∷ vs) own in
      let out = has-append e us (p ∷ b ∷ vs) in
      Linked-join g us p (e ∷ b ∷ vs)
        (Linked-before h g us p
          (λ a m. ground (arith, before_own, Distinct-apart us (p ∷ b ∷ vs) a own m, out))
          (λ a m.
            ground (
              arith,
              has-append a us (p ∷ []),
              Distinct-apart us (p ∷ b ∷ vs) a own,
              out,
              tail_own,
            ))
          (Linked-left h us p (b ∷ vs) path))
        (
          ground (arith, before_own),
          ground (arith, before_own, out),
          (
            ground (arith, before_own, out),
            ground arith,
            Linked-after h g b vs (λ a m. ground (arith, before_own, out, tail_own))
                (λ a m. ground (arith, out, tail_own)) rest.2,
          ),
        )

  pub after_insert-Distinct : Distinct (us ++ (p ∷ e ∷ b ∷ vs))
  after_insert-Distinct =
      let out = has-append e us (p ∷ b ∷ vs) in
      let tail_own = Distinct-right us (p ∷ b ∷ vs) own in
      Distinct-append us (p ∷ e ∷ b ∷ vs) (Distinct-left us (p ∷ b ∷ vs) own)
        (ground (arith, out, tail_own), (ground (arith, out), tail_own.1))
        (λ a m. ground (arith, Distinct-apart us (p ∷ b ∷ vs) a own m, out))

module _ (h : Heap) (l : Header) (us : List Ptr) (p b : Ptr) (vs : List Ptr) (e : Ptr)
    (is : IsPath h l (us ++ (p ∷ b ∷ vs))) (fresh : has e (us ++ (p ∷ b ∷ vs)) ≡ false)
    (e_ne : e ≢ null) (ends : (e ≢ l.head) × (e ≢ l.tail)) where
  after_insert-IsPath : IsPath (after_insert h b e) l (us ++ (p ∷ e ∷ b ∷ vs))
  after_insert-IsPath =
      let links = Linked-right h us p (b ∷ vs) is.linked in
      let live = has-append null us (p ∷ b ∷ vs) in
      record {
        linked = after_insert-Linked h us p b vs e is.linked is.distinct fresh;
        distinct = after_insert-Distinct h us p b vs e is.linked is.distinct fresh;
        nonnull = ground (arith, live, is.nonnull, has-append null us (p ∷ e ∷ b ∷ vs));
        front = ground (arith, live, is.nonnull, is.front, links);
        back = ground (arith, live, is.nonnull, is.back, links);
      }

  list_insert-ok : list_insert b e h ≡ ok tt (after_insert h b e)
  list_insert-ok =
      let links = Linked-right h us p (b ∷ vs) is.linked in
      let live = has-append null us (p ∷ b ∷ vs) in
      list_insert_runs h b e (ground (arith, live, is.nonnull))
        (ground (arith, live, is.nonnull, links)) e_ne
        (ground (arith, fresh, has-append e us (p ∷ b ∷ vs)))

  after_insert-SameOutside : SameOutside (us ++ (p ∷ e ∷ b ∷ vs)) h (after_insert h b e)
  after_insert-SameOutside a out =
      let links = Linked-right h us p (b ∷ vs) is.linked in
      ground (arith, links, out, has-append a us (p ∷ e ∷ b ∷ vs))

-- list_insert in front of an element, or of the tail, puts a new element at that place of the list,
-- and changes no link of any element outside.
pub list_insert-IsList :
    (h : Heap) (l : Header) (us vs : List Ptr) (e : Ptr)
    → IsList h l (us ++ vs)
    → has e (path l (us ++ vs)) ≡ false
    → e ≢ null
    → (g : Heap) × (list_insert (first_or vs l.tail) e h ≡ ok tt g)
      × IsList g l (us ++ (e ∷ vs))
      × SameOutside (path l (us ++ (e ∷ vs))) h g
list_insert-IsList h l us vs e is fresh e_ne =
    let b = first_or vs l.tail in
    let rest = behind_first vs l.tail in
    let c = cut l.head us l.tail in
    let whole : path l (us ++ vs) ≡ c.before ++ (c.last ∷ b ∷ rest) =
      c.splits vs ∙ ap (λ zs. c.before ++ (c.last ∷ zs)) (first-behind vs l.tail) in
    let longer : path l (us ++ (e ∷ vs)) ≡ c.before ++ (c.last ∷ e ∷ b ∷ rest) =
      c.splits (e ∷ vs) ∙ ap (λ zs. c.before ++ (c.last ∷ e ∷ zs)) (first-behind vs l.tail) in
    let is' = subst (IsPath h l) whole is in
    let fresh' = subst (λ ps. has e ps ≡ false) whole fresh in
    let ends : (e ≢ l.head) × (e ≢ l.tail) =
      (ground (arith, fresh), ground (arith, fresh, has-append e (us ++ vs) (l.tail ∷ []))) in
    (
      after_insert h b e,
      list_insert-ok h l c.before c.last b rest e is' fresh' e_ne ends,
      subst (IsPath (after_insert h b e) l) (sym longer)
          (after_insert-IsPath h l c.before c.last b rest e is' fresh' e_ne ends),
      subst (λ ps. SameOutside ps h (after_insert h b e)) (sym longer)
          (after_insert-SameOutside h l c.before c.last b rest e is' fresh' e_ne ends),
    )
