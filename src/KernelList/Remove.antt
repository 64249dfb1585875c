-- ===== src/KernelList/Remove.antt =====
-- list_remove of CS330_projects/proj1/lib/kernel/list.c.
use mathlib.Core.Path.{subst}
use cs_courses.Base.{◌≡◌, ◌≢◌, List, [], ◌∷◌, ◌++◌, arith, ap, sym, ◌∙◌}
use cs_courses.KernelList.Links.{Ptr, null, Heap, ok, update}
use cs_courses.KernelList.{Header, list_remove}
use cs_courses.KernelList.Shape.{
  path, IsPath, IsList, SameOutside, first_or, behind_first, first-behind, cut,
}
use cs_courses.KernelList.Path.{
  Distinct, Linked, has-append, Distinct-left, Distinct-right, Distinct-apart, Distinct-append,
  Linked-left, Linked-right, Linked-join, Linked-before, Linked-after,
}

-- The links behind the call.
abbrev pub after_remove : Heap → Ptr → Heap
after_remove h e = record {
  prev = update h.prev (h.next e) (h.prev e);
  next = update h.next (h.prev e) (h.next e);
}

list_remove_runs :
    (h : Heap) (e : Ptr)
    → e ≢ null
    → h.prev e ≢ null
    → h.next e ≢ null
    → h.prev e ≢ e
    → h.next e ≢ e
    → list_remove e h ≡ ok (h.next e) (after_remove h e)
unfolding list_remove
list_remove_runs h e e_ne p_ne n_ne p_other n_other = ground arith

module _ (h : Heap) (l : Header) (us : List Ptr) (p e b : Ptr) (vs : List Ptr)
    (is : IsPath h l (us ++ (p ∷ e ∷ b ∷ vs))) where
  tail_links : Linked h (p ∷ e ∷ b ∷ vs)
  tail_links = Linked-right h us p (e ∷ b ∷ vs) is.linked

  tail_own : Distinct (p ∷ e ∷ b ∷ vs)
  tail_own = Distinct-right us (p ∷ e ∷ b ∷ vs) is.distinct

  after_remove-Linked : Linked (after_remove h e) (us ++ (p ∷ b ∷ vs))
  after_remove-Linked =
      let g = after_remove h e in
      Linked-join g us p (b ∷ vs)
        (Linked-before h g us p
          (λ a m. ground (arith, tail_links, Distinct-apart us (p ∷ e ∷ b ∷ vs) a is.distinct m))
          (λ a m. ground (
            arith,
            tail_links,
            has-append a us (p ∷ []),
            Distinct-apart us (p ∷ e ∷ b ∷ vs) a is.distinct,
            tail_own,
          ))
          (Linked-left h us p (e ∷ b ∷ vs) is.linked))
        (
          ground (arith, tail_links, tail_own),
          ground (arith, tail_links, tail_own),
          Linked-after h g b vs (λ a m. ground (arith, tail_links, tail_own))
              (λ a m. ground (arith, tail_links, tail_own)) tail_links.2.2,
        )

  after_remove-IsPath : IsPath (after_remove h e) l (us ++ (p ∷ b ∷ vs))
  after_remove-IsPath =
      let live = has-append null us (p ∷ e ∷ b ∷ vs) in
      record {
        linked = after_remove-Linked;
        distinct =
            Distinct-append us (p ∷ b ∷ vs) (Distinct-left us (p ∷ e ∷ b ∷ vs) is.distinct)
              (ground (arith, tail_own), tail_own.1.1)
              (λ a m. ground (arith, Distinct-apart us (p ∷ e ∷ b ∷ vs) a is.distinct m));
        nonnull = ground (arith, live, is.nonnull, has-append null us (p ∷ b ∷ vs));
        front = ground (arith, live, is.nonnull, is.front, tail_links);
        back = ground (arith, live, is.nonnull, is.back, tail_links);
      }

  list_remove-ok : list_remove e h ≡ ok b (after_remove h e)
  list_remove-ok =
      let live = has-append null us (p ∷ e ∷ b ∷ vs) in
      list_remove_runs h e (ground (arith, live, is.nonnull))
        (ground (arith, live, is.nonnull, tail_links))
        (ground (arith, live, is.nonnull, tail_links)) (ground (arith, tail_links, tail_own))
        (ground (arith, tail_links, tail_own))
      ∙ ap (λ q. ok q (after_remove h e)) (tail_links.2.0)

  after_remove-SameOutside : SameOutside (us ++ (p ∷ b ∷ vs)) h (after_remove h e)
  after_remove-SameOutside a out = ground (arith, tail_links, out, has-append a us (p ∷ b ∷ vs))

-- list_remove takes an element out of the list, returns the one behind it, or the tail, and changes
-- no link of an element that is not left in the list.
pub list_remove-IsList :
    (h : Heap) (l : Header) (us vs : List Ptr) (e : Ptr)
    → IsList h l (us ++ (e ∷ vs))
    → (g : Heap) × (list_remove e h ≡ ok (first_or vs l.tail) g)
      × IsList g l (us ++ vs)
      × SameOutside (path l (us ++ vs)) h g
list_remove-IsList h l us vs e is =
    let b = first_or vs l.tail in
    let rest = behind_first vs l.tail in
    let c = cut l.head us l.tail in
    let whole : path l (us ++ (e ∷ vs)) ≡ c.before ++ (c.last ∷ e ∷ b ∷ rest) =
      c.splits (e ∷ vs) ∙ ap (λ zs. c.before ++ (c.last ∷ e ∷ zs)) (first-behind vs l.tail) in
    let shorter : path l (us ++ vs) ≡ c.before ++ (c.last ∷ b ∷ rest) =
      c.splits vs ∙ ap (λ zs. c.before ++ (c.last ∷ zs)) (first-behind vs l.tail) in
    let is' = subst (IsPath h l) whole is in
    (
      after_remove h e,
      list_remove-ok h l c.before c.last e b rest is',
      subst (IsPath (after_remove h e) l) (sym shorter)
          (after_remove-IsPath h l c.before c.last e b rest is'),
      subst (λ ps. SameOutside ps h (after_remove h e)) (sym shorter)
          (after_remove-SameOutside h l c.before c.last e b rest is'),
    )
