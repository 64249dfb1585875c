-- ===== src/KernelList/Ends.antt =====
-- The two ends of a list of CS330_projects/proj1/lib/kernel/list.c.
use cs_courses.Base.{◌≡◌, ◌≢◌, true, false, List, [], ◌∷◌, ◌++◌, arith}
use mathlib.Core.Path.{subst}
use mathlib.Core.List.{append-nil}
use cs_courses.KernelList.Links.{Ptr, null, Heap, ok, panic, update, get_prev}
use cs_courses.KernelList.{
  Header, list_init, list_begin, list_empty, list_front, list_back, list_push_front, list_push_back,
  list_pop_front, list_pop_back,
}
use cs_courses.KernelList.Path.{has, has-append, Linked, Linked-right}
use cs_courses.KernelList.Shape.{path, IsList, SameOutside, first_or, cut}
use cs_courses.KernelList.Insert.{list_insert-IsList}
use cs_courses.KernelList.Remove.{list_remove-IsList}

-- list_init makes an empty list of two different addresses.
list_init-IsList :
    (h : Heap) (l : Header)
    → l.head ≢ null
    → l.tail ≢ null
    → l.head ≢ l.tail
    → (g : Heap) × (list_init l h ≡ ok tt g) × IsList g l []
unfolding list_init
list_init-IsList h l head_ne tail_ne other = (
  record {
    prev = update (update h.prev l.head null) l.tail l.head;
    next = update (update h.next l.head l.tail) l.tail null;
  },
  ground arith,
  record {
    linked = ground arith;
    distinct = ground arith;
    nonnull = ground arith;
    front = ground arith;
    back = ground arith;
  },
)

module _ (h : Heap) (l : Header) where
  head_live : (xs : List Ptr) → IsList h l xs → l.head ≢ null
  head_live xs is = ground (arith, is.nonnull)

  pub first_next : (xs : List Ptr) → IsList h l xs → h.next l.head ≡ first_or xs l.tail
  first_next [] is = is.linked.0
  first_next (x ∷ xs) is = is.linked.0

  pub list_begin-first_or :
      (xs : List Ptr) → IsList h l xs → list_begin l h ≡ ok (first_or xs l.tail) h
  unfolding list_begin
  list_begin-first_or xs is = ground (arith, first_next xs is, head_live xs is)

  -- The first element is not the tail.
  pub list_empty-cons :
      (x : Ptr) (xs : List Ptr) → IsList h l (x ∷ xs) → list_empty l h ≡ ok false h
  unfolding list_empty
  list_empty-cons x xs is =
      rw (list_begin-first_or (x ∷ xs) is)
        (ground (arith, is.distinct, has-append x xs (l.tail ∷ [])))

  pub list_empty-nil : IsList h l [] → list_empty l h ≡ ok true h
  unfolding list_empty
  list_empty-nil is = rw (list_begin-first_or [] is) (ground arith)

  list_front-cons : (x : Ptr) (xs : List Ptr) → IsList h l (x ∷ xs) → list_front l h ≡ ok x h
  unfolding list_front
  list_front-cons x xs is =
      rw (list_empty-cons x xs is) (ground (arith, is.linked.0, head_live (x ∷ xs) is))

  -- list_push_front puts a new element in front of all others.
  pub list_push_front-IsList :
      (xs : List Ptr) (e : Ptr)
      → IsList h l xs
      → has e (path l xs) ≡ false
      → e ≢ null
      → (g : Heap) × (list_push_front l e h ≡ ok tt g)
        × IsList g l (e ∷ xs)
        × SameOutside (path l (e ∷ xs)) h g
  unfolding list_push_front
  list_push_front-IsList xs e is fresh e_ne =
      let (g, run, done, same) = list_insert-IsList h l [] xs e is fresh e_ne in
      (g, rw (list_begin-first_or xs is) run, done, same)

  -- list_push_back puts it behind all others.
  list_push_back-IsList :
      (xs : List Ptr) (e : Ptr)
      → IsList h l xs
      → has e (path l xs) ≡ false
      → e ≢ null
      → (g : Heap) × (list_push_back l e h ≡ ok tt g)
        × IsList g l (xs ++ e ∷ [])
        × SameOutside (path l (xs ++ e ∷ [])) h g
  unfolding list_push_back
  list_push_back-IsList xs e is fresh e_ne =
      list_insert-IsList h l xs [] e (rw append-nil is) (rw append-nil fresh) e_ne

  -- list_pop_front takes the first element off and returns it.
  list_pop_front-IsList :
      (x : Ptr) (xs : List Ptr)
      → IsList h l (x ∷ xs)
      → (g : Heap) × (list_pop_front l h ≡ ok x g) × IsList g l xs × SameOutside (path l xs) h g
  unfolding list_pop_front
  list_pop_front-IsList x xs is =
      let (g, run, done, same) = list_remove-IsList h l [] xs x is in
      (g, rw (list_front-cons x xs is, run), done, same)

  -- On an empty list list_pop_front and list_pop_back fail their assertion.
  pub pop_empty : IsList h l [] → (list_pop_front l h ≡ panic) × (list_pop_back l h ≡ panic)
  unfolding list_pop_front list_pop_back list_front list_back
  pop_empty is = (rw (list_empty-nil is), rw (list_empty-nil is))

  last_prev : (us : List Ptr) (e : Ptr) → IsList h l (us ++ e ∷ []) → h.prev l.tail ≡ e
  last_prev us e is =
      let c = cut l.head us l.tail in
      (Linked-right h c.before c.last (e ∷ l.tail ∷ [])
        (subst (Linked h) (c.splits (e ∷ [])) is.linked)).2.1

  list_empty-snoc :
      (us : List Ptr) (e : Ptr) → IsList h l (us ++ e ∷ []) → list_empty l h ≡ ok false h
  list_empty-snoc [] e is = list_empty-cons e [] is
  list_empty-snoc (u ∷ us) e is = list_empty-cons u (us ++ e ∷ []) is

  tail_live : (xs : List Ptr) → IsList h l xs → l.tail ≢ null
  tail_live xs is = ground (arith, is.nonnull, has-append null xs (l.tail ∷ []))

  get_prev_tail : (us : List Ptr) (e : Ptr) → IsList h l (us ++ e ∷ []) → get_prev l.tail h ≡ ok e h
  unfolding get_prev
  get_prev_tail us e is = ground (arith, last_prev us e is, tail_live (us ++ e ∷ []) is)

  -- list_pop_back takes the last element off and returns it.
  list_pop_back-IsList :
      (us : List Ptr) (e : Ptr)
      → IsList h l (us ++ e ∷ [])
      → (g : Heap) × (list_pop_back l h ≡ ok e g) × IsList g l us × SameOutside (path l us) h g
  unfolding list_pop_back list_back
  list_pop_back-IsList us e is =
      let (g, run, done, same) = list_remove-IsList h l us [] e is in
      (
        g,
        rw (list_empty-snoc us e is, get_prev_tail us e is, run),
        subst (IsList g l) (append-nil us) done,
        subst (λ xs. SameOutside (path l xs) h g) (append-nil us) same,
      )
