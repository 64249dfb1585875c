-- ===== src/KernelList.antt =====
-- The doubly linked lists of CS330_projects/proj1/lib/kernel/list.c, on an explicit heap of links.
-- A `struct list_elem *` is a number, 0 for NULL. A failed ASSERT is `panic`, the dereference of a
-- null pointer is `fault`, and each loop runs on fuel. `less`, with its auxiliary data, is a
-- parameter that reads the elements and not their links.
pub mod Links
pub mod Path
pub mod Shape
pub mod Insert
pub mod Walk
pub mod Ends
pub mod Remove
mod Tests
use cs_courses.Base.{ℕ, zero, suc, ◌+◌, Bool, true, false, not, ◌&&◌, ◌||◌, ◌==◌, if◌then◌else◌}
use Links.{
  Ptr, null, Heap, Run, ok, out_of_fuel, Cmd, pure, ◌>>=◌, ◌>>◌, get_next, get_prev, set_next,
  set_prev, assert,
}

-- struct list: the addresses of its two header elements
pub record Header : Type 0 where
  pub head : Ptr
  pub tail : Ptr

-- is_head, is_interior and is_tail
unfoldable pub is_head : Ptr → Heap → Bool
is_head e h = not (e == null) && (h.prev e == null) && not (h.next e == null)

unfoldable pub is_interior : Ptr → Heap → Bool
is_interior e h = not (e == null) && not (h.prev e == null) && not (h.next e == null)

unfoldable pub is_tail : Ptr → Heap → Bool
is_tail e h = not (e == null) && not (h.prev e == null) && (h.next e == null)

-- list_init
unfoldable pub list_init : Header → Cmd (Unit {0})
unfolding set_next set_prev
list_init l = do
  set_prev l.head null
  set_next l.head l.tail
  set_prev l.tail l.head
  set_next l.tail null

-- list_begin, list_next, list_end, list_rbegin, list_prev, list_rend
unfoldable pub list_begin : Header → Cmd Ptr
unfolding get_next
list_begin l = get_next l.head

unfoldable pub list_next : Ptr → Cmd Ptr
unfolding get_next is_head is_interior assert
list_next e = do assert (λ h. is_head e h || is_interior e h); get_next e

abbrev pub list_end : Header → Ptr
list_end l = l.tail

unfoldable pub list_rbegin : Header → Cmd Ptr
unfolding get_prev
list_rbegin l = get_prev l.tail

unfoldable pub list_prev : Ptr → Cmd Ptr
unfolding get_prev is_interior is_tail assert
list_prev e = do assert (λ h. is_interior e h || is_tail e h); get_prev e

abbrev pub list_rend : Header → Ptr
list_rend l = l.head

-- list_insert
unfoldable pub list_insert : Ptr → Ptr → Cmd (Unit {0})
unfolding get_prev set_next set_prev is_interior is_tail assert
list_insert before elem = do
  assert (λ h. is_interior before h || is_tail before h)
  assert (λ _. not (elem == null))
  p ← get_prev before
  set_prev elem p
  set_next elem before
  q ← get_prev before
  set_next q elem
  set_prev before elem

-- list_splice
unfoldable pub list_splice : Ptr → Ptr → Ptr → Cmd (Unit {0})
unfolding get_prev get_next set_next set_prev is_interior is_tail assert list_prev
list_splice before first end = do
  assert (λ h. is_interior before h || is_tail before h)
  if first == end then pure tt else do
    last ← list_prev end
    assert (is_interior first)
    assert (is_interior last)
    first_prev ← get_prev first
    last_next ← get_next last
    set_next first_prev last_next
    last_next' ← get_next last
    first_prev' ← get_prev first
    set_prev last_next' first_prev'
    before_prev ← get_prev before
    set_prev first before_prev
    set_next last before
    before_prev' ← get_prev before
    set_next before_prev' first
    set_prev before last

-- list_push_front and list_push_back
unfoldable pub list_push_front : Header → Ptr → Cmd (Unit {0})
unfolding list_begin list_insert
list_push_front l elem = do b ← list_begin l; list_insert b elem

unfoldable pub list_push_back : Header → Ptr → Cmd (Unit {0})
unfolding list_insert
list_push_back l elem = list_insert (list_end l) elem

-- list_remove
unfoldable pub list_remove : Ptr → Cmd Ptr
unfolding get_prev get_next set_next set_prev is_interior assert
list_remove elem = do
  assert (is_interior elem)
  p ← get_prev elem
  n ← get_next elem
  set_next p n
  n' ← get_next elem
  p' ← get_prev elem
  set_prev n' p'
  get_next elem

-- list_empty, list_front, list_back
unfoldable pub list_empty : Header → Cmd Bool
unfolding list_begin
list_empty l = do b ← list_begin l; pure (b == list_end l)

unfoldable pub list_front : Header → Cmd Ptr
unfolding list_empty get_next assert
list_front l = do e ← list_empty l; assert (λ _. not e); get_next l.head

unfoldable pub list_back : Header → Cmd Ptr
unfolding list_empty get_prev assert
list_back l = do e ← list_empty l; assert (λ _. not e); get_prev l.tail

-- list_pop_front and list_pop_back
unfoldable pub list_pop_front : Header → Cmd Ptr
unfolding list_front list_remove
list_pop_front l = do front ← list_front l; list_remove front; pure front

unfoldable pub list_pop_back : Header → Cmd Ptr
unfolding list_back list_remove
list_pop_back l = do back ← list_back l; list_remove back; pure back
