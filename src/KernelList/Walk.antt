-- ===== src/KernelList/Walk.antt =====
-- The loops of CS330_projects/proj1/lib/kernel/list.c. Each `while` or `for` is a function on fuel;
-- `less` is the comparison with its auxiliary data.
pub mod Read
pub mod Order
use cs_courses.Base.{
  ℕ, zero, suc, ◌+◌, ◌%◌, ◌^◌, Bool, true, false, not, ◌&&◌, ◌||◌, ◌==◌, ltb, if◌then◌else◌, Option,
  none, some,
}
use cs_courses.KernelList.Links.{
  Ptr, null, Heap, Run, ok, out_of_fuel, Cmd, pure, ◌>>=◌, ◌>>◌, get_next, get_prev, set_next,
  set_prev, assert,
}
use cs_courses.KernelList.{
  Header, list_begin, list_end, list_next, list_prev, list_insert, list_splice, list_remove,
  list_push_back, list_empty,
}

-- list_size
unfoldable pub size_loop : ℕ → Ptr → Ptr → ℕ → Cmd ℕ
unfolding list_next
size_loop zero end e cnt = λ _. out_of_fuel
size_loop (suc k) end e cnt =
    if e == end then pure cnt else do n ← list_next e; size_loop k end n ((cnt + 1) % 2 ^ 32)

unfoldable pub list_size : ℕ → Header → Cmd ℕ
unfolding size_loop list_begin
list_size fuel l = do b ← list_begin l; size_loop fuel (list_end l) b 0

-- list_reverse
unfoldable pub reverse_loop : ℕ → Ptr → Ptr → Cmd (Unit {0})
unfolding get_next get_prev set_next set_prev
reverse_loop zero end e = λ _. out_of_fuel
reverse_loop (suc k) end e = if e == end then pure tt else do
  p ← get_prev e
  n ← get_next e
  set_prev e n
  set_next e p
  q ← get_prev e
  reverse_loop k end q

unfoldable pub list_reverse : ℕ → Header → Cmd (Unit {0})
unfolding reverse_loop list_empty list_begin
list_reverse fuel l = do
  empty ← list_empty l
  if empty then pure tt else do
    b ← list_begin l
    reverse_loop fuel (list_end l) b
    first ← get_next l.head
    last ← get_prev l.tail
    set_next l.head last
    set_prev l.tail first
    first' ← get_next l.head
    last' ← get_prev l.tail
    outer ← get_prev first'
    outer' ← get_next last'
    set_prev first' outer'
    set_next last' outer

module _ (less : Ptr → Ptr → Bool) where
  -- is_sorted
  unfoldable pub sorted_loop : ℕ → Ptr → Ptr → Cmd Bool
  unfolding list_next list_prev
  sorted_loop zero a b = λ _. out_of_fuel
  sorted_loop (suc k) a b = do
    n ← list_next a
    if n == b
        then pure true
        else do p ← list_prev n; if less n p then pure false else sorted_loop k n b

  unfoldable pub is_sorted : ℕ → Ptr → Ptr → Cmd Bool
  unfolding sorted_loop
  is_sorted fuel a b = if a == b then pure true else sorted_loop fuel a b

  -- find_end_of_run
  unfoldable pub run_loop : ℕ → Ptr → Ptr → Cmd Ptr
  unfolding list_next list_prev
  run_loop zero a b = λ _. out_of_fuel
  run_loop (suc k) a b = do
    n ← list_next a
    if n == b then pure n else do p ← list_prev n; if less n p then pure n else run_loop k n b

  unfoldable pub find_end_of_run : ℕ → Ptr → Ptr → Cmd Ptr
  unfolding run_loop assert
  find_end_of_run fuel a b = do
    assert (λ _. not (a == null))
    assert (λ _. not (b == null))
    assert (λ _. not (a == b))
    run_loop fuel a b

  -- inplace_merge
  unfoldable pub merge_loop : ℕ → Ptr → Ptr → Ptr → Cmd (Unit {0})
  unfolding list_next list_prev list_splice
  merge_loop zero a0 a1b0 b1 = λ _. out_of_fuel
  merge_loop (suc k) a0 a1b0 b1 =
      if a0 == a1b0 || a1b0 == b1
      then pure tt
      else if not (less a1b0 a0)
      then (do n ← list_next a0; merge_loop k n a1b0 b1)
      else do n ← list_next a1b0; p ← list_prev n; list_splice a0 p n; merge_loop k a0 n b1

  unfoldable pub inplace_merge : ℕ → Ptr → Ptr → Ptr → Cmd (Unit {0})
  unfolding merge_loop is_sorted assert
  inplace_merge fuel a0 a1b0 b1 = do
    assert (λ _. not (a0 == null))
    assert (λ _. not (a1b0 == null))
    assert (λ _. not (b1 == null))
    first ← is_sorted fuel a0 a1b0
    assert (λ _. first)
    second ← is_sorted fuel a1b0 b1
    assert (λ _. second)
    merge_loop fuel a0 a1b0 b1

  -- One pass of list_sort, with the count of its output runs.
  unfoldable pub pass_loop : ℕ → ℕ → Ptr → Ptr → ℕ → Cmd ℕ
  unfolding find_end_of_run inplace_merge
  pass_loop zero fuel end a0 cnt = λ _. out_of_fuel
  pass_loop (suc k) fuel end a0 cnt = if a0 == end then pure cnt else do
    a1b0 ← find_end_of_run fuel a0 end
    if a1b0 == end then pure (cnt + 1) else do
      b1 ← find_end_of_run fuel a1b0 end
      inplace_merge fuel a0 a1b0 b1
      pass_loop k fuel end b1 (cnt + 1)

  unfoldable pub sort_loop : ℕ → ℕ → Header → Cmd (Unit {0})
  unfolding pass_loop list_begin
  sort_loop zero fuel l = λ _. out_of_fuel
  sort_loop (suc k) fuel l = do
    b ← list_begin l
    runs ← pass_loop fuel fuel (list_end l) b 0
    if ltb 1 runs then sort_loop k fuel l else pure tt

  -- list_sort
  unfoldable pub list_sort : ℕ → Header → Cmd (Unit {0})
  unfolding sort_loop is_sorted assert list_begin
  list_sort fuel l = do
    sort_loop fuel fuel l
    b ← list_begin l
    sorted ← is_sorted fuel b (list_end l)
    assert (λ _. sorted)

  -- list_insert_ordered
  unfoldable pub place_loop : ℕ → Ptr → Ptr → Ptr → Cmd Ptr
  unfolding list_next
  place_loop zero end elem e = λ _. out_of_fuel
  place_loop (suc k) end elem e =
      if e == end
      then pure e
      else if less elem e
      then pure e
      else do n ← list_next e; place_loop k end elem n

  unfoldable pub list_insert_ordered : ℕ → Header → Ptr → Cmd (Unit {0})
  unfolding place_loop list_begin assert
  list_insert_ordered fuel l elem = do
    assert (λ _. not (elem == null))
    b ← list_begin l
    e ← place_loop fuel (list_end l) elem b
    list_insert e elem

  abbrev push_duplicate : Option Header → Ptr → Cmd (Unit {0})
  push_duplicate none e = pure tt
  push_duplicate (some d) e = list_push_back d e

  -- list_unique
  unfoldable pub unique_loop : ℕ → Ptr → Option Header → Ptr → Cmd (Unit {0})
  unfolding list_next list_remove list_push_back
  unique_loop zero end dups elem = λ _. out_of_fuel
  unique_loop (suc k) end dups elem = do
    next ← list_next elem
    if next == end
        then pure tt
        else if not (less elem next) && not (less next elem)
        then (do list_remove next; push_duplicate dups next; unique_loop k end dups elem)
        else unique_loop k end dups next

  unfoldable pub list_unique : ℕ → Header → Option Header → Cmd (Unit {0})
  unfolding unique_loop list_empty list_begin
  list_unique fuel l dups = do
    empty ← list_empty l
    if empty then pure tt else do b ← list_begin l; unique_loop fuel (list_end l) dups b

  -- list_max and list_min
  unfoldable pub max_loop : ℕ → Ptr → Ptr → Ptr → Cmd Ptr
  unfolding list_next
  max_loop zero end best e = λ _. out_of_fuel
  max_loop (suc k) end best e =
      if e == end
      then pure best
      else do n ← list_next e; max_loop k end (if less best e then e else best) n

  unfoldable pub list_max : ℕ → Header → Cmd Ptr
  unfolding max_loop list_begin list_next
  list_max fuel l = do
    b ← list_begin l
    if b == list_end l then pure b else do e ← list_next b; max_loop fuel (list_end l) b e

  unfoldable pub min_loop : ℕ → Ptr → Ptr → Ptr → Cmd Ptr
  unfolding list_next
  min_loop zero end best e = λ _. out_of_fuel
  min_loop (suc k) end best e =
      if e == end
      then pure best
      else do n ← list_next e; min_loop k end (if less e best then e else best) n

  unfoldable pub list_min : ℕ → Header → Cmd Ptr
  unfolding min_loop list_begin list_next
  list_min fuel l = do
    b ← list_begin l
    if b == list_end l then pure b else do e ← list_next b; min_loop fuel (list_end l) b e
