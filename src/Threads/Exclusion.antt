-- ===== src/Threads/Exclusion.antt =====
-- Who has a lock of CS330_projects/proj1/threads/synch.c: its holder, before that the thread that has
-- brought the lock's semaphore down and is about to become the holder, and behind that the thread that is no
-- longer the holder and about to bring the semaphore up.
pub mod Claims
pub mod Steps
pub mod Holder
pub mod Perform
pub mod Reachable
use cs_courses.Base.{ℕ, ◌≤◌, ◌≡◌, Bool, true, false, not, ◌&&◌, ◌||◌, none, List, [], ◌∷◌, ◌==◌}
use cs_courses.Threads.{Op, lock_taken, lock_hold, lock_free, lock_up, Kernel, points_to}
use cs_courses.Threads.Frame.{value_of, holder_of}

abbrev pub is_taken : Op → Bool
is_taken (lock_taken l) = true
is_taken (lock_hold l) = true
is_taken (lock_free l) = true
is_taken (lock_up l) = true
is_taken _ = false

abbrev pub none_taken : List Op → Bool
none_taken [] = true
none_taken (x ∷ xs) = not (is_taken x) && none_taken xs

-- Only at once can a thread be about to become a holder, or to bring the semaphore up.
abbrev pub tail_ok : List Op → Bool
tail_ok [] = true
tail_ok (x ∷ xs) = none_taken xs

abbrev pub takes_now : ℕ → Op → Bool
takes_now l (lock_taken m) = m == l
takes_now l (lock_hold m) = m == l
takes_now l (lock_free m) = m == l
takes_now l (lock_up m) = m == l
takes_now l _ = false

abbrev pub takes : ℕ → List Op → Bool
takes l [] = false
takes l (x ∷ xs) = takes_now l x

-- What is next brings the semaphore of lock l up.
abbrev pub ups_now : ℕ → Op → Bool
ups_now l (lock_up m) = m == l
ups_now l _ = false

abbrev pub ups : ℕ → List Op → Bool
ups l [] = false
ups l (x ∷ xs) = ups_now l x

-- Thread t has lock l.
abbrev pub claims : Kernel → ℕ → ℕ → Bool
claims k l t = points_to (holder_of k l) t || takes l (k.todo t)

-- The semaphores are 0 or 1: at 1 no thread has the lock, at 0 exactly one has.
pub record IsExclusive (value : ℕ → ℕ) (has : ℕ → ℕ → Bool) : Type 0 where
  pub few : (l : ℕ) → value l ≤ 1
  pub free : (l t : ℕ) → value l ≡ 1 → has l t ≡ false
  pub held : (l : ℕ) → value l ≡ 0 → (t : ℕ) × (has l t ≡ true)
  pub unique : (l t u : ℕ) → has l t ≡ true → has l u ≡ true → t ≡ u

pub record Inv (k : Kernel) : Type 0 where
  pub locks : IsExclusive (value_of k) (claims k)
  pub tails : (t : ℕ) → tail_ok (k.todo t) ≡ true
  pub cleared : (l t : ℕ) → ups l (k.todo t) ≡ true → holder_of k l ≡ none
