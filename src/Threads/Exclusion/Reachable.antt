-- ===== src/Threads/Exclusion/Reachable.antt =====
-- The locks of CS330_projects/proj1/threads/synch.c stay exclusive in every run of the kernel.
use cs_courses.Base.{ℕ, ◌≡◌, refl, ap, true, false, none, [], ◌∷◌, ◌==◌, ==→eq, arith}
use cs_courses.Threads.{Op, lock_taken, lock_hold, lock_free, lock_up, Kernel}
use cs_courses.Threads.Sync.{then_do}
use cs_courses.Threads.Timer.{timer_interrupt}
use cs_courses.Threads.Step.{is_call, Step, call, work, tick, Reach, start, later}
use cs_courses.Threads.Frame.{value_of, holder_of, timer_interrupt-Frames}
use cs_courses.Threads.Frame.Waking.{at-update}
use cs_courses.Threads.Exclusion.{tail_ok, takes, claims, IsExclusive, Inv}
use cs_courses.Threads.Exclusion.Claims.{IsExclusive-same, Inv-Frames, ups-takes}
use cs_courses.Threads.Exclusion.Steps.{tails-update, cleared-update, no_claim}
use cs_courses.Threads.Exclusion.Perform.{perform-Inv}

call_takes_nothing : (l : ℕ) (op : Op) → is_call op ≡ true → takes l (op ∷ []) ≡ false
call_takes_nothing l (lock_taken m) h = cc
call_takes_nothing l (lock_hold m) h = cc
call_takes_nothing l (lock_free m) h = cc
call_takes_nothing l (lock_up m) h = cc
call_takes_nothing l _ h = refl

call-Inv :
    (k : Kernel) (op : Op)
    → Inv k
    → is_call op ≡ true
    → k.todo k.current ≡ []
    → Inv (then_do (op ∷ []) k)
call-Inv k op inv calls idle = record {
  locks =
      IsExclusive-same inv.locks (value_of k) (claims (then_do (op ∷ []) k)) (λ l. refl)
        (λ l t. ground (
          arith,
          at-update (takes l) k.todo k.current (op ∷ []) t,
          call_takes_nothing l op calls,
          ap (takes l) idle,
          λ (e : (t == k.current) ≡ true). ap (λ (u : ℕ). takes l (k.todo u)) (==→eq t k.current e),
        ));
  tails = tails-update k.todo k.current (op ∷ []) inv.tails refl;
  cleared =
      cleared-update (holder_of k) k.todo k.current (op ∷ []) inv.cleared
        (λ l. ups-takes l (op ∷ []) (call_takes_nothing l op calls));
}

Step-Inv : {k k' : Kernel} → Step k k' → Inv k → Inv k'
Step-Inv {k} (call op calls idle) inv = call-Inv k op inv calls idle
Step-Inv {k} {k'} (work fuel op rest here e) inv = perform-Inv fuel op rest k k' inv here e
Step-Inv {k} {k'} (tick e) inv =
    Inv-Frames k k' (timer_interrupt k) inv (timer_interrupt-Frames k) e

-- No lock is taken, and no thread is inside a routine of the kernel.
pub record IsStart (k : Kernel) : Type 0 where
  pub free : (l : ℕ) → value_of k l ≡ 1
  pub unheld : (l : ℕ) → holder_of k l ≡ none
  pub outside : (t : ℕ) → k.todo t ≡ []

IsStart-Inv : (k : Kernel) → IsStart k → Inv k
IsStart-Inv k s =
    let nobody = λ (l t : ℕ). no_claim t (s.unheld l) (ap (takes l) (s.outside t)) in
    record {
      locks = record {
        few = λ l. omega (arith, s.free l);
        free = λ l t e. nobody l t;
        held = λ l e. absurd (omega (arith, s.free l));
        unique = λ l t u p q. cc (nobody l t);
      };
      tails = λ t. ap tail_ok (s.outside t);
      cleared = λ l t h. s.unheld l;
    }

Reach-Inv : {k k' : Kernel} → Inv k → Reach k k' → Inv k'
Reach-Inv inv start = inv
Reach-Inv inv (later r step) = Step-Inv step (Reach-Inv inv r)

-- Mutual exclusion: from a kernel in which no lock is taken, in every run in which the threads call any of the
-- operations (Op) and the timer comes in between any two pieces of them (the donation of lock_acquire, which
-- changes no lock, is one piece), the semaphore of each lock is 0 or 1, no
-- thread has the lock while it is 1, and exactly one thread has it while it is 0. A thread has a lock from the moment
-- it has brought the semaphore down until it brings it up, so from before it becomes the holder until after it
-- has cleared the holder, and at no time are there two such threads. A run ends where an assertion fails, and
-- releasing a lock that is not in the thread's sema_list counts as that.
pub Reach-IsExclusive :
    (k k' : Kernel) → IsStart k → Reach k k' → IsExclusive (value_of k') (claims k')
Reach-IsExclusive k k' s r = let inv = Reach-Inv (IsStart-Inv k s) r in inv.locks
