-- ===== src/Threads/Donation.antt =====
-- The donation of priorities in lock_acquire of CS330_projects/proj1/threads/synch.c, along the chain of the
-- threads that wait for one another.
use mathlib.Core.Path.{subst}
use cs_courses.Base.{
  ℕ, zero, suc, ◌≤◌, ◌≡◌, refl, sym, ap, ◌∙◌, Bool, true, false, Option, none, some, List, [], ◌∷◌,
  ℤ, ltb_ℤ, max_ℤ, ◌==◌, ==→eq, ==_refl, if◌then◌else◌, Bool-cases, inl, inr, All, length, arith,
}
use cs_courses.Threads.{Thread, Kernel, Run, ok, fault, priority_of, set_priority, get_max_priority}
use cs_courses.Threads.Sync.{donate_loop, donate}
use cs_courses.Threads.Frame.{holder_of}
use cs_courses.Threads.Frame.Waking.{at-update}

abbrev pub waiting_of : Kernel → ℕ → Option ℕ
waiting_of k t = let th = k.thread t in th.waiting

-- The holder of a lock, the holder of the lock that it waits for, and so on.
pub data Chain (k : Kernel) : ℕ → List ℕ → Type 0 where
  last : {l h : ℕ} → holder_of k l ≡ some h → waiting_of k h ≡ none → Chain k l (h ∷ [])
  next :
      {l h l' : ℕ} {hs : List ℕ}
      → holder_of k l ≡ some h
      → waiting_of k h ≡ some l'
      → Chain k l' hs
      → Chain k l (h ∷ hs)

-- The priority of a thread is p at least.
abbrev pub HasAtLeast : Kernel → ℤ → ℕ → Type 0
HasAtLeast k p t = ltb_ℤ (priority_of k t) p ≡ false

either :
    (b : Bool) (q o p : ℤ)
    → ltb_ℤ q p ≡ false
    → ltb_ℤ o p ≡ false
    → ltb_ℤ (if b then q else o) p ≡ false
either true q o p new old = new
either false q o p new old = old

max-at-least : (a b p : ℤ) → ltb_ℤ a p ≡ false → ltb_ℤ (max_ℤ a b) p ≡ false
max-at-least a b p h = ground (arith, h)

module _ (k : Kernel) (h : ℕ) (q : ℤ) where
  waiting-set_priority : (t : ℕ) → waiting_of (set_priority h q k) t ≡ waiting_of k t
  waiting-set_priority t =
      at-update (λ (th : Thread). th.waiting) k.thread h (record (k.thread h) { priority = q }) t
      ∙ elim (Bool-cases (t == h)) [
        | inl on ↦ rw on (ap (waiting_of k) (sym (==→eq t h on)))
        | inr off ↦ rw off refl
      ]

  Chain-set_priority : {l : ℕ} {hs : List ℕ} → Chain k l hs → Chain (set_priority h q k) l hs
  Chain-set_priority (last {h = u} e w) = last e (waiting-set_priority u ∙ w)
  Chain-set_priority (next {h = u} e w c) =
      next e (waiting-set_priority u ∙ w) (Chain-set_priority c)

  priority-set :
      (t : ℕ) → priority_of (set_priority h q k) t ≡ (if t == h then q else priority_of k t)
  priority-set t =
      at-update (λ (th : Thread). th.priority) k.thread h (record (k.thread h) { priority = q }) t

  -- A priority that is p at least stays so when the new one is.
  AtLeast-set :
      (p : ℤ) (t : ℕ) → ltb_ℤ q p ≡ false → HasAtLeast k p t → HasAtLeast (set_priority h q k) p t
  AtLeast-set p t new old = rw (priority-set t) (either (t == h) q (priority_of k t) p new old)

  AtLeast-set_self : (p : ℤ) → ltb_ℤ q p ≡ false → HasAtLeast (set_priority h q k) p h
  AtLeast-set_self p new = rw (priority-set h, ==_refl h) new

-- The chain is finite, so the loop ends once it has come to a thread that does not wait.
abbrev pub Donated : Kernel → ℤ → List ℕ → Run Kernel → Type 0
Donated k p hs r =
    (k' : Kernel) × (r ≡ ok k')
    × All (HasAtLeast k' p) hs
    × ((t : ℕ) → HasAtLeast k p t → HasAtLeast k' p t)

Chain-holder :
    {k : Kernel} {l : ℕ} {hs : List ℕ} → Chain k l hs → (h : ℕ) × (holder_of k l ≡ some h)
Chain-holder (last {h = u} e w) = (u, e)
Chain-holder (next {h = u} e w c) = (u, e)

some-injective : {a b : ℕ} → some a ≡ some b → a ≡ b
some-injective e = cc

donate_loop-Donated :
    (fuel : ℕ) (p : ℤ) (k : Kernel) (l : ℕ) (hs : List ℕ)
    → Chain k l hs
    → length hs ≤ fuel
    → ((h : ℕ) → holder_of k l ≡ some h → HasAtLeast k p h)
    → HasAtLeast k p k.current
    → Donated k p hs (donate_loop fuel l k)
unfolding donate_loop
donate_loop-Donated zero p k l hs (last e w) f first cur = absurd (omega arith)
donate_loop-Donated zero p k l hs (next e w c) f first cur = absurd (omega arith)
donate_loop-Donated (suc fuel) p k l hs (last {h = u} e w) f first cur =
    (k, rw (donate_loop, e, w) refl, (first u e, tt), (λ t old. old))
donate_loop-Donated (suc fuel) p k l hs (next {h = u} {l'} {hs = us} e w c) f first cur =
    let (v, e') = Chain-holder c in
    let q = max_ℤ (priority_of k k.current) (get_max_priority k v) in
    let enough = max-at-least (priority_of k k.current) (get_max_priority k v) p cur in
    let k1 = set_priority v q k in
    let first' = λ (h : ℕ) (eq : holder_of k1 l' ≡ some h).
      subst (HasAtLeast k1 p) (some-injective (sym e' ∙ eq)) (AtLeast-set_self k v q p enough) in
    let (k', run, done, kept) =
      donate_loop-Donated fuel p k1 l' us (Chain-set_priority k v q c) (omega arith) first'
        (AtLeast-set k v q p k.current enough cur) in
    (
      k',
      rw (donate_loop, e, w, e') run,
      (kept u (AtLeast-set k v q p u enough (first u e)), done),
      (λ t old. kept t (AtLeast-set k v q p t enough old)),
    )

-- When the holder of the lock has a lower priority than the thread that asks for it, and the threads
-- along the chain of holders are no more than the fuel, the donation ends, with every thread of the
-- chain at the asking thread's priority at least, and no other thread below it that was not.
pub donate-Donated :
    (fuel : ℕ) (k : Kernel) (l h : ℕ) (hs : List ℕ)
    → Chain k l hs
    → length hs ≤ fuel
    → holder_of k l ≡ some h
    → ltb_ℤ (priority_of k h) (priority_of k k.current) ≡ true
    → Donated k (priority_of k k.current) hs (donate fuel l k)
unfolding donate
donate-Donated fuel k l h hs c f e low =
    let p = priority_of k k.current in
    let q = max_ℤ p (get_max_priority k h) in
    let same : ltb_ℤ p p ≡ false = ground arith in
    let enough = max-at-least p (get_max_priority k h) p same in
    let k1 = set_priority h q k in
    let first = λ (v : ℕ) (eq : holder_of k1 l ≡ some v).
      subst (HasAtLeast k1 p) (some-injective (sym e ∙ eq)) (AtLeast-set_self k h q p enough) in
    let (k', run, done, kept) =
      donate_loop-Donated fuel p k1 l hs (Chain-set_priority k h q c) f first
        (AtLeast-set k h q p k.current enough same) in
    (k', rw (donate, e, low) run, done, (λ t old. kept t (AtLeast-set k h q p t enough old)))

-- Where a lock has a holder with a lower priority than the current thread, and this holder waits for
-- a lock that has no holder at the moment, the donation for the first lock dereferences NULL.
donate-fault :
    (fuel : ℕ) (k : Kernel) (l h l' : ℕ)
    → holder_of k l ≡ some h
    → ltb_ℤ (priority_of k h) (priority_of k k.current) ≡ true
    → waiting_of k h ≡ some l'
    → holder_of k l' ≡ none
    → donate (suc fuel) l k ≡ fault
unfolding donate donate_loop
donate-fault fuel k l h l' e low w free =
    let q = max_ℤ (priority_of k k.current) (get_max_priority k h) in
    rw (donate, e, low) (rw (donate_loop, e, waiting-set_priority k h q h ∙ w, free) refl)
