-- ===== src/Threads/Exclusion/Steps.antt =====
-- The ways in which the routines of CS330_projects/proj1/threads/synch.c change a lock keep the locks exclusive.
use mathlib.Core.Path.{subst}
use cs_courses.Base.{
  ℕ, suc, ◌≡◌, refl, sym, ap, ◌∙◌, Bool, true, false, ◌||◌, Option, none, List, ◌∷◌, ◌==◌, ==→eq,
  ==_refl, update, Bool-cases, inl, inr, arith,
}
use cs_courses.Threads.{Op, Kernel, points_to}
use cs_courses.Threads.Sync.{in_lock, semaphore_at, put_semaphore, then_do}
use cs_courses.Threads.Frame.{value_of, holder_of}
use cs_courses.Threads.Frame.Waking.{at-update, if_self, value-update, holder-update}
use cs_courses.Threads.Exclusion.{
  is_taken, none_taken, tail_ok, takes_now, takes, ups_now, ups, claims, Inv,
}
use cs_courses.Threads.Exclusion.Claims.{
  IsExclusive-same, IsExclusive-take, takes-false, takes_now-false, ups-takes,
}

pub tails-update :
    (todo : ℕ → List Op) (c : ℕ) (ops : List Op)
    → ((t : ℕ) → tail_ok (todo t) ≡ true)
    → tail_ok ops ≡ true
    → (t : ℕ) → tail_ok (update todo c ops t) ≡ true
tails-update todo c ops old new t = ground (arith, at-update tail_ok todo c ops t, old t)

or_right : (a b : Bool) → (a || b) ≡ false → b ≡ false
or_right true b h = cc
or_right false b h = h

pub or_right_true : (a b : Bool) → b ≡ true → (a || b) ≡ true
or_right_true a b h = ground (arith, h)

pub no_claim :
    {o : Option ℕ} {b : Bool} (t : ℕ) → o ≡ none → b ≡ false → (points_to o t || b) ≡ false
no_claim t e f = rw (e, f) refl

-- A lock that was cleared stays so when a thread goes on to what brings no semaphore up.
pub cleared-update :
    (holder : ℕ → Option ℕ) (todo : ℕ → List Op) (c : ℕ) (ops : List Op)
    → ((l t : ℕ) → ups l (todo t) ≡ true → holder l ≡ none)
    → ((l : ℕ) → ups l ops ≡ false)
    → (l t : ℕ) → ups l (update todo c ops t) ≡ true
    → holder l ≡ none
cleared-update holder todo c ops old new l t h = elim (Bool-cases (t == c)) [
  | inl on ↦
      let here : ups l ops ≡ true = sym (at-update (ups l) todo c ops t ∙ rw on refl) ∙ h in
      cc (here, new l)
  | inr off ↦ old l t (sym (at-update (ups l) todo c ops t ∙ rw off refl) ∙ h)
]

module _ (k : Kernel) (inv : Inv k) (op : Op) (rest : List Op)
    (here : k.todo k.current ≡ op ∷ rest) where
  pub rest-none_taken : none_taken rest ≡ true
  rest-none_taken = sym (ap tail_ok here) ∙ inv.tails k.current

  pub takes-current : (l t : ℕ) → (t == k.current) ≡ true → takes l (k.todo t) ≡ takes_now l op
  takes-current l t e = ap (λ (u : ℕ). takes l (k.todo u)) (==→eq t k.current e) ∙ ap (takes l) here

  others_out :
      (l t : ℕ) → claims k l k.current ≡ true → (t == k.current) ≡ false → claims k l t ≡ false
  others_out l t mine other = elim (Bool-cases (claims k l t)) [
    | inl on ↦ ground (arith, inv.locks.unique l t k.current on mine)
    | inr off ↦ off
  ]

  -- What the others do next gives them no lock that the current thread has.
  pub nobody :
      (l t : ℕ) → claims k l k.current ≡ true → takes l (update k.todo k.current rest t) ≡ false
  nobody l t mine = elim (Bool-cases (t == k.current)) [
    | inl on ↦
        at-update (takes l) k.todo k.current rest t ∙ rw on (takes-false l rest rest-none_taken)
    | inr off ↦
        at-update (takes l) k.todo k.current rest t
        ∙ rw off (or_right _ _ (others_out l t mine off))
  ]

  -- The current thread goes on to other operations, and no lock changes hands.
  pub shift-Inv :
      (ops : List Op)
      → ((l : ℕ)
          → (points_to (holder_of k l) k.current || takes l ops)
            ≡ (points_to (holder_of k l) k.current || takes_now l op))
      → ((l : ℕ) → ups l ops ≡ false)
      → tail_ok ops ≡ true
      → Inv (then_do ops k)
  shift-Inv ops same new tail = record {
    locks =
        IsExclusive-same inv.locks (value_of k) (claims (then_do ops k)) (λ l. refl)
          (λ l t. elim (Bool-cases (t == k.current)) [
            | inl on ↦
                subst (λ u. claims (then_do ops k) l u ≡ claims k l u) (sym (==→eq t k.current on))
                  (ap (λ b. points_to (holder_of k l) k.current || b)
                      (at-update (takes l) k.todo k.current ops k.current
                        ∙ rw (==_refl k.current) refl)
                    ∙ same l
                    ∙ sym (ap (λ xs. points_to (holder_of k l) k.current || takes l xs) here))
            | inr off ↦
                ap (λ b. points_to (holder_of k l) t || b)
                  (at-update (takes l) k.todo k.current ops t ∙ rw off refl)
          ]);
    tails = tails-update k.todo k.current ops inv.tails tail;
    cleared = cleared-update (holder_of k) k.todo k.current ops inv.cleared new;
  }

  pub quiet-Inv :
      (ops : List Op)
      → is_taken op ≡ false
      → ((l : ℕ) → takes l ops ≡ false)
      → tail_ok ops ≡ true
      → Inv (then_do ops k)
  quiet-Inv ops plain new tail =
      shift-Inv ops
        (λ l.
          ap (λ b. points_to (holder_of k l) k.current || b)
            (new l ∙ sym (takes_now-false l op plain)))
        (λ l. ups-takes l ops (new l)) tail

  -- The semaphore of a lock comes down, and the thread goes on as one that has the lock.
  pub take-Inv :
      (x : Op) (l n : ℕ)
      → ((m : ℕ) → takes_now m x ≡ (l == m))
      → ((m : ℕ) → ups_now m x ≡ false)
      → is_taken op ≡ false
      → value_of k l ≡ suc n
      → (let s = semaphore_at (in_lock l) k in
          Inv (then_do (x ∷ rest) (put_semaphore (in_lock l) (record s { value = n }) k)))
  take-Inv x l n new_take new_up plain one =
      let s = semaphore_at (in_lock l) k in
      let k' = then_do (x ∷ rest) (put_semaphore (in_lock l) (record s { value = n }) k) in
      let lk = record (k.lock l) { semaphore = record s { value = n } } in
      let same_lock = λ (m : ℕ) (e : (m == l) ≡ true). ap (claims k) (==→eq m l e) in
      record {
        locks =
            IsExclusive-take inv.locks (value_of k') (claims k') l k.current n one
              (λ m. value-update k.lock l lk m)
              (λ m t. ground (
                arith,
                holder-update k.lock l lk m,
                at-update (takes m) k.todo k.current (x ∷ rest) t,
                new_take m,
                takes-current m t,
                takes_now-false m op plain,
                inv.locks.free l t,
                inv.locks.few l,
                same_lock m,
              ));
        tails = tails-update k.todo k.current (x ∷ rest) inv.tails rest-none_taken;
        cleared = λ m t h.
            holder-update k.lock l lk m
            ∙ if_self (holder_of k) l m
            ∙ cleared-update (holder_of k) k.todo k.current (x ∷ rest) inv.cleared new_up m t h;
      }

  -- A lock that the current thread is about to do something with is its own.
  pub mine-of : (l : ℕ) → takes_now l op ≡ true → takes l (k.todo k.current) ≡ true
  mine-of l now = takes-current l k.current (ground arith) ∙ now

  pub rest-ups : (l : ℕ) → ups l rest ≡ false
  rest-ups l = ups-takes l rest (takes-false l rest rest-none_taken)
