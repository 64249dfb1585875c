-- ===== src/Threads/Exclusion/Holder.antt =====
-- How the holder of a lock of CS330_projects/proj1/threads/synch.c changes, and how its semaphore comes up.
use mathlib.Core.Path.{subst}
use cs_courses.Base.{
  ℕ, ◌+◌, ◌≡◌, refl, sym, ap, ◌∙◌, true, false, ◌||◌, Option, none, some, List, ◌∷◌, ◌==◌, ==→eq,
  ==_refl, if◌then◌else◌, update, Bool-cases, inl, inr, arith,
}
use cs_courses.Threads.{Op, lock_hold, lock_free, lock_up, Kernel, points_to}
use cs_courses.Threads.Sync.{in_lock, semaphore_at, then_do, set_holder, count_up}
use cs_courses.Threads.Frame.{value_of, holder_of}
use cs_courses.Threads.Frame.Waking.{at-update, if_self, value-update, holder-update}
use cs_courses.Threads.Exclusion.{tail_ok, IsExclusive, takes_now, takes, ups_now, ups, claims, Inv}
use cs_courses.Threads.Exclusion.Claims.{
  IsExclusive-same, IsExclusive-give, takes-false, tail_ok_of, ups-takes,
}
use cs_courses.Threads.Exclusion.Steps.{
  tails-update, cleared-update, no_claim, or_right_true, takes-current, nobody, mine-of, rest-ups,
  rest-none_taken,
}

module _ (k : Kernel) (inv : Inv k) (op : Op) (rest : List Op)
    (here : k.todo k.current ≡ op ∷ rest) where
  -- Who has a lock, when its holder changes by the hand of the thread that has it and that keeps it.
  settle-IsExclusive :
      (l : ℕ) (h : Option ℕ) (ops : List Op)
      → ((m : ℕ) → takes_now m op ≡ (l == m))
      → ((t : ℕ)
          → (points_to h t || (if t == k.current then takes l ops else false)) ≡ (t == k.current))
      → ((m : ℕ) → (m == l) ≡ false → takes m ops ≡ false)
      → (let k' = set_holder l h (then_do ops k) in IsExclusive (value_of k') (claims k'))
  settle-IsExclusive l h ops now new others =
      let k' = set_holder l h (then_do ops k) in
      let lk = record (k.lock l) { holder = h } in
      let mine : takes l (k.todo k.current) ≡ true =
        (mine-of k inv op rest here) l (now l ∙ ==_refl l) in
      IsExclusive-same inv.locks (value_of k') (claims k')
        (λ m. value-update k.lock l lk m ∙ if_self (value_of k) l m)
        (λ m t. elim (Bool-cases (m == l)) [
          | inl on ↦
              subst (λ j. claims k' j t ≡ claims k j t) (sym (==→eq m l on))
                (elim (Bool-cases (t == k.current)) [
                  | inl me ↦ ground (
                    arith,
                    holder-update k.lock l lk l,
                    at-update (takes l) k.todo k.current ops t,
                    new t,
                    mine,
                    (takes-current k inv op rest here) l t,
                    (takes-current k inv op rest here) l k.current,
                  )
                  | inr off ↦ ground (
                    arith,
                    holder-update k.lock l lk l,
                    at-update (takes l) k.todo k.current ops t,
                    new t,
                    inv.locks.unique l t k.current,
                    mine,
                  )
                ])
          | inr off ↦ ground (
            arith,
            holder-update k.lock l lk m,
            at-update (takes m) k.todo k.current ops t,
            (takes-current k inv op rest here) m t,
            now m,
            others m off,
          )
        ])

  settle-cleared :
      (l : ℕ) (h : Option ℕ) (ops : List Op)
      → ((m : ℕ) → (m == l) ≡ false → takes m ops ≡ false)
      → ((t : ℕ) → ups l (update k.todo k.current ops t) ≡ true → h ≡ none)
      → (m t : ℕ) → ups m (update k.todo k.current ops t) ≡ true
      → holder_of (set_holder l h (then_do ops k)) m ≡ none
  settle-cleared l h ops others clear m t up =
      let lk = record (k.lock l) { holder = h } in
      elim (Bool-cases (m == l)) [
        | inl on ↦
            holder-update k.lock l lk m
            ∙ rw on (
                clear t
                  (ap (λ (j : ℕ). ups j (update k.todo k.current ops t)) (sym (==→eq m l on)) ∙ up))
        | inr off ↦
            holder-update k.lock l lk m
            ∙ rw off (elim (Bool-cases (t == k.current)) [
              | inl me ↦
                  let no_up : ups m ops ≡ false = ups-takes m ops (others m off) in
                  let is_up : ups m ops ≡ true =
                    sym (at-update (ups m) k.todo k.current ops t ∙ rw me refl) ∙ up in
                  cc (no_up, is_up)
              | inr away ↦
                  inv.cleared m t
                    (sym (at-update (ups m) k.todo k.current ops t ∙ rw away refl) ∙ up)
            ])
      ]

  -- The holder of a lock changes by the hand of the thread that has it, and it keeps it.
  settle-Inv :
      (l : ℕ) (h : Option ℕ) (ops : List Op)
      → ((m : ℕ) → takes_now m op ≡ (l == m))
      → ((t : ℕ)
          → (points_to h t || (if t == k.current then takes l ops else false)) ≡ (t == k.current))
      → ((m : ℕ) → (m == l) ≡ false → takes m ops ≡ false)
      → tail_ok ops ≡ true
      → ((t : ℕ) → ups l (update k.todo k.current ops t) ≡ true → h ≡ none)
      → Inv (set_holder l h (then_do ops k))
  settle-Inv l h ops now new others tail clear = record {
    locks = settle-IsExclusive l h ops now new others;
    tails = tails-update k.todo k.current ops inv.tails tail;
    cleared = settle-cleared l h ops others clear;
  }

  -- Nobody is about to bring up the semaphore of a lock that the current thread has for another reason.
  no_up :
      (l t : ℕ) → takes l (k.todo k.current) ≡ true → ups l (update k.todo k.current rest t) ≡ false
  no_up l t mine =
      ups-takes l (update k.todo k.current rest t)
        ((nobody k inv op rest here) l t (or_right_true _ _ mine))

  -- The thread that has brought the semaphore down becomes the holder.
  pub hold-Inv : (l : ℕ) → op ≡ lock_hold l → Inv (set_holder l (some k.current) (then_do rest k))
  hold-Inv l is =
      settle-Inv l (some k.current) rest (λ m. ap (takes_now m) is)
        (λ t. ground (arith, takes-false l rest (rest-none_taken k inv op rest here)))
        (λ m off. takes-false m rest (rest-none_taken k inv op rest here))
        (tail_ok_of rest (rest-none_taken k inv op rest here))
        (λ t up.
          cc (up, no_up l t ((mine-of k inv op rest here) l (ap (takes_now l) is ∙ ==_refl l))))

  -- The holder clears itself, and goes on to the semaphore.
  pub free-Inv : (l : ℕ) → op ≡ lock_free l → Inv (set_holder l none (then_do (lock_up l ∷ rest) k))
  free-Inv l is =
      settle-Inv l none (lock_up l ∷ rest) (λ m. ap (takes_now m) is) (λ t. ground arith)
        (λ m off. ground (arith, off)) (rest-none_taken k inv op rest here) (λ t up. refl)

  -- The thread that has cleared the holder brings the semaphore up.
  pub give-Inv : (l : ℕ) → op ≡ lock_up l → Inv (count_up (in_lock l) (then_do rest k))
  give-Inv l up =
      let s = semaphore_at (in_lock l) k in
      let lk = record (k.lock l) { semaphore = record s { value = s.value + 1 } } in
      let k' = count_up (in_lock l) (then_do rest k) in
      let mine : claims k l k.current ≡ true =
        or_right_true _ _ ((mine-of k inv op rest here) l (ap (takes_now l) up ∙ ==_refl l)) in
      let gone : holder_of k l ≡ none =
        inv.cleared l k.current (ap (ups l) here ∙ ap (ups_now l) up ∙ ==_refl l) in
      let same = λ (m : ℕ). holder-update k.lock l lk m ∙ if_self (holder_of k) l m in
      record {
        locks =
            IsExclusive-give inv.locks (value_of k') (claims k') l k.current mine
              (λ m. value-update k.lock l lk m)
              (λ m t. elim (Bool-cases (m == l)) [
                | inl on ↦
                    subst (λ j. claims k' j t ≡ (if j == l then false else claims k j t))
                      (sym (==→eq m l on))
                      (no_claim t (same l ∙ gone) ((nobody k inv op rest here) l t mine)
                        ∙ sym (rw (==_refl l) refl))
                | inr off ↦ ground (
                  arith,
                  holder-update k.lock l lk m,
                  at-update (takes m) k.todo k.current rest t,
                  (takes-current k inv op rest here) m t,
                  ap (takes_now m) up,
                  takes-false m rest (rest-none_taken k inv op rest here),
                )
              ]);
        tails =
            tails-update k.todo k.current rest inv.tails
              (tail_ok_of rest (rest-none_taken k inv op rest here));
        cleared = λ m t h.
            same m
            ∙ cleared-update (holder_of k) k.todo k.current rest inv.cleared
                (rest-ups k inv op rest here) m t h;
      }
