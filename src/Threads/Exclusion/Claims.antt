-- ===== src/Threads/Exclusion/Claims.antt =====
-- How a lock changes hands, and that this keeps the locks exclusive.
use cs_courses.Base.{
  ℕ, suc, ◌+◌, ◌≡◌, refl, sym, ap, ◌∙◌, Bool, true, false, List, [], ◌∷◌, ◌==◌, if◌then◌else◌,
  Bool-cases, inl, inr, arith,
}
use cs_courses.Threads.{Op, lock_taken, lock_hold, lock_free, lock_up, Kernel, Run, ok}
use cs_courses.Threads.Frame.{value_of, Same, Frames}
use cs_courses.Threads.Exclusion.{
  is_taken, none_taken, tail_ok, takes_now, takes, ups_now, ups, claims, IsExclusive, Inv,
}

module _ {value : ℕ → ℕ} {has : ℕ → ℕ → Bool} (ex : IsExclusive value has) where
  pub IsExclusive-same :
      (value' : ℕ → ℕ) (has' : ℕ → ℕ → Bool)
      → ((l : ℕ) → value' l ≡ value l)
      → ((l t : ℕ) → has' l t ≡ has l t)
      → IsExclusive value' has'
  IsExclusive-same value' has' v h = record {
    few = λ l. rw (v l) (ex.few l);
    free = λ l t e. rw (h l t) (ex.free l t (sym (v l) ∙ e));
    held = λ l e. (let (t, on) = ex.held l (sym (v l) ∙ e) in (t, h l t ∙ on));
    unique = λ l t u p q. ex.unique l t u (sym (h l t) ∙ p) (sym (h l u) ∙ q);
  }

  -- A thread brings the semaphore of a lock down.
  pub IsExclusive-take :
      (value' : ℕ → ℕ) (has' : ℕ → ℕ → Bool) (l c n : ℕ)
      → value l ≡ suc n
      → ((m : ℕ) → value' m ≡ (if m == l then n else value m))
      → ((m t : ℕ) → has' m t ≡ (if m == l then t == c else has m t))
      → IsExclusive value' has'
  IsExclusive-take value' has' l c n one v h = record {
    few = λ m. ground (arith, v m, ex.few m, ex.few l);
    free = λ m t e. ground (arith, v m, h m t, ex.free m t, ex.few l);
    held = λ m e. elim (Bool-cases (m == l)) [
      | inl on ↦ (c, ground (arith, h m c))
      | inr off ↦ (let (t, q) = ex.held m (ground (arith, v m)) in (t, ground (arith, h m t)))
    ];
    unique = λ m t u p q. ground (arith, h m t, h m u, ex.unique m t u);
  }

  -- The thread that has a lock gives it back.
  pub IsExclusive-give :
      (value' : ℕ → ℕ) (has' : ℕ → ℕ → Bool) (l c : ℕ)
      → has l c ≡ true
      → ((m : ℕ) → value' m ≡ (if m == l then value l + 1 else value m))
      → ((m t : ℕ) → has' m t ≡ (if m == l then false else has m t))
      → IsExclusive value' has'
  IsExclusive-give value' has' l c mine v h = record {
    few = λ m. ground (arith, v m, ex.few m, ex.few l, ex.free l c);
    free = λ m t e. ground (arith, v m, h m t, ex.free m t);
    held = λ m e. elim (Bool-cases (m == l)) [
      | inl on ↦ ground (arith, v m)
      | inr off ↦ (let (t, q) = ex.held m (ground (arith, v m)) in (t, ground (arith, h m t)))
    ];
    unique = λ m t u p q. ground (arith, h m t, h m u, ex.unique m t u);
  }

pub takes_now-false : (l : ℕ) (x : Op) → is_taken x ≡ false → takes_now l x ≡ false
takes_now-false l (lock_taken m) h = cc
takes_now-false l (lock_hold m) h = cc
takes_now-false l (lock_free m) h = cc
takes_now-false l (lock_up m) h = cc
takes_now-false l _ h = refl

ups_now-takes_now : (l : ℕ) (x : Op) → takes_now l x ≡ false → ups_now l x ≡ false
ups_now-takes_now l (lock_up m) h = h
ups_now-takes_now l _ h = refl

-- Who is about to bring a semaphore up has the lock.
pub ups-takes : (l : ℕ) (xs : List Op) → takes l xs ≡ false → ups l xs ≡ false
ups-takes l [] h = refl
ups-takes l (x ∷ xs) h = ups_now-takes_now l x h

pub takes-false : (l : ℕ) (xs : List Op) → none_taken xs ≡ true → takes l xs ≡ false
takes-false l [] h = refl
takes-false l (x ∷ xs) h = takes_now-false l x (ground arith)

pub tail_ok_of : (xs : List Op) → none_taken xs ≡ true → tail_ok xs ≡ true
tail_ok_of [] h = refl
tail_ok_of (x ∷ xs) h = ground arith

pub Inv-Same : (k k' : Kernel) → Inv k → Same k k' → Inv k'
Inv-Same k k' inv same = record {
  locks =
      IsExclusive-same inv.locks (value_of k') (claims k') same.value
        (λ l t. rw (same.holder l, same.todo t) refl);
  tails = λ t. rw (same.todo t) (inv.tails t);
  cleared = λ l t h. same.holder l ∙ inv.cleared l t (sym (ap (ups l) (same.todo t)) ∙ h);
}

pub Inv-Frames : (k k' : Kernel) (r : Run Kernel) → Inv k → Frames k r → r ≡ ok k' → Inv k'
Inv-Frames k k' r inv frames e = Inv-Same k k' inv (rw e at frames)
