-- ===== src/Files/Store.antt =====
-- The blocks in use of CS330_projects/proj2/filesys/inode.c and file.c: lookups after a change.
use cs_courses.Base.{
  ℕ, ◌+◌, ◌≤◌, ◌≡◌, refl, sym, ap, ◌∙◌, ==→eq, Bool, true, false, none, some, [], ◌∷◌, ◌==◌,
  if◌then◌else◌, Bool-cases, inl, inr, arith,
}
use cs_courses.Files.{Store, lookup, put, free, unlink}

module _ {A : Type 0} where
  pub lookup-put :
      (a : ℕ) (v w : A) (xs : Store A) → lookup a xs ≡ some w → lookup a (put a v xs) ≡ some v
  lookup-put a v w [] h = ground (arith, h)
  lookup-put a v w (x ∷ xs) h = elim (Bool-cases (x.0 == a)) [
    | inl here ↦ ground (arith, here)
    | inr there ↦ ground (arith, there, h, lookup-put a v w xs)
  ]

  pub lookup-put_other :
      (a b : ℕ) (v : A) (xs : Store A) → (a == b) ≡ false → lookup b (put a v xs) ≡ lookup b xs
  lookup-put_other a b v [] h = refl
  lookup-put_other a b v (x ∷ xs) h = ground (arith, h, lookup-put_other a b v xs h)

  pub lookup-unlink : (a : ℕ) (xs : Store A) → lookup a (unlink a xs) ≡ none
  lookup-unlink a [] = refl
  lookup-unlink a (x ∷ xs) = ground (arith, lookup-unlink a xs)

  pub lookup-unlink_other :
      (a b : ℕ) (xs : Store A) → (a == b) ≡ false → lookup b (unlink a xs) ≡ lookup b xs
  lookup-unlink_other a b [] h = refl
  lookup-unlink_other a b (x ∷ xs) h = ground (arith, h, lookup-unlink_other a b xs h)

  pub lookup-free_other :
      (a b : ℕ) (xs : Store A) → (a == b) ≡ false → lookup b (free a xs) ≡ lookup b xs
  lookup-free_other a b [] h = refl
  lookup-free_other a b (x ∷ xs) h = ground (arith, h, lookup-free_other a b xs h)

  -- A block in use stays in use when another is changed.
  pub lookup-put_any :
      (a b : ℕ) (v w x : A) (xs : Store A)
      → lookup a xs ≡ some w
      → lookup b xs ≡ some x
      → (y : A) × (lookup b (put a v xs) ≡ some y)
  lookup-put_any a b v w x xs found found_b = elim (Bool-cases (a == b)) [
    | inl here ↦
        (v, ap (λ c. lookup c (put a v xs)) (sym (==→eq a b here)) ∙ lookup-put a v w xs found)
    | inr there ↦ (x, lookup-put_other a b v xs there ∙ found_b)
  ]

  -- How many blocks pass a test.
  abbrev pub count : (A → Bool) → Store A → ℕ
  count test [] = 0
  count test (x ∷ xs) = (if test x.1 then 1 else 0) + count test xs

  pub count-put :
      (test : A → Bool) (a : ℕ) (v w : A) (xs : Store A)
      → lookup a xs ≡ some w
      → count test (put a v xs) + (if test w then 1 else 0)
        ≡ count test xs + (if test v then 1 else 0)
  count-put test a v w [] h = ground (arith, h)
  count-put test a v w (x ∷ xs) h = ground (arith, h, count-put test a v w xs)

  pub count-free :
      (test : A → Bool) (a : ℕ) (w : A) (xs : Store A)
      → lookup a xs ≡ some w
      → count test (free a xs) + (if test w then 1 else 0) ≡ count test xs
  count-free test a w [] h = ground (arith, h)
  count-free test a w (x ∷ xs) h = ground (arith, h, count-free test a w xs)

  pub count-le :
      (test wide : A → Bool) (xs : Store A)
      → ((v : A) → test v ≡ true → wide v ≡ true)
      → count test xs ≤ count wide xs
  count-le test wide [] h = omega arith
  count-le test wide (x ∷ xs) h = ground (arith, h x.1, count-le test wide xs h)
