-- ===== src/Hash/Chains.antt =====
-- One bucket of CS330_projects/proj1/lib/kernel/hash.c: find_elem, and how many elements equal to another the
-- bucket has.
use mathlib.Core.Option.{or_else}
use cs_courses.Base.{
  ℕ, suc, ◌+◌, ◌≤◌, ◌≡◌, refl, ap, Bool, true, false, not, ◌&&◌, none, some, List, [], ◌∷◌, ◌++◌,
  length, ◌==◌, ==→eq, if◌then◌else◌, arith,
}
use cs_courses.Hash.{same, find_elem, remove}

abbrev pub to_nat : Bool → ℕ
to_nat true = 1
to_nat false = 0

module _ (hash : ℕ → ℕ) (less : ℕ → ℕ → Bool) where
  -- less is such that two elements of which neither is less than the other are equal, and then have the
  -- same hash.
  pub record IsHashing : Type 0 where
    pub irrefl : (a : ℕ) → less a a ≡ false
    pub trans : (a b c : ℕ) → same less a b ≡ true → same less b c ≡ true → same less a c ≡ true
    pub hash-same : (a b : ℕ) → same less a b ≡ true → hash a ≡ hash b

module _ (less : ℕ → ℕ → Bool) where
  pub same_symm : (a b : ℕ) → same less a b ≡ same less b a
  same_symm a b = ground (arith, &&_comm (not (less a b)) (not (less b a)))
    where
      &&_comm : (a b : Bool) → (a && b) ≡ (b && a)
      &&_comm true true = refl
      &&_comm true false = refl
      &&_comm false true = refl
      &&_comm false false = refl

  -- The elements of a bucket that are equal to q.
  unfoldable pub count : ℕ → List ℕ → ℕ
  count q [] = 0
  count q (x ∷ xs) = to_nat (same less x q) + count q xs

  pub count-append : (q : ℕ) (xs ys : List ℕ) → count q (xs ++ ys) ≡ count q xs + count q ys
  unfolding count
  count-append q [] ys = omega arith
  count-append q (x ∷ xs) ys = omega (arith, count-append q xs ys)

  pub find_elem-count : (q : ℕ) (xs : List ℕ) → count q xs ≡ 0 → find_elem less q xs ≡ none
  unfolding count find_elem
  find_elem-count q [] h = refl
  find_elem-count q (x ∷ xs) h = ground (arith, find_elem-count q xs)

  pub find_elem-append :
      (q : ℕ) (xs ys : List ℕ)
      → find_elem less q (xs ++ ys) ≡ or_else (find_elem less q xs) (find_elem less q ys)
  unfolding find_elem or_else
  find_elem-append q [] ys = refl
  find_elem-append q (x ∷ xs) ys = ground (arith, find_elem-append q xs ys)

  pub find_elem-none : (q : ℕ) (xs : List ℕ) → find_elem less q xs ≡ none → count q xs ≡ 0
  unfolding count find_elem
  find_elem-none q [] h = refl
  find_elem-none q (x ∷ xs) h = ground (arith, find_elem-none q xs)

  pub find_elem-same : (q e : ℕ) (xs : List ℕ) → find_elem less q xs ≡ some e → same less e q ≡ true
  unfolding find_elem
  find_elem-same q e [] h = cc
  find_elem-same q e (x ∷ xs) h = ground (arith, find_elem-same q e xs)

module _ {hash : ℕ → ℕ} {less : ℕ → ℕ → Bool} (law : IsHashing hash less) where
  pub same_refl : (a : ℕ) → same less a a ≡ true
  same_refl a = rw (law.irrefl a) refl

  -- Equal elements compare alike.
  pub same_congr : (a b c : ℕ) → same less a b ≡ true → same less c a ≡ same less c b
  same_congr a b c e = ground (arith, law.trans c a b, law.trans c b a, same_symm less a b)

  pub find_elem-congr :
      (a b : ℕ) (xs : List ℕ) → same less a b ≡ true → find_elem less a xs ≡ find_elem less b xs
  unfolding find_elem
  find_elem-congr a b [] e = refl
  find_elem-congr a b (x ∷ xs) e = rw (same_congr a b x e, find_elem-congr a b xs e) refl

  pub count-congr :
      (a b : ℕ) (xs : List ℕ) → same less a b ≡ true → count less a xs ≡ count less b xs
  unfolding count
  count-congr a b [] e = refl
  count-congr a b (x ∷ xs) e = rw (same_congr a b x e, count-congr a b xs e) refl

  -- Taking an element that find_elem has found out of a bucket.
  pub count-remove :
      (e o q : ℕ) (xs : List ℕ)
      → find_elem less e xs ≡ some o
      → count less q xs ≡ count less q (remove o xs) + to_nat (same less o q)
  unfolding count find_elem remove
  count-remove e o q [] h = cc
  count-remove e o q (x ∷ xs) h =
      ground (
        arith,
        count-remove e o q xs,
        λ (i : (x == o) ≡ true). ap (λ y. same less y q) (==→eq x o i),
      )

  pub find_elem-remove :
      (e o q : ℕ) (xs : List ℕ)
      → find_elem less e xs ≡ some o
      → count less q xs ≤ 1
      → find_elem less q (remove o xs) ≡ (if same less o q then none else find_elem less q xs)
  unfolding find_elem remove count
  find_elem-remove e o q [] h few = cc
  find_elem-remove e o q (x ∷ xs) h few = ground (
    arith,
    find_elem-remove e o q xs,
    count-remove e o q xs,
    find_elem-count less q xs,
    λ (i : (x == o) ≡ true). ap (λ y. same less y q) (==→eq x o i),
  )

  pub length-remove :
      (e o : ℕ) (xs : List ℕ)
      → find_elem less e xs ≡ some o
      → length xs ≡ suc (length (remove o xs))
  unfolding find_elem remove
  length-remove e o [] h = cc
  length-remove e o (x ∷ xs) h = ground (arith, length-remove e o xs)
