-- ===== src/Hash/Update.antt =====
-- hash_insert, hash_replace and hash_delete of CS330_projects/proj1/lib/kernel/hash.c.
use mathlib.Core.Path.{subst}
use cs_courses.Base.{
  ℕ, ◌+◌, ◌-◌, ◌≡◌, refl, ap, ◌∙◌, Bool, true, Option, none, some, List, [], ◌∷◌, length, ◌==◌,
  ==→eq, ==_refl, if◌then◌else◌, update, Option-cases, inl, inr, arith,
}
use cs_courses.Hash.{
  Hash, same, find_bucket, find_elem, remove, insert_elem, remove_elem, rehash, hash_find,
  hash_insert, hash_replace, hash_delete, replace_found, delete_found,
}
use cs_courses.Hash.Chains.{
  IsHashing, count, find_elem-none, find_elem-same, same_refl, same_symm, same_congr, count-congr,
  count-remove, find_elem-remove, length-remove,
}
use cs_courses.Hash.Table.{elems, IsTable, find_bucket-lt, home-same, length-elems-update}
use cs_courses.Hash.Rehash.{rehash-IsRehashed}

module _ {hash : ℕ → ℕ} {less : ℕ → ℕ → Bool} (law : IsHashing hash less) (h : Hash)
    (table : IsTable hash less h) where
  abbrev at : ℕ → ℕ
  at e = find_bucket hash h.bucket_cnt e

  -- Exchanging the bucket of an element.
  counted_update :
      (e : ℕ) (ys : List ℕ)
      → length (elems h.bucket_cnt 0 (update h.buckets (at e) ys)) + length (h.buckets (at e))
        ≡ h.elem_cnt + length ys
  counted_update e ys = ground (
    arith,
    length-elems-update h.bucket_cnt 0 (at e) ys h.buckets,
    find_bucket-lt hash h.bucket_cnt e table.power,
    table.counted,
  )

  insert_elem-IsTable :
      (e : ℕ) → hash_find hash less h e ≡ none → IsTable hash less (insert_elem h (at e) e)
  unfolding hash_find insert_elem count
  insert_elem-IsTable e absent = record {
    power = table.power;
    placed = λ i q inside. ground (
      arith,
      table.placed i q inside,
      home-same law h.bucket_cnt e q,
      count-congr law e q (h.buckets (at e)),
      find_elem-none less e (h.buckets (at e)) absent,
      λ (s : (i == at e) ≡ true). ap (λ j. count less q (h.buckets j)) (==→eq i (at e) s),
    );
    counted = omega (arith, counted_update e (e ∷ h.buckets (at e)));
  }

  hash_find-insert_elem :
      (e q : ℕ)
      → hash_find hash less (insert_elem h (at e) e) q
        ≡ (if same less e q then some e else hash_find hash less h q)
  unfolding hash_find insert_elem find_elem
  hash_find-insert_elem e q = ground (
    arith,
    home-same law h.bucket_cnt e q,
    ==_refl (at q),
    λ (s : (at q == at e) ≡ true). ap (λ j. find_elem less q (h.buckets j)) (==→eq (at q) (at e) s),
  )

  remove_elem-IsTable :
      (e o : ℕ) → hash_find hash less h e ≡ some o → IsTable hash less (remove_elem h (at e) o)
  unfolding hash_find remove_elem
  remove_elem-IsTable e o present = record {
    power = table.power;
    placed = λ i q inside. ground (
      arith,
      table.placed i q inside,
      count-remove law e o q (h.buckets (at e)) present,
      λ (s : (i == at e) ≡ true). ap (λ j. count less q (h.buckets j)) (==→eq i (at e) s),
    );
    counted = omega (
      arith,
      counted_update e (remove o (h.buckets (at e))),
      length-remove law e o (h.buckets (at e)) present,
    );
  }

  hash_find-remove_elem :
      (e o q : ℕ)
      → hash_find hash less h e ≡ some o
      → hash_find hash less (remove_elem h (at e) o) q
        ≡ (if same less o q then none else hash_find hash less h q)
  unfolding hash_find remove_elem
  hash_find-remove_elem e o q present = ground (
    arith,
    find_elem-remove law e o q (h.buckets (at e)) present,
    table.placed (at e) q (find_bucket-lt hash h.bucket_cnt e table.power),
    find_elem-same less e o (h.buckets (at e)) present,
    same_congr law o q e,
    home-same law h.bucket_cnt o q,
    home-same law h.bucket_cnt o e,
    ==_refl (at q),
    λ (s : (at q == at e) ≡ true). ap (λ j. find_elem less q (h.buckets j)) (==→eq (at q) (at e) s),
  )

-- A finite set of elements up to equality: the one element of the set that is equal to another, and how many
-- there are.
pub record Set : Type 0 where
  pub element : ℕ → Option ℕ
  pub size : ℕ

pub record IsSetOf (hash : ℕ → ℕ) (less : ℕ → ℕ → Bool) (h : Hash) (s : Set) : Type 0 where
  pub table : IsTable hash less h
  pub finds : (q : ℕ) → hash_find hash less h q ≡ s.element q
  pub size : h.elem_cnt ≡ s.size

abbrev pub put : (ℕ → ℕ → Bool) → ℕ → Set → Set
put less e s = record {
  element = λ q. if same less e q then some e else s.element q;
  size = s.size + 1;
}

abbrev pub drop : (ℕ → ℕ → Bool) → ℕ → Set → Set
drop less e s = record {
  element = λ q. if same less e q then none else s.element q;
  size = s.size - 1;
}

-- What the operations do to the set.
abbrev pub insert_set : (ℕ → ℕ → Bool) → ℕ → Set → Option ℕ × Set
insert_set less e s = (s.element e, elim (s.element e) [ none ↦ put less e s | some _ ↦ s ])

abbrev pub replace_set : (ℕ → ℕ → Bool) → ℕ → Set → Option ℕ × Set
replace_set less e s =
    (s.element e, put less e (elim (s.element e) [ none ↦ s | some _ ↦ drop less e s ]))

abbrev pub delete_set : (ℕ → ℕ → Bool) → ℕ → Set → Option ℕ × Set
delete_set less e s = (s.element e, elim (s.element e) [ none ↦ s | some _ ↦ drop less e s ])

-- A result of the table against one of the set.
abbrev pub Agrees : (ℕ → ℕ) → (ℕ → ℕ → Bool) → Option ℕ × Hash → Option ℕ × Set → Type 0
Agrees hash less (o, h) (o', s) = (o ≡ o') × IsSetOf hash less h s

module _ {hash : ℕ → ℕ} {less : ℕ → ℕ → Bool} (law : IsHashing hash less) (room : Bool) where
  rehash-IsSetOf :
      (h : Hash) (s : Set) → IsSetOf hash less h s → IsSetOf hash less (rehash hash room h) s
  rehash-IsSetOf h s is =
      let r = rehash-IsRehashed law room h is.table in
      record { table = r.table; finds = λ q. r.finds q ∙ is.finds q; size = r.cnt ∙ is.size }

  insert_elem-IsSetOf :
      (h : Hash) (s : Set) (e : ℕ)
      → IsSetOf hash less h s
      → hash_find hash less h e ≡ none
      → IsSetOf hash less (insert_elem h (find_bucket hash h.bucket_cnt e) e) (put less e s)
  unfolding insert_elem
  insert_elem-IsSetOf h s e is absent = record {
    table = insert_elem-IsTable law h is.table e absent;
    finds = λ q.
        hash_find-insert_elem law h is.table e q
        ∙ ap (λ (o : Option ℕ). if same less e q then some e else o) (is.finds q);
    size = omega (arith, is.size);
  }

  remove_elem-IsSetOf :
      (h : Hash) (s : Set) (e o : ℕ)
      → IsSetOf hash less h s
      → hash_find hash less h e ≡ some o
      → IsSetOf hash less (remove_elem h (find_bucket hash h.bucket_cnt e) o) (drop less e s)
  unfolding remove_elem hash_find
  remove_elem-IsSetOf h s e o is present =
      let equal = find_elem-same less e o (h.buckets (find_bucket hash h.bucket_cnt e)) present in
      record {
        table = remove_elem-IsTable law h is.table e o present;
        finds = λ q.
            hash_find-remove_elem law h is.table e o q present
            ∙ ground (
              arith,
              is.finds q,
              same_congr law o e q equal,
              same_symm less q o,
              same_symm less q e,
            );
        size = omega (arith, is.size);
      }

  insert-Agrees :
      (h : Hash) (s : Set) (e : ℕ)
      → IsSetOf hash less h s
      → Agrees hash less (hash_insert hash less room h e) (insert_set less e s)
  unfolding hash_insert
  insert-Agrees h s e is = elim (Option-cases (s.element e)) [
    | inl absent ↦
        rw (is.finds e, absent)
          (refl, rehash-IsSetOf _ _ (insert_elem-IsSetOf h s e is (is.finds e ∙ absent)))
    | inr (o, present) ↦ rw (is.finds e, present) (refl, rehash-IsSetOf _ _ is)
  ]

  replace_found-IsSetOf :
      (h : Hash) (s : Set) (e : ℕ) (o : Option ℕ)
      → IsSetOf hash less h s
      → hash_find hash less h e ≡ o
      → IsSetOf hash less
          (replace_found hash less h e o)
          (put less e (elim o [ none ↦ s | some _ ↦ drop less e s ]))
  unfolding replace_found
  replace_found-IsSetOf h s e none is found = insert_elem-IsSetOf h s e is found
  replace_found-IsSetOf h s e (some o) is found =
      let less_one = remove_elem-IsSetOf h s e o is found in
      let gone : hash_find hash less (remove_elem h (find_bucket hash h.bucket_cnt e) o) e ≡ none =
        less_one.finds e ∙ rw (same_refl law e) refl in
      insert_elem-IsSetOf (remove_elem h (find_bucket hash h.bucket_cnt e) o) (drop less e s) e
        less_one gone

  replace-Agrees :
      (h : Hash) (s : Set) (e : ℕ)
      → IsSetOf hash less h s
      → Agrees hash less (hash_replace hash less room h e) (replace_set less e s)
  unfolding hash_replace
  replace-Agrees h s e is = (
    is.finds e,
    subst
        (λ o.
          IsSetOf hash less
            (rehash hash room (replace_found hash less h e (hash_find hash less h e)))
            (put less e (elim o [ none ↦ s | some _ ↦ drop less e s ])))
        (is.finds e)
        (rehash-IsSetOf _ _ (replace_found-IsSetOf h s e (hash_find hash less h e) is refl)),
  )

  delete_found-IsSetOf :
      (h : Hash) (s : Set) (e : ℕ) (o : Option ℕ)
      → IsSetOf hash less h s
      → hash_find hash less h e ≡ o
      → IsSetOf hash less
          (delete_found hash less room h e o)
          (elim o [ none ↦ s | some _ ↦ drop less e s ])
  unfolding delete_found
  delete_found-IsSetOf h s e none is found = is
  delete_found-IsSetOf h s e (some o) is found =
      rehash-IsSetOf _ _ (remove_elem-IsSetOf h s e o is found)

  delete-Agrees :
      (h : Hash) (s : Set) (e : ℕ)
      → IsSetOf hash less h s
      → Agrees hash less (hash_delete hash less room h e) (delete_set less e s)
  unfolding hash_delete
  delete-Agrees h s e is = (
    is.finds e,
    subst
        (λ o.
          IsSetOf hash less (delete_found hash less room h e (hash_find hash less h e))
            (elim o [ none ↦ s | some _ ↦ drop less e s ]))
        (is.finds e) (delete_found-IsSetOf h s e (hash_find hash less h e) is refl),
  )

-- The operations in any order, with malloc's answer at each.
pub data Op : Type 0 where
  insert replace delete : Bool → ℕ → Op
  find : ℕ → Op

abbrev pub perform : (ℕ → ℕ) → (ℕ → ℕ → Bool) → Op → Hash → Option ℕ × Hash
perform hash less (insert room e) h = hash_insert hash less room h e
perform hash less (replace room e) h = hash_replace hash less room h e
perform hash less (delete room e) h = hash_delete hash less room h e
perform hash less (find e) h = (hash_find hash less h e, h)

abbrev pub perform_set : (ℕ → ℕ → Bool) → Op → Set → Option ℕ × Set
perform_set less (insert room e) s = insert_set less e s
perform_set less (replace room e) s = replace_set less e s
perform_set less (delete room e) s = delete_set less e s
perform_set less (find e) s = (s.element e, s)

abbrev pub run : {S : Type 0} → (Op → S → Option ℕ × S) → List Op → S → List (Option ℕ) × S
run step [] s = ([], s)
run step (op ∷ ops) s = let (o, s') = step op s in let (os, s'') = run step ops s' in (o ∷ os, s'')

-- For a hash that is the same on equal elements: a table that holds a set and runs any operations, whether or
-- not malloc has memory for them, gives the results that the set gives, and still holds it, so it finds the same
-- elements, has as many of them, and is well formed.
pub run-IsSetOf :
    {hash : ℕ → ℕ} {less : ℕ → ℕ → Bool}
    → IsHashing hash less
    → (ops : List Op) (h : Hash) (s : Set) → IsSetOf hash less h s
    → ((run (perform hash less) ops h).0 ≡ (run (perform_set less) ops s).0)
      × IsSetOf hash less (run (perform hash less) ops h).1 (run (perform_set less) ops s).1
run-IsSetOf law [] h s is = (refl, is)
run-IsSetOf {hash} {less} law (op ∷ ops) h s is =
    let (same_result, is') = one op in
    let (rest, is'') =
      run-IsSetOf law ops (perform hash less op h).1 (perform_set less op s).1 is' in
    (rw (same_result, rest) refl, is'')
  where
    one : (op : Op) → Agrees hash less (perform hash less op h) (perform_set less op s)
    one (insert room e) = insert-Agrees law room h s e is
    one (replace room e) = replace-Agrees law room h s e is
    one (delete room e) = delete-Agrees law room h s e is
    one (find e) = (is.finds e, is)
