-- ===== src/Hash/Visit.antt =====
-- The operations of CS330_projects/proj1/lib/kernel/hash.c that go through all the elements: hash_apply, the
-- iterator and hash_clear; and hash_init, which clears.
use mathlib.Core.Path.{subst}
use cs_courses.Base.{
  ℕ, zero, suc, ◌+◌, ◌-◌, ◌≤◌, ◌<◌, ◌≡◌, refl, sym, ap, ◌∙◌, Bool, false, Option, none, some, List,
  [], ◌∷◌, ◌++◌, length, ◌==◌, if◌then◌else◌, update, arith,
}
use cs_courses.Base.Bits.{IsPower}
use cs_courses.Hash.{
  Hash, Iterator, find_bucket, find_elem, destroy_all, clear_loop, hash_clear, hash_init,
  apply_bucket, apply_loop, hash_apply, next_loop, hash_next, hash_first, hash_find,
}
use cs_courses.Hash.Chains.{count}
use cs_courses.Hash.Table.{elems, all_elems, within, IsTable, find_bucket-lt}
use cs_courses.Hash.Update.{Set, IsSetOf}

module _ {S : Type 0} (action : ℕ → S → S) where
  apply_bucket-append :
      (xs ys : List ℕ) (s : S)
      → apply_bucket action (xs ++ ys) s ≡ apply_bucket action ys (apply_bucket action xs s)
  unfolding apply_bucket
  apply_bucket-append [] ys s = refl
  apply_bucket-append (x ∷ xs) ys s = apply_bucket-append xs ys (action x s)

  apply_loop-elems :
      (n i : ℕ) (buckets : ℕ → List ℕ) (s : S)
      → apply_loop action n i buckets s ≡ apply_bucket action (elems n i buckets) s
  unfolding apply_loop elems apply_bucket
  apply_loop-elems zero i buckets s = refl
  apply_loop-elems (suc n) i buckets s =
      apply_loop-elems n (suc i) buckets (apply_bucket action (buckets i) s)
      ∙ sym (apply_bucket-append (buckets i) (elems n (suc i) buckets) s)

-- What stands in front of an iterator.
abbrev ahead : Hash → Iterator → List ℕ
ahead h i = i.rest ++ elems (h.bucket_cnt - suc i.bucket) (suc i.bucket) h.buckets

-- Where an iterator comes to, for what stood in front of it.
abbrev Next : Hash → Iterator → List ℕ → Type 0
Next h i [] = i.elem ≡ none
Next h i (x ∷ xs) = (i.elem ≡ some x) × (ahead h i ≡ xs)

next_loop-Next :
    (h : Hash) (n i : ℕ) (rest : List ℕ)
    → n ≡ h.bucket_cnt - suc i
    → Next h (next_loop h n i rest) (rest ++ elems n (suc i) h.buckets)
unfolding next_loop elems
next_loop-Next h n i (e ∷ es) eq = (refl, ap (λ m. es ++ elems m (suc i) h.buckets) (sym eq))
next_loop-Next h zero i [] eq = refl
next_loop-Next h (suc n) i [] eq = next_loop-Next h n (suc i) (h.buckets (suc i)) (omega arith)

-- while (hash_next (&i)) ..., with at most `fuel` calls: the elements that it sees
unfoldable pub walk : Hash → ℕ → Iterator → List ℕ
walk h zero i = []
walk h (suc fuel) i =
    let i' = hash_next h i in elim i'.elem [ none ↦ [] | some e ↦ e ∷ walk h fuel i' ]

hash_next-Next :
    (h : Hash) (i : Iterator) (xs : List ℕ) → ahead h i ≡ xs → Next h (hash_next h i) xs
unfolding hash_next
hash_next-Next h i xs eq =
    subst (Next h (hash_next h i)) eq
      (next_loop-Next h (h.bucket_cnt - suc i.bucket) i.bucket i.rest refl)

walk-ahead :
    (h : Hash) (fuel : ℕ) (i : Iterator) (xs : List ℕ)
    → ahead h i ≡ xs
    → length xs < fuel
    → walk h fuel i ≡ xs
unfolding walk
walk-ahead h zero i xs eq enough = absurd (omega arith)
walk-ahead h (suc fuel) i [] eq enough = let stop = hash_next-Next h i [] eq in rw (walk, stop) refl
walk-ahead h (suc fuel) i (x ∷ xs) eq enough =
    let (here, rest) = hash_next-Next h i (x ∷ xs) eq in
    rw (walk, here) (ap (λ ys. x ∷ ys) (walk-ahead h fuel (hash_next h i) xs rest (omega arith)))

-- On a table, one call of hash_next for each element and one more see every element once, in the order in
-- which hash_apply takes them: the loop over the iterator does what hash_apply does.
pub hash_apply-walk :
    {hash : ℕ → ℕ} {less : ℕ → ℕ → Bool} {S : Type 0} (action : ℕ → S → S) (h : Hash) (s : S)
    → IsTable hash less h
    → (hash_apply action h s ≡ apply_bucket action (walk h (suc h.elem_cnt) (hash_first h)) s)
      × (length (walk h (suc h.elem_cnt) (hash_first h)) ≡ h.elem_cnt)
unfolding hash_apply
hash_apply-walk {hash} {less} action h s table =
    let seen : walk h (suc h.elem_cnt) (hash_first h) ≡ all_elems h =
      walk-ahead h (suc h.elem_cnt) (hash_first h) (all_elems h)
        (first h.bucket_cnt refl (find_bucket-lt hash h.bucket_cnt 0 table.power))
        (omega (arith, table.counted)) in
    (
      apply_loop-elems action h.bucket_cnt 0 h.buckets s
          ∙ ap (λ xs. apply_bucket action xs s) (sym seen),
      ap length seen ∙ sym table.counted,
    )
  where
    first :
        {j : ℕ} (n : ℕ) → n ≡ h.bucket_cnt → j < n → ahead h (hash_first h) ≡ elems n 0 h.buckets
    first zero eq inside = absurd (omega arith)
    first (suc n) eq inside =
        unfold elems in ap (λ m. h.buckets 0 ++ elems m 1 h.buckets) (omega arith)

module _ {S : Type 0} (destructor : Option (ℕ → S → S)) where
  elems-update :
      (n i j : ℕ) (ys : List ℕ) (buckets : ℕ → List ℕ)
      → j < i
      → elems n i (update buckets j ys) ≡ elems n i buckets
  unfolding elems
  elems-update zero i j ys buckets h = refl
  elems-update (suc n) i j ys buckets h =
      let other : (i == j) ≡ false = ground arith in
      rw (other, elems-update n (suc i) j ys buckets (omega arith)) refl

  destroy_all-append :
      (xs ys : List ℕ) (s : S)
      → destroy_all destructor (xs ++ ys) s
        ≡ destroy_all destructor ys (destroy_all destructor xs s)
  unfolding destroy_all
  destroy_all-append [] ys s = refl
  destroy_all-append (x ∷ xs) ys s = destroy_all-append xs ys _

  clear_loop-empty :
      (n i j : ℕ) (buckets : ℕ → List ℕ) (s : S)
      → (clear_loop destructor n i buckets s).0 j ≡ (if within i n j then [] else buckets j)
  unfolding clear_loop
  clear_loop-empty zero i j buckets s = ground arith
  clear_loop-empty (suc n) i j buckets s = ground (
    arith,
    clear_loop-empty n (suc i) j (update buckets i []) (destroy_all destructor (buckets i) s),
  )

  clear_loop-destroy :
      (n i : ℕ) (buckets : ℕ → List ℕ) (s : S)
      → (clear_loop destructor n i buckets s).1 ≡ destroy_all destructor (elems n i buckets) s
  unfolding clear_loop elems destroy_all
  clear_loop-destroy zero i buckets s = refl
  clear_loop-destroy (suc n) i buckets s =
      let s' = destroy_all destructor (buckets i) s in
      clear_loop-destroy n (suc i) (update buckets i []) s'
      ∙ ap (λ xs. destroy_all destructor xs s') (elems-update n (suc i) i [] buckets (omega arith))
      ∙ sym (destroy_all-append (buckets i) (elems n (suc i) buckets) s)

  elems-none :
      (n i : ℕ) (buckets : ℕ → List ℕ)
      → ((j : ℕ) → i ≤ j → j < i + n → buckets j ≡ [])
      → elems n i buckets ≡ []
  unfolding elems
  elems-none zero i buckets h = refl
  elems-none (suc n) i buckets h =
      rw
        (
          h i (omega arith) (omega arith),
          elems-none n (suc i) buckets (λ j low high. h j (omega arith) (omega arith)),
        )
        refl

-- The set with no elements.
abbrev pub empty_set : Set
empty_set = record { element = λ q. none; size = 0 }

module _ (hash : ℕ → ℕ) (less : ℕ → ℕ → Bool) {S : Type 0} (destructor : Option (ℕ → S → S)) where
  clear-IsSetOf :
      (h : Hash) (s : S)
      → IsPower h.bucket_cnt
      → IsSetOf hash less (hash_clear destructor h s).0 empty_set
  unfolding hash_clear count hash_find find_elem
  clear-IsSetOf h s power =
      let buckets = (clear_loop destructor h.bucket_cnt 0 h.buckets s).0 in
      let empty : (j : ℕ) → j < h.bucket_cnt → buckets j ≡ [] = λ j inside.
        clear_loop-empty destructor h.bucket_cnt 0 j h.buckets s ∙ ground (arith, inside) in
      record {
        table = record {
          power = power;
          placed = λ i q inside. rw (empty i inside) (ground arith);
          counted = sym (
              ap length (
                elems-none destructor h.bucket_cnt 0 buckets
                  (λ j low inside. empty j (omega arith))));
        };
        finds = λ q.
            rw (empty (find_bucket hash h.bucket_cnt q) (find_bucket-lt hash h.bucket_cnt q power))
              refl;
        size = refl;
      }

  abbrev as_action : ℕ → S → S
  as_action e t = elim destructor [ none ↦ t | some act ↦ act e t ]

  destroy_all-apply_bucket :
      (xs : List ℕ) (s : S) → destroy_all destructor xs s ≡ apply_bucket as_action xs s
  unfolding destroy_all apply_bucket
  destroy_all-apply_bucket [] s = refl
  destroy_all-apply_bucket (x ∷ xs) s = destroy_all-apply_bucket xs (as_action x s)

  -- hash_clear leaves a table with no elements, and the destructor, if there is one, has been called once for
  -- each element of the table, in the order of hash_apply.
  pub hash_clear-empty_set :
      (h : Hash) (s : S)
      → IsTable hash less h
      → IsSetOf hash less (hash_clear destructor h s).0 empty_set
        × ((hash_clear destructor h s).1 ≡ hash_apply as_action h s)
  unfolding hash_clear hash_apply
  hash_clear-empty_set h s table = (
    clear-IsSetOf h s table.power,
    clear_loop-destroy destructor h.bucket_cnt 0 h.buckets s
        ∙ destroy_all-apply_bucket (all_elems h) s
        ∙ sym (apply_loop-elems as_action h.bucket_cnt 0 h.buckets s),
  )

-- hash_init gives a table with no elements, whatever its memory held.
pub hash_init-empty_set :
    (hash : ℕ → ℕ) (less : ℕ → ℕ → Bool) (garbage : ℕ → List ℕ)
    → (h : Hash) × (hash_init (some garbage) ≡ some h) × IsSetOf hash less h empty_set
unfolding hash_init
hash_init-empty_set hash less garbage = (
  (hash_clear {S = Unit {0}} none (record { elem_cnt = 0; bucket_cnt = 4; buckets = garbage })
      tt).0,
  refl,
  clear-IsSetOf hash less none (record { elem_cnt = 0; bucket_cnt = 4; buckets = garbage }) tt
      (2, refl),
)
