-- ===== src/Hash/Table.antt =====
-- When a table of CS330_projects/proj1/lib/kernel/hash.c is well formed, and what rehash keeps.
use mathlib.Core.Option.{or_else}
use native.Mathlib.Nat.{one-le-pow}
use cs_courses.Base.{
  ℕ, zero, suc, ◌+◌, ◌-◌, ◌≤◌, ◌<◌, ◌≡◌, refl, sym, ap, ◌∙◌, Bool, true, ◌&&◌, Option, none, some,
  List, [], ◌∷◌, ◌++◌, length, length-append, ◌==◌, ==→eq, ==_refl, ltb, leb, if◌then◌else◌, update,
  arith,
}
use cs_courses.Base.Bits.{IsPower, bit_and-le}
use cs_courses.Hash.{Hash, same, find_bucket, find_elem, move_bucket, move_buckets}
use cs_courses.Hash.Chains.{IsHashing, count, count-append, find_elem-count, find_elem-append}

-- The elements of `n` buckets from number `i` on, in order.
unfoldable pub elems : ℕ → ℕ → (ℕ → List ℕ) → List ℕ
elems zero i buckets = []
elems (suc n) i buckets = buckets i ++ elems n (suc i) buckets

abbrev pub all_elems : Hash → List ℕ
all_elems h = elems h.bucket_cnt 0 h.buckets

module _ (hash : ℕ → ℕ) (less : ℕ → ℕ → Bool) where
  -- Equal elements stand only in the bucket that they belong in, and once at most.
  abbrev pub Placed : ℕ → (ℕ → List ℕ) → Type 0
  Placed cnt buckets =
      (i q : ℕ)
      → i < cnt
      → count less q (buckets i) ≤ (if i == find_bucket hash cnt q then 1 else 0)

  pub record IsTable (h : Hash) : Type 0 where
    pub power : IsPower h.bucket_cnt
    pub placed : Placed h.bucket_cnt h.buckets
    pub counted : h.elem_cnt ≡ length (all_elems h)

pub find_bucket-lt : (hash : ℕ → ℕ) (cnt e : ℕ) → IsPower cnt → find_bucket hash cnt e < cnt
find_bucket-lt hash cnt e (k, p) = omega (arith, bit_and-le (hash e) (cnt - 1), one-le-pow k 2)

-- Moving elements into buckets one after the other.
module _ (hash : ℕ → ℕ) where
  move_bucket-append :
      (cnt : ℕ) (xs ys : List ℕ) (new : ℕ → List ℕ)
      → move_bucket hash cnt (xs ++ ys) new ≡ move_bucket hash cnt ys (move_bucket hash cnt xs new)
  unfolding move_bucket
  move_bucket-append cnt [] ys new = refl
  move_bucket-append cnt (x ∷ xs) ys new = move_bucket-append cnt xs ys _

  pub move_buckets-elems :
      (cnt n i : ℕ) (old new : ℕ → List ℕ)
      → move_buckets hash cnt n i old new ≡ move_bucket hash cnt (elems n i old) new
  unfolding move_buckets move_bucket elems
  move_buckets-elems cnt zero i old new = refl
  move_buckets-elems cnt (suc n) i old new =
      move_buckets-elems cnt n (suc i) old (move_bucket hash cnt (old i) new)
      ∙ sym (move_bucket-append cnt (old i) (elems n (suc i) old) new)

module _ {hash : ℕ → ℕ} {less : ℕ → ℕ → Bool} (law : IsHashing hash less) (cnt : ℕ) where
  abbrev pub home : ℕ → ℕ
  home q = find_bucket hash cnt q

  pub home-same : (a b : ℕ) → same less a b ≡ true → home a ≡ home b
  home-same a b e = rw (law.hash-same a b e) refl

  pub count-move :
      (q i : ℕ) (xs : List ℕ) (new : ℕ → List ℕ)
      → count less q (move_bucket hash cnt xs new i)
        ≡ count less q (new i) + (if i == home q then count less q xs else 0)
  unfolding move_bucket count
  count-move q i [] new = ground arith
  count-move q i (x ∷ xs) new = ground (
    arith,
    count-move q i xs (update new (home x) (x ∷ new (home x))),
    home-same x q,
    λ (e : (i == home x) ≡ true). ap (λ j. count less q (new j)) (==→eq i (home x) e),
  )

  pub find_elem-move :
      (q : ℕ) (xs : List ℕ) (new : ℕ → List ℕ)
      → count less q xs ≤ 1
      → find_elem less q (move_bucket hash cnt xs new (home q))
        ≡ or_else (find_elem less q xs) (find_elem less q (new (home q)))
  unfolding move_bucket count find_elem or_else
  find_elem-move q [] new few = refl
  find_elem-move q (x ∷ xs) new few = ground (
    arith,
    find_elem-move q xs (update new (home x) (x ∷ new (home x))),
    find_elem-count less q xs,
    home-same x q,
    ==_refl (home q),
    λ (e : (home q == home x) ≡ true).
        ap (λ j. find_elem less q (new j)) (==→eq (home q) (home x) e),
  )

-- Bucket j is one of the `n` from number `i` on.
abbrev pub within : ℕ → ℕ → ℕ → Bool
within i n j = leb i j && ltb j (i + n)

-- Exchanging one bucket.
pub length-elems-update :
    (n i j : ℕ) (ys : List ℕ) (buckets : ℕ → List ℕ)
    → length (elems n i (update buckets j ys)) + (if within i n j then length (buckets j) else 0)
      ≡ length (elems n i buckets) + (if within i n j then length ys else 0)
unfolding elems
length-elems-update zero i j ys buckets = ground arith
length-elems-update (suc n) i j ys buckets = ground (
  arith,
  length-elems-update n (suc i) j ys buckets,
  length-append (buckets i) (elems n (suc i) buckets),
  length-append (update buckets j ys i) (elems n (suc i) (update buckets j ys)),
  λ (e : (i == j) ≡ true). ap (λ t. length (buckets t)) (==→eq i j e),
)

pub length-elems-move :
    (hash : ℕ → ℕ) (cnt : ℕ) (xs : List ℕ) (new : ℕ → List ℕ)
    → IsPower cnt
    → length (elems cnt 0 (move_bucket hash cnt xs new)) ≡ length xs + length (elems cnt 0 new)
unfolding move_bucket
length-elems-move hash cnt [] new h = omega arith
length-elems-move hash cnt (x ∷ xs) new h =
    let j = find_bucket hash cnt x in
    let inside : within 0 cnt j ≡ true = ground (arith, find_bucket-lt hash cnt x h) in
    ground (
      arith,
      length-elems-move hash cnt xs (update new j (x ∷ new j)) h,
      length-elems-update cnt 0 j (x ∷ new j) new,
      inside,
    )

pub or_else-none : (o : Option ℕ) → or_else o none ≡ o
unfolding or_else
or_else-none none = refl
or_else-none (some x) = refl

pub none-or_else : (o : Option ℕ) → or_else none o ≡ o
unfolding or_else
none-or_else o = refl

-- What the sequence of all the elements shows of an element.
module _ (hash : ℕ → ℕ) (less : ℕ → ℕ → Bool) (cnt : ℕ) (buckets : ℕ → List ℕ)
    (placed : Placed hash less cnt buckets) where
  pub count-elems :
      (q n i : ℕ)
      → i + n ≤ cnt
      → count less q (elems n i buckets)
        ≡ (let j = find_bucket hash cnt q in if within i n j then count less q (buckets j) else 0)
  unfolding elems count
  count-elems q zero i h = ground arith
  count-elems q (suc n) i h = ground (
    arith,
    count-elems q n (suc i) (omega arith),
    count-append less q (buckets i) (elems n (suc i) buckets),
    placed i q (omega arith),
    λ (e : (i == find_bucket hash cnt q) ≡ true).
        ap (λ t. count less q (buckets t)) (==→eq i (find_bucket hash cnt q) e),
  )

  pub find_elem-elems :
      (q n i : ℕ)
      → i + n ≤ cnt
      → find_elem less q (elems n i buckets) ≡ (
          let j = find_bucket hash cnt q in
          if within i n j then find_elem less q (buckets j) else none)
  unfolding elems find_elem
  find_elem-elems q zero i h = ground arith
  find_elem-elems q (suc n) i h = ground (
    arith,
    find_elem-elems q n (suc i) (omega arith),
    find_elem-append less q (buckets i) (elems n (suc i) buckets),
    or_else-none (find_elem less q (buckets i)),
    none-or_else (find_elem less q (elems n (suc i) buckets)),
    find_elem-count less q (buckets i),
    placed i q (omega arith),
    λ (e : (i == find_bucket hash cnt q) ≡ true).
        ap (λ t. find_elem less q (buckets t)) (==→eq i (find_bucket hash cnt q) e),
  )
