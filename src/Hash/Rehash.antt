-- ===== src/Hash/Rehash.antt =====
-- rehash of CS330_projects/proj1/lib/kernel/hash.c: how many buckets it makes, and that the table keeps its elements.
use native.Mathlib.Nat.{one-le-pow, pow-suc}
use cs_courses.Base.{
  ℕ, zero, suc, ◌-◌, ◌*◌, ◌/◌, ◌^◌, ◌≤◌, ◌<◌, ◌≡◌, ◌⊎◌, refl, ap, ◌∙◌, Bool, true, false, List,
  length, ◌==◌, ==→eq, ==_refl, ltb, if◌then◌else◌, Bool-cases, inl, inr, arith,
}
use cs_courses.Base.Bits.{IsPower, bit_and-le, power-bit_and_pred, top-bit_and_pred, top_power}
use cs_courses.Hash.{
  Hash, no_elems, turn_off_least_1bit, is_power_of_2, power_loop, ideal_cnt, find_bucket, find_elem,
  move_bucket, move_buckets, rehash, hash_find,
}
use cs_courses.Hash.Chains.{IsHashing, count}
use cs_courses.Hash.Table.{
  elems, all_elems, IsTable, find_bucket-lt, move_buckets-elems, count-move, find_elem-move,
  length-elems-move, count-elems, find_elem-elems, or_else-none,
}

-- Turning off the lowest 1 again and again leaves the highest.
power_loop-top : (k fuel x : ℕ) → x ≤ fuel → 2 ^ k ≤ x → x < 2 * 2 ^ k → power_loop fuel x ≡ 2 ^ k
unfolding power_loop
power_loop-top k zero x enough low high = absurd (omega (arith, one-le-pow k 2))
power_loop-top k (suc fuel) x enough low high = elim (Bool-cases (x == 2 ^ k)) [
  | inl power ↦
      let e = ==→eq x (2 ^ k) power in
      let off : turn_off_least_1bit x ≡ 0 = rw e (power-bit_and_pred k) in
      let stop : is_power_of_2 x ≡ true = ground (arith, one-le-pow k 2, off) in
      rw (power_loop, stop) e
  | inr other ↦
      let left = top-bit_and_pred k x low high (ground arith) in
      let on : is_power_of_2 x ≡ false = ground (arith, one-le-pow k 2, left) in
      let less : turn_off_least_1bit x ≤ x - 1 = bit_and-le x (x - 1) in
      rw (power_loop, on)
        (power_loop-top k fuel (turn_off_least_1bit x) (omega (arith, one-le-pow k 2)) left
          (omega (arith, less)))
]

-- The number of buckets: a power of 2, at least 4, at most one for two elements, and more than one for four.
abbrev pub IsIdeal : ℕ → ℕ → Type 0
IsIdeal elem_cnt cnt =
    IsPower cnt × (4 ≤ cnt) × ((cnt ≡ 4) ⊎ (cnt * 2 ≤ elem_cnt)) × (elem_cnt / 2 < 2 * cnt)

abbrev wanted : ℕ → ℕ
wanted elem_cnt = if ltb (elem_cnt / 2) 4 then 4 else elem_cnt / 2

ideal_cnt-top :
    (elem_cnt k : ℕ)
    → 2 ^ k ≤ wanted elem_cnt
    → wanted elem_cnt < 2 * 2 ^ k
    → ideal_cnt elem_cnt ≡ 2 ^ k
unfolding ideal_cnt
ideal_cnt-top elem_cnt k low high =
    power_loop-top k (wanted elem_cnt) (wanted elem_cnt) (omega arith) low high

two_pow-four : (k : ℕ) → 2 < 2 ^ k → 4 ≤ 2 ^ k
two_pow-four zero h = absurd (omega arith)
two_pow-four (suc zero) h = absurd (omega arith)
two_pow-four (suc (suc k)) h = omega (arith, pow-suc 2 (suc k), pow-suc 2 k, one-le-pow k 2)

pub ideal_cnt-IsIdeal : (elem_cnt : ℕ) → IsIdeal elem_cnt (ideal_cnt elem_cnt)
ideal_cnt-IsIdeal elem_cnt =
    let (k, low, high) =
      top_power (wanted elem_cnt) (wanted elem_cnt) (omega arith) (ground arith) in
    let done = ideal_cnt-top elem_cnt k low high in
    let four : 4 ≤ 2 ^ k = two_pow-four k (ground arith) in
    ((k, done), omega (arith, done, four), ground (arith, done, four), ground (arith, done))

-- Moving all the elements to `cnt` buckets.
module _ {hash : ℕ → ℕ} {less : ℕ → ℕ → Bool} (law : IsHashing hash less) (h : Hash)
    (table : IsTable hash less h) (cnt : ℕ) (power : IsPower cnt) where
  moved : Hash
  moved = record h {
    bucket_cnt = cnt;
    buckets = move_buckets hash cnt h.bucket_cnt 0 h.buckets no_elems;
  }

  moved_buckets : moved.buckets ≡ move_bucket hash cnt (all_elems h) no_elems
  unfolding moved
  moved_buckets = move_buckets-elems hash cnt h.bucket_cnt 0 h.buckets no_elems

  count-all :
      (q : ℕ)
      → count less q (all_elems h) ≡ count less q (h.buckets (find_bucket hash h.bucket_cnt q))
  count-all q =
      count-elems hash less h.bucket_cnt h.buckets table.placed q h.bucket_cnt 0 (omega arith)
      ∙ ground (arith, find_bucket-lt hash h.bucket_cnt q table.power)

  find_elem-all : (q : ℕ) → find_elem less q (all_elems h) ≡ hash_find hash less h q
  unfolding hash_find
  find_elem-all q =
      find_elem-elems hash less h.bucket_cnt h.buckets table.placed q h.bucket_cnt 0 (omega arith)
      ∙ ground (arith, find_bucket-lt hash h.bucket_cnt q table.power)

  count-all-le : (q : ℕ) → count less q (all_elems h) ≤ 1
  count-all-le q =
      let j = find_bucket hash h.bucket_cnt q in
      ground (
        arith,
        count-all q,
        table.placed j q (find_bucket-lt hash h.bucket_cnt q table.power),
        ==_refl j,
      )

  length-elems-none : (n i : ℕ) → length (elems n i no_elems) ≡ 0
  unfolding elems
  length-elems-none zero i = refl
  length-elems-none (suc n) i = length-elems-none n (suc i)

  moved-IsTable : IsTable hash less moved
  unfolding moved count
  moved-IsTable = record {
    power = power;
    placed = λ i q inside.
        rw moved_buckets
          (ground (arith, count-move law cnt q i (all_elems h) no_elems, count-all-le q));
    counted = rw moved_buckets (
        omega (
          arith,
          length-elems-move hash cnt (all_elems h) no_elems power,
          length-elems-none cnt 0,
          table.counted,
        ));
  }

  hash_find-moved : (q : ℕ) → hash_find hash less moved q ≡ hash_find hash less h q
  unfolding moved hash_find find_elem
  hash_find-moved q =
      ap (λ (b : ℕ → List ℕ). find_elem less q (b (find_bucket hash cnt q))) moved_buckets
      ∙ find_elem-move law cnt q (all_elems h) no_elems (count-all-le q)
      ∙ or_else-none (find_elem less q (all_elems h))
      ∙ find_elem-all q

-- What rehash does to a table.
pub record IsRehashed (hash : ℕ → ℕ) (less : ℕ → ℕ → Bool) (h h' : Hash) : Type 0 where
  pub table : IsTable hash less h'
  pub finds : (q : ℕ) → hash_find hash less h' q ≡ hash_find hash less h q
  pub cnt : h'.elem_cnt ≡ h.elem_cnt

pub rehash-IsRehashed :
    {hash : ℕ → ℕ} {less : ℕ → ℕ → Bool}
    → IsHashing hash less
    → (room : Bool) (h : Hash) → IsTable hash less h
    → IsRehashed hash less h (rehash hash room h)
unfolding rehash moved
rehash-IsRehashed {hash} {less} law room h table =
    elim (Bool-cases (ideal_cnt h.elem_cnt == h.bucket_cnt)) [
      | inl equal ↦ rw equal same
      | inr other ↦ rw other (by_room room)
    ]
  where
    same : IsRehashed hash less h h
    same = record { table = table; finds = λ q. refl; cnt = refl }

    by_room :
        (r : Bool)
        → IsRehashed hash less h (
            if r
            then moved law h table (ideal_cnt h.elem_cnt) (ideal_cnt-IsIdeal h.elem_cnt).0
            else h)
    by_room true = record {
      table = moved-IsTable law h table (ideal_cnt h.elem_cnt) (ideal_cnt-IsIdeal h.elem_cnt).0;
      finds = hash_find-moved law h table (ideal_cnt h.elem_cnt) (ideal_cnt-IsIdeal h.elem_cnt).0;
      cnt = refl;
    }
    by_room false = same
