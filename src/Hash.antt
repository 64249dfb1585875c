-- ===== src/Hash.antt =====
-- CS330_projects/proj1/lib/kernel/hash.c: a hash table of chained buckets, a power of 2 of them. An element is
-- the number of its address, and a bucket the sequence of its elements (KernelList says what the linked
-- lists do). hash and less, with their auxiliary data, are parameters; hash gives an `unsigned`. The
-- buckets are a function of their index, and malloc's answer is an argument. No size_t overflows.
pub mod Bytes
pub mod Chains
pub mod Table
pub mod Rehash
pub mod Update
pub mod Visit
mod Tests
use Prim.Native.Nat.{bit_and}
use cs_courses.Base.{
  ℕ, zero, suc, ◌+◌, ◌-◌, ◌*◌, ◌/◌, ◌<◌, Bool, true, false, not, ◌&&◌, ◌||◌, Option, none, some,
  List, [], ◌∷◌, ltb, ◌==◌, if◌then◌else◌, update,
}

-- struct hash
pub record Hash : Type 0 where
  pub elem_cnt : ℕ
  pub bucket_cnt : ℕ
  pub buckets : ℕ → List ℕ

-- list_init on each of the buckets
abbrev pub no_elems : ℕ → List ℕ
no_elems i = []

-- list_remove, of an element that is in the list
unfoldable pub remove : ℕ → List ℕ → List ℕ
remove e [] = []
remove e (x ∷ xs) = if x == e then xs else x ∷ remove e xs

-- turn_off_least_1bit
abbrev pub turn_off_least_1bit : ℕ → ℕ
turn_off_least_1bit x = bit_and x (x - 1)

abbrev pub is_power_of_2 : ℕ → Bool
is_power_of_2 x = not (x == 0) && (turn_off_least_1bit x == 0)

-- while (!is_power_of_2 (new_bucket_cnt)) ...; as many rounds as the number are enough.
unfoldable pub power_loop : ℕ → ℕ → ℕ
power_loop zero x = x
power_loop (suc fuel) x = elim (is_power_of_2 x) [
  | true ↦ x
  | false ↦ power_loop fuel (turn_off_least_1bit x)
]

-- The number of buckets that rehash wants.
unfoldable pub ideal_cnt : ℕ → ℕ
unfolding power_loop
ideal_cnt elem_cnt = let n = if ltb (elem_cnt / 2) 4 then 4 else elem_cnt / 2 in power_loop n n

module _ (less : ℕ → ℕ → Bool) where
  -- The test of find_elem for an equal element.
  abbrev pub same : ℕ → ℕ → Bool
  same hi e = not (less hi e) && not (less e hi)

  unfoldable pub find_elem : ℕ → List ℕ → Option ℕ
  find_elem e [] = none
  find_elem e (hi ∷ bucket) = if same hi e then some hi else find_elem e bucket

unfoldable pub insert_elem : Hash → ℕ → ℕ → Hash
insert_elem h bucket e = record h {
  elem_cnt = h.elem_cnt + 1;
  buckets = update h.buckets bucket (e ∷ h.buckets bucket);
}

-- The element stands in the bucket that it belongs in.
unfoldable pub remove_elem : Hash → ℕ → ℕ → Hash
unfolding remove
remove_elem h bucket e = record h {
  elem_cnt = h.elem_cnt - 1;
  buckets = update h.buckets bucket (remove e (h.buckets bucket));
}

module _ (hash : ℕ → ℕ) where
  abbrev pub find_bucket : ℕ → ℕ → ℕ
  find_bucket bucket_cnt e = bit_and (hash e) (bucket_cnt - 1)

  -- The inner loop of rehash, over one old bucket.
  unfoldable pub move_bucket : ℕ → List ℕ → (ℕ → List ℕ) → ℕ → List ℕ
  move_bucket bucket_cnt [] new = new
  move_bucket bucket_cnt (e ∷ es) new =
      let i = find_bucket bucket_cnt e in move_bucket bucket_cnt es (update new i (e ∷ new i))

  -- The outer loop of rehash, over `n` old buckets from number `i` on.
  unfoldable pub move_buckets : ℕ → ℕ → ℕ → (ℕ → List ℕ) → (ℕ → List ℕ) → ℕ → List ℕ
  unfolding move_bucket
  move_buckets bucket_cnt zero i old new = new
  move_buckets bucket_cnt (suc n) i old new =
      move_buckets bucket_cnt n (suc i) old (move_bucket bucket_cnt (old i) new)

  -- `room` tells whether malloc has memory for the new buckets.
  unfoldable pub rehash : Bool → Hash → Hash
  unfolding move_buckets ideal_cnt
  rehash room h =
      let cnt = ideal_cnt h.elem_cnt in
      if cnt == h.bucket_cnt
      then h
      else if room
      then record h {
        bucket_cnt = cnt;
        buckets = move_buckets cnt h.bucket_cnt 0 h.buckets no_elems;
      }
      else h

module _ (hash : ℕ → ℕ) (less : ℕ → ℕ → Bool) where
  unfoldable pub hash_find : Hash → ℕ → Option ℕ
  unfolding find_elem
  hash_find h e = find_elem less e (h.buckets (find_bucket hash h.bucket_cnt e))

  unfoldable pub hash_insert : Bool → Hash → ℕ → Option ℕ × Hash
  unfolding hash_find insert_elem rehash
  hash_insert room h new =
      let old = hash_find h new in
      (
        old,
        rehash hash room (elim old [
          | none ↦ insert_elem h (find_bucket hash h.bucket_cnt new) new
          | some _ ↦ h
        ]),
      )

  -- What hash_replace and hash_delete do about the element that they have found.
  unfoldable pub replace_found : Hash → ℕ → Option ℕ → Hash
  unfolding insert_elem remove_elem
  replace_found h new none = insert_elem h (find_bucket hash h.bucket_cnt new) new
  replace_found h new (some old) =
      let bucket = find_bucket hash h.bucket_cnt new in
      insert_elem (remove_elem h bucket old) bucket new

  unfoldable pub hash_replace : Bool → Hash → ℕ → Option ℕ × Hash
  unfolding hash_find replace_found rehash
  hash_replace room h new =
      let old = hash_find h new in (old, rehash hash room (replace_found h new old))

  unfoldable pub delete_found : Bool → Hash → ℕ → Option ℕ → Hash
  unfolding remove_elem rehash
  delete_found room h e none = h
  delete_found room h e (some found) =
      rehash hash room (remove_elem h (find_bucket hash h.bucket_cnt e) found)

  unfoldable pub hash_delete : Bool → Hash → ℕ → Option ℕ × Hash
  unfolding hash_find delete_found
  hash_delete room h e = let found = hash_find h e in (found, delete_found room h e found)

-- hash_clear, and what the destructor has done to its state; with no destructor the elements are only
-- forgotten.
module _ {S : Type 0} (destructor : Option (ℕ → S → S)) where
  unfoldable pub destroy_all : List ℕ → S → S
  destroy_all [] s = s
  destroy_all (e ∷ es) s = destroy_all es (elim destructor [ none ↦ s | some act ↦ act e s ])

  unfoldable pub clear_loop : ℕ → ℕ → (ℕ → List ℕ) → S → (ℕ → List ℕ) × S
  unfolding destroy_all
  clear_loop zero i buckets s = (buckets, s)
  clear_loop (suc n) i buckets s =
      clear_loop n (suc i) (update buckets i []) (destroy_all (buckets i) s)

  unfoldable pub hash_clear : Hash → S → Hash × S
  unfolding clear_loop
  hash_clear h s =
      let (buckets, s') = clear_loop h.bucket_cnt 0 h.buckets s in
      (record h { elem_cnt = 0; buckets = buckets }, s')

  -- hash_destroy, but for the memory of the buckets
  unfoldable pub hash_destroy : Hash → S → Hash × S
  unfolding hash_clear
  hash_destroy h s = elim destructor [ none ↦ (h, s) | some _ ↦ hash_clear h s ]

-- hash_init, with what the memory from malloc holds, if there is any
unfoldable pub hash_init : Option (ℕ → List ℕ) → Option Hash
unfolding hash_clear
hash_init none = none
hash_init (some garbage) =
    some
      (hash_clear {S = Unit {0}} none (record { elem_cnt = 0; bucket_cnt = 4; buckets = garbage })
        tt).0

-- hash_apply, where `action` changes a state of its own
module _ {S : Type 0} (action : ℕ → S → S) where
  unfoldable pub apply_bucket : List ℕ → S → S
  apply_bucket [] s = s
  apply_bucket (e ∷ es) s = apply_bucket es (action e s)

  unfoldable pub apply_loop : ℕ → ℕ → (ℕ → List ℕ) → S → S
  unfolding apply_bucket
  apply_loop zero i buckets s = s
  apply_loop (suc n) i buckets s = apply_loop n (suc i) buckets (apply_bucket (buckets i) s)

  unfoldable pub hash_apply : Hash → S → S
  unfolding apply_loop
  hash_apply h s = apply_loop h.bucket_cnt 0 h.buckets s

-- struct hash_iterator: the current element, and what stands behind it in its bucket
pub record Iterator : Type 0 where
  pub bucket : ℕ
  pub elem : Option ℕ
  pub rest : List ℕ

abbrev pub hash_first : Hash → Iterator
hash_first h = record { bucket = 0; elem = none; rest = h.buckets 0 }

-- hash_next, with `n` buckets left behind the current one
unfoldable pub next_loop : Hash → ℕ → ℕ → List ℕ → Iterator
next_loop h n i (e ∷ es) = record { bucket = i; elem = some e; rest = es }
next_loop h zero i [] = record { bucket = suc i; elem = none; rest = [] }
next_loop h (suc n) i [] = next_loop h n (suc i) (h.buckets (suc i))

unfoldable pub hash_next : Hash → Iterator → Iterator
unfolding next_loop
hash_next h i = next_loop h (h.bucket_cnt - suc i.bucket) i.bucket i.rest

abbrev pub hash_cur : Iterator → Option ℕ
hash_cur i = i.elem

abbrev pub hash_size : Hash → ℕ
hash_size h = h.elem_cnt

abbrev pub hash_empty : Hash → Bool
hash_empty h = h.elem_cnt == 0
