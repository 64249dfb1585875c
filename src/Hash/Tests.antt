-- ===== src/Hash/Tests.antt =====
-- Concrete runs of CS330_projects/proj1/lib/kernel/hash.c.
use cs_courses.Base.{
  ℕ, suc, ◌+◌, ◌/◌, ◌%◌, ◌≡◌, refl, Bool, true, false, none, some, List, [], ◌∷◌, ltb, length, ◌==◌,
  if◌then◌else◌, arith,
}
use cs_courses.Hash.{
  Hash, hash_insert, hash_replace, hash_delete, hash_find, hash_apply, apply_bucket, hash_first,
}
use cs_courses.Hash.Bytes.{hash_string}
use cs_courses.Hash.Chains.{IsHashing, count}
use cs_courses.Hash.Table.{IsTable, elems}
use cs_courses.Hash.Update.{
  IsSetOf, Op, insert, replace, delete, find, perform, perform_set, run, run-IsSetOf,
}
use cs_courses.Hash.Visit.{walk, hash_apply-walk, empty_set}

-- Elements are equal when their addresses have the same tens; they hash to the last digit of the tens.
abbrev tens : ℕ → ℕ
tens e = e / 10 % 10

abbrev below : ℕ → ℕ → Bool
below a b = ltb (a / 10) (b / 10)

tens-IsHashing : IsHashing tens below
tens-IsHashing = record {
  irrefl = λ a. ground arith;
  trans = λ a b c p q. ground arith;
  hash-same = λ a b p. ground arith;
}

abbrev fresh : Hash
fresh = record { elem_cnt = 0; bucket_cnt = 4; buckets = λ i. [] }

abbrev work : List Op
work =
    insert true 11
    ∷ insert false 25
    ∷ insert true 17
    ∷ replace true 29
    ∷ find 20
    ∷ delete true 15
    ∷ find 11
    ∷ []

work_answers :
    (run (perform tens below) work fresh).0
    ≡ none ∷ none ∷ some 11 ∷ some 25 ∷ some 29 ∷ some 11 ∷ none ∷ []
unfolding hash_insert hash_replace hash_find hash_delete
work_answers = refl

-- Sixteen elements in eight buckets.
abbrev many : List Op
many =
    insert true 10
    ∷ insert true 20
    ∷ insert true 30
    ∷ insert true 40
    ∷ insert true 50
    ∷ insert true 60
    ∷ insert true 70
    ∷ insert true 80
    ∷ insert true 90
    ∷ insert true 100
    ∷ insert true 110
    ∷ insert true 120
    ∷ insert true 130
    ∷ insert true 140
    ∷ insert true 150
    ∷ insert true 160
    ∷ []

fnv_run : hash_string (λ a. if a == 0 then b'a' else 0) 2 0 ≡ some 84696446
unfolding hash_string
fnv_run = refl

fresh-IsSetOf : IsSetOf tens below fresh empty_set
unfolding hash_find count elems
fresh-IsSetOf = record {
  table = record { power = (2, refl); placed = λ i q inside. ground arith; counted = refl };
  finds = λ q. refl;
  size = refl;
}

abbrev filled : Hash
filled = (run (perform tens below) many fresh).1

grown_run : filled.bucket_cnt ≡ 8
unfolding hash_insert
grown_run = refl

run-IsSetOf_example :
    ((run (perform tens below) work fresh).0 ≡ (run (perform_set below) work empty_set).0)
    × IsSetOf tens below
        (run (perform tens below) work fresh).1
        (run (perform_set below) work empty_set).1
run-IsSetOf_example = run-IsSetOf tens-IsHashing work fresh empty_set fresh-IsSetOf

filled-IsTable : IsTable tens below filled
filled-IsTable =
    let (_, is) = run-IsSetOf tens-IsHashing many fresh empty_set fresh-IsSetOf in is.table

hash_apply-walk_example :
    (hash_apply (λ e s. e + s) filled 0
      ≡ apply_bucket (λ e s. e + s) (walk filled (suc filled.elem_cnt) (hash_first filled)) 0)
    × (length (walk filled (suc filled.elem_cnt) (hash_first filled)) ≡ filled.elem_cnt)
hash_apply-walk_example = hash_apply-walk (λ e s. e + s) filled 0 filled-IsTable
