-- ===== src/Shell/Jobs/Table.antt =====
-- Searching, counting and writing in the job table.
use cs_courses.Base.{
  ◌==◌, ℕ, zero, suc, ◌+◌, ◌≤◌, ◌<◌, ◌≡◌, refl, Bool, true, false, none, some, List, [], ◌∷◌, arith,
  ltb, if◌then◌else◌, length, get_elem?, All,
}
use cs_courses.Shell.Jobs.{Job, find_job, set_job, max_jid_from}

abbrev pub one_if : Bool → ℕ
one_if true = 1
one_if false = 0

-- How many slots pass the test.
unfoldable pub count : (Job → Bool) → List Job → ℕ
count p [] = 0
count p (j ∷ js) = one_if (p j) + count p js

module _ (p : Job → Bool) where
  pub count-set_job :
      (js : List Job) (i : ℕ) (j k : Job)
      → get_elem? js i ≡ some j
      → count p (set_job js i k) + one_if (p j) ≡ count p js + one_if (p k)
  unfolding count set_job
  count-set_job [] i j k h = ground arith
  count-set_job (x ∷ js) zero j k h = ground arith
  count-set_job (x ∷ js) (suc i) j k h = omega (arith, count-set_job js i j k h)

  pub find_job-none : (js : List Job) → find_job p js ≡ none → count p js ≡ 0
  unfolding find_job count
  find_job-none [] h = refl
  find_job-none (x ∷ js) h = ground (arith, find_job-none js)

  pub find_job-zero : (js : List Job) → count p js ≡ 0 → find_job p js ≡ none
  unfolding find_job count
  find_job-zero [] h = refl
  find_job-zero (x ∷ js) h = ground (arith, find_job-zero js)

  pub find_job-some :
      (js : List Job) (i : ℕ) (j : Job)
      → find_job p js ≡ some (i, j)
      → (get_elem? js i ≡ some j) × (p j ≡ true)
  unfolding find_job
  find_job-some [] i j h = ground arith
  find_job-some (x ∷ js) zero j h = ground (arith, find_job-some js zero j)
  find_job-some (x ∷ js) (suc i) j h = ground (arith, find_job-some js i j)

  -- Where at most one slot passes, the search finds that slot.
  pub find_job_unique :
      (js : List Job) (i : ℕ) (j : Job)
      → count p js ≤ 1
      → get_elem? js i ≡ some j
      → p j ≡ true
      → find_job p js ≡ some (i, j)
  unfolding find_job count
  find_job_unique [] i j c e h = ground arith
  find_job_unique (x ∷ js) zero j c e h = ground arith
  find_job_unique (x ∷ js) (suc i) j c e h =
      let found = some_count js i j e h in ground (arith, find_job_unique js i j)
    where
      some_count :
          (js : List Job) (i : ℕ) (j : Job) → get_elem? js i ≡ some j → p j ≡ true → 1 ≤ count p js
      some_count [] i j e h = ground arith
      some_count (x ∷ js) zero j e h = ground arith
      some_count (x ∷ js) (suc i) j e h = omega (arith, some_count js i j e h)

  -- A write that neither removes nor adds a passing slot is not seen by the search.
  pub find_job-set_miss :
      (js : List Job) (i : ℕ) (j k : Job)
      → get_elem? js i ≡ some j
      → p j ≡ false
      → p k ≡ false
      → find_job p (set_job js i k) ≡ find_job p js
  unfolding find_job set_job
  find_job-set_miss [] i j k e h g = refl
  find_job-set_miss (x ∷ js) zero j k e h g = ground arith
  find_job-set_miss (x ∷ js) (suc i) j k e h g = ground (arith, find_job-set_miss js i j k e h g)

pub get_elem?-set_job :
    (js : List Job) (i : ℕ) (j k : Job)
    → get_elem? js i ≡ some j
    → get_elem? (set_job js i k) i ≡ some k
unfolding set_job
get_elem?-set_job [] i j k e = ground arith
get_elem?-set_job (x ∷ js) zero j k e = refl
get_elem?-set_job (x ∷ js) (suc i) j k e = get_elem?-set_job js i j k e

pub length-set_job : (js : List Job) (i : ℕ) (k : Job) → length (set_job js i k) ≡ length js
unfolding set_job
length-set_job [] i k = refl
length-set_job (x ∷ js) zero k = refl
length-set_job (x ∷ js) (suc i) k = omega (arith, length-set_job js i k)

pub All-set_job :
    (P : Job → Type 0) (js : List Job) (i : ℕ) (k : Job) → All P js → P k → All P (set_job js i k)
unfolding set_job
All-set_job P [] i k a h = tt
All-set_job P (x ∷ js) zero k a h = (h, a.1)
All-set_job P (x ∷ js) (suc i) k a h = (a.0, All-set_job P js i k a.1 h)

pub All-get_elem? :
    (P : Job → Type 0) (js : List Job) (i : ℕ) (j : Job) → All P js → get_elem? js i ≡ some j → P j
All-get_elem? P [] i j a e = absurd (ground arith)
All-get_elem? P (x ∷ js) zero j a e = let q : x ≡ j = ground arith in rw q at (a.0)
All-get_elem? P (x ∷ js) (suc i) j a e = All-get_elem? P js i j a.1 e

-- The running maximum starts at `m` and never falls.
pub max_jid_from-le : (m : ℕ) (js : List Job) → m ≤ max_jid_from m js
unfolding max_jid_from
max_jid_from-le m [] = omega arith
max_jid_from-le m (j ∷ js) = ground (arith, max_jid_from-le (if ltb m j.jid then j.jid else m) js)

pub All-max_jid : (m : ℕ) (js : List Job) → All (λ j. j.jid ≤ max_jid_from m js) js
unfolding max_jid_from
All-max_jid m [] = tt
All-max_jid m (j ∷ js) =
    let next = if ltb m j.jid then j.jid else m in
    (ground (arith, max_jid_from-le next js), All-max_jid next js)

-- A job id above all of the table's is in no slot.
pub count-jid_above :
    (n m : ℕ) (js : List Job) → All (λ j. j.jid ≤ m) js → m < n → count (λ j. j.jid == n) js ≡ 0
unfolding count
count-jid_above n m [] a h = refl
count-jid_above n m (j ∷ js) a h = ground (arith, count-jid_above n m js a.1 h)

-- Where no slot passes, the one at hand does not.
pub count_zero_at :
    (p : Job → Bool) (js : List Job) (i : ℕ) (j : Job)
    → count p js ≤ 0
    → get_elem? js i ≡ some j
    → p j ≡ false
unfolding count
count_zero_at p [] i j c e = ground arith
count_zero_at p (x ∷ js) zero j c e = ground arith
count_zero_at p (x ∷ js) (suc i) j c e = count_zero_at p js i j (omega arith) e
