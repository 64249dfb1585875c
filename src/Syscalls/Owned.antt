-- ===== src/Syscalls/Owned.antt =====
-- The descriptors of a process in CS330_projects/proj2/userprog/syscall.c and the files behind them.
use cs_courses.Base.{
  ℕ, ◌≤◌, ◌≡◌, false, some, List, [], ◌∷◌, ◌++◌, ◌==◌, Bool-cases, inl, inr, All, All-append, arith,
}
use mathlib.Core.Path.{subst}
use cs_courses.Files.{FileSystem}
use cs_courses.Files.References.{IsCounted, Live}
use cs_courses.Syscalls.{Descriptor, Process, find_fd, remove_fd}

-- Each file belongs to one descriptor.
abbrev pub IsSole : List Descriptor → Type 0
IsSole [] = Unit
IsSole (d ∷ ds) = All (λ e. (d.fp == e.fp) ≡ false) ds × IsSole ds

abbrev pub AllLive : FileSystem → List Descriptor → Type 0
AllLive s = All (λ d. Live d.fp s)

-- The counts of the inodes are right; the descriptors are numbers that have been given, of open files, each of its own.
pub record IsProcess (refs : List ℕ) (p : Process) : Type 0 where
  pub counted : IsCounted refs p.system
  pub live : AllLive p.system p.descriptors
  pub sole : IsSole p.descriptors
  pub given : All (λ d. d.fd ≤ p.open_cnt) p.descriptors

-- What holds for the files of all descriptors holds for the one that is found.
pub find_fd-All :
    (Q : ℕ → Type 0) (fd f : ℕ) (ds : List Descriptor)
    → All (λ d. Q d.fp) ds
    → find_fd fd ds ≡ some f
    → Q f
find_fd-All Q fd f [] all found = ground (arith, found)
find_fd-All Q fd f (d ∷ ds) (here, rest) found = elim (Bool-cases (d.fd == fd)) [
  | inl this ↦
      let same : some d.fp ≡ some f = ground (arith, this, found) in
      subst Q (ground (arith, same)) here
  | inr other ↦ find_fd-All Q fd f ds rest (ground (arith, other, found))
]

pub remove_fd-All :
    (P : Descriptor → Type 0) (fd : ℕ) (ds : List Descriptor) → All P ds → All P (remove_fd fd ds)
remove_fd-All P fd [] all = all
remove_fd-All P fd (d ∷ ds) (here, rest) = elim (Bool-cases (d.fd == fd)) [
  | inl this ↦ rw this rest
  | inr other ↦ rw other (here, remove_fd-All P fd ds rest)
]

pub remove_fd-IsSole : (fd : ℕ) (ds : List Descriptor) → IsSole ds → IsSole (remove_fd fd ds)
remove_fd-IsSole fd [] sole = sole
remove_fd-IsSole fd (d ∷ ds) (here, rest) = elim (Bool-cases (d.fd == fd)) [
  | inl this ↦ rw this rest
  | inr other ↦
      rw other (remove_fd-All (λ e. (d.fp == e.fp) ≡ false) fd ds here, remove_fd-IsSole fd ds rest)
]

-- The other descriptors have other files.
pub remove_fd-other :
    (fd f : ℕ) (ds : List Descriptor)
    → IsSole ds
    → find_fd fd ds ≡ some f
    → All (λ e. (f == e.fp) ≡ false) (remove_fd fd ds)
remove_fd-other fd f [] sole found = tt
remove_fd-other fd f (d ∷ ds) (here, rest) found = elim (Bool-cases (d.fd == fd)) [
  | inl this ↦
      let is_f : some d.fp ≡ some f = ground (arith, this, found) in
      let same : d.fp ≡ f = ground (arith, is_f) in
      rw this (subst (λ g. All (λ e. (g == e.fp) ≡ false) ds) same here)
  | inr other ↦
      let behind : find_fd fd ds ≡ some f = ground (arith, other, found) in
      let differ : (d.fp == f) ≡ false =
        find_fd-All (λ g. (d.fp == g) ≡ false) fd f ds here behind in
      rw other (ground (arith, differ), remove_fd-other fd f ds rest behind)
]

pub append-IsSole :
    (ds : List Descriptor) (d : Descriptor)
    → IsSole ds
    → All (λ e. (e.fp == d.fp) ≡ false) ds
    → IsSole (ds ++ (d ∷ []))
append-IsSole [] d sole fresh = (tt, tt)
append-IsSole (e ∷ ds) d (here, rest) (new, fresh) = (
  All-append (λ x. (e.fp == x.fp) ≡ false) ds (d ∷ []) here (new, tt),
  append-IsSole ds d rest fresh,
)

pub All-both {ℓ} :
    {A : Type ℓ} (P Q R : A → Type 0) (xs : List A)
    → ((x : A) → P x → Q x → R x)
    → All P xs
    → All Q xs
    → All R xs
All-both P Q R [] f p q = tt
All-both P Q R (x ∷ xs) f (p, ps) (q, qs) = (f x p q, All-both P Q R xs f ps qs)
