-- ===== src/Files/Counts.antt =====
-- The counts that inode.c keeps for each open inode, against the holders that there are
-- (CS330_projects/proj2/filesys).
use cs_courses.Base.{
  ℕ, ◌<◌, ◌≡◌, ◌≢◌, refl, sym, ap, ◌∙◌, true, false, Option, none, some, [], ◌∷◌, ◌==◌, ==→eq,
  ==_refl, Bool-cases, inl, inr, arith,
}
use mathlib.Core.Path.{subst}
use cs_courses.Inode.{Inode}
use cs_courses.Files.{Store, lookup, put, unlink, find_open}
use cs_courses.Files.Store.{lookup-put, lookup-put_other, lookup-unlink, lookup-unlink_other}

-- The inode of an address has one opener for each of its holders and one denial for each of its deniers, and nobody
-- holds what is not open.
abbrev pub Agrees : (ℕ → ℕ) → (ℕ → ℕ) → ℕ → Option Inode → Type 0
Agrees holders deniers a none = holders a ≡ 0
Agrees holders deniers a (some i) =
    (i.open_cnt ≡ holders a) × (0 < holders a) × (i.deny_write_cnt ≡ deniers a)

abbrev pub IsOnce : Store Inode → Type 0
IsOnce xs =
    (a b : ℕ) (i j : Inode)
    → lookup a xs ≡ some i
    → lookup b xs ≡ some j
    → i.sector ≡ j.sector
    → a ≡ b

abbrev pub Counted : Store Inode → (ℕ → ℕ) → (ℕ → ℕ) → Type 0
Counted xs holders deniers = ((a : ℕ) → Agrees holders deniers a (lookup a xs)) × IsOnce xs

-- The counts at other addresses are the same.
abbrev pub Apart : ℕ → (ℕ → ℕ) → (ℕ → ℕ) → (ℕ → ℕ) → (ℕ → ℕ) → Type 0
Apart a holders deniers holders' deniers' =
    (b : ℕ) → (a == b) ≡ false → (holders' b ≡ holders b) × (deniers' b ≡ deniers b)

abbrev sector_or : Option Inode → ℕ
sector_or none = 0
sector_or (some i) = i.sector

pub find_open-none :
    (sector b : ℕ) (k : Inode) (xs : Store Inode)
    → find_open sector xs ≡ none
    → lookup b xs ≡ some k
    → k.sector ≢ sector
find_open-none sector b k [] unopened found same = ground (arith, found)
find_open-none sector b k (x ∷ xs) unopened found same = elim (Bool-cases (x.1.sector == sector)) [
  | inl here ↦ ground (arith, here, unopened)
  | inr away ↦ elim (Bool-cases (x.0 == b)) [
    | inl this ↦
        let is_k : some x.1 ≡ some k = ground (arith, this, found) in
        ground (arith, away, ap sector_or is_k, same)
    | inr other ↦
        find_open-none sector b k xs (ground (arith, away, unopened)) (ground (arith, other, found))
          same
  ]
]

pub find_open-open :
    (sector a : ℕ) (xs : Store Inode)
    → find_open sector xs ≡ some a
    → (i : Inode) × (lookup a xs ≡ some i)
find_open-open sector a [] h = ground (arith, h)
find_open-open sector a (x ∷ xs) h = elim (Bool-cases (x.0 == a)) [
  | inl this ↦ (x.1, ground (arith, this))
  | inr other ↦
      let (i, found) = find_open-open sector a xs (ground (arith, h, other, ==_refl a)) in
      (i, ground (arith, other, found))
]

module _ (xs : Store Inode) (holders deniers holders' deniers' : ℕ → ℕ) (a : ℕ) where
  Agrees-other :
      (b : ℕ) (o : Option Inode)
      → Apart a holders deniers holders' deniers'
      → (a == b) ≡ false
      → Agrees holders deniers b o
      → Agrees holders' deniers' b o
  Agrees-other b none apart h agrees = (apart b h).0 ∙ agrees
  Agrees-other b (some i) apart h (opens, held, denied) =
      let (more, less) = apart b h in (opens ∙ sym more, rw more held, denied ∙ sym less)

  changed-Agrees :
      (ys : Store Inode)
      → ((b : ℕ) → (a == b) ≡ false → lookup b ys ≡ lookup b xs)
      → Agrees holders' deniers' a (lookup a ys)
      → Apart a holders deniers holders' deniers'
      → ((b : ℕ) → Agrees holders deniers b (lookup b xs))
      → (b : ℕ) → Agrees holders' deniers' b (lookup b ys)
  changed-Agrees ys same here apart agrees b = elim (Bool-cases (a == b)) [
    | inl at ↦ subst (λ c. Agrees holders' deniers' c (lookup c ys)) (==→eq a b at) here
    | inr away ↦
        subst (Agrees holders' deniers' b) (sym (same b away))
          (Agrees-other b (lookup b xs) apart away (agrees b))
  ]

  pub put-Counted :
      (i j : Inode)
      → lookup a xs ≡ some i
      → j.sector ≡ i.sector
      → Agrees holders' deniers' a (some j)
      → Apart a holders deniers holders' deniers'
      → Counted xs holders deniers
      → Counted (put a j xs) holders' deniers'
  put-Counted i j found same_sector here apart (agrees, once) =
      let now = lookup-put a j i xs found in
      let old : (b : ℕ) (k : Inode)
          → lookup b (put a j xs) ≡ some k
          → (l : Inode) × (lookup b xs ≡ some l) × (l.sector ≡ k.sector) =
        λ b k h. elim (Bool-cases (a == b)) [
          | inl at ↦ (
            i,
            ground (arith, at, found),
            sym same_sector
                ∙ ap sector_or (sym now ∙ ap (λ c. lookup c (put a j xs)) (==→eq a b at) ∙ h),
          )
          | inr away ↦ (k, ground (arith, h, lookup-put_other a b j xs away), refl)
        ] in
      (
        changed-Agrees (put a j xs) (λ b h. lookup-put_other a b j xs h)
            (subst (Agrees holders' deniers' a) (sym now) here) apart agrees,
        λ b c k l h1 h2 same.
            let (k', was, s1) = old b k h1 in
            let (l', was', s2) = old c l h2 in once b c k' l' was was' (s1 ∙ same ∙ sym s2),
      )

  pub unlink-Counted :
      holders' a ≡ 0
      → Apart a holders deniers holders' deniers'
      → Counted xs holders deniers
      → Counted (unlink a xs) holders' deniers'
  unlink-Counted gone apart (agrees, once) =
      let now = lookup-unlink a xs in
      let old : (b : ℕ) (k : Inode) → lookup b (unlink a xs) ≡ some k → lookup b xs ≡ some k =
        λ b k h. elim (Bool-cases (a == b)) [
          | inl at ↦ ground (arith, now, ap (λ c. lookup c (unlink a xs)) (==→eq a b at), h)
          | inr away ↦ ground (arith, h, lookup-unlink_other a b xs away)
        ] in
      (
        changed-Agrees (unlink a xs) (λ b h. lookup-unlink_other a b xs h)
            (subst (Agrees holders' deniers' a) (sym now) gone) apart agrees,
        λ b c k l h1 h2 same. once b c k l (old b k h1) (old c l h2) same,
      )

  pub push-Counted :
      (i : Inode)
      → lookup a xs ≡ none
      → find_open i.sector xs ≡ none
      → Agrees holders' deniers' a (some i)
      → Apart a holders deniers holders' deniers'
      → Counted xs holders deniers
      → Counted ((a, i) ∷ xs) holders' deniers'
  push-Counted i fresh unopened here apart (agrees, once) =
      let at_front : lookup a ((a, i) ∷ xs) ≡ some i = ground (arith, ==_refl a) in
      let front : (b : ℕ) (k : Inode)
          → (a == b) ≡ true
          → lookup b ((a, i) ∷ xs) ≡ some k
          → i.sector ≡ k.sector =
        λ b k at h. let is_i : some i ≡ some k = ground (arith, at, h) in ap sector_or is_i in
      let unlike : (b : ℕ) (k : Inode) → lookup b xs ≡ some k → i.sector ≡ k.sector → a ≡ b =
        λ b k h same. absurd (find_open-none i.sector b k xs unopened h (sym same)) in
      (
        changed-Agrees ((a, i) ∷ xs) (λ b h. ground (arith, h))
            (subst (Agrees holders' deniers' a) (sym at_front) here) apart agrees,
        λ b c k l h1 h2 same. elim (Bool-cases (a == b)) [
          | inl at_b ↦ elim (Bool-cases (a == c)) [
            | inl at_c ↦ ground (arith, at_b, at_c)
            | inr off_c ↦
                sym (==→eq a b at_b)
                ∙ unlike c l (ground (arith, off_c, h2)) (front b k at_b h1 ∙ same)
          ]
          | inr off_b ↦ elim (Bool-cases (a == c)) [
            | inl at_c ↦
                sym (unlike b k (ground (arith, off_b, h1)) (front c l at_c h2 ∙ sym same))
                ∙ ==→eq a c at_c
            | inr off_c ↦ once b c k l (ground (arith, h1, off_b)) (ground (arith, h2, off_c)) same
          ]
        ],
      )
