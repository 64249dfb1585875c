-- ===== src/Files/Holders.antt =====
-- Who holds the open inodes of CS330_projects/proj2/filesys: the open files of file.c, and the callers of inode.c
-- that keep a struct inode of their own, each as often as it stands in a list.
use cs_courses.Base.{
  ℕ, ◌+◌, ◌≤◌, ◌<◌, ◌≡◌, refl, sym, ◌∙◌, Bool, true, false, ◌&&◌, Option, none, some, List, [], ◌∷◌,
  ◌==◌, ==_refl, if◌then◌else◌, arith,
}
use cs_courses.Inode.{Inode}
use cs_courses.Files.{Store, File, lookup, put}
use cs_courses.Files.Store.{count, count-put, count-free, count-le}
use cs_courses.Files.Counts.{Agrees, Counted}

abbrev pub uses : ℕ → List ℕ → ℕ
uses a [] = 0
uses a (r ∷ refs) = (if r == a then 1 else 0) + uses a refs

-- One use less.
abbrev pub give_up : ℕ → List ℕ → List ℕ
give_up a [] = []
give_up a (r ∷ refs) = let rest = give_up a refs in if r == a then refs else r ∷ rest

abbrev pub holders : List ℕ → Store File → ℕ → ℕ
holders refs files a = uses a refs + count (λ file. file.inode == a) files

abbrev pub deniers : Store File → ℕ → ℕ
deniers files a = count (λ file. (file.inode == a) && file.deny_write) files

pub deniers-le :
    (refs : List ℕ) (files : Store File) (a : ℕ) → deniers files a ≤ holders refs files a
deniers-le refs files a =
    let fewer =
      count-le (λ file. (file.inode == a) && file.deny_write) (λ file. file.inode == a) files
        (λ file h. ground (arith, h)) in
    omega (arith, fewer)

pub uses-give_up :
    (a : ℕ) (refs : List ℕ) → 0 < uses a refs → uses a (give_up a refs) + 1 ≡ uses a refs
uses-give_up a [] h = ground (arith, h)
uses-give_up a (r ∷ refs) h = ground (arith, uses-give_up a refs)

pub uses-give_up_other :
    (a b : ℕ) (refs : List ℕ) → (a == b) ≡ false → uses b (give_up a refs) ≡ uses b refs
uses-give_up_other a b [] h = refl
uses-give_up_other a b (r ∷ refs) h = ground (arith, h, uses-give_up_other a b refs h)

module _ (refs : List ℕ) (files : Store File) (f : ℕ) (file : File)
    (found : lookup f files ≡ some file) where
  -- A file holds its inode.
  pub file-holds : 0 < holders refs files file.inode
  file-holds =
      let own : (file.inode == file.inode) ≡ true = ==_refl file.inode in
      ground (arith, own, count-free (λ x. x.inode == file.inode) f file files found)

  -- Only the count of denials at its inode changes when the flag of a file does.
  pub holders-put :
      (pos : ℕ) (flag : Bool) (a : ℕ)
      → holders refs (put f (record { inode = file.inode; pos = pos; deny_write = flag }) files) a
        ≡ holders refs files a
  holders-put pos flag a = omega (
    arith,
    count-put (λ x. x.inode == a) f (record { inode = file.inode; pos = pos; deny_write = flag })
        file files found,
  )

  pub deniers-put :
      (pos : ℕ) (flag : Bool) (a : ℕ)
      → deniers (put f (record { inode = file.inode; pos = pos; deny_write = flag }) files) a
          + (if (file.inode == a) && file.deny_write then 1 else 0)
        ≡ deniers files a + (if (file.inode == a) && flag then 1 else 0)
  deniers-put pos flag a =
      count-put (λ x. (x.inode == a) && x.deny_write) f
        (record { inode = file.inode; pos = pos; deny_write = flag }) file files found

Agrees-same :
    (holders deniers holders' deniers' : ℕ → ℕ) (a : ℕ) (o : Option Inode)
    → holders' a ≡ holders a
    → deniers' a ≡ deniers a
    → Agrees holders deniers a o
    → Agrees holders' deniers' a o
Agrees-same holders deniers holders' deniers' a none h d agrees = h ∙ agrees
Agrees-same holders deniers holders' deniers' a (some i) h d (opens, held, denied) =
    (opens ∙ sym h, rw h held, denied ∙ sym d)

pub same-Counted :
    (xs : Store Inode) (holders deniers holders' deniers' : ℕ → ℕ)
    → ((a : ℕ) → holders' a ≡ holders a)
    → ((a : ℕ) → deniers' a ≡ deniers a)
    → Counted xs holders deniers
    → Counted xs holders' deniers'
same-Counted xs holders deniers holders' deniers' h d (agrees, once) = (
  λ a. Agrees-same holders deniers holders' deniers' a (lookup a xs) (h a) (d a) (agrees a),
  once,
)
