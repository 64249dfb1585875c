-- ===== src/Files.antt =====
-- CS330_projects/proj2/filesys/file.c and the open inodes of filesys/inode.c (proj1 has the same files): the open
-- files, each with a position in the inode that it shares with others.
--
-- The blocks of struct inode are those of the list open_inodes, with their addresses, and `files` has the blocks of
-- struct file. What malloc and calloc answer is an argument, a read of a pointer to no block is a `panic` as a
-- failed ASSERT is. `released` has the calls of free_map_release, the last one first. Counts do
-- not overflow, no inode is closed more often than it was opened, and lengths are not negative.
pub mod Store
pub mod Counts
pub mod Holders
pub mod Inodes
pub mod References
pub mod Opened
pub mod Reachable
pub mod Denied
mod Tests
use cs_courses.Base.{
  ℕ, zero, suc, ◌+◌, ◌-◌, ◌*◌, ◌≤◌, ◌<◌, Bool, true, false, not, Option, none, some, List, [], ◌∷◌,
  ℤ, pos, negsuc, leb, ltb, ◌==◌, if◌then◌else◌,
}
use cs_courses.Bitmap.{Run, ok, panic, ◌>>=◌}
use cs_courses.Inode.{Disk, Inode, bytes_to_sectors, inode_read_at, inode_write_at}

-- The blocks of one type that are in use, with their addresses.
abbrev pub Store : Type 0 → Type 0
Store A = List (ℕ × A)

abbrev pub lookup : {A : Type 0} → ℕ → Store A → Option A
lookup a [] = none
lookup a (x ∷ xs) = if x.0 == a then some x.1 else lookup a xs

abbrev pub put : {A : Type 0} → ℕ → A → Store A → Store A
put a v [] = []
put a v (x ∷ xs) = let rest = put a v xs in if x.0 == a then (a, v) ∷ xs else x ∷ rest

-- free
abbrev pub free : {A : Type 0} → ℕ → Store A → Store A
free a [] = []
free a (x ∷ xs) = let rest = free a xs in if x.0 == a then xs else x ∷ rest

-- list_remove of an inode's list element
abbrev pub unlink : {A : Type 0} → ℕ → Store A → Store A
unlink a [] = []
unlink a (x ∷ xs) = let rest = unlink a xs in if x.0 == a then rest else x ∷ rest

-- struct file
pub record File : Type 0 where
  pub inode : ℕ
  pub pos : ℕ
  pub deny_write : Bool

pub record FileSystem : Type 0 where
  pub open_inodes : Store Inode
  pub files : Store File
  pub released : List (ℕ × ℕ)
  pub disk : Disk
  pub memory : ℕ → ℕ

-- Four bytes, the lowest first.
abbrev pub load : (ℕ → ℕ) → ℕ → ℕ
load bytes i = bytes i + 256 * (bytes (i + 1) + 256 * (bytes (i + 2) + 256 * bytes (i + 3)))

-- The loop of inode_open.
abbrev pub find_open : ℕ → Store Inode → Option ℕ
find_open sector [] = none
find_open sector (x ∷ xs) =
    let rest = find_open sector xs in if x.1.sector == sector then some x.0 else rest

abbrev pub with_inode : {B : Type 0} → ℕ → FileSystem → (Inode → Run B) → Run B
with_inode a s body = elim (lookup a s.open_inodes) [ none ↦ panic | some i ↦ body i ]

abbrev pub with_file : {B : Type 0} → ℕ → FileSystem → (File → Run B) → Run B
with_file f s body = elim (lookup f s.files) [ none ↦ panic | some file ↦ body file ]

abbrev pub put_inode : ℕ → Inode → FileSystem → FileSystem
put_inode a i s = record s { open_inodes = put a i s.open_inodes }

abbrev pub put_file : ℕ → File → FileSystem → FileSystem
put_file f file s = record s { files = put f file s.files }

unfoldable pub inode_reopen : Option ℕ → FileSystem → Run (Option ℕ × FileSystem)
inode_reopen none s = ok (none, s)
inode_reopen (some a) s =
    with_inode a s (λ i. ok (some a, put_inode a (record i { open_cnt = i.open_cnt + 1 }) s))

unfoldable pub inode_open : Option ℕ → ℕ → FileSystem → Run (Option ℕ × FileSystem)
unfolding inode_reopen
inode_open block sector s = elim (find_open sector s.open_inodes) [
  | some a ↦ inode_reopen (some a) s
  | none ↦ elim block [
    | none ↦ ok (none, s)
    | some a ↦
        let i : Inode = record {
          sector = sector;
          open_cnt = 1;
          removed = false;
          deny_write_cnt = 0;
          start = load (s.disk sector) 0;
          length = load (s.disk sector) 4;
        } in
        ok (some a, record s { open_inodes = (a, i) ∷ s.open_inodes })
  ]
]

unfoldable pub inode_close : Option ℕ → FileSystem → Run FileSystem
inode_close none s = ok s
inode_close (some a) s = with_inode a s (λ i.
    if i.open_cnt == 1
    then (let blocks = (i.start, bytes_to_sectors i.length) ∷ (i.sector, 1) ∷ s.released in
        ok (record s {
          open_inodes = unlink a s.open_inodes;
          released = if i.removed then blocks else s.released;
        }))
    else ok (put_inode a (record i { open_cnt = i.open_cnt - 1 }) s))

unfoldable pub inode_remove : ℕ → FileSystem → Run FileSystem
inode_remove a s = with_inode a s (λ i. ok (put_inode a (record i { removed = true }) s))

unfoldable pub inode_deny_write : ℕ → FileSystem → Run FileSystem
inode_deny_write a s = with_inode a s (λ i.
    if leb (i.deny_write_cnt + 1) i.open_cnt
    then ok (put_inode a (record i { deny_write_cnt = i.deny_write_cnt + 1 }) s)
    else panic)

unfoldable pub inode_allow_write : ℕ → FileSystem → Run FileSystem
inode_allow_write a s = with_inode a s (λ i.
    if ltb 0 i.deny_write_cnt
    then (if leb i.deny_write_cnt i.open_cnt
        then ok (put_inode a (record i { deny_write_cnt = i.deny_write_cnt - 1 }) s)
        else panic)
    else panic)

unfoldable pub file_open : Option ℕ → Option ℕ → FileSystem → Run (Option ℕ × FileSystem)
unfolding inode_close
file_open (some f) (some a) s =
    ok (
      some f,
      record s { files = (f, record { inode = a; pos = 0; deny_write = false }) ∷ s.files },
    )
file_open (some f) none s = inode_close none s >>= (λ s'. ok (none, s'))
file_open none inode s = inode_close inode s >>= (λ s'. ok (none, s'))

unfoldable pub file_reopen : Option ℕ → ℕ → FileSystem → Run (Option ℕ × FileSystem)
unfolding inode_reopen file_open
file_reopen block f s =
    with_file f s (λ file. inode_reopen (some file.inode) s >>= (λ r. file_open block r.0 r.1))

unfoldable pub file_deny_write : ℕ → FileSystem → Run FileSystem
unfolding inode_deny_write
file_deny_write f s = with_file f s (λ file.
    if file.deny_write
    then ok s
    else inode_deny_write file.inode (put_file f (record file { deny_write = true }) s))

unfoldable pub file_allow_write : ℕ → FileSystem → Run FileSystem
unfolding inode_allow_write
file_allow_write f s = with_file f s (λ file.
    if file.deny_write
    then inode_allow_write file.inode (put_file f (record file { deny_write = false }) s)
    else ok s)

unfoldable pub file_close : Option ℕ → FileSystem → Run FileSystem
unfolding file_allow_write inode_close
file_close none s = ok s
file_close (some f) s = file_allow_write f s >>= (λ s1. with_file f s1 (λ file.
    inode_close (some file.inode) s1 >>= (λ s2. ok (record s2 { files = free f s2.files }))))

-- `room` is malloc's answer for the bounce buffer.
module _ (room : Bool) where
  unfoldable pub file_read_at : ℕ → ℕ → ℤ → ℕ → FileSystem → Run (ℕ × FileSystem)
  unfolding inode_read_at
  file_read_at f buffer size file_ofs s = with_file f s (λ file. with_inode file.inode s (λ i.
      let r = inode_read_at room s.disk i buffer size file_ofs s.memory in
      ok (r.0, record s { memory = r.1 })))

  unfoldable pub file_read : ℕ → ℕ → ℤ → FileSystem → Run (ℕ × FileSystem)
  unfolding inode_read_at
  file_read f buffer size s = with_file f s (λ file. with_inode file.inode s (λ i.
      let r = inode_read_at room s.disk i buffer size file.pos s.memory in
      ok (r.0, put_file f (record file { pos = file.pos + r.0 }) (record s { memory = r.1 }))))

  unfoldable pub file_write_at : ℕ → ℕ → ℤ → ℕ → FileSystem → Run (ℕ × FileSystem)
  unfolding inode_write_at
  file_write_at f buffer size file_ofs s = with_file f s (λ file. with_inode file.inode s (λ i.
      let r = inode_write_at room i s.memory buffer size file_ofs s.disk in
      ok (r.0, record s { disk = r.1 })))

  unfoldable pub file_write : ℕ → ℕ → ℤ → FileSystem → Run (ℕ × FileSystem)
  unfolding inode_write_at
  file_write f buffer size s = with_file f s (λ file. with_inode file.inode s (λ i.
      let r = inode_write_at room i s.memory buffer size file.pos s.disk in
      ok (r.0, put_file f (record file { pos = file.pos + r.0 }) (record s { disk = r.1 }))))

unfoldable pub file_length : ℕ → FileSystem → Run ℕ
file_length f s = with_file f s (λ file. with_inode file.inode s (λ i. ok i.length))

unfoldable pub file_seek : ℕ → ℤ → FileSystem → Run FileSystem
file_seek f (pos n) s = with_file f s (λ file. ok (put_file f (record file { pos = n }) s))
file_seek f (negsuc n) s = panic

unfoldable pub file_tell : ℕ → FileSystem → Run ℕ
file_tell f s = with_file f s (λ file. ok file.pos)
