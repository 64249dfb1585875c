-- ===== src/Syscalls/Open.antt =====
-- SYS_OPEN of CS330_projects/proj2/userprog/syscall.c, behind dir_lookup.
use cs_courses.Base.{
  ℕ, ◌+◌, ◌≤◌, ◌<◌, ◌≡◌, refl, ap, true, false, Option, none, some, List, [], ◌∷◌, ◌++◌, ◌==◌,
  ==→eq, ==_refl, if◌then◌else◌, Bool-cases, inl, inr, All, All-mono, All-append, arith,
}
use cs_courses.Bitmap.{ok}
use cs_courses.Files.{File, lookup, file_open}
use cs_courses.Files.Holders.{uses, give_up}
use cs_courses.Files.References.{Live, open_file-Succeeds, inode_close-Kept}
use cs_courses.Syscalls.{Descriptor, Process, find_fd, minus_one, sys_open}
use cs_courses.Syscalls.Calls.{Returns, kept}
use cs_courses.Syscalls.Owned.{IsProcess, append-IsSole}

-- Where the descriptor of a new file goes.
abbrev pub opened : Process → ℕ → ℕ → Process
opened p a f =
    let fd = p.open_cnt + 1 in
    let file : File = record { inode = a; pos = 0; deny_write = false } in
    record {
      system = record p.system { files = (f, file) ∷ p.system.files };
      descriptors = p.descriptors ++ (record { fd = fd; fp = f } ∷ []);
      open_cnt = fd;
      console = p.console;
    }

module _ (refs : List ℕ) (p : Process) (is : IsProcess refs p) where
  opened-IsProcess :
      (a f : ℕ)
      → 0 < uses a refs
      → lookup f p.system.files ≡ none
      → IsProcess (give_up a refs) (opened p a f)
  unfolding file_open
  opened-IsProcess a f used fresh =
      let file : File = record { inode = a; pos = 0; deny_write = false } in
      let still : (d : Descriptor)
          → Live d.fp p.system
          → Live d.fp (record p.system { files = (f, file) ∷ p.system.files }) =
        λ d (x, found). elim (Bool-cases (f == d.fp)) [
          | inl here ↦ (file, ground (arith, here))
          | inr elsewhere ↦ (x, ground (arith, elsewhere, found))
        ] in
      let away : (d : Descriptor) → Live d.fp p.system → (d.fp == f) ≡ false = λ d (x, found).
        elim (Bool-cases (d.fp == f)) [
          | inl same ↦
              ground (arith, found, fresh, ap (λ g. lookup g p.system.files) (==→eq d.fp f same))
          | inr other ↦ other
        ] in
      record {
        counted = open_file-Succeeds refs p.system is.counted (some f) a used;
        live =
            All-append (λ d. Live d.fp (opened p a f).system) p.descriptors
              (record { fd = p.open_cnt + 1; fp = f } ∷ [])
              (All-mono (λ d. Live d.fp p.system) (λ d. Live d.fp (opened p a f).system)
                p.descriptors still is.live)
              ((file, ground (arith, ==_refl f)), tt);
        sole =
            append-IsSole p.descriptors (record { fd = p.open_cnt + 1; fp = f }) is.sole
              (All-mono (λ d. Live d.fp p.system) (λ d. (d.fp == f) ≡ false) p.descriptors away
                is.live);
        given =
            All-append (λ d. d.fd ≤ p.open_cnt + 1) p.descriptors
              (record { fd = p.open_cnt + 1; fp = f } ∷ [])
              (All-mono (λ d. d.fd ≤ p.open_cnt) (λ d. d.fd ≤ p.open_cnt + 1) p.descriptors
                (λ d h. omega (arith, h)) is.given)
              (omega arith, tt);
      }

  -- A block that calloc answers with is not one of those in use.
  pub sys_open-Returns :
      (block : Option ℕ) (a : ℕ)
      → 0 < uses a refs
      → ((f : ℕ) → block ≡ some f → lookup f p.system.files ≡ none)
      → Returns (give_up a refs) (sys_open block true (some a) p)
  unfolding sys_open file_open
  sys_open-Returns none a used fresh =
      let (s', run, keeps) = inode_close-Kept refs p.system is.counted a used in
      let same : IsProcess (give_up a refs) (record p { system = s' }) =
        kept refs p is (give_up a refs) s' keeps in
      (minus_one, record p { system = s' }, rw (sys_open, file_open, run) refl, same)
  sys_open-Returns (some f) a used fresh =
      (p.open_cnt + 1, opened p a f, refl, opened-IsProcess a f used (fresh f refl))

find_fd-below : (fd : ℕ) (ds : List Descriptor) → All (λ e. e.fd < fd) ds → find_fd fd ds ≡ none
find_fd-below fd [] below = refl
find_fd-below fd (e ∷ ds) (here, below) = ground (arith, here, find_fd-below fd ds below)

find_fd-append :
    (fd : ℕ) (ds : List Descriptor) (d : Descriptor)
    → All (λ e. e.fd < d.fd) ds
    → find_fd fd (ds ++ (d ∷ [])) ≡ (if d.fd == fd then some d.fp else find_fd fd ds)
find_fd-append fd [] d below = refl
find_fd-append fd (e ∷ ds) d (here, below) = ground (arith, here, find_fd-append fd ds d below)

-- SYS_OPEN of an inode, when there are blocks for the file and the descriptor, answers with a descriptor that no file
-- had before, finds the new file at the start of that inode under it, and finds under every other number what it
-- found before.
pub sys_open-find_fd :
    (refs : List ℕ) (p : Process) (f a fd : ℕ)
    → IsProcess refs p
    → (p' : Process) × (sys_open (some f) true (some a) p ≡ ok (p.open_cnt + 1, p'))
      × (find_fd fd p'.descriptors
          ≡ (if p.open_cnt + 1 == fd then some f else find_fd fd p.descriptors))
      × (lookup f p'.system.files ≡ some (record { inode = a; pos = 0; deny_write = false }))
      × (find_fd (p.open_cnt + 1) p.descriptors ≡ none)
unfolding sys_open file_open
sys_open-find_fd refs p f a fd is =
    let d : Descriptor = record { fd = p.open_cnt + 1; fp = f } in
    let below : All (λ e. e.fd < p.open_cnt + 1) p.descriptors =
      All-mono (λ e. e.fd ≤ p.open_cnt) (λ e. e.fd < p.open_cnt + 1) p.descriptors
        (λ e h. omega (arith, h)) is.given in
    (
      opened p a f,
      refl,
      find_fd-append fd p.descriptors d below,
      ground (arith, ==_refl f),
      find_fd-below (p.open_cnt + 1) p.descriptors below,
    )
