-- ===== src/Inode/Tests.antt =====
-- A file of 700 bytes from sector 3 on (CS330_projects/proj2/filesys/inode.c).
use cs_courses.Base.{ℕ, ◌+◌, ◌*◌, ◌≡◌, refl, true, false, pos, arith}
use cs_courses.Inode.{Disk, Inode, inode_read_at, inode_write_at}
use cs_courses.Inode.Write.{Stores, inode_write_at-Stores}
use cs_courses.Inode.RoundTrip.{inode_read_at-write}

abbrev numbers : Disk
numbers sector i = sector * 1000 + i

abbrev long : Inode
long = record {
  sector = 1;
  open_cnt = 1;
  removed = false;
  deny_write_cnt = 0;
  start = 3;
  length = 700;
}

abbrev letters : ℕ → ℕ
letters a = a + 7

read_run : (inode_read_at true numbers long 0 (pos 20) 690 letters).0 ≡ 10
unfolding inode_read_at
read_run = refl

-- A read over the border of a sector.
border_run : (inode_read_at true numbers long 0 (pos 20) 500 letters).1 15 ≡ 4003
unfolding inode_read_at
border_run = refl

no_room_run : (inode_read_at false numbers long 0 (pos 700) 0 letters).0 ≡ 512
unfolding inode_read_at
no_room_run = refl

write_run : (inode_write_at true long letters 100 (pos 600) 500 numbers).0 ≡ 200
unfolding inode_write_at
write_run = refl

inode_write_at-Stores_example :
    (disk' : Disk) × (inode_write_at true long letters 100 (pos 20) 500 numbers ≡ (20, disk'))
    × Stores long letters 500 20 100 numbers disk'
inode_write_at-Stores_example = inode_write_at-Stores long letters (pos 20) 500 100 numbers refl

inode_read_at-write_example :
    (inode_read_at true
        (inode_write_at true long letters 100 (pos 20) 500 numbers).1
        long
        900
        (pos 20)
        500
        letters).1
      (900 + 15)
    ≡ 122
inode_read_at-write_example =
    inode_read_at-write long (pos 20) 500 100 900 15 letters numbers refl (ground arith)
