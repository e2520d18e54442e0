-- ===== src/Flash/Tests.antt =====
-- The file operations over one file in memory.
use lcdpico_34401a.Common.{ℕ, ◌≡◌, refl, arith, true, List, [], length, codes, some}
use lcdpico_34401a.Common.Int.{ℤ, pos, negsuc}
use lcdpico_34401a.Flash.Littlefs.{
  Lfs, idle, World, lfs_mount, lfs_file_open, lfs_file_size, lfs_file_read, malloc,
}
use lcdpico_34401a.Flash.Files.{
  fill_buffer, read_open, read_mounted, flash_read_file, flash_write_file, flash_delete_file,
  flash_rename_file, flash_file_size,
}
use lcdpico_34401a.Flash.Balance.{world, flash-idle}
use lcdpico_34401a.Flash.Failures.{reported, flash_write_file-reported}

-- One file, under every name, whose writes give `r`.
abbrev one_file : ℤ → Lfs (List ℕ)
one_file r = record {
  mount = λ s. (pos 0, s);
  unmount = λ s. s;
  open_file = λ i name flags s. (pos 0, s);
  size = λ i s. (length s, s);
  read = λ i n s. (pos (length s), (s, s));
  write = λ i bytes s. (r, bytes);
  close = λ i s. s;
  stat = λ name s. (pos 0, (length s, s));
  remove = λ name s. (pos 0, []);
  rename = λ old new s. (pos 0, s);
  malloc = λ n s. (true, s);
}

abbrev start : World (List ℕ)
start = world (codes "abc") idle

read_back : (flash_read_file (one_file (pos 2)) (codes "f") start).0.buf ≡ some (codes "abc")
unfolding flash_read_file read_mounted read_open fill_buffer lfs_mount lfs_file_open lfs_file_size
    malloc lfs_file_read
read_back = refl

flash-idle_example :
    ((flash_read_file (one_file (pos 2)) (codes "f") start).1.monitor ≡ idle)
    × ((flash_write_file (one_file (pos 2)) (codes "xy") (codes "f") start).1.monitor ≡ idle)
    × ((flash_delete_file (one_file (pos 2)) (codes "f") start).1.monitor ≡ idle)
    × ((flash_rename_file (one_file (pos 2)) (codes "f") (codes "g") start).1.monitor ≡ idle)
    × ((flash_file_size (one_file (pos 2)) (codes "f") start).1.monitor ≡ idle)
flash-idle_example =
    flash-idle (one_file (pos 2)) (codes "abc") (codes "xy") (codes "f") (codes "g")

-- LFS_ERR_IO is -5.
flash_write_file-reported_example :
    (flash_write_file (one_file (negsuc 4)) (codes "xy") (codes "f") start).0
    ≡ reported (negsuc 4) 2
flash_write_file-reported_example =
    flash_write_file-reported (one_file (negsuc 4)) (codes "xy") (codes "f") (codes "abc") idle refl
      refl (omega arith) (omega arith)
