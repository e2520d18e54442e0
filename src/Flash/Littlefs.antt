-- ===== src/Flash/Littlefs.antt =====
-- What src/flash.c calls of littlefs and of the C library, on a state `S` of theirs, and a monitor of
-- the calls.
use lcdpico_34401a.Common.{ℕ, Bool, true, false, not, ◌||◌, List, if◌then◌else◌}
use lcdpico_34401a.Common.Int.{ℤ, pos, ◌==ℤ◌}

-- The library. Files are opened in slots, the variables of type `lfs_file_t`; results are the
-- library's error codes or counts.
pub record Lfs (S : Type 0) : Type 0 where
  pub mount : S → ℤ × S
  pub unmount : S → S
  pub open_file : ℕ → List ℕ → ℕ → S → ℤ × S
  pub size : ℕ → S → ℕ × S
  pub read : ℕ → ℕ → S → ℤ × (List ℕ × S)
  pub write : ℕ → List ℕ → S → ℤ × S
  pub close : ℕ → S → S
  pub stat : List ℕ → S → ℤ × (ℕ × S)
  pub remove : List ℕ → S → ℤ × S
  pub rename : List ℕ → List ℕ → S → ℤ × S
  pub malloc : ℕ → S → Bool × S

-- `== LFS_ERR_OK`
abbrev pub is_ok : ℤ → Bool
is_ok r = r ==ℤ pos 0

-- What the calls so far leave: the file system is mounted, a file is open in a slot, and whether a
-- call came out of order.
pub record Monitor : Type 0 where
  pub mounted : Bool
  pub file_open : Bool
  pub misused : Bool

abbrev pub idle : Monitor
idle = record { mounted = false; file_open = false; misused = false }

abbrev pub after_mount : ℤ → Monitor → Monitor
after_mount r m =
    if is_ok r then record m { mounted = true; misused = m.misused || m.mounted } else m

-- To unmount with an open file loses what is not written yet.
abbrev pub after_unmount : Monitor → Monitor
after_unmount m = record m {
  mounted = false;
  misused = m.misused || (not m.mounted || m.file_open);
}

abbrev pub after_open : ℤ → Monitor → Monitor
after_open r m =
    if is_ok r
    then record m { file_open = true; misused = m.misused || (not m.mounted || m.file_open) }
    else record m { misused = m.misused || not m.mounted }

abbrev pub after_close : Monitor → Monitor
after_close m = record m { file_open = false; misused = m.misused || not m.file_open }

-- A call on an open file, and one on a mounted file system.
abbrev pub with_file : Monitor → Monitor
with_file m = record m { misused = m.misused || not m.file_open }

abbrev pub with_mount : Monitor → Monitor
with_mount m = record m { misused = m.misused || not m.mounted }

-- The library's state with the monitor.
pub record World (S : Type 0) : Type 0 where
  pub state : S
  pub monitor : Monitor

module _ {S : Type 0} (fs : Lfs S) where
  unfoldable pub lfs_mount : World S → ℤ × World S
  lfs_mount w =
      let r : ℤ × S = fs.mount w.state in
      (r.0, record { state = r.1; monitor = after_mount r.0 w.monitor })

  unfoldable pub lfs_unmount : World S → World S
  lfs_unmount w = record { state = fs.unmount w.state; monitor = after_unmount w.monitor }

  unfoldable pub lfs_file_open : List ℕ → ℕ → World S → ℤ × World S
  lfs_file_open name flags w =
      let r : ℤ × S = fs.open_file 0 name flags w.state in
      (r.0, record { state = r.1; monitor = after_open r.0 w.monitor })

  unfoldable pub lfs_file_close : World S → World S
  lfs_file_close w = record { state = fs.close 0 w.state; monitor = after_close w.monitor }

  unfoldable pub lfs_file_size : World S → ℕ × World S
  lfs_file_size w =
      let r : ℕ × S = fs.size 0 w.state in
      (r.0, record { state = r.1; monitor = with_file w.monitor })

  unfoldable pub lfs_file_read : ℕ → World S → ℤ × (List ℕ × World S)
  lfs_file_read n w =
      let r : ℤ × (List ℕ × S) = fs.read 0 n w.state in
      (r.0, (r.1.0, record { state = r.1.1; monitor = with_file w.monitor }))

  unfoldable pub lfs_file_write : List ℕ → World S → ℤ × World S
  lfs_file_write bytes w =
      let r : ℤ × S = fs.write 0 bytes w.state in
      (r.0, record { state = r.1; monitor = with_file w.monitor })

  unfoldable pub lfs_stat : List ℕ → World S → ℤ × (ℕ × World S)
  lfs_stat name w =
      let r : ℤ × (ℕ × S) = fs.stat name w.state in
      (r.0, (r.1.0, record { state = r.1.1; monitor = with_mount w.monitor }))

  unfoldable pub lfs_remove : List ℕ → World S → ℤ × World S
  lfs_remove name w =
      let r : ℤ × S = fs.remove name w.state in
      (r.0, record { state = r.1; monitor = with_mount w.monitor })

  unfoldable pub lfs_rename : List ℕ → List ℕ → World S → ℤ × World S
  lfs_rename old new w =
      let r : ℤ × S = fs.rename old new w.state in
      (r.0, record { state = r.1; monitor = with_mount w.monitor })

  unfoldable pub malloc : ℕ → World S → Bool × World S
  malloc n w = let r : Bool × S = fs.malloc n w.state in (r.0, record w { state = r.1 })
