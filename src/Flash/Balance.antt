-- ===== src/Flash/Balance.antt =====
-- The file system is mounted and unmounted, and files are opened and closed, in pairs on every path.
use lcdpico_34401a.Common.{ℕ, ◌≡◌, refl, true, false, List, ltb, Bool-cases, inl, inr}
use lcdpico_34401a.Common.Int.{ℤ}
use lcdpico_34401a.Flash.Littlefs.{
  Lfs, is_ok, Monitor, idle, World, lfs_mount, lfs_unmount, lfs_file_open, lfs_file_close,
  lfs_file_size, lfs_file_read, lfs_file_write, lfs_stat, lfs_remove, lfs_rename, malloc,
}
use lcdpico_34401a.Flash.Files.{
  o_rdonly, o_wronly_creat, fill_buffer, read_open, read_mounted, flash_read_file, write_mounted,
  flash_write_file, change_mounted, flash_change, flash_delete_file, flash_rename_file,
  flash_file_size,
}

abbrev mounted_only : Monitor
mounted_only = record { mounted = true; file_open = false; misused = false }

abbrev with_open_file : Monitor
with_open_file = record { mounted = true; file_open = true; misused = false }

abbrev pub world : {S : Type 0} → S → Monitor → World S
world s m = record { state = s; monitor = m }

module _ {S : Type 0} (fs : Lfs S) where
  read_open-monitor : (s : S) → (read_open fs (world s with_open_file)).1.monitor ≡ with_open_file
  unfolding read_open fill_buffer lfs_file_size malloc lfs_file_read
  read_open-monitor s = elim (Bool-cases (ltb 0 (fs.size 0 s).0)) [
    | inl a ↦ elim (Bool-cases (fs.malloc (fs.size 0 s).0 (fs.size 0 s).1).0) [
      | inl b ↦ rw (a, b) refl
      | inr b ↦ rw (a, b) refl
    ]
    | inr a ↦ rw a refl
  ]

  read_mounted-monitor :
      (name : List ℕ) (s : S)
      → (read_mounted fs name (world s mounted_only)).1.monitor ≡ mounted_only
  unfolding read_mounted lfs_file_open lfs_file_close
  read_mounted-monitor name s = elim (Bool-cases (is_ok (fs.open_file 0 name o_rdonly s).0)) [
    | inl a ↦ let m = read_open-monitor (fs.open_file 0 name o_rdonly s).1 in rw (a, m) refl
    | inr a ↦ rw a refl
  ]

  write_mounted-monitor :
      (buf name : List ℕ) (s : S)
      → (write_mounted fs buf name (world s mounted_only)).1.monitor ≡ mounted_only
  unfolding write_mounted lfs_file_open lfs_file_write lfs_file_close
  write_mounted-monitor buf name s =
      elim (Bool-cases (is_ok (fs.open_file 0 name o_wronly_creat s).0)) [
        | inl a ↦ rw a refl
        | inr a ↦ rw a refl
      ]

  -- A change that is one call on the mounted file system.
  abbrev Keeps : (World S → ℤ × World S) → Type 0
  Keeps change = (s : S) → (change (world s mounted_only)).1.monitor ≡ mounted_only

  change_mounted-monitor :
      (change : World S → ℤ × World S) (name : List ℕ) (s : S)
      → Keeps change
      → (change_mounted fs change name (world s mounted_only)).1.monitor ≡ mounted_only
  unfolding change_mounted lfs_stat
  change_mounted-monitor change name s keeps = elim (Bool-cases (is_ok (fs.stat name s).0)) [
    | inl a ↦ rw (a, keeps (fs.stat name s).1.1) refl
    | inr a ↦ rw a refl
  ]

  flash_change-monitor :
      (change : World S → ℤ × World S) (name : List ℕ) (s : S)
      → Keeps change
      → (flash_change fs change name (world s idle)).1.monitor ≡ idle
  unfolding flash_change lfs_mount lfs_unmount
  flash_change-monitor change name s keeps = elim (Bool-cases (is_ok (fs.mount s).0)) [
    | inl a ↦ let m = change_mounted-monitor change name (fs.mount s).1 keeps in rw (a, m) refl
    | inr a ↦ rw a refl
  ]

  read-monitor : (name : List ℕ) (s : S) → (flash_read_file fs name (world s idle)).1.monitor ≡ idle
  unfolding flash_read_file lfs_mount lfs_unmount
  read-monitor name s = elim (Bool-cases (is_ok (fs.mount s).0)) [
    | inl a ↦ let m = read_mounted-monitor name (fs.mount s).1 in rw (a, m) refl
    | inr a ↦ rw a refl
  ]

  write-monitor :
      (buf name : List ℕ) (s : S) → (flash_write_file fs buf name (world s idle)).1.monitor ≡ idle
  unfolding flash_write_file lfs_mount lfs_unmount
  write-monitor buf name s = elim (Bool-cases (is_ok (fs.mount s).0)) [
    | inl a ↦ let m = write_mounted-monitor buf name (fs.mount s).1 in rw (a, m) refl
    | inr a ↦ rw a refl
  ]

  size-monitor : (name : List ℕ) (s : S) → (flash_file_size fs name (world s idle)).1.monitor ≡ idle
  unfolding flash_file_size lfs_mount lfs_unmount lfs_stat
  size-monitor name s = elim (Bool-cases (is_ok (fs.mount s).0)) [
    | inl a ↦ rw a refl
    | inr a ↦ rw a refl
  ]

  -- Whatever littlefs and malloc return, reading, writing, deleting and renaming a file and asking
  -- for its size leave the file system unmounted and the file closed, and no call among them is made
  -- out of order: none on a file that is not open or a file system that is not mounted, no second
  -- mount or open, and no unmount with a file open.
  pub flash-idle :
      (s : S) (buf name new_name : List ℕ)
      → ((flash_read_file fs name (world s idle)).1.monitor ≡ idle)
        × ((flash_write_file fs buf name (world s idle)).1.monitor ≡ idle)
        × ((flash_delete_file fs name (world s idle)).1.monitor ≡ idle)
        × ((flash_rename_file fs name new_name (world s idle)).1.monitor ≡ idle)
        × ((flash_file_size fs name (world s idle)).1.monitor ≡ idle)
  unfolding flash_delete_file flash_rename_file lfs_remove lfs_rename
  flash-idle s buf name new_name = (
    read-monitor name s,
    write-monitor buf name s,
    flash_change-monitor (lfs_remove fs name) name s (λ r. refl),
    flash_change-monitor (lfs_rename fs name new_name) name s (λ r. refl),
    size-monitor name s,
  )
