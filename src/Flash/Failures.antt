-- ===== src/Flash/Failures.antt =====
-- Failures of a read or a write that src/flash.c does not report.
use lcdpico_34401a.Common.{
  ℕ, ◌^◌, ◌<◌, ◌≡◌, refl, ◌∙◌, arith, true, false, List, length, ltb, if◌then◌else◌,
}
use lcdpico_34401a.Common.Int.{ℤ, pos, negsuc}
use lcdpico_34401a.Flash.Littlefs.{Lfs, is_ok, Monitor, lfs_mount, lfs_file_open, lfs_file_write}
use lcdpico_34401a.Flash.Files.{o_wronly_creat, to_u32, write_mounted, flash_write_file}

-- A negative result becomes a number that no size exceeds.
error_is_large : (n size : ℕ) → n < 2 ^ 31 → size < 2 ^ 31 → ltb (to_u32 (negsuc n)) size ≡ false
error_is_large n size h k = ground (arith, h, k)

count_is_kept : (n size : ℕ) → n < 2 ^ 31 → ltb (to_u32 (pos n)) size ≡ ltb n size
count_is_kept n size h = ground (arith, h)

-- A result of 32 bits.
abbrev pub IsInt : ℤ → Type 0
IsInt (pos n) = n < 2 ^ 31
IsInt (negsuc n) = n < 2 ^ 31

-- What the caller of a write learns: a short count is -3, and all else is success.
abbrev pub reported : ℤ → ℕ → ℤ
reported (pos n) size = if ltb n size then negsuc 2 else pos 0
reported (negsuc n) size = pos 0

reported-eq :
    (r : ℤ) (size : ℕ)
    → IsInt r
    → size < 2 ^ 31
    → (if ltb (to_u32 r) size then negsuc 2 else pos 0) ≡ reported r size
reported-eq (pos n) size h k = rw (count_is_kept n size h) refl
reported-eq (negsuc n) size h k = rw (error_is_large n size h k) refl

module _ {S : Type 0} (fs : Lfs S) where
  -- The state in which the file is open for writing.
  abbrev pub opened_w : List ℕ → S → ℤ × S
  opened_w name s = fs.open_file 0 name o_wronly_creat (fs.mount s).1

  write-open :
      (buf name : List ℕ) (s : S) (m : Monitor)
      → is_ok (fs.mount s).0 ≡ true
      → is_ok (opened_w name s).0 ≡ true
      → (flash_write_file fs buf name (record { state = s; monitor = m })).0 ≡ (
          if ltb (to_u32 (fs.write 0 buf (opened_w name s).1).0) (length buf)
          then negsuc 2
          else pos 0)
  unfolding flash_write_file write_mounted lfs_mount lfs_file_open lfs_file_write
  write-open buf name s m a b = rw (a, b) refl

  -- Where the file system is mounted and the file opened, the write of a buffer of less than 2 GB is
  -- reported as a failure, -3, exactly if littlefs wrote some bytes but not all; an error of littlefs
  -- in the write is reported as success.
  pub flash_write_file-reported :
      (buf name : List ℕ) (s : S) (m : Monitor)
      → is_ok (fs.mount s).0 ≡ true
      → is_ok (opened_w name s).0 ≡ true
      → length buf < 2 ^ 31
      → IsInt (fs.write 0 buf (opened_w name s).1).0
      → (flash_write_file fs buf name (record { state = s; monitor = m })).0
        ≡ reported (fs.write 0 buf (opened_w name s).1).0 (length buf)
  flash_write_file-reported buf name s m a b small code =
      write-open buf name s m a b
      ∙ reported-eq (fs.write 0 buf (opened_w name s).1).0 (length buf) code small
