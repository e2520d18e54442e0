-- ===== src/Flash/Files.antt =====
-- The operations of src/flash.c on files, for names that are not null.
use lcdpico_34401a.Common.{
  ℕ, ◌-◌, ◌%◌, ◌^◌, Bool, not, List, length, ltb, if◌then◌else◌, Option, none, some, bit_or,
}
use lcdpico_34401a.Common.Int.{ℤ, pos, negsuc}
use lcdpico_34401a.Flash.Littlefs.{
  Lfs, is_ok, World, lfs_mount, lfs_unmount, lfs_file_open, lfs_file_close, lfs_file_size,
  lfs_file_read, lfs_file_write, lfs_stat, lfs_remove, lfs_rename, malloc,
}

-- The flags of littlefs that are used.
abbrev pub o_rdonly : ℕ
o_rdonly = 1

abbrev pub o_wronly_creat : ℕ
o_wronly_creat = bit_or 2 256

-- A result of the library in an unsigned variable of 32 bits.
abbrev pub to_u32 : ℤ → ℕ
to_u32 (pos n) = n % 2 ^ 32
to_u32 (negsuc n) = 2 ^ 32 - 1 - n % 2 ^ 32

-- What a read gives back: the buffer, if one was allocated, the size and the result.
pub record FileRead : Type 0 where
  pub buf : Option (List ℕ)
  pub size : ℕ
  pub res : ℤ

abbrev pub no_file : ℤ → FileRead
no_file res = record { buf = none; size = 0; res = res }

module _ {S : Type 0} (fs : Lfs S) where
  -- The read into a buffer of `file_size` bytes.
  unfoldable pub fill_buffer : ℕ → World S → FileRead × World S
  unfolding lfs_file_read
  fill_buffer file_size w =
      let r : ℤ × (List ℕ × World S) = lfs_file_read fs file_size w in
      let size : ℕ = to_u32 r.0 in
      (
        record {
          buf = some r.1.0;
          size = size;
          res = if ltb size file_size then negsuc 4 else pos 0;
        },
        r.1.1,
      )

  -- The open file is read, if it is not empty and there is memory for it.
  unfoldable pub read_open : World S → FileRead × World S
  unfolding lfs_file_size malloc fill_buffer
  read_open w =
      let s : ℕ × World S = lfs_file_size fs w in
      let m : Bool × World S = malloc fs s.0 s.1 in
      if not (ltb 0 s.0)
      then (no_file (pos 0), s.1)
      else if m.0
      then fill_buffer s.0 m.1
      else (no_file (negsuc 3), m.1)

  unfoldable pub read_mounted : List ℕ → World S → FileRead × World S
  read_mounted name w =
      let o : ℤ × World S = lfs_file_open fs name o_rdonly w in
      let r : FileRead × World S = read_open o.1 in
      if is_ok o.0 then (r.0, lfs_file_close fs r.1) else (no_file (negsuc 2), o.1)

  unfoldable pub flash_read_file : List ℕ → World S → FileRead × World S
  flash_read_file name w =
      let m : ℤ × World S = lfs_mount fs w in
      let r : FileRead × World S = read_mounted name m.1 in
      if is_ok m.0 then (r.0, lfs_unmount fs r.1) else (no_file (negsuc 0), m.1)

  unfoldable pub write_mounted : List ℕ → List ℕ → World S → ℤ × World S
  unfolding lfs_file_open lfs_file_write lfs_file_close
  write_mounted buf name w =
      let o : ℤ × World S = lfs_file_open fs name o_wronly_creat w in
      let r : ℤ × World S = lfs_file_write fs buf o.1 in
      if is_ok o.0
      then (if ltb (to_u32 r.0) (length buf) then negsuc 2 else pos 0, lfs_file_close fs r.1)
      else (negsuc 1, o.1)

  unfoldable pub flash_write_file : List ℕ → List ℕ → World S → ℤ × World S
  flash_write_file buf name w =
      let m : ℤ × World S = lfs_mount fs w in
      let r : ℤ × World S = write_mounted buf name m.1 in
      if is_ok m.0 then (r.0, lfs_unmount fs r.1) else (negsuc 0, m.1)

  -- A change of a file that has to exist: -2 if it does not, -3 if the change fails.
  unfoldable pub change_mounted : (World S → ℤ × World S) → List ℕ → World S → ℤ × World S
  unfolding lfs_stat
  change_mounted change name w =
      let s : ℤ × (ℕ × World S) = lfs_stat fs name w in
      let r : ℤ × World S = change s.1.1 in
      if is_ok s.0 then (if is_ok r.0 then pos 0 else negsuc 2, r.1) else (negsuc 1, s.1.1)

  unfoldable pub flash_change : (World S → ℤ × World S) → List ℕ → World S → ℤ × World S
  flash_change change name w =
      let m : ℤ × World S = lfs_mount fs w in
      let r : ℤ × World S = change_mounted change name m.1 in
      if is_ok m.0 then (r.0, lfs_unmount fs r.1) else (negsuc 0, m.1)

  unfoldable pub flash_delete_file : List ℕ → World S → ℤ × World S
  flash_delete_file name = flash_change (lfs_remove fs name) name

  unfoldable pub flash_rename_file : List ℕ → List ℕ → World S → ℤ × World S
  flash_rename_file old new = flash_change (lfs_rename fs old new) old

  unfoldable pub flash_file_size : List ℕ → World S → ℤ × World S
  unfolding lfs_mount lfs_unmount lfs_stat
  flash_file_size name w =
      let m : ℤ × World S = lfs_mount fs w in
      let s : ℤ × (ℕ × World S) = lfs_stat fs name m.1 in
      if is_ok m.0
      then (if is_ok s.0 then pos s.1.0 else negsuc 1, lfs_unmount fs s.1.1)
      else (negsuc 0, m.1)
