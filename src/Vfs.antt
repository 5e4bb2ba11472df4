-- ===== src/Vfs.antt =====
-- kernel/fs/vfs.c: one kind of handle for the terminal and for files. A handle is the address 1 for the
-- terminal, or the address of an entry of the superblock, here its index; NULL is no handle. `none` is
-- a fault.
pub mod Terminal
pub mod Stale
mod Tests
use mathlib.Core.Option
use system.Common.{
  List, Option, [], get_or, if◌then◌else◌, leb, negsuc, none, pos, some, ℕ, ℤ, ◌++◌, ◌∷◌, ◌>>=◌,
  replicate, set,
}
use system.CString.{memcpy, strcmp}
use system.Fbcon.{codes}
use system.Kfs.{Kfs, ReadResult, kfs_find, kfs_read, kfs_write, no_file}
use system.Shell.{c_text, is_zero}

pub data Handle : Type 0 where
  tty : Handle
  file : ℕ → Handle

pub vfs_l_open : Kfs → (path : List ℕ) → Option (Option Handle)
vfs_l_open k path = do
  z ← strcmp path (codes "/dev/tty" ++ (0 ∷ []))
  let by_name = Option.map (Option.map file) (kfs_find k.superblock path)
  if is_zero z then some (some tty) else by_name

-- The result of a write: the number that is returned, the text that is printed, and the file system.
pub record Wrote : Type 0 where
  pub result : ℤ
  pub printed : List ℕ
  pub kfs : Kfs

-- The part of `tmp` in front of its end is the bytes of `buf`; what was behind it is not printed.
pub tty_write : (buf : List ℕ) → (len : ℕ) → Kfs → Option Wrote
tty_write buf len k = do
  tmp ← memcpy (replicate 512 0) buf len
  text ← c_text (set tmp len 0)
  some (record { result = pos len; printed = text; kfs = k })

pub vfs_l_write : Option Handle → (buf : List ℕ) → (count : ℕ) → Kfs → Option Wrote
vfs_l_write none buf count k = some (record { result = negsuc 0; printed = []; kfs = k })
vfs_l_write (some tty) buf count k = tty_write buf (if leb 512 count then 511 else count) k
vfs_l_write (some (file i)) buf count k =
    Option.map (λ out. record { result = out.0; printed = []; kfs = out.1 })
      (kfs_write (get_or k.superblock.files i no_file).file_name buf count k)

-- A result of the file system, or -1 for NULL. The terminal's handle is no entry: the read of its name
-- is a fault.
unfoldable pub vfs_l_read : Option Handle → Kfs → Option (Option ReadResult)
vfs_l_read none k = some none
vfs_l_read (some tty) k = none
vfs_l_read (some (file i)) k =
    Option.map some (kfs_read k (get_or k.superblock.files i no_file).file_name)
