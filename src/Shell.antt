-- ===== src/Shell.antt =====
-- kernel/core/shell.c: the line editor of `sh`, the choice of the command, and what the commands do.
-- The keys are those that `get_key` gives, one after the other: where there is none, the shell yields
-- and asks again, and nothing else changes. `none` is a fault.
pub mod Editor
pub mod Choice
pub mod Files
pub mod Session
pub mod Listing
mod Tests
use mathlib.Core.Option
use system.Common.{
  Bool, List, Option, [], drop, false, get_or, if◌then◌else◌, leb, ltb, none, pos, replicate, set,
  some, suc, take, zero, ℕ, negsuc, ◌++◌, ◌+◌, ◌-◌, ◌==◌, ◌∷◌, ℤ, ◌>>=◌,
}
use system.CString.{strcmp, strtok}
use system.Fbcon.{codes}
use system.Format.{escaped}
use system.Kfs.{
  Kfs, KfsFile, ReadResult, bytes_read, failed, kfs_find, kfs_read, kfs_write, no_file, not_found,
}

-- `chars` and `i`.
pub record Line : Type 0 where
  pub chars : List ℕ
  pub i : ℕ

pub fresh : Line
fresh = record { chars = replicate 128 0; i = 0 }

-- The line goes on, or it is complete.
pub data Editing : Type 0 where
  more : Line → Editing
  complete : List ℕ → Editing

-- One key: the line, and what is printed.
pub key : ℕ → Line → Editing × List ℕ
key c l =
    if c == 8
    then (if ltb 0 l.i then (more (record l { i = l.i - 1 }), 8 ∷ []) else (more l, []))
    else if leb 127 l.i
    then (complete (set l.chars l.i 0), [])
    else if c == 10
    then (complete (set (set l.chars l.i c) l.i 0), c ∷ [])
    else (more (record l { chars = set l.chars l.i c; i = l.i + 1 }), c ∷ [])

-- The complete line, what was printed, and the keys that are left; `none` where the keys end.
pub record Entered : Type 0 where
  pub line : List ℕ
  pub echo : List ℕ
  pub keys : List ℕ

pub read_line : List ℕ → Line → (echo : List ℕ) → Option Entered
read_line [] l echo = none
read_line (c ∷ keys) l echo =
    let (e, printed) = key c l in
    elim e [
      | more l' ↦ read_line keys l' (echo ++ printed)
      | complete chars ↦ some (record { line = chars; echo = echo ++ printed; keys = keys })
    ]

pub data Command : Type 0 where
  version ls clear touch cat reboot shutdown exec help unknown blank : Command

unfoldable pub is_zero : ℤ → Bool
is_zero (pos d) = d == 0
is_zero (negsuc d) = false

-- CMD_COMP: the line after `strtok`, and whether it starts with the word `name`.
pub cmd_comp : (chars name : List ℕ) → Option (Bool × List ℕ)
cmd_comp chars name = do
  token ← strtok (some 0) (b' ' ∷ 0 ∷ []) (record { buffer = chars; next = none })
  z ← strcmp token.1.buffer name
  some (is_zero z, token.1.buffer)

-- The chain of tests, over the names that are left.
pub choose : List (List ℕ × Command) → (chars : List ℕ) → Option (Command × List ℕ)
choose [] chars = some (if get_or chars 0 0 == 0 then blank else unknown, chars)
choose ((name, command) ∷ names) chars = do
  test ← cmd_comp chars (name ++ (0 ∷ []))
  let rest = choose names test.1
  if test.0 then some (command, test.1) else rest

abbrev pub commands : List (List ℕ × Command)
commands =
    (codes "version", version)
    ∷ (codes "ls", ls)
    ∷ (codes "clear", clear)
    ∷ (codes "touch", touch)
    ∷ (codes "cat", cat)
    ∷ (codes "reboot", reboot)
    ∷ (codes "shutdown", shutdown)
    ∷ (codes "exec", exec)
    ∷ (codes "help", help)
    ∷ []

-- What a command does: it prints a text and leaves the file system, or control goes elsewhere.
pub data Action : Type 0 where
  prints : List ℕ → Kfs → Action
  clears reboots powers_off : Action
  executes : List ℕ → Action

-- The text up to its terminator.
unfoldable pub c_text : List ℕ → Option (List ℕ)
c_text [] = none
c_text (c ∷ s) = let rest = c_text s in if c == 0 then some [] else Option.map (◌∷◌ c) rest

-- The loop of `ls` over `n` entries from entry `j`.
pub list_files : List KfsFile → (n j : ℕ) → Option (List ℕ)
list_files files zero j = some []
list_files files (suc n) j = do
  name ← c_text (get_or files j no_file).file_name
  rest ← list_files files n (j + 1)
  some (name ++ (10 ∷ rest))

abbrev pub max_cat_size : ℕ
max_cat_size = 8192

-- What `cat` prints of a file of `size` bytes after `kfs_read`. The buffer holds what was read. ERR_NOT_FOUND
-- is 1, and the code tests for less than 0: it would print what the buffer held before, which is not
-- modelled, so that this is `none`; it does not come about for an entry that its own name finds.
pub shown : (size : ℕ) → ReadResult → Option (List ℕ)
shown size not_found = none
shown size failed = some (codes "kfs: ioerr" ++ (10 ∷ []))
shown size (bytes_read bytes) = some (take size bytes ++ (10 ∷ []))

pub cat_found : Kfs → (name : List ℕ) → Option ℕ → Option (List ℕ)
cat_found k name none =
    Option.map (λ s. codes "cat: " ++ (escaped s ++ (codes ": not found" ++ (10 ∷ []))))
      (c_text name)
cat_found k name (some i) =
    let f = get_or k.superblock.files i no_file in
    if ltb max_cat_size f.size
    then some (codes "cat: file too large (max 8192 bytes)" ++ (10 ∷ []))
    else kfs_read k f.file_name >>= shown f.size

pub run_cat : Kfs → (name : List ℕ) → Option (List ℕ)
run_cat k name = do found ← kfs_find k.superblock name; cat_found k name found

pub help_text : List ℕ
help_text =
    codes "Available commands:"
    ++ (10 ∷ codes " version      - show kernel version")
    ++ (10 ∷ codes " ls           - list files in kfs")
    ++ (10 ∷ codes " cat <file>   - display file contents")
    ++ (10 ∷ codes " exec <file>  - execute UEX file")
    ++ (10 ∷ codes " clear        - clear the screen")
    ++ (10 ∷ codes " help         - show this help message")
    ++ (10 ∷ codes " touch <file> - create an empty file")
    ++ (10 ∷ codes " reboot       - reboot the system")
    ++ (10 ∷ codes " shutdown     - power off the system")
    ++ (10 ∷ [])

-- The arguments stand at fixed places of the line. The memory that `""` points to is not read, since
-- a file of no bytes has no sectors.
pub perform : Command → (chars : List ℕ) → Kfs → Option Action
perform version chars k = some (prints (codes "2.10.0" ++ (10 ∷ [])) k)
perform ls chars k =
    Option.map (λ text. prints text k) (list_files k.superblock.files k.superblock.file_count 0)
perform clear chars k = some clears
perform touch chars k = Option.map (λ out. prints [] out.1) (kfs_write (drop 6 chars) [] 0 k)
perform cat chars k = Option.map (λ text. prints text k) (run_cat k (drop 4 chars))
perform reboot chars k = some reboots
perform shutdown chars k = some powers_off
perform exec chars k = some (executes (drop 5 chars))
perform help chars k = some (prints help_text k)
perform unknown chars k =
    Option.map (λ s. prints (escaped s ++ (codes ": command not found" ++ (10 ∷ []))) k)
      (c_text chars)
perform blank chars k = some (prints [] k)

-- A complete line.
pub run_line : List ℕ → Kfs → Option Action
run_line chars k = do chosen ← choose commands chars; perform chosen.0 chosen.1 k
