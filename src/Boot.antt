-- ===== src/Boot.antt =====
-- kernel/core/init.c, kmain: the parts of the kernel in the order in which they are set up, up to the
-- scheduler. What is printed on the way, the list of the PCI devices included, is left out, and with it
-- the screen and the memory behind it; no interrupt comes before the scheduler runs.
pub mod Start
mod Tests
use system.Common.{List, [], ◌∷◌, ◌++◌, Bool, true, suc, zero, ℕ, ◌%◌, ◌+◌, ◌*◌, ◌-◌, ◌/◌}
use system.Fb.{FbInfo, Memory, fb_init}
use system.Fbcon.{codes, char_w, fbcstr}
use system.Interrupts.{Interrupts, PortWrite, Stubs, int_init, pitsetfreq}
use system.Kfs.{Kfs, Mounted, disk_read_failure, kfs_mount, mounted, not_a_volume}
use system.Pmm.Init.{E820Entry, Init, pmm_init}
use system.Sched.{Machine, Ptable, enter, sched_init, task_l_spawn}
use system.Tty.{screen_width}

-- What the boot code and the machine hand over: the address of the mode info block and the memory that
-- it lies in, the masks of the two interrupt controllers, and the firmware's map.
pub record Handover : Type 0 where
  pub vbe : ℕ
  pub memory : Memory
  pub a1 : ℕ
  pub a2 : ℕ
  pub regions : List E820Entry

-- The statics of the parts, the writes to the ports so far, and whether interrupts are let in.
pub record Kernel : Type 0 where
  pub fb : FbInfo
  pub ports : List PortWrite
  pub interrupts : Interrupts
  pub enabled : Bool
  pub pmm : Init
  pub kfs : Kfs
  pub table : Ptable

-- `kmain` ends in `panic` where there is no volume, or runs the scheduler.
pub data Booted : Type 0 where
  panicked : List ℕ → Kernel → Booted
  scheduling : Kernel → Machine → Booted

-- `pitsetfreq`, `int_init` and `sti`.
pub start_interrupts : Handover → Stubs → Kernel → Kernel
start_interrupts h stubs k =
    let writes1 = pitsetfreq 1000 in
    let (interrupts', writes2) = int_init stubs h.a1 h.a2 k.interrupts in
    record k { ports = k.ports ++ (writes1 ++ writes2); interrupts = interrupts'; enabled = true }

-- `sched_init`, and the two processes.
pub start_tasks : (task1 sh : ℕ) → Ptable → Ptable
start_tasks task1 sh t = (task_l_spawn sh (task_l_spawn task1 (sched_init t)).1).1

-- What follows `kfs_mount`.
pub mount_done : Mounted → (task1 sh : ℕ) → Kernel → Booted
mount_done disk_read_failure task1 sh k =
    panicked (codes "i have no root and i must scream. (disk read failure)") k
mount_done not_a_volume task1 sh k =
    panicked (codes "i have no root and i must scream. (invalid magic, not a KFS volume)") k
mount_done (mounted kfs') task1 sh k =
    let t = start_tasks task1 sh k.table in
    scheduling (record k { kfs = kfs'; table = t }) (enter t)

-- `task1` and `sh` are the addresses of the two functions.
pub kmain : Handover → Stubs → (task1 sh : ℕ) → Kernel → Booted
kmain h stubs task1 sh k =
    let k1 = record k { fb = fb_init h.vbe h.memory k.fb } in
    let k2 = start_interrupts h stubs k1 in
    let k3 = record k2 { pmm = pmm_init h.regions } in mount_done (kfs_mount k3.kfs) task1 sh k3

-- The counter of the tasks `task1` and `task2`, `n = ++n % 10`, and the digit that they show, in round
-- `n`.
pub counter : ℕ → ℕ
counter zero = 0
counter (suc n) = (counter n + 1) % 10

pub counter_text : ℕ → List ℕ
counter_text n = (b'0' + counter n) ∷ []

-- One round of such a task, on the screen, before it waits and yields. The texts stand at half the
-- screen's width, also from above.
pub task_round : FbInfo → (label : List ℕ) → (n : ℕ) → Memory → Memory
task_round fb label n mem =
    let x = screen_width / 2 in
    let mem1 = fbcstr fb x x (8 ∷ []) 0 mem in
    let mem2 = fbcstr fb (x - 16 * char_w) x label 0xFFFFFF mem1 in
    fbcstr fb x x (counter_text n) 0xFFFFFF mem2

pub task1_round : FbInfo → (n : ℕ) → Memory → Memory
task1_round fb n mem = task_round fb (codes "TASK 1 Counter:") n mem

pub task2_round : FbInfo → (n : ℕ) → Memory → Memory
task2_round fb n mem = task_round fb (codes "TASK 2 Counter:") n mem
