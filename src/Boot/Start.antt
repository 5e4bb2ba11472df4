-- ===== src/Boot/Start.antt =====
-- What `kmain` leaves to the scheduler, or to `panic`.
use system.Common.{get_or, length, refl, true, ℕ, ◌<◌, ◌≡◌, ◌≢◌}
use system.Boot.{
  Booted, Handover, Kernel, kmain, mount_done, panicked, scheduling, start_interrupts, start_tasks,
}
use system.Interrupts.{Stubs}
use system.Interrupts.Gates.{
  AreAddresses, IsInterruptGate, handler_of, int_init-stubs, no_gate, stub_for,
}
use system.Kfs.{Kfs, Mounted, disk_read_failure, kfs_mount, mounted, not_a_volume}
use system.Pmm.Init.Boot.{Boots, pmm_init-Boots}
use system.Sched.{Machine, enter, nproc}
use system.Sched.Start.{TwoTasks, spawn-TwoTasks}

-- The interrupts are let in, and every vector's gate leads to its stub.
pub record Listens (stubs : Stubs) (k : Kernel) : Type 0 where
  pub enabled : k.enabled ≡ true
  pub gates :
      (v : ℕ)
      → v < 256
      → (handler_of (get_or k.interrupts.idt v no_gate) ≡ stub_for stubs v)
        × IsInterruptGate (get_or k.interrupts.idt v no_gate)

-- The state in which the scheduler is entered: on the volume that was mounted, with the two processes.
pub record Ready (task1 sh : ℕ) (old k : Kernel) (m : Machine) : Type 0 where
  pub volume : kfs_mount old.kfs ≡ mounted k.kfs
  pub tasks : TwoTasks task1 sh old.table k.table
  pub entered : m ≡ enter k.table

-- In both ends of `kmain` the interrupts and the allocator are set up. It panics where there is no
-- volume, and then no process has been spawned.
abbrev pub Ends : Handover → Stubs → (task1 sh : ℕ) → Kernel → Booted → Type 0
Ends h stubs task1 sh old (panicked msg k) =
    Listens stubs k
    × Boots h.regions k.pmm
    × (k.table ≡ old.table)
    × ((kfs' : Kfs) → kfs_mount old.kfs ≢ mounted kfs')
Ends h stubs task1 sh old (scheduling k m) =
    Listens stubs k × Boots h.regions k.pmm × Ready task1 sh old k m

mount_done-Ends :
    (mnt : Mounted) (h : Handover) (stubs : Stubs) (task1 sh : ℕ) (old k : Kernel)
    → kfs_mount old.kfs ≡ mnt
    → k.table ≡ old.table
    → length old.table.proc ≡ nproc
    → Listens stubs k
    → Boots h.regions k.pmm
    → Ends h stubs task1 sh old (mount_done mnt task1 sh k)
unfolding mount_done start_tasks
mount_done-Ends disk_read_failure h stubs task1 sh old k e t len l b = (l, b, t, λ kfs' q. cc)
mount_done-Ends not_a_volume h stubs task1 sh old k e t len l b = (l, b, t, λ kfs' q. cc)
mount_done-Ends (mounted kfs') h stubs task1 sh old k e t len l b = (
  record { enabled = l.enabled; gates = l.gates },
  b,
  record { volume = e; tasks = rw t (spawn-TwoTasks task1 sh old.table len); entered = refl },
)

-- On an interrupt table of 256 gates, stubs at 32-bit addresses and a process table of eight slots,
-- `kmain` comes to the scheduler or panics. Interrupts are let in, with every gate leading to its stub;
-- the allocator is as `pmm_init` promises it; on a volume the scheduler is entered with `task1`
-- in slot 0, `sh` in slot 1, no other process and `task1` as the first to run; without one `kmain`
-- panics, and no process has been spawned.
pub kmain-Ends :
    (h : Handover) (stubs : Stubs) (task1 sh : ℕ) (k : Kernel)
    → length k.interrupts.idt ≡ 256
    → AreAddresses stubs
    → length k.table.proc ≡ nproc
    → Ends h stubs task1 sh k (kmain h stubs task1 sh k)
unfolding kmain start_interrupts
kmain-Ends h stubs task1 sh k gates addresses len =
    mount_done-Ends (kfs_mount k.kfs) h stubs task1 sh k _ refl refl len
      (record {
        enabled = refl;
        gates = λ v lt. int_init-stubs stubs h.a1 h.a2 v k.interrupts gates addresses lt;
      })
      (pmm_init-Boots h.regions)
