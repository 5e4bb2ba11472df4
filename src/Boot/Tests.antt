-- ===== src/Boot/Tests.antt =====
-- A machine with one region of memory and a drive with an empty volume.
use system.Common.{[], ◌∷◌, replicate, arith, false, length-replicate, none}
use system.Boot.{Handover, Kernel, kmain}
use system.Boot.Start.{Ends, kmain-Ends}
use system.Interrupts.{Gate, Stubs}
use system.Interrupts.Gates.{no_gate}
use system.Pmm.Init.{no_memory}
use system.Sched.{Proc, unused}

abbrev handover : Handover
handover = record {
  vbe = 0;
  memory = λ a. 0;
  a1 = 0xFF;
  a2 = 0xFF;
  regions =
      record { base_low = 0x100000; base_high = 0; length_low = 0x10000; length_high = 0; kind = 1 }
      ∷ [];
}

abbrev stubs : Stubs
stubs = record {
  default_stub = 0x10000;
  isr0_stub = 0x10010;
  irq0_stub = 0x10020;
  irq1_stub = 0x10030;
  syscall_stub = 0x10040;
  idt_address = 0x20000;
}

-- The drive has the magic number at the start of every sector.
abbrev kernel : Kernel
kernel = record {
  fb = record { addr = 0; width = 0; height = 0; pitch = 0; bpp = 0 };
  ports = [];
  interrupts = record {
    idt = replicate 256 no_gate;
    limit = 0;
    base = 0;
    master_mask = 0;
    slave_mask = 0;
    ticks = 0;
  };
  enabled = false;
  pmm = no_memory;
  kfs = record {
    superblock = record { magic = 0; file_count = 0; files = [] };
    behind = [];
    disk = record { sector = λ a. 0x4B ∷ 0x46 ∷ 0x53 ∷ 0x30 ∷ replicate 508 0; bad = λ a. false };
  };
  table = record {
    proc = replicate 8 (record { state = unused; context = 0; stack = replicate 1024 0 });
    current = none;
    sched_context = false;
  };
}

kmain-Ends_example :
    Ends handover stubs 0x11000 0x12000 kernel (kmain handover stubs 0x11000 0x12000 kernel)
kmain-Ends_example =
    kmain-Ends handover stubs 0x11000 0x12000 kernel (length-replicate {A = Gate} 256 no_gate)
      (omega arith)
      (length-replicate {A = Proc} 8
        (record { state = unused; context = 0; stack = replicate 1024 0 }))
