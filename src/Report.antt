-- ===== src/Report.antt =====
-- What the kernel reports of the machine: the processor's name (kernel/core/hwi.c), the firmware's map
-- of the memory (kernel/mm/lmm.c), the registers at a panic (kernel/core/panic.c), and the last words
-- before the machine is switched off (kernel/core/power.c). A report is the bytes that go to the terminal,
-- one after the other; the tick count that a log line shows is an argument.
pub mod Digits
mod Tests
use system.Common.{
  List, [], ◌∷◌, ◌++◌, get_or, if◌then◌else◌, ltb, suc, zero, ℕ, ◌%◌, ◌*◌, ◌+◌, ◌/◌, ◌==◌, ◌^◌,
}
use system.Fbcon.{codes}
use system.Format.{hex_digit, klog, puthex}
use system.Interrupts.{PortWrite, out}
use system.Pmm.Init.{E820Entry}

-- A text up to its terminator.
pub shown_text : List ℕ → List ℕ
shown_text [] = []
shown_text (c ∷ s) = let rest = shown_text s in if c == 0 then [] else c ∷ rest

-- What `cpuid` gives for a leaf.
pub record CpuidWords : Type 0 where
  pub eax : ℕ
  pub ebx : ℕ
  pub ecx : ℕ
  pub edx : ℕ

-- A word as it is stored.
abbrev pub stored_word : ℕ → List ℕ
stored_word v = v % 256 ∷ v / 2 ^ 8 % 256 ∷ v / 2 ^ 16 % 256 ∷ v / 2 ^ 24 % 256 ∷ []

-- The four words of round `i`, in `brand`.
pub brand_part : (cpuid : ℕ → CpuidWords) → ℕ → List ℕ
brand_part cpuid i =
    let w = cpuid (0x80000002 + i) in
    stored_word w.eax ++ (stored_word w.ebx ++ (stored_word w.ecx ++ stored_word w.edx))

pub cpuident : (cpuid : ℕ → CpuidWords) → List ℕ
cpuident cpuid =
    shown_text (brand_part cpuid 0 ++ (brand_part cpuid 1 ++ (brand_part cpuid 2 ++ (0 ∷ []))))
    ++ (10 ∷ [])

-- `for (s = 28; s >= 0; s -= 4)`: `n` rounds, the last of which has the shift 0.
pub nibbles : (n v : ℕ) → List ℕ
nibbles zero v = []
nibbles (suc n) v = hex_digit b'A' (v / 16 ^ n % 16) ∷ nibbles n v

-- `types[type]`, for a type of eight bits.
pub type_name : ℕ → List ℕ
type_name type =
    if type == 1
    then codes "RAM"
    else if type == 2
    then codes "Reserved"
    else if type == 3
    then codes "ACPI Reclaim"
    else if type == 4
    then codes "ACPI NVS"
    else if type == 5
    then codes "Bad RAM"
    else codes "Unknown"

-- The line of entry `i`.
pub entry_line : (ticks i : ℕ) → E820Entry → List ℕ
entry_line ticks i e =
    klog ticks ((b'0' + i % 10) ∷ [])
    ++ (codes ": base=0x"
        ++ (nibbles 8 e.base_low
            ++ (codes " len=0x"
                ++ (nibbles 8 e.length_low
                    ++ (codes " type=" ++ (type_name (e.kind % 256) ++ (10 ∷ [])))))))

-- The loop, from entry `i` on. `clock` gives the ticks of each log line.
pub entry_lines : (clock : ℕ → ℕ) → (i : ℕ) → List E820Entry → List ℕ
entry_lines clock i [] = []
entry_lines clock i (e ∷ es) = entry_line (clock (i + 1)) i e ++ entry_lines clock (i + 1) es

pub mmp : (clock : ℕ → ℕ) → List E820Entry → List ℕ
mmp clock map = klog (clock 0) (codes "E820 Memory Map:" ++ (10 ∷ [])) ++ entry_lines clock 0 map

-- `cpu_regs_t`.
pub record CpuRegs : Type 0 where
  pub r_eax : ℕ
  pub r_ebx : ℕ
  pub r_ecx : ℕ
  pub r_edx : ℕ
  pub r_esi : ℕ
  pub r_edi : ℕ
  pub r_ebp : ℕ
  pub r_esp : ℕ
  pub r_eip : ℕ
  pub r_cs : ℕ
  pub r_eflags : ℕ

-- A register's name, its value and a space.
pub register : List ℕ → ℕ → List ℕ
register name v = name ++ (puthex v ++ (b' ' ∷ []))

-- What `panic` prints before it halts. `version` is infoKernelVersion.
pub panic : (cpuid : ℕ → CpuidWords) → (version msg : List ℕ) → CpuRegs → List ℕ
panic cpuid version msg r =
    (10 ∷ codes " ----- oops! -----")
    ++ (10 ∷ 10 ∷ codes " Kernel: ")
    ++ version
    ++ (10 ∷ codes " CPU: ")
    ++ cpuident cpuid
    ++ (10 ∷ register (codes " EAX=") r.r_eax)
    ++ register (codes "EBX=") r.r_ebx
    ++ register (codes "ECX=") r.r_ecx
    ++ (10 ∷ register (codes " EDX=") r.r_edx)
    ++ register (codes "ESI=") r.r_esi
    ++ register (codes "EDI=") r.r_edi
    ++ (10 ∷ register (codes " EBP=") r.r_ebp)
    ++ register (codes "ESP=") r.r_esp
    ++ register (codes "EIP=") r.r_eip
    ++ (10 ∷ register (codes " CS=") r.r_cs)
    ++ (codes "EFLAGS=" ++ puthex r.r_eflags)
    ++ (10 ∷ 10 ∷ codes " panic: ")
    ++ msg

-- `reboot`: what it prints, and the byte for the keyboard controller's port.
pub reboot : (ticks : ℕ) → List ℕ × List PortWrite
reboot ticks = (klog ticks (codes "reboot triggered"), out 0x64 0xFE ∷ [])

-- `shutdown` up to the calls of the firmware: what it prints, and the writes to the ports, the first of
-- a byte and the others of 16 bits.
pub shutdown : (ticks : ℕ) → List ℕ × List PortWrite
shutdown ticks = (
  klog ticks (codes "shutdown triggered" ++ (10 ∷ [])),
  out 0x501 0x00
      ∷ out 0xB004 0x2000
      ∷ out 0x604 0x2000
      ∷ out 0x4004 0x3400
      ∷ out 0x600 0x34
      ∷ out 0xB004 0x2000
      ∷ [],
)
