-- ===== src/Lib.antt =====
-- system44: the kernel of a small operating system for 32-bit PCs, modelled from its C sources.
--
-- The parts and their files:
--   * Pmm (kernel/mm/pmm.c): the bitmap of pages with its hint. pmm_alloc searches from the hint to the
--     end and then from page 0 up to the hint, in whole words where nothing is half found; pmm_free
--     clears bits and moves the hint back. Pmm.Init is pmm_init on the firmware's memory map.
--   * Sched (kernel/sched/sched.c): the table of eight processes, task_l_spawn, and the loop of
--     m_scheduler cut where it switches to a process; a step relation gives every order of turns,
--     spawns and yields.
--   * Keyboard (kernel/drivers/keyboard.c): scan codes, shift and the ring buffer between the interrupt
--     handler and get_key. Keyboard.Queue is its abstract view.
--   * Font, Fbcon, Fb (kernel/drivers/fonts/basic8x8.h, fbcon.c, fb.c): the glyphs, characters drawn dot
--     by dot, and pixels in memory, which is a function from addresses to bytes.
--   * Tty (kernel/drivers/tty.c): the cursor, and the characters drawn for each character printed. It
--     draws by Fbcon, which draws by Fb.
--   * CString (kernel/lib/string.c, memory.c) and Format (kernel/lib/io.c printf, kernel/core/log.c,
--     puthex of kernel/core/panic.c): texts as byte lists, and the texts that are printed to the terminal.
--   * Ata (kernel/drivers/ata.c) and Kfs (kernel/fs/kfs.c): sector transfers, and the file system on them.
--   * Vfs (kernel/fs/vfs.c): handles for the terminal and for the entries of Kfs.
--   * Uex (kernel/exe/uex.c, kernel/lib/exec.c): loading a program. It finds the file by Kfs, reads it by
--     Ata, and takes pages from Pmm, which exec gives back.
--   * Shell (kernel/core/shell.c): the line editor on the keys of Keyboard, the choice of the command, and
--     the commands on Kfs.
--   * Interrupts (kernel/int/interrupts.c) and Time (kernel/lib/time.c): the interrupt table, the masks
--     of the controllers, the timer, and the waits on its ticks.
--   * Pci (kernel/drivers/pci.c): the configuration space, which is a record of operations, the probe of
--     the BARs, and the enumeration.
--   * Logo (kfsExtension0 and fblogo of kernel/drivers/fb.c): parts of a file, read sector by sector, and
--     the picture of a bitmap file in the frame, by way of pages from Pmm.
--   * Cpu, Interrupts.Entry, Sched.Switch (the stubs of kernel/int/interrupts.c, kernel/core/switch.s): the
--     kernel's assembly on a machine with registers and a stack. Cpu.Calls is what a C function promises.
--   * Boot (kernel/core/init.c): kmain's calls up to the scheduler. It sets up Fb, Interrupts, Pmm, Kfs and
--     Sched, in this order.
--   * Report (kernel/core/hwi.c, panic.c, power.c, kernel/mm/lmm.c): the texts of the processor, the memory
--     map, a panic and the power commands. Shell.Session carries the shell's commands out by Report, Uex
--     and Tty.
--   * Paging (kernel/mm/paging.c) and Rand (kernel/lib/rand.c): the page tables, and the generator.
--   * Vga (kernel/drivers/vga.c, tty_vtm.c): the text screen, and the terminal with two buffers on it.
--   * Common: lists, Boolean tests, integers and tables over the native numbers.
-- Below each file stand the modules of its proofs and, in Tests, its runs on concrete inputs.
--
-- Machine words keep their wrap-around (`% 2 ^ w`) where the code can reach it. `none` is a fault (an
-- access outside a buffer) in CString, Format and Kfs, and the result -1, NULL or ERR_FAILED where the
-- comment of the definition says so. In the shell it also stands for an output that is not modelled: what
-- cat would print from its buffer's former bytes, if the entry that it found were not found again.
--
-- Fuel: the search of Pmm takes the number of pages plus one, and every round of it goes on by at least
-- one page; the digits of a 32-bit word take at most ten rounds of utoa, which has twelve, and eight of
-- `%x`, which has nine. The rounds of kfsExtension0 copy a byte at least, so that as many rounds
-- as bytes are enough. A wait on the ticks takes as many reads as the counter needs to get there, which
-- its theorem assumes to be finite. All other loops are counted by their own bounds.
--
-- Parameters: the drive is its sectors and the addresses at which it fails; bytes from the keyboard's
-- ports are arguments; the arithmetic of floating point is a record; the PCI configuration space is a
-- record of a read and a write, with the law that every register reads as before when a BAR of the probed
-- function gets its old value back; the program that exec runs is a function on the machine. A handler that a stub calls is a
-- function on the registers and the memory that keeps the calling convention. What cpuid gives, the
-- status of the drive at each read, and what the stack holds before it is written are arguments.
--
-- Not modelled: what kmain prints, and the screen while it runs; the calls of the BIOS in shutdown;
-- math.c, which works on the bits of floating-point numbers; the boot code and the entry in assembly. A
-- switch of processes is a change of control in the steps of Sched and a list of instructions in
-- Sched.Switch, and the two are tied together where a process is first switched to. A program that is
-- loaded over the kernel's own variables is not traced into them.
pub mod Common
pub mod Pmm
pub mod Rand
pub mod Report
pub mod Keyboard
pub mod Interrupts
pub mod Time
pub mod Shell
pub mod Vfs
pub mod Uex
pub mod Paging
pub mod Pci
pub mod Vga
pub mod Logo
pub mod Sched
pub mod Font
pub mod Fb
pub mod Fbcon
pub mod Tty
pub mod CString
pub mod Format
pub mod Ata
pub mod Boot
pub mod Cpu
pub mod Kfs
