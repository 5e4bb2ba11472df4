-- ===== src/Shell/Session.antt =====
-- What becomes of the commands that are not the shell's own: the terminal, the loader and the power
-- functions carry them out. The frame and the programs lie in one memory.
use mathlib.Core.Option
use system.Report
use system.Common.{List, Option, some, [], ◌∷◌, ◌++◌, if◌then◌else◌, ℕ, ◌==◌, ◌>>=◌}
use system.Fb.{FbInfo}
use system.Fbcon.{codes}
use system.Interrupts.{PortWrite}
use system.Kfs.{Kfs}
use system.Shell.{Action, clears, executes, powers_off, prints, reboots, run_line}
use system.Tty.{Tty, tty_clear, tty_puts}
use system.Uex.{Machine, err_format, exec}

-- What the commands work on. `prog` is the effect of the code at an address, `ticks` the tick count.
pub record World : Type 0 where
  pub fb : FbInfo
  pub screen : Tty
  pub kfs : Kfs
  pub machine : Machine
  pub ports : List PortWrite
  pub ticks : ℕ

-- `puts`.
pub puts : List ℕ → World → World
puts text w =
    let (tty', memory') = tty_puts w.fb text (w.screen, w.machine.memory) in
    record w { screen = tty'; machine = record w.machine { memory = memory' } }

-- `clear`.
pub clear_screen : World → World
clear_screen w =
    let (tty', memory') = tty_clear w.fb w.machine.memory in
    record w { screen = tty'; machine = record w.machine { memory = memory' } }

-- `exec(...) == ERR_FORMAT ? puts("exec: format error\n") : 0`.
pub exec_done : (code : ℕ) → World → World
exec_done code w =
    let told = puts (codes "exec: format error" ++ (10 ∷ [])) w in
    if code == err_format then told else w

-- A report and its writes to the ports.
pub power : List ℕ × List PortWrite → World → World
power (text, writes) w = let told = puts text w in record told { ports = told.ports ++ writes }

-- `shutdown` ends in `panic`, and after `reboot` the processor starts anew; what is left is the world
-- at that point.
pub carry_out : (prog : ℕ → Machine → Machine) → Action → World → Option World
carry_out prog (prints text k) w = some (puts text (record w { kfs = k }))
carry_out prog clears w = some (clear_screen w)
carry_out prog reboots w = some (power (Report.reboot w.ticks) w)
carry_out prog powers_off w = some (power (Report.shutdown w.ticks) w)
carry_out prog (executes name) w =
    Option.map (λ out. exec_done out.0 (record w { machine = out.1 }))
      (exec prog w.kfs.superblock w.kfs.disk name w.machine)

-- A complete line, carried out.
pub obey : (prog : ℕ → Machine → Machine) → List ℕ → World → Option World
obey prog chars w = do action ← run_line chars w.kfs; carry_out prog action w
