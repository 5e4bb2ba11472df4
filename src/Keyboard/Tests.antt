-- ===== src/Keyboard/Tests.antt =====
-- Tests of the keyboard, and its theorems at concrete input.
use system.Common.{List, [], arith, none, refl, some, ◌∷◌, ◌≡◌}
use system.Keyboard.{boot, get_key, kbdus, kbdus_shift, keyboardirqh, put}
use system.Keyboard.Queue.{
  Event, boot-IsValid, get, get_key_refines, irq, read, run, run_queue, run_refines, view,
}
use system.Keyboard.Ring.{IsValid}

-- Shift down, `h`, shift up, `i`; a release and a key without a character type nothing.
abbrev typing : List Event
typing =
    get
    ∷ irq 1 0x2A
    ∷ irq 1 0x23
    ∷ irq 1 0xAA
    ∷ irq 1 0x17
    ∷ irq 1 0x97
    ∷ irq 0 0x17
    ∷ irq 1 0x7F
    ∷ get
    ∷ get
    ∷ get
    ∷ []

run-typing : run boot typing ≡ none ∷ some b'H' ∷ some b'i' ∷ none ∷ []
unfolding run keyboardirqh put get_key kbdus kbdus_shift
run-typing = refl

run_refines_example : run boot typing ≡ run_queue (view boot) typing
run_refines_example = run_refines typing boot boot-IsValid.0 (omega arith)

get_key_refines_example :
    IsValid (get_key boot).1 × (((get_key boot).0, view (get_key boot).1) ≡ read (view boot))
get_key_refines_example = get_key_refines boot boot-IsValid.0
