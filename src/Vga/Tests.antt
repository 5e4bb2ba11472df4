-- ===== src/Vga/Tests.antt =====
-- A dark screen, and a terminal with four bytes of input and an output buffer with room for two.
use system.Common.{
  refl, ℕ, pos, [], arith, length-replicate, negsuc, replicate, take, ◌++◌, ◌∷◌, ◌≡◌,
}
use system.CString.{widen}
use system.Interrupts.{out}
use system.Vga.{
  Vga, TtyDev, ecursorsync, eputchar, l_clear, l_close, l_hide_cur, l_init, l_read, l_set_cur_p,
  l_show_cur, l_write,
}
use system.Vga.Cursor.{IsOnScreen, eputchar-IsOnScreen}
use system.Vga.Queue.{Written, input, l_read-first, l_write-Written, taken}

abbrev dark : Vga
dark = record { video = replicate 4000 0; cursor_x = 78; cursor_y = 24 }

dark-IsOnScreen : IsOnScreen dark
dark-IsOnScreen = record {
  bytes = length-replicate {A = ℕ} 4000 0;
  column = omega arith;
  row = omega arith;
}

abbrev at_home : Vga
at_home = record { video = replicate 4000 0; cursor_x = 79; cursor_y = 0 }

at_home-IsOnScreen : IsOnScreen at_home
at_home-IsOnScreen = record {
  bytes = length-replicate {A = ℕ} 4000 0;
  column = omega arith;
  row = omega arith;
}

-- The writes for the last cell but one of the screen.
cursor_writes :
    ecursorsync dark ≡ out 0x3D4 0x0F ∷ out 0x3D5 0xCE ∷ out 0x3D4 0x0E ∷ out 0x3D5 0x07 ∷ []
unfolding ecursorsync
cursor_writes = refl

same_writes : l_set_cur_p 24 78 ≡ ecursorsync dark
unfolding l_set_cur_p ecursorsync
same_writes = refl

hide_and_show :
    l_hide_cur ++ l_show_cur
    ≡ out 0x3D4 0x0A
      ∷ out 0x3D5 0x20
      ∷ out 0x3D4 0x0A
      ∷ out 0x3D5 0x0E
      ∷ out 0x3D4 0x0B
      ∷ out 0x3D5 0x0F
      ∷ []
unfolding l_hide_cur l_show_cur
hide_and_show = refl

cleared : (l_clear dark).cursor_x ≡ 78
unfolding l_clear
cleared = refl

closed : (l_close l_init).l ≡ negsuc 0
unfolding l_close l_init
closed = refl

eputchar-IsOnScreen_example : IsOnScreen (eputchar 65 dark).0
eputchar-IsOnScreen_example = eputchar-IsOnScreen 65 dark dark-IsOnScreen

abbrev terminal : TtyDev
terminal = record {
  l = pos 1;
  input_buf = 49 ∷ 50 ∷ 51 ∷ 52 ∷ replicate 124 0;
  output_buf = replicate 128 0;
  input_pos = 4;
  output_pos = 126;
}

l_read-first_example :
    ((l_read terminal).0 ≡ widen 49)
    × (input (l_read terminal).1 ≡ 50 ∷ 51 ∷ 52 ∷ [])
    × ((l_read terminal).1.output_buf ≡ replicate 128 0)
l_read-first_example = l_read-first terminal 49 (50 ∷ 51 ∷ 52 ∷ []) (omega arith) refl

l_write-Written_example :
    (td' : TtyDev) × (s' : Vga) × (l_write terminal (65 ∷ 66 ∷ 67 ∷ []) 3 at_home
      ≡ (taken terminal 3, td', s'))
    × Written terminal at_home (take (taken terminal 3) (65 ∷ 66 ∷ 67 ∷ [])) td' s'
l_write-Written_example =
    l_write-Written terminal (65 ∷ 66 ∷ 67 ∷ []) 3 at_home (omega arith) (omega arith) refl
