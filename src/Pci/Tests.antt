-- ===== src/Pci/Tests.antt =====
-- A space whose registers keep what is written.
use native.Mathlib.Decide.{ℕ_discrete}
use system.Common.{
  refl, ℕ, List, [], ap, arith, false, if◌then◌else◌, length, replicate, sym, true, ◌%◌, ◌/◌, ◌==◌,
  ◌∷◌, ◌≡◌, ◌≤◌, bit_and, suc, zero, ◌*◌, ◌+◌, ◌-◌, ◌<◌, ◌^◌,
}
use system.Pci.{
  ConfigSpace, PciDevice, PciOut, all_ones, bars_at, config_address, device_entries, devices,
  entry_of, functions, get_byte, get_word, no_bar, pci_config_read_dword, pci_enumerate,
  pci_probe_bars, pci_probe_device, with_others,
}
use system.Pci.Address.{config_address-injective}
use system.Pci.Bars.{Restores, pci_probe_bars-SameRegisters}
use system.Pci.Devices.{functions_from, length-pci_enumerate, pci_enumerate-functions_from}

abbrev plain : ConfigSpace (ℕ → ℕ)
plain = record { inl = λ s a. s a; outl = λ s a v. (λ b. if b == a then v else s b) }

-- Registers as memory, except that in those at offset 4 a write clears the bits of the upper half that
-- it has as ones.
abbrev clearing : ConfigSpace (ℕ → ℕ)
clearing = record {
  inl = λ s a. s a;
  outl = λ s a v. (λ b.
      if b == a
      then (if a % 256 == 4
          then s a / 2 ^ 16 - bit_and (s a / 2 ^ 16) (v / 2 ^ 16) + v % 2 ^ 16
          else v)
      else s b);
}

bar_offset : (i : ℕ) → i < 6 → config_address 0 3 0 (0x10 + i * 4) % 256 ≡ 0x10 + i * 4
unfolding config_address
bar_offset zero lt = refl
bar_offset (suc zero) lt = refl
bar_offset (suc (suc zero)) lt = refl
bar_offset (suc (suc (suc zero))) lt = refl
bar_offset (suc (suc (suc (suc zero)))) lt = refl
bar_offset (suc (suc (suc (suc (suc zero))))) lt = refl
bar_offset (suc (suc (suc (suc (suc (suc i)))))) lt = absurd (omega arith)

clearing-Restores : Restores clearing 0 3 0
clearing-Restores = record {
  restores = λ s i v b lt.
      (let f : (config_address 0 3 0 (0x10 + i * 4) % 256 == 4) ≡ false =
          ground (arith, bar_offset i lt) in
        rw f (back s (config_address 0 3 0 (0x10 + i * 4)) v b));
}
  where
    back : (s : ℕ → ℕ) (a v b : ℕ) → (if b == a then s a else if b == a then v else s b) ≡ s b
    back s a v b = elim (ℕ_discrete b a) [
      | yes e ↦ let t : (b == a) ≡ true = ground arith in rw t (ap s (sym e))
      | no ne ↦ let f : (b == a) ≡ false = ground arith in rw f
    ]

-- Device 3 has the functions 0 and 2, and no other device answers.
bus : ℕ → ℕ
bus a =
    if a == config_address 0 3 0 0
    then 0x71108086
    else if a == config_address 0 3 2 0
    then 0x71118086
    else if a == config_address 0 3 0 0x0C
    then 0x800000
    else if a % 256 == 0
    then all_ones
    else 0x100

-- What identifies an entry.
names : List PciOut → List (ℕ × ℕ × ℕ)
names [] = []
names (o ∷ os) = (o.dev, o.func, o.pci.device) ∷ names os

found : names (pci_enumerate plain bus) ≡ (3, 0, 0x7110) ∷ (3, 2, 0x7111) ∷ []
unfolding names bus pci_enumerate devices device_entries functions with_others entry_of
    pci_probe_device pci_config_read_dword config_address get_byte get_word bars_at
found = refl

same_address : config_address 0 3 1 0x10 ≡ config_address 0 3 1 0x13
unfolding config_address
same_address = refl

config_address-injective_example :
    (◌≡◌ {A = ℕ} 0 0) × (◌≡◌ {A = ℕ} 3 3) × (◌≡◌ {A = ℕ} 1 1) × (0x10 / 4 ≡ 0x13 / 4)
config_address-injective_example =
    config_address-injective 0 3 1 0x10 0 3 1 0x13 (omega arith) (omega arith) (omega arith)
      (omega arith) (omega arith) (omega arith) (omega arith) (omega arith) same_address

pci_enumerate-functions_from_example : pci_enumerate plain bus ≡ functions_from plain bus 256 0
pci_enumerate-functions_from_example = pci_enumerate-functions_from plain bus

length-pci_enumerate_example : length (pci_enumerate plain bus) ≤ 256
length-pci_enumerate_example = length-pci_enumerate plain bus

abbrev empty_device : PciDevice
empty_device = record {
  bar = replicate 6 no_bar;
  vendor = 0x8086;
  device = 1;
  status = 0;
  command = 0;
  header_type = 0;
  class = 0;
  subclass = 0;
  prog_if = 0;
  int_line = 0;
}

pci_probe_bars-SameRegisters_example :
    clearing.inl (pci_probe_bars clearing bus 0 3 0 empty_device).1 (config_address 0 3 0 0x10)
    ≡ bus (config_address 0 3 0 0x10)
pci_probe_bars-SameRegisters_example =
    pci_probe_bars-SameRegisters clearing 0 3 0 clearing-Restores bus empty_device
      (config_address 0 3 0 0x10)
