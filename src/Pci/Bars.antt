-- ===== src/Pci/Bars.antt =====
-- `pciProbeBars`: the registers that it writes are as before, and what it says of a memory BAR.
use system.Common.{
  refl, ℕ, Bool-cases, List, false, inl, inr, suc, zero, ◌*◌, ◌+◌, ◌∙◌, ◌≡◌, arith, get_or,
  get_or-set_self, length, ltb, ◌%◌, ◌&&◌, ◌-◌, ◌/◌, ◌<◌, ◌==◌, ◌^◌, ◌↔◌, ◌≤◌,
}
use system.Pci.{
  ConfigSpace, PciBar, PciDevice, all_ones, bar_rounds, config_address, narrow_bar,
  pci_config_read_dword, pci_config_write_dword, pci_probe_bars, probe_bar, wide_bar, no_bar,
  sized_bar, unsized_bar,
}

-- The address of BAR `i`.
abbrev pub bar_address : (bus dev func i : ℕ) → ℕ
bar_address bus dev func i = config_address bus dev func (0x10 + i * 4)

-- Where one of the six BARs of the function is written and then gets the value back that it had, every
-- register reads as before. Nothing is said of a write to any other register.
pub record Restores {S : Type 0} (space : ConfigSpace S) (bus dev func : ℕ) : Type 0 where
  pub restores :
      (s : S) (i v b : ℕ)
      → i < 6
      → space.inl
          (space.outl
            (space.outl s (bar_address bus dev func i) v)
            (bar_address bus dev func i)
            (space.inl s (bar_address bus dev func i)))
          b
        ≡ space.inl s b

module _ {S : Type 0} (space : ConfigSpace S) (bus dev func : ℕ)
    (law : Restores space bus dev func) where
  abbrev SameRegisters : S → S → Type 0
  SameRegisters s s' = (a : ℕ) → space.inl s' a ≡ space.inl s a

  written_back :
      (s : S) (i v : ℕ)
      → i < 6
      → SameRegisters s (
          pci_config_write_dword space
            (pci_config_write_dword space s bus dev func (0x10 + i * 4) v)
            bus
            dev
            func
            (0x10 + i * 4)
            (pci_config_read_dword space s bus dev func (0x10 + i * 4)))
  unfolding pci_config_write_dword pci_config_read_dword
  written_back s i v lt a = law.restores s i v a lt

  sized_bar-SameRegisters :
      (s : S) (i orig probe : ℕ) (bars : List PciBar)
      → SameRegisters s (sized_bar space s bus dev func i orig probe bars).state
  unfolding sized_bar narrow_bar wide_bar
  sized_bar-SameRegisters s i orig probe bars a = elim (Bool-cases (probe % 2 == 1)) [
    | inl e ↦ rw e refl
    | inr e ↦ elim (Bool-cases ((probe / 2 % 4 == 2) && ltb (i + 1) 6)) [
      | inl w ↦ rw (e, w) (written_back s (i + 1) all_ones (ground arith) a)
      | inr n ↦ rw (e, n) refl
    ]
  ]

  probe_bar-SameRegisters :
      (s : S) (i : ℕ) (bars : List PciBar)
      → i < 6
      → SameRegisters s (probe_bar space s bus dev func i bars).state
  unfolding probe_bar unsized_bar
  probe_bar-SameRegisters s i bars lt a =
      let offset = 0x10 + i * 4 in
      let back = written_back s i all_ones lt a in
      let s1 = pci_config_write_dword space s bus dev func offset all_ones in
      let orig = pci_config_read_dword space s bus dev func offset in
      let probe = pci_config_read_dword space s1 bus dev func offset in
      let s2 = pci_config_write_dword space s1 bus dev func offset orig in
      elim (Bool-cases (orig == 0)) [
        | inl e ↦ rw e refl
        | inr e ↦ elim (Bool-cases (probe == 0)) [
          | inl z ↦ rw (e, z) back
          | inr n ↦ rw (e, n) (sized_bar-SameRegisters s2 i orig probe bars a ∙ back)
        ]
      ]

  bar_rounds-SameRegisters :
      (n : ℕ) (s : S) (i : ℕ) (bars : List PciBar)
      → n + i ≤ 6
      → SameRegisters s (bar_rounds space s bus dev func n i bars).1
  unfolding bar_rounds
  bar_rounds-SameRegisters zero s i bars le = λ a. refl
  bar_rounds-SameRegisters (suc zero) s i bars le = probe_bar-SameRegisters s i bars (omega arith)
  bar_rounds-SameRegisters (suc (suc n)) s i bars le =
      let first = probe_bar-SameRegisters s i bars (omega arith) in
      let r = probe_bar space s bus dev func i bars in
      elim (Bool-cases r.takes_next) [
        | inl e ↦
            λ a. rw e (bar_rounds-SameRegisters n r.state (i + 2) r.bars (omega arith) a ∙ first a)
        | inr e ↦ λ a.
            rw e (bar_rounds-SameRegisters (suc n) r.state (i + 1) r.bars (omega arith) a ∙ first a)
      ]

  -- After `pciProbeBars` of a function every register of the configuration space reads as before, where
  -- the function's six BARs are registers such that a write to one of them, and then of the value that it
  -- had, leaves every register reading as before.
  pub pci_probe_bars-SameRegisters :
      (s : S) (out : PciDevice) (a : ℕ)
      → space.inl (pci_probe_bars space s bus dev func out).1 a ≡ space.inl s a
  unfolding pci_probe_bars
  pci_probe_bars-SameRegisters s out = bar_rounds-SameRegisters 6 s 0 out.bar (omega arith)

-- A memory BAR of 32 bits that decodes `size` bytes and reads, after all ones are written, as the
-- negative of the size and its flags: the size that is noted is its low byte, so that it is noted as
-- it is exactly when it is below 256.
pub sized_bar-size :
    {S : Type 0} (space : ConfigSpace S) (s : S) (bus dev func i orig size flags : ℕ)
    (bars : List PciBar)
    → i < length bars
    → 0 < size
    → size % 16 ≡ 0
    → size < 2 ^ 32
    → flags < 16
    → flags % 8 ≡ 0
    → let noted =
        get_or (sized_bar space s bus dev func i orig (2 ^ 32 - size + flags) bars).bars i no_bar in
      (noted ≡ record { is_io = false; size = size % 256; addr = orig - orig % 16 })
      × ((noted.size ≡ size) ↔ (size < 256))
unfolding sized_bar narrow_bar
sized_bar-size space s bus dev func i orig size flags bars hi pos m lt hf h8 =
    let probe = 2 ^ 32 - size + flags in
    let io : (probe % 2 == 1) ≡ false = ground arith in
    let wide : (probe / 2 % 4 == 2) ≡ false = ground arith in
    let f : (2 ^ 32 - (probe - probe % 16)) % 2 ^ 32 % 2 ^ 8 ≡ size % 256 = omega arith in
    rw
      (
        io,
        wide,
        f,
        get_or-set_self bars i
            (record { is_io = false; size = size % 256; addr = orig - orig % 16 }) no_bar hi,
      )
      (refl, (λ h. omega arith, λ h. omega arith))
