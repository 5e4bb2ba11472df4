-- ===== src/Pci/Address.antt =====
-- The fields of a configuration address.
use system.Common.{
  arith, refl, ℕ, ==_iff, all_below, all_below_sound, bit_and, bit_or, bit_or-apart, bit_or-below,
  sym, true, ◌%◌, ◌*◌, ◌+◌, ◌-◌, ◌/◌, ◌<◌, ◌==◌, ◌^◌, ◌∙◌, ◌≡◌,
}
use system.Pci.{config_address}

mask_table : all_below 256 (λ x. bit_and x 0xFC == x - x % 4) ≡ true
unfolding all_below
mask_table = refl

dword_offset : (offset : ℕ) → offset < 256 → bit_and offset 0xFC ≡ offset - offset % 4
dword_offset offset lt =
    (==_iff (bit_and offset 0xFC) (offset - offset % 4)).0
      (all_below_sound 256 (λ x. bit_and x 0xFC == x - x % 4) offset mask_table lt)

-- The address of a register of a function: the enable bit, eight bits of the bus, five of the device,
-- three of the function, and the offset of the dword that the byte `offset` lies in.
pub config_address_lem :
    (bus slot func offset : ℕ)
    → bus < 256
    → slot < 32
    → func < 8
    → offset < 256
    → config_address bus slot func offset
      ≡ 2 ^ 31 + bus * 2 ^ 16 + slot * 2 ^ 11 + func * 2 ^ 8 + (offset - offset % 4)
unfolding config_address
config_address_lem bus slot func offset hb hs hf ho =
    let e1 : bit_or (bus * 2 ^ 16) (slot * 2 ^ 11) ≡ (bus * 2 ^ 5 + slot) * 2 ^ 11 =
      bit_or-apart 16 bus (slot * 2 ^ 11) (omega arith) ∙ omega arith in
    let e2 : bit_or ((bus * 2 ^ 5 + slot) * 2 ^ 11) (func * 2 ^ 8)
        ≡ ((bus * 2 ^ 5 + slot) * 2 ^ 3 + func) * 2 ^ 8 =
      bit_or-apart 11 (bus * 2 ^ 5 + slot) (func * 2 ^ 8) (omega arith) ∙ omega arith in
    let e3 : bit_or (((bus * 2 ^ 5 + slot) * 2 ^ 3 + func) * 2 ^ 8) (offset - offset % 4)
        ≡ ((bus * 2 ^ 5 + slot) * 2 ^ 3 + func) * 2 ^ 8 + (offset - offset % 4) =
      bit_or-apart 8 ((bus * 2 ^ 5 + slot) * 2 ^ 3 + func) (offset - offset % 4) (omega arith) in
    let low = ((bus * 2 ^ 5 + slot) * 2 ^ 3 + func) * 2 ^ 8 + (offset - offset % 4) in
    let e4 : bit_or low 0x80000000 ≡ 1 * 2 ^ 31 + low = bit_or-below 31 1 low (omega arith) in
    rw (dword_offset offset ho, e1, e2, e3, e4) (omega arith)

-- Two registers have the same address only if they are the same dword of the same function.
pub config_address-injective :
    (bus slot func offset bus' slot' func' offset' : ℕ)
    → bus < 256
    → slot < 32
    → func < 8
    → offset < 256
    → bus' < 256
    → slot' < 32
    → func' < 8
    → offset' < 256
    → config_address bus slot func offset ≡ config_address bus' slot' func' offset'
    → (bus ≡ bus') × (slot ≡ slot') × (func ≡ func') × (offset / 4 ≡ offset' / 4)
config_address-injective bus slot func offset bus' slot' func' offset' b s f o b' s' f' o' e =
    let e1 = config_address_lem bus slot func offset b s f o in
    let e2 = config_address_lem bus' slot' func' offset' b' s' f' o' in
    let sum : 2 ^ 31 + bus * 2 ^ 16 + slot * 2 ^ 11 + func * 2 ^ 8 + (offset - offset % 4)
        ≡ 2 ^ 31 + bus' * 2 ^ 16 + slot' * 2 ^ 11 + func' * 2 ^ 8 + (offset' - offset' % 4) =
      sym e1 ∙ e ∙ e2 in
    (omega arith, omega arith, omega arith, omega arith)
