-- ===== src/Pci.antt =====
-- kernel/drivers/pci.c: the devices of bus 0. The configuration space is not code of the repository: it
-- is what `outl` of an address and `inl` or `outl` of the data port read and write there. A read does
-- not change it.
pub mod Address
pub mod Devices
pub mod Bars
mod Tests
use system.Common.{
  List, Option, none, some, ℕ, Bool, [], bit_and, bit_or, false, get_or, if◌then◌else◌, inl, ltb,
  replicate, set, suc, true, zero, ◌%◌, ◌&&◌, ◌*◌, ◌++◌, ◌+◌, ◌-◌, ◌/◌, ◌==◌, ◌^◌, ◌∷◌,
}
use system.Ata.{address}

-- The dword at a configuration address, and the space after a write of it.
pub record ConfigSpace (S : Type 0) : Type 0 where
  pub inl : S → (address : ℕ) → ℕ
  pub outl : S → (address value : ℕ) → S

pub config_address : (bus slot func offset : ℕ) → ℕ
config_address bus slot func offset =
    bit_or
      (bit_or (bit_or (bit_or (bus * 2 ^ 16) (slot * 2 ^ 11)) (func * 2 ^ 8)) (bit_and offset 0xFC))
      0x80000000

pub get_byte : (dword offset : ℕ) → ℕ
get_byte dword offset = dword / 2 ^ (offset % 4 * 8) % 2 ^ 8

pub get_word : (dword offset : ℕ) → ℕ
get_word dword offset = dword / 2 ^ (bit_and offset 2 * 8) % 2 ^ 16

pub record PciBar : Type 0 where
  pub is_io : Bool
  pub size : ℕ
  pub addr : ℕ

abbrev pub no_bar : PciBar
no_bar = record { is_io = false; size = 0; addr = 0 }

pub record PciDevice : Type 0 where
  pub bar : List PciBar
  pub vendor : ℕ
  pub device : ℕ
  pub status : ℕ
  pub command : ℕ
  pub header_type : ℕ
  pub class : ℕ
  pub subclass : ℕ
  pub prog_if : ℕ
  pub int_line : ℕ

pub record PciOut : Type 0 where
  pub pci : PciDevice
  pub bus : ℕ
  pub dev : ℕ
  pub func : ℕ

abbrev pub all_ones : ℕ
all_ones = 0xFFFFFFFF

-- The entry that a probe adds to `out`, if it succeeds.
pub entry_of : Option PciDevice → (bus dev func : ℕ) → List PciOut
entry_of none bus dev func = []
entry_of (some device) bus dev func =
    record { pci = device; bus = bus; dev = dev; func = func } ∷ []

-- What the probe of function 0 leads to; `others` are the entries of the other functions.
pub with_others : Option PciDevice → (bus dev : ℕ) → (others : List PciOut) → List PciOut
with_others none bus dev others = []
with_others (some device) bus dev others =
    record { pci = device; bus = bus; dev = dev; func = 0 }
    ∷ (if bit_and device.header_type 0x80 == 0 then [] else others)

module _ {S : Type 0} (space : ConfigSpace S) where
  pub pci_config_read_dword : S → (bus slot func offset : ℕ) → ℕ
  pci_config_read_dword s bus slot func offset = space.inl s (config_address bus slot func offset)

  pub pci_config_write_dword : S → (bus slot func offset value : ℕ) → S
  pci_config_write_dword s bus slot func offset value =
      space.outl s (config_address bus slot func offset) value

  -- The addresses of the six BARs, from the one at `offset`.
  pub bars_at : S → (bus dev func n offset : ℕ) → List PciBar
  bars_at s bus dev func zero offset = []
  bars_at s bus dev func (suc n) offset =
      record no_bar { addr = pci_config_read_dword s bus dev func offset }
      ∷ bars_at s bus dev func n (offset + 4)

  -- `none` where the result is -1; then `*out` is as before.
  pub pci_probe_device : S → (bus dev func : ℕ) → Option PciDevice
  pci_probe_device s bus dev func =
      let dword = pci_config_read_dword s bus dev func in
      let header_type = get_byte (dword 0x0C) 2 in
      if get_word (dword 0x00) 0 == 0xFFFF
      then none
      else some (record {
        bar = if header_type == 0 then bars_at s bus dev func 6 0x10 else replicate 6 no_bar;
        vendor = get_word (dword 0x00) 0;
        device = get_word (dword 0x00) 2;
        status = get_word (dword 0x04) 2;
        command = get_word (dword 0x04) 0;
        header_type = header_type;
        class = get_byte (dword 0x08) 3;
        subclass = get_byte (dword 0x08) 2;
        prog_if = get_byte (dword 0x08) 1;
        int_line = if header_type == 0 then get_byte (dword 0x3C) 1 else 0;
      })

  -- The inner loop, over `n` functions from `f`.
  pub functions : S → (bus dev n f : ℕ) → List PciOut
  functions s bus dev zero f = []
  functions s bus dev (suc n) f =
      entry_of (pci_probe_device s bus dev f) bus dev f ++ functions s bus dev n (f + 1)

  pub device_entries : S → (bus dev : ℕ) → List PciOut
  device_entries s bus dev =
      with_others (pci_probe_device s bus dev 0) bus dev (functions s bus dev 7 1)

  -- The outer loop, over `n` devices from `dev`.
  pub devices : S → (bus n dev : ℕ) → List PciOut
  devices s bus zero dev = []
  devices s bus (suc n) dev = device_entries s bus dev ++ devices s bus n (dev + 1)

  -- What is stored in `out`, first entry first.
  pub pci_enumerate : S → List PciOut
  pci_enumerate s = devices s 0 32 0

  -- What one round of the loop of `pciProbeBars` leaves: the BARs, the space, and whether it takes the
  -- next BAR too.
  pub record Round : Type 0 where
    pub bars : List PciBar
    pub state : S
    pub takes_next : Bool

  -- Sizes are 8-bit fields. Clearing low bits is subtraction of the remainder.
  pub wide_bar : S → (bus dev func i orig probe : ℕ) → List PciBar → Round
  wide_bar s bus dev func i orig probe bars =
      let next_offset = 0x10 + (i + 1) * 4 in
      let orig_hi = pci_config_read_dword s bus dev func next_offset in
      let s1 = pci_config_write_dword s bus dev func next_offset all_ones in
      let probe_hi = pci_config_read_dword s1 bus dev func next_offset in
      let s2 = pci_config_write_dword s1 bus dev func next_offset orig_hi in
      let full_probe = probe_hi * 2 ^ 32 + probe in
      let full_orig = orig_hi * 2 ^ 32 + orig in
      let size = (2 ^ 64 - (full_probe - full_probe % 16)) % 2 ^ 64 in
      record {
        bars =
            set
              (set bars i (record {
                is_io = false;
                size = size % 2 ^ 32 % 2 ^ 8;
                addr = (full_orig - full_orig % 16) % 2 ^ 32;
              }))
              (i + 1) no_bar;
        state = s2;
        takes_next = true;
      }

  pub narrow_bar : S → (i low orig probe : ℕ) → Bool → List PciBar → Round
  narrow_bar s i low orig probe is_io bars = record {
    bars = set bars i (record {
      is_io = is_io;
      size = (2 ^ 32 - (probe - probe % low)) % 2 ^ 32 % 2 ^ 8;
      addr = orig - orig % low;
    });
    state = s;
    takes_next = false;
  }

  -- The round behind the two tests for 0; the BAR has its old value again.
  pub sized_bar : S → (bus dev func i orig probe : ℕ) → List PciBar → Round
  sized_bar s bus dev func i orig probe bars =
      if probe % 2 == 1
      then narrow_bar s i 4 orig probe true bars
      else if (probe / 2 % 4 == 2) && ltb (i + 1) 6
      then wide_bar s bus dev func i orig probe bars
      else narrow_bar s i 16 orig probe false bars

  pub unsized_bar : S → (i : ℕ) → List PciBar → Round
  unsized_bar s i bars = record {
    bars = set bars i (record (get_or bars i no_bar) { is_io = false; size = 0 });
    state = s;
    takes_next = false;
  }

  pub probe_bar : S → (bus dev func i : ℕ) → List PciBar → Round
  probe_bar s bus dev func i bars =
      let offset = 0x10 + i * 4 in
      let orig = pci_config_read_dword s bus dev func offset in
      let s1 = pci_config_write_dword s bus dev func offset all_ones in
      let probe = pci_config_read_dword s1 bus dev func offset in
      let s2 = pci_config_write_dword s1 bus dev func offset orig in
      if orig == 0
      then unsized_bar s i bars
      else if probe == 0
      then unsized_bar s2 i bars
      else sized_bar s2 bus dev func i orig probe bars

  -- The rounds from `i`, with `n` BARs left.
  pub bar_rounds : S → (bus dev func n i : ℕ) → List PciBar → List PciBar × S
  bar_rounds s bus dev func zero i bars = (bars, s)
  bar_rounds s bus dev func (suc zero) i bars =
      let r = probe_bar s bus dev func i bars in (r.bars, r.state)
  bar_rounds s bus dev func (suc (suc n)) i bars =
      let r = probe_bar s bus dev func i bars in
      let over_next = bar_rounds r.state bus dev func n (i + 2) r.bars in
      let on_next = bar_rounds r.state bus dev func (suc n) (i + 1) r.bars in
      if r.takes_next then over_next else on_next

  pub pci_probe_bars : S → (bus dev func : ℕ) → PciDevice → PciDevice × S
  pci_probe_bars s bus dev func out =
      let r = bar_rounds s bus dev func 6 0 out.bar in (record out { bar = r.0 }, r.1)
