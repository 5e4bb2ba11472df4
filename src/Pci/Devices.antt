-- ===== src/Pci/Devices.antt =====
-- `pciEnumerate`: which functions it finds, and in which order.
use mathlib.Core.List.{append_assoc}
use system.Common.{
  List, refl, ℕ, Bool, [], arith, bit_and, false, if◌then◌else◌, none, not, some, suc, true, zero,
  ◌%◌, ◌*◌, ◌++◌, ◌+◌, ◌/◌, ◌<◌, ◌==◌, ◌||◌, ◌≡◌, ◌≤◌, Bool-cases, Option, ap, inl, inr, length,
  length-append,
}
use system.Pci.{
  ConfigSpace, PciOut, device_entries, functions, pci_probe_device, PciDevice, devices, entry_of,
  pci_enumerate, with_others,
}

pub says_others : Option PciDevice → Bool
says_others none = false
says_others (some device) = not (bit_and device.header_type 0x80 == 0)

with_others-entry :
    (o : Option PciDevice) (dev : ℕ) (others : List PciOut)
    → with_others o 0 dev others ≡ entry_of o 0 dev 0 ++ (if says_others o then others else [])
unfolding with_others entry_of says_others
with_others-entry none dev others = refl
with_others-entry (some device) dev others = ground arith

length-entry_of : (o : Option PciDevice) (dev f : ℕ) → length (entry_of o 0 dev f) ≤ 1
unfolding entry_of
length-entry_of none dev f = omega arith
length-entry_of (some device) dev f = omega arith

module _ {S : Type 0} (space : ConfigSpace S) (s : S) where
  -- Whether the function 0 of a device answers and says that there are others.
  pub has_functions : (dev : ℕ) → Bool
  has_functions dev = says_others (pci_probe_device space s 0 dev 0)

  -- The functions of the bus, numbered by device and function: those from number `k` on, `n` of them, that are
  -- function 0 or belong to a device with others, and that answer.
  pub functions_from : (n k : ℕ) → List PciOut
  functions_from zero k = []
  functions_from (suc n) k =
      (if (k % 8 == 0) || has_functions (k / 8)
        then entry_of (pci_probe_device space s 0 (k / 8) (k % 8)) 0 (k / 8) (k % 8)
        else [])
      ++ functions_from n (k + 1)

  functions_from-add :
      (m n k : ℕ) → functions_from (m + n) k ≡ functions_from m k ++ functions_from n (k + m)
  unfolding functions_from
  functions_from-add zero n k =
      let e1 : 0 + n ≡ n = omega arith in let e2 : k + 0 ≡ k = omega arith in rw (e1, e2)
  functions_from-add (suc m) n k =
      let e1 : suc m + n ≡ suc (m + n) = omega arith in
      let e2 : k + suc m ≡ k + 1 + m = omega arith in
      rw (e1, e2, functions_from-add m n (k + 1)) (simp append_assoc refl)

  -- The functions of one device behind its function 0.
  behind_first :
      (n f dev : ℕ)
      → 0 < f
      → f + n ≤ 8
      → functions_from n (8 * dev + f)
        ≡ (if has_functions dev then functions space s 0 dev n f else [])
  unfolding functions_from functions
  behind_first zero f dev p le = ground arith
  behind_first (suc n) f dev p le =
      let q : (8 * dev + f) / 8 ≡ dev = omega arith in
      let r : (8 * dev + f) % 8 ≡ f = omega arith in
      let z : (f == 0) ≡ false = ground arith in
      let e : 8 * dev + f + 1 ≡ 8 * dev + (f + 1) = omega arith in
      rw (q, r, z, e, behind_first n (f + 1) dev (omega arith) (omega arith))
        (by_kind (has_functions dev))
    where
      by_kind :
          (b : Bool)
          → (if b then entry_of (pci_probe_device space s 0 dev f) 0 dev f else [])
              ++ (if b then functions space s 0 dev n (f + 1) else [])
            ≡ (if b
                then entry_of (pci_probe_device space s 0 dev f) 0 dev f
                  ++ functions space s 0 dev n (f + 1)
                else [])
      by_kind true = refl
      by_kind false = refl

  of_device : (dev : ℕ) → device_entries space s 0 dev ≡ functions_from 8 (8 * dev)
  unfolding device_entries functions_from has_functions
  of_device dev =
      let q : 8 * dev / 8 ≡ dev = omega arith in
      let r : 8 * dev % 8 ≡ 0 = omega arith in
      rw (q, r, behind_first 7 1 dev (omega arith) (omega arith))
        (with_others-entry (pci_probe_device space s 0 dev 0) dev (functions space s 0 dev 7 1))

  of_devices : (n dev : ℕ) → devices space s 0 n dev ≡ functions_from (8 * n) (8 * dev)
  unfolding devices functions_from
  of_devices zero dev = refl
  of_devices (suc n) dev =
      let e : 8 * suc n ≡ 8 + 8 * n = omega arith in
      let k : 8 * (dev + 1) ≡ 8 * dev + 8 = omega arith in
      rw (of_device dev, of_devices n (dev + 1), e, k, functions_from-add 8 (8 * n) (8 * dev))

  -- The entries are, in the order of their numbers, the functions 0 that answer and the other functions that
  -- answer of a device whose function 0 answers and says that there are others.
  pub pci_enumerate-functions_from : pci_enumerate space s ≡ functions_from 256 0
  unfolding pci_enumerate
  pci_enumerate-functions_from = of_devices 32 0

  length-functions_from : (n k : ℕ) → length (functions_from n k) ≤ n
  unfolding functions_from
  length-functions_from zero k = omega arith
  length-functions_from (suc n) k =
      let rest = length-functions_from n (k + 1) in
      let o = pci_probe_device space s 0 (k / 8) (k % 8) in
      elim (Bool-cases ((k % 8 == 0) || has_functions (k / 8))) [
        | inl e ↦ rw e (
            omega (
              arith,
              rest,
              length-append (entry_of o 0 (k / 8) (k % 8)) (functions_from n (k + 1)),
              length-entry_of o (k / 8) (k % 8),
            ))
        | inr e ↦ rw e (omega (arith, rest))
      ]

  -- There are never more entries than functions of a bus; the array of the caller has 1024.
  pub length-pci_enumerate : length (pci_enumerate space s) ≤ 256
  length-pci_enumerate =
      omega (arith, ap length pci_enumerate-functions_from, length-functions_from 256 0)
