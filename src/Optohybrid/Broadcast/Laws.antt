-- ===== src/Optohybrid/Broadcast/Laws.antt =====
-- Broadcasts on a board whose address space behaves like memory.
use ctp7_modules.Prelude.{
  ℕ, zero, suc, ◌+◌, ◌%◌, ◌^◌, ◌≤◌, ◌<◌, String, List, false, ◌==◌, if◌then◌else◌, tabulate, ◌≡◌,
  ◌≢◌, refl, ap, ◌∙◌, arith, Bool-cases, inl, inr, ne→==_false,
}
use ctp7_modules.Prelude.Bits.{bit}
use ctp7_modules.Effect.{Card, Reply, idle, ok, ◌>>◌}
use ctp7_modules.AddressTable.{Node}
use ctp7_modules.Loops.{for_unmasked}
use ctp7_modules.Register.{write_reg, dead}
use ctp7_modules.Register.Ram.{Ram}
use ctp7_modules.Register.File.{IsPlain, read_plain, write_plain}
use ctp7_modules.Optohybrid.Broadcast.{
  vfat_reg, read_base, read_vfat, read_or_zero, read_vfats, broadcast_write_v3,
  broadcast_write_local, broadcast_read_local,
}

-- One register of each VFAT of an OptoHybrid, all at different addresses, and the register with the
-- version of the firmware.
pub record Geb {S : Type 0} (card : Card S) (ohN : ℕ) (regName : String) (node : ℕ → Node)
    (release : Node) : Type 0 where
  pub plain : (i : ℕ) → i < 24 → IsPlain card (vfat_reg ohN i regName) (node i)
  pub distinct : (i j : ℕ) → i < 24 → j < 24 → i ≢ j → (node i).real_address ≢ (node j).real_address
  pub release_plain : IsPlain card "GEM_AMC.GEM_SYSTEM.RELEASE.MAJOR" release
  pub release_apart : (i : ℕ) → i < 24 → (node i).real_address ≢ release.real_address

module _ {S : Type 0} (card : Card S) (ram : Ram card) where
  open ram use {peek, poke, peek-poke}

  module _ (ohN : ℕ) (regName : String) (node : ℕ → Node) (release : Node)
      (g : Geb card ohN regName node release) where
    address : ℕ → ℕ
    address i = (node i).real_address

    -- The memory behind the loop.
    after : ℕ → ℕ → S → ℕ → ℕ → S
    after value mask h i zero = h
    after value mask h i (suc left) =
        after value mask (if bit i mask == 1 then h else poke h (node i).real_address value) (i + 1)
          left

    write_loop :
        (value mask : ℕ) (h : S) (r : List Reply) (i left : ℕ)
        → i + left ≤ 24
        → for_unmasked
            (λ vfatN. write_reg card (vfat_reg ohN vfatN regName) value)
            mask
            i
            left
            (idle h r)
          ≡ (ok tt, idle (after value mask h i left) r)
    unfolding for_unmasked after
    write_loop value mask h r i zero le = refl
    write_loop value mask h r i (suc left) le = elim (Bool-cases (bit i mask == 1)) [
      | inl masked ↦ rw masked (write_loop value mask h r (i + 1) left (omega arith))
      | inr free ↦
          rw (free, write_plain card ram _ (node i) (g.plain i (omega arith)) value h r)
            (write_loop value mask (poke h (node i).real_address value) r (i + 1) left
              (omega arith))
    ]

    -- What the loop does not write.
    peek-after_other :
        (value mask : ℕ) (h : S) (i left a : ℕ)
        → ((k : ℕ) → i ≤ k → k < i + left → bit k mask ≢ 1 → (node k).real_address ≢ a)
        → peek (after value mask h i left) a ≡ peek h a
    unfolding after
    peek-after_other value mask h i zero a apart = refl
    peek-after_other value mask h i (suc left) a apart = elim (Bool-cases (bit i mask == 1)) [
      | inl masked ↦ rw masked (
          peek-after_other value mask h (i + 1) left a
            (λ k lo hi. apart k (omega arith) (omega arith)))
      | inr free ↦ rw free (
          peek-after_other value mask (poke h (node i).real_address value) (i + 1) left a
            (λ k lo hi. apart k (omega arith) (omega arith))
          ∙ ground (
            arith,
            peek-poke h (node i).real_address value a,
            apart i (omega arith) (omega arith) (ground arith),
          ))
    ]

    -- What it writes.
    peek-after :
        (value mask : ℕ) (h : S) (i left k : ℕ)
        → i + left ≤ 24
        → i ≤ k
        → k < i + left
        → bit k mask ≢ 1
        → peek (after value mask h i left) (node k).real_address ≡ value
    unfolding after
    peek-after value mask h i zero k le lo hi free = absurd (omega arith)
    peek-after value mask h i (suc left) k le lo hi free = elim (Bool-cases (i == k)) [
      | inl same ↦
          let here : i ≡ k = ground arith in
          let open_gate : (bit i mask == 1) ≡ false = rw here (ne→==_false _ _ free) in
          let h' = poke h (node i).real_address value in
          let address_here : (node i).real_address ≡ (node k).real_address =
            ap (λ (j : ℕ). (node j).real_address) here in
          rw open_gate (
            peek-after_other value mask h' (i + 1) left (node k).real_address
              (λ k' lo' hi' free'. g.distinct k' k (omega arith) (omega arith) (omega arith))
            ∙ ground (
              arith,
              peek-poke h (node i).real_address value (node k).real_address,
              address_here,
            ))
      | inr other ↦
          peek-after value mask (if bit i mask == 1 then h else poke h (node i).real_address value)
            (i + 1) left k (omega arith) (ground arith) (omega arith) free
    ]

    -- On such a board with firmware 3, broadcastWrite returns and refines the update of a memory:
    -- behind it the register of each VFAT that the mask leaves has the value, and every other
    -- address holds what it held before.
    pub broadcast_write_local-memory :
        (fuel value mask : ℕ) (h : S) (r : List Reply)
        → peek h release.real_address % 2 ^ 32 ≡ 3
        → (h' : S) × (broadcast_write_local card fuel ohN regName value mask (idle h r)
            ≡ (ok tt, idle h' r))
          × ((k : ℕ) → k < 24 → bit k mask ≢ 1 → peek h' (node k).real_address ≡ value)
          × ((a : ℕ)
              → ((k : ℕ) → k < 24 → bit k mask ≢ 1 → (node k).real_address ≢ a)
              → peek h' a ≡ peek h a)
    unfolding broadcast_write_local broadcast_write_v3
    broadcast_write_local-memory fuel value mask h r version = (
      after value mask h 0 24,
      rw
          (
            read_plain card ram "GEM_AMC.GEM_SYSTEM.RELEASE.MAJOR" release g.release_plain h r,
            version,
          )
          (write_loop value mask h r 0 24 (omega arith)),
      λ k lt free. peek-after value mask h 0 24 k (omega arith) (omega arith) lt free,
      λ a apart. peek-after_other value mask h 0 24 a (λ k lo hi. apart k hi),
    )

    read_loop :
        (mask : ℕ) (h : S) (r : List Reply) (i left : ℕ)
        → i + left ≤ 24
        → ((k : ℕ) → k < 24 → bit k mask ≢ 1 → peek h (node k).real_address % 2 ^ 32 ≢ dead)
        → read_vfats card (read_base 3 ohN) regName mask i left (idle h r) ≡ (
          ok (
              tabulate i left
                (λ k. if bit k mask == 1 then 0 else peek h (node k).real_address % 2 ^ 32)),
          idle h r,
        )
    unfolding read_vfats read_or_zero read_vfat read_base
    read_loop mask h r i zero le alive = refl
    read_loop mask h r i (suc left) le alive = elim (Bool-cases (bit i mask == 1)) [
      | inl masked ↦ rw (masked, read_loop mask h r (i + 1) left (omega arith) alive) refl
      | inr free ↦
          rw
            (
              free,
              read_plain card ram (vfat_reg ohN i regName) (node i) (g.plain i (omega arith)) h r,
              ne→==_false _ _ (alive i (omega arith) (ground arith)),
              read_loop mask h r (i + 1) left (omega arith) alive,
            )
            refl
    ]

    -- With firmware 3, broadcastRead gives 24 words: 0 for a masked VFAT and the register of
    -- every other one.
    pub broadcast_read_local-memory :
        (mask : ℕ) (h : S) (r : List Reply)
        → peek h release.real_address % 2 ^ 32 ≡ 3
        → ((k : ℕ) → k < 24 → bit k mask ≢ 1 → peek h (node k).real_address % 2 ^ 32 ≢ dead)
        → broadcast_read_local card ohN regName mask (idle h r) ≡ (
          ok (
              tabulate 0 24
                (λ k. if bit k mask == 1 then 0 else peek h (node k).real_address % 2 ^ 32)),
          idle h r,
        )
    unfolding broadcast_read_local
    broadcast_read_local-memory mask h r version alive =
        rw
          (
            read_plain card ram "GEM_AMC.GEM_SYSTEM.RELEASE.MAJOR" release g.release_plain h r,
            version,
          )
          (read_loop mask h r 0 24 (omega arith) alive)

    masked_ext :
        (f f' : ℕ → ℕ) (mask i left : ℕ)
        → i + left ≤ 24
        → ((k : ℕ) → k < 24 → bit k mask ≢ 1 → f k ≡ f' k)
        → tabulate i left (λ k. if bit k mask == 1 then 0 else f k)
          ≡ tabulate i left (λ k. if bit k mask == 1 then 0 else f' k)
    masked_ext f f' mask i zero le same = refl
    masked_ext f f' mask i (suc left) le same =
        let rest = masked_ext f f' mask (i + 1) left (omega arith) same in
        elim (Bool-cases (bit i mask == 1)) [
          | inl masked ↦ rw (masked, rest) refl
          | inr free ↦ rw (free, same i (omega arith) (ground arith), rest) refl
        ]

    -- On a board whose address space behaves like memory, with firmware 3 and with a register
    -- without a mask for each VFAT at an address of its own, broadcastWrite of a 32-bit value that
    -- is not the sentinel 0xdeaddead, followed by broadcastRead with the same mask, gives the
    -- value for each VFAT that the mask leaves and 0 for each other one.
    pub broadcast_read-broadcast_write :
        (fuel value mask : ℕ) (h : S) (r : List Reply)
        → peek h release.real_address % 2 ^ 32 ≡ 3
        → value < 2 ^ 32
        → value ≢ dead
        → ((broadcast_write_local card fuel ohN regName value mask
              >> broadcast_read_local card ohN regName mask)
            (idle h r)).0
          ≡ ok (tabulate 0 24 (λ k. if bit k mask == 1 then 0 else value))
    broadcast_read-broadcast_write fuel value mask h r version fits alive =
        let (h', wrote, new, old) = broadcast_write_local-memory fuel value mask h r version in
        let word : (k : ℕ)
            → k < 24
            → bit k mask ≢ 1
            → peek h' (node k).real_address % 2 ^ 32 ≡ value =
          λ k lt free. omega (arith, new k lt free) in
        rw wrote (
          rw
            (broadcast_read_local-memory mask h' r
              (rw (old release.real_address (λ k lt free. g.release_apart k lt)) version)
              (λ k lt free. rw (word k lt free) alive))
            (ap ok (
              masked_ext (λ k. peek h' (node k).real_address % 2 ^ 32) (λ _. value) mask 0 24
                (omega arith) word)))
