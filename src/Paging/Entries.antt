-- ===== src/Paging/Entries.antt =====
-- makePageEntry and the flags of the pages (Boot/Legacy/Stage3/Memory/Memory.h, Paging.c), as the processor
-- reads them back; the allocation of one table.
use Prim.Native.Nat.{bit_or}
use serra.Base.{ℕ, ◌+◌, ◌-◌, ◌*◌, ◌/◌, ◌%◌, ◌^◌, ◌<◌, ◌≡◌, refl, inl, inr, arith, if_intro}
use serra.Base.Or.{bit_or-lt, bit_or-add, half-bit_or, quarter-bit_or, odd-bit_or}
use serra.Paging.{page_address, make_page_entry, pde_flags, Request}

-- Flags below the address bits, with pagePresent.
abbrev pub Flagged : ℕ → Type 0
Flagged flags = (flags < 4096) × (flags % 2 ≡ 1)

-- The page of an address.
pub make_page_entry-add :
    (address flags : ℕ)
    → flags < 4096
    → make_page_entry address flags ≡ page_address address + flags
unfolding make_page_entry page_address
make_page_entry-add address flags small =
    let page : address - address % 4096 ≡ address / 4096 * 2 ^ 12 = omega arith in
    rw page (bit_or-add 12 (address / 4096) flags small)

-- The address comes back out of the entry.
pub page_address-make_page_entry :
    (address flags : ℕ)
    → flags < 4096
    → address % 4096 ≡ 0
    → page_address (make_page_entry address flags) ≡ address
page_address-make_page_entry address flags small aligned =
    rw (make_page_entry-add address flags small) (unfold page_address in omega arith)

-- An entry of a large page.
pub large_entry :
    (address flags : ℕ)
    → flags < 0x200000
    → address % 0x200000 ≡ 0
    → make_page_entry address flags ≡ address + flags
unfolding make_page_entry page_address
large_entry address flags small aligned =
    let page : address - address % 4096 ≡ address / 0x200000 * 2 ^ 21 = omega arith in
    rw page (omega (arith, bit_or-add 21 (address / 0x200000) flags small))

-- The flags of a large page: present, with the bit that makes it large.
pub record Large (flags : ℕ) : Type 0 where
  pub small : flags < 0x200000
  pub present : flags % 2 ≡ 1
  pub large : flags / 128 % 2 ≡ 1

high-bit_or : (a b : ℕ) → bit_or a b / 128 ≡ bit_or (a / 128) (b / 128)
high-bit_or a b = cc (
  let x : bit_or a b / 128 ≡ bit_or a b / 4 / 4 / 4 / 2 = omega arith in x,
  quarter-bit_or a b,
  quarter-bit_or (a / 4) (b / 4),
  quarter-bit_or (a / 4 / 4) (b / 4 / 4),
  half-bit_or (a / 4 / 4 / 4) (b / 4 / 4 / 4),
  let x : a / 4 / 4 / 4 / 2 ≡ a / 128 = omega arith in x,
  let x : b / 4 / 4 / 4 / 2 ≡ b / 128 = omega arith in x,
)

-- pde_flags makes the flags of a large page.
pub pde_flags-Large : (r : Request) → Flagged r.flags → Large (pde_flags r)
unfolding pde_flags
pde_flags-Large r (small, present) =
    if_intro (λ (pat : ℕ). Large (bit_or (bit_or r.flags 128) pat)) r.use_pat
      (with 4096 (omega arith)) (with 0 (omega arith))
  where
    with : (pat : ℕ) → pat < 2 ^ 21 → Large (bit_or (bit_or r.flags 128) pat)
    with pat low = record {
      small =
          bit_or-lt 21 (bit_or r.flags 128) pat
            (bit_or-lt 21 r.flags 128 (omega arith) (omega arith)) low;
      present = odd-bit_or _ pat (inl (odd-bit_or r.flags 128 (inl present)));
      large = rw (high-bit_or (bit_or r.flags 128) pat) (
          odd-bit_or _ (pat / 128)
            (inl (rw (high-bit_or r.flags 128) (odd-bit_or (r.flags / 128) 1 (inr refl)))));
    }
