-- ===== src/Paging/Spans.antt =====
-- The first and last indices of the loops of InitializePageEntries (Boot/Legacy/Stage3/Memory/Paging/Paging.c).
use serra.Base.{
  ℕ, ◌+◌, ◌-◌, ◌*◌, ◌/◌, ◌%◌, ◌≤◌, ◌<◌, ◌≡◌, sym, ◌⊎◌, inl, inr, true, false, ◌==◌, arith,
  Bool-cases, ==_iff, if◌then◌else◌,
}
use serra.Paging.{Request, first_index, last_index}

-- The numbers of the first and the last page, as the loops have them.
pub record Spans (r : Request) (i4 first last : ℕ) : Type 0 where
  pub first4 : r.initial 0 ≡ i4
  pub first3 : r.initial 1 ≡ first / 512
  pub first2 : r.initial 2 ≡ first % 512
  pub last4 : r.final 0 ≡ i4
  pub last3 : r.final 1 ≡ last / 512
  pub last2 : r.final 2 ≡ last % 512
  pub ordered : first ≤ last
  pub region : last < 0x40000

-- Where a round of the loop begins: at the first page, or at the first one of a table.
abbrev pub Begins : (first x : ℕ) → Type 0
Begins first x = (x ≡ first) ⊎ ((first < x) × (x % 512 ≡ 0))

-- Where it ends.
abbrev pub end_of : (last j : ℕ) → ℕ
end_of last j = if j == last / 512 then last + 1 else 512 * (j + 1)

pub ==_refl : (a : ℕ) → (a == a) ≡ true
==_refl a = ground arith

pub first_index_lem :
    (r : Request) (i4 first last x : ℕ)
    → Spans r i4 first last
    → Begins first x
    → first_index r 2 i4 (x / 512) 0 ≡ x % 512
unfolding first_index
first_index_lem r i4 first last x spans (inl same) =
    let here : (x / 512 == first / 512) ≡ true = rw same (ground arith) in
    rw (spans.first4, spans.first3, spans.first2, here, ==_refl i4, same)
first_index_lem r i4 first last x spans (inr (more, edge)) =
    let other : (x / 512 == first / 512) ≡ false = ground arith in
    rw (spans.first4, spans.first3, spans.first2, other, ==_refl i4) (sym edge)

pub rounds_lem :
    (r : Request) (i4 first last x : ℕ)
    → Spans r i4 first last
    → x ≤ last
    → last_index r 2 i4 (x / 512) 0 + 1 - x % 512 ≡ end_of last (x / 512) - x
unfolding last_index
rounds_lem r i4 first last x spans h = elim (Bool-cases (x / 512 == last / 512)) [
  | inl here ↦
      let same = (==_iff _ _).0 here in
      rw (spans.last4, spans.last3, spans.last2, here, ==_refl i4) (omega arith)
  | inr other ↦ rw (spans.last4, spans.last3, spans.last2, other, ==_refl i4) (omega arith)
]

-- The end of a round is after its begin, in the same table.
pub end_bounds :
    (last x : ℕ)
    → x ≤ last
    → (x < end_of last (x / 512))
      × (end_of last (x / 512) ≤ last + 1)
      × (end_of last (x / 512) ≤ 512 * (x / 512 + 1))
end_bounds last x h = elim (Bool-cases (x / 512 == last / 512)) [
  | inl here ↦ let same = (==_iff _ _).0 here in rw here (omega arith, omega arith, omega arith)
  | inr other ↦ rw other (omega arith, ground arith, omega arith)
]
