-- ===== src/Fs/Mbr/Validate.antt =====
-- ValidateMbrHeader (Common/Kernel/Disk/Fs/Fs.c) accepts exactly the headers that pass its checks.
use mathlib.Core.Path.{subst}
use mathlib.Core.Bool.{false≢true}
use serra.Base.{
  from_index, ltb→lt, ltb→le, sym, ◌∙◌, ℕ, zero, suc, ◌+◌, ◌*◌, ◌%◌, ◌<◌, ◌≤◌, ◌≡◌, refl, ◌≢◌, ◌⊎◌,
  inl, inr, ◌↔◌, true, false, not, ◌&&◌, ltb, leb, ◌==◌, ==_iff, arith, Bool-cases,
}
use serra.Disk.{Volumes}
use serra.Fs.Layout.{
  MbrHeader, mbr_header_signature, mbr_partition_type_none, mbr_partition_type_gpt,
}
use serra.Fs.Mbr.{
  u64, calculate_mbr_offset, partition_end, Scan, check_entries, validate_mbr_header,
}

-- What the loop wants of an entry that is in use. Starts and ends are sector numbers.
pub record IsEntry (header : MbrHeader) (sector_limit index : ℕ) : Type 0 where
  pub starts : calculate_mbr_offset header index ≢ 0
  pub ends :
      (partition_end header index ≤ sector_limit)
      ⊎ ((header.entry index).type ≡ mbr_partition_type_gpt)
  pub ordered : calculate_mbr_offset header index < partition_end header index

abbrev pub Used : MbrHeader → ℕ → Type 0
Used header index = (header.entry index).type ≢ mbr_partition_type_none

from_last : (P : ℕ → Type 0) (n j : ℕ) → j < suc n → P n → (j < n → P j) → P j
from_last P n j p last before = elim (Bool-cases (ltb j n)) [
  | inl less ↦ before (ltb→lt j n less)
  | inr same ↦ let e : n ≡ j = omega (arith, ltb→le j n same) in subst P e last
]

module _ (header : MbrHeader) (limit : ℕ) where
  abbrev EntriesOk : (index to : ℕ) → Type 0
  EntriesOk index to = (j : ℕ) → index ≤ j → j < to → Used header j → IsEntry header limit j

  -- What the loop from `index` on says of the entries up to `to`.
  record Checked (index to empty : ℕ) (scan : Scan) : Type 0 where
    sound : scan.valid ≡ true → EntriesOk index to
    complete : EntriesOk index to → scan.valid ≡ true
    all_empty :
        ((j : ℕ) → index ≤ j → j < to → ¬ Used header j)
        → scan.num_empty_entries + index ≡ empty + to
    some_used :
        (j : ℕ)
        → scan.valid ≡ true
        → index ≤ j
        → j < to
        → Used header j
        → scan.num_empty_entries + index < empty + to
    bounded : scan.num_empty_entries + index ≤ empty + to

  module _ (index to empty : ℕ) (scan : Scan) where
    EntriesOk-tail : EntriesOk index to → EntriesOk (index + 1) to
    EntriesOk-tail h j p = h j (omega arith)

    Checked-skip :
        ¬ Used header index → Checked (index + 1) to (empty + 1) scan → Checked index to empty scan
    Checked-skip free c = record {
      sound = λ v j p q u.
          from_index (λ k. Used header k → IsEntry header limit k) index j p
            (λ u'. absurd (free u')) (λ p' u'. c.sound v j p' q u') u;
      complete = λ h. c.complete (EntriesOk-tail h);
      all_empty = λ h. omega (arith, c.all_empty (λ j p q. h j (omega arith) q));
      some_used = λ j v p q u.
          from_index (λ k. Used header k → scan.num_empty_entries + index < empty + to) index j p
            (λ u'. absurd (free u')) (λ p' u'. omega (arith, c.some_used j v p' q u')) u;
      bounded = omega (arith, c.bounded);
    }

    Checked-use :
        index < to
        → Used header index
        → IsEntry header limit index
        → Checked (index + 1) to empty scan
        → Checked index to empty scan
    Checked-use inside used ok c = record {
      sound = λ v j p q u.
          from_index (λ k. Used header k → IsEntry header limit k) index j p (λ _. ok)
            (λ p' u'. c.sound v j p' q u') u;
      complete = λ h. c.complete (EntriesOk-tail h);
      all_empty = λ h. absurd (h index (omega arith) inside used);
      some_used = λ j v p q u. omega (arith, c.bounded);
      bounded = omega (arith, c.bounded);
    }

  Checked-fail :
      (index to empty : ℕ)
      → index < to
      → Used header index
      → ¬ IsEntry header limit index
      → Checked index to empty (record { valid = false; num_empty_entries = empty })
  Checked-fail index to empty inside used bad = record {
    sound = λ v. cc;
    complete = λ h. absurd (bad (h index (omega arith) inside used));
    all_empty = λ h. absurd (h index (omega arith) inside used);
    some_used = λ j v. cc;
    bounded = omega arith;
  }

  IsEntry-of_tests :
      (index : ℕ)
      → (calculate_mbr_offset header index == 0) ≡ false
      → (ltb limit (partition_end header index)
          && not ((header.entry index).type == mbr_partition_type_gpt))
        ≡ false
      → leb (partition_end header index) (calculate_mbr_offset header index) ≡ false
      → IsEntry header limit index
  IsEntry-of_tests index nz inside ordered = record {
    starts = ground arith;
    ends = ground arith;
    ordered = ground arith;
  }

  check_entries-Checked :
      (n index to empty : ℕ)
      → index + n ≡ to
      → Checked index to empty (check_entries n index header limit empty)
  unfolding check_entries
  check_entries-Checked zero index to empty e = record {
    sound = λ _ j p q. absurd (omega arith);
    complete = λ _. refl;
    all_empty = λ _. omega arith;
    some_used = λ j _ p q. absurd (omega arith);
    bounded = omega arith;
  }
  check_entries-Checked (suc n) index to empty e =
      let skip = check_entries-Checked n (index + 1) to (empty + 1) (omega arith) in
      let rest = check_entries-Checked n (index + 1) to empty (omega arith) in
      let fail = Checked-fail index to empty (omega arith) in
      elim (Bool-cases ((header.entry index).type == mbr_partition_type_none)) [
        | inl free ↦ rw free (Checked-skip index to empty _ (λ u. u ((==_iff _ _).0 free)) skip)
        | inr taken ↦
            let used : Used header index = λ u. false≢true (sym taken ∙ (==_iff _ _).1 u) in
            rw taken (elim (Bool-cases (calculate_mbr_offset header index == 0)) [
              | inl z ↦ rw z (fail used λ k. k.starts ((==_iff _ _).0 z))
              | inr nz ↦
                  rw nz
                    (elim (Bool-cases (
                      ltb limit (partition_end header index)
                      && not ((header.entry index).type == mbr_partition_type_gpt))) [
                        | inl past ↦ rw past (fail used λ k. ground (arith, k.ends))
                        | inr inside ↦
                            rw inside
                              (elim (Bool-cases (
                                leb (partition_end header index)
                                  (calculate_mbr_offset header index))) [
                                    | inl empty_range ↦
                                        rw empty_range (fail used λ k. ground (arith, k.ordered))
                                    | inr ordered ↦ rw ordered (
                                        Checked-use index to empty _ (omega arith) used
                                          (IsEntry-of_tests index nz inside ordered) rest)
                                  ])
                      ])
            ])
      ]

find-Used :
    (header : MbrHeader) (n : ℕ)
    → ((j : ℕ) × (j < n) × Used header j) ⊎ ((j : ℕ) → j < n → ¬ Used header j)
find-Used header zero = inr (λ j q. absurd (omega arith))
find-Used header (suc n) = elim (find-Used header n) [
  | inl (j, q, u) ↦ inl (j, omega arith, u)
  | inr free ↦ elim (Bool-cases ((header.entry n).type == mbr_partition_type_none)) [
    | inl e ↦
        inr (λ j q. from_last (λ k. ¬ Used header k) n j q (λ u. u ((==_iff _ _).0 e)) (free j))
    | inr e ↦ inl (n, omega arith, λ u. false≢true (sym e ∙ (==_iff _ _).1 u))
  ]
]

-- The header that the program takes for a partition table.
pub record IsMbr (header : MbrHeader) (volume_num : ℕ) (s : Volumes) : Type 0 where
  pub in_use : volume_num < s.num_volumes
  pub whole_device : (s.volume_list volume_num).is_partition ≡ false
  pub signed : header.signature ≡ mbr_header_signature
  pub entries :
      (j : ℕ)
      → j < 4
      → Used header j
      → IsEntry header
          ((s.volume_list volume_num).bytes_per_sector
            * (s.volume_list volume_num).num_sectors
            % u64)
          j
  pub some_entry : (j : ℕ) × (j < 4) × Used header j

module _ (header : MbrHeader) (volume_num : ℕ) (s : Volumes) where
  abbrev sector_limit : ℕ
  sector_limit =
      (s.volume_list volume_num).bytes_per_sector * (s.volume_list volume_num).num_sectors % u64

  checked : Checked header sector_limit 0 4 0 (check_entries 4 0 header sector_limit 0)
  checked = check_entries-Checked header sector_limit 4 0 4 0 (omega arith)

  validate_sound : validate_mbr_header header volume_num s ≡ true → IsMbr header volume_num s
  unfolding validate_mbr_header
  validate_sound h = record {
    in_use = ground arith;
    whole_device = ground arith;
    signed = ground arith;
    entries = λ j q u. checked.sound (ground arith) j (omega arith) q u;
    some_entry = elim (find-Used header 4) [
      | inl found ↦ found
      | inr free ↦ let all = checked.all_empty (λ j p. free j) in absurd (ground (arith, all))
    ];
  }

  validate_complete : IsMbr header volume_num s → validate_mbr_header header volume_num s ≡ true
  unfolding validate_mbr_header
  validate_complete h =
      let (j, q, u) = h.some_entry in
      let valid = checked.complete (λ j p q. h.entries j q) in
      let few = checked.some_used j valid (omega arith) q u in
      ground (arith, valid, few, h.in_use, h.whole_device, h.signed)

-- ValidateMbrHeader accepts a header exactly when the volume is in use and no partition, the signature
-- is right, some entry is in use, and every entry that is in use starts behind sector 0, ends behind
-- its start, and ends no later than sector number BytesPerSector * NumSectors unless it is GPT
-- protective.
pub validate_mbr_header_iff :
    (header : MbrHeader) (volume_num : ℕ) (s : Volumes)
    → (validate_mbr_header header volume_num s ≡ true) ↔ IsMbr header volume_num s
validate_mbr_header_iff header volume_num s =
    (validate_sound header volume_num s, validate_complete header volume_num s)
