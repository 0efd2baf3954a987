-- ===== src/Fat/Matches.antt =====
-- FatNameIsEqual and the entries that FindDirectory looks for (Boot/Legacy/Shared/Disk/Disk.c).
use mathlib.Core.Path.{subst}
use serra.Base.{
  ℕ, zero, suc, ◌+◌, ◌/◌, ◌%◌, ◌^◌, ◌≤◌, ◌<◌, ◌≡◌, ◌≢◌, sym, ◌⊎◌, inl, inr, Bool, true, false, not,
  ◌==◌, if◌then◌else◌, arith, Bool-cases,
}
use serra.Crc.{Bytes}
use serra.Fat.{FatDirectory, same_characters, fat_name_is_equal}

same_characters_sound :
    (n index : ℕ) (a b : Bytes)
    → same_characters n index a b ≡ true
    → (i : ℕ) → index ≤ i
    → i < index + n
    → a i ≡ b i
unfolding same_characters
same_characters_sound zero index a b h i low high = absurd (omega arith)
same_characters_sound (suc n) index a b h i low high =
    let here : a index ≡ b index = ground arith in
    let rest : same_characters n (index + 1) a b ≡ true = ground arith in
    elim (Bool-cases (i == index)) [
      | inl same ↦ let e : index ≡ i = ground arith in subst (λ (k : ℕ). a k ≡ b k) e here
      | inr other ↦ same_characters_sound n (index + 1) a b rest i (ground arith) (omega arith)
    ]

-- An entry whose name does not begin with 0, of the kind and with the name that are looked for; a folder's extension is not compared.
pub record Matches (name extension : Bytes) (is_folder : Bool) (entry : FatDirectory) : Type 0 where
  pub used : entry.name 0 ≢ 0
  pub short : entry.attributes % 16 ≢ 15
  pub kind : not (entry.attributes / 2 ^ 4 % 2 == 0) ≡ is_folder
  pub same_name : (i : ℕ) → i < 8 → entry.name i ≡ name i
  pub same_extension : (is_folder ≡ true) ⊎ ((i : ℕ) → i < 3 → entry.extension i ≡ extension i)

pub fat_name_is_equal_sound :
    (entry_name entry_extension name extension : Bytes) (is_folder : Bool)
    → fat_name_is_equal entry_name entry_extension name extension is_folder ≡ true
    → ((i : ℕ) → i < 8 → entry_name i ≡ name i)
      × ((is_folder ≡ true) ⊎ ((i : ℕ) → i < 3 → entry_extension i ≡ extension i))
unfolding fat_name_is_equal
fat_name_is_equal_sound entry_name entry_extension name extension is_folder h =
    let names : same_characters 8 0 entry_name name ≡ true = ground arith in
    (
      λ i less. same_characters_sound 8 0 entry_name name names i (omega arith) (omega arith),
      elim (Bool-cases is_folder) [
        | inl folder ↦ inl folder
        | inr file ↦
            let extensions : same_characters 3 0 entry_extension extension ≡ true = ground arith in
            inr (λ i less.
              same_characters_sound 3 0 entry_extension extension extensions i (omega arith)
                (omega arith))
      ],
    )

pub same_kind : (a b : Bool) → (if a then not b else b) ≡ false → a ≡ b
same_kind true b h = ground arith
same_kind false b h = sym h
