-- ===== src/Fs/Mbr/Chs.antt =====
-- ConvertChsToLba (Common/Kernel/Disk/Fs/Fs.c) numbers the sectors of a disk.
use serra.Base.{ℕ, ◌+◌, ◌*◌, ◌/◌, ◌%◌, ◌<◌, ◌≤◌, ◌≡◌, arith}
use serra.Fs.Layout.{ChsAddress}
use serra.Fs.Mbr.{convert_chs_to_lba}

-- An address that names a sector: sectors count from 1 to 63, heads from 0 to 254.
pub record IsChs (chs : ChsAddress) : Type 0 where
  pub first_sector : 1 ≤ chs.sectors
  pub last_sector : chs.sectors ≤ 63
  pub last_head : chs.heads < 255
  pub last_cylinder : chs.cylinders < 1024

-- The sector with a given number, in the geometry that the program supposes.
abbrev pub chs_of_lba : ℕ → ChsAddress
chs_of_lba lba = record {
  heads = lba / 63 % 255;
  sectors = lba % 63 + 1;
  cylinders = lba / 63 / 255;
}

-- On addresses that name a sector the conversion does not wrap, stays below the number of sectors,
-- and is undone by division: no two of them have the same number.
pub convert_chs_to_lba-chs_of_lba :
    (chs : ChsAddress)
    → IsChs chs
    → (convert_chs_to_lba chs < 1024 * 255 * 63) × (chs_of_lba (convert_chs_to_lba chs) ≡ chs)
unfolding convert_chs_to_lba
convert_chs_to_lba-chs_of_lba chs h = (omega arith, ground arith)

-- Every number of a sector is the conversion of an address.
pub chs_of_lba-convert_chs_to_lba :
    (lba : ℕ)
    → lba < 1024 * 255 * 63
    → IsChs (chs_of_lba lba) × (convert_chs_to_lba (chs_of_lba lba) ≡ lba)
unfolding convert_chs_to_lba
chs_of_lba-convert_chs_to_lba lba h = (omega arith, omega arith)
