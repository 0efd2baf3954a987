-- ===== src/Fs/Layout.antt =====
-- Common/Kernel/Disk/Fs/Fs.h: the structures that overlay a sector, read from its bytes.
-- Numbers of several bytes are little-endian, as on x86.
use serra.Base.{ℕ, ◌+◌, ◌*◌, ◌/◌, ◌%◌, ◌^◌, List, [], ◌∷◌}
use serra.Crc.{Bytes}

abbrev pub le16 : Bytes → ℕ → ℕ
le16 b i = b i + b (i + 1) * 2 ^ 8

abbrev pub le32 : Bytes → ℕ → ℕ
le32 b i = le16 b i + le16 b (i + 2) * 2 ^ 16

abbrev pub le64 : Bytes → ℕ → ℕ
le64 b i = le32 b i + le32 b (i + 4) * 2 ^ 32

-- `chsAddress`. The bit-fields are 8, 6 and 10 bits wide and packed from the lowest bit on.
pub record ChsAddress : Type 0 where
  pub heads : ℕ
  pub sectors : ℕ
  pub cylinders : ℕ

unfoldable pub chs_address : Bytes → ℕ → ChsAddress
chs_address b i = record {
  heads = b i;
  sectors = b (i + 1) % 2 ^ 6;
  cylinders = b (i + 1) / 2 ^ 6 + b (i + 2) * 2 ^ 2;
}

-- One of the four entries of `mbrHeader`.
pub record MbrEntry : Type 0 where
  pub attributes : ℕ
  pub chs_start : ChsAddress
  pub type : ℕ
  pub chs_end : ChsAddress
  pub lba : ℕ
  pub num_sectors : ℕ

unfoldable pub mbr_entry : Bytes → ℕ → MbrEntry
mbr_entry b i = record {
  attributes = b i;
  chs_start = chs_address b (i + 1);
  type = b (i + 4);
  chs_end = chs_address b (i + 5);
  lba = le32 b (i + 8);
  num_sectors = le32 b (i + 12);
}

-- `mbrHeader`, without its bootstrap code: `entry` has the indices 0 to 3.
pub record MbrHeader : Type 0 where
  pub entry : ℕ → MbrEntry
  pub signature : ℕ

-- A bootsector as an `mbrHeader*`.
unfoldable pub mbr_header : Bytes → MbrHeader
mbr_header b = record { entry = λ n. mbr_entry b (446 + 16 * n); signature = le16 b 510 }

abbrev pub mbr_header_signature : ℕ
mbr_header_signature = 0xaa55

abbrev pub mbr_partition_type_none : ℕ
mbr_partition_type_none = 0x00

abbrev pub mbr_partition_type_gpt : ℕ
mbr_partition_type_gpt = 0xee

-- `gptHeader`.
pub record GptHeader : Type 0 where
  pub signature : ℕ
  pub revision : ℕ
  pub size : ℕ
  pub crc32 : ℕ
  pub header_lba : ℕ
  pub backup_lba : ℕ
  pub partition_lba : ℕ
  pub num_partitions : ℕ
  pub partition_entry_size : ℕ
  pub partition_crc32 : ℕ

-- The fields that the program reads, at their offsets.
unfoldable pub gpt_header : Bytes → GptHeader
gpt_header b = record {
  signature = le64 b 0;
  revision = le32 b 8;
  size = le32 b 12;
  crc32 = le32 b 16;
  header_lba = le64 b 24;
  backup_lba = le64 b 32;
  partition_lba = le64 b 72;
  num_partitions = le32 b 80;
  partition_entry_size = le32 b 84;
  partition_crc32 = le32 b 88;
}

-- `sizeof(gptHeader)`, `gptHeaderSignature` and `gptHeaderRevision`.
abbrev pub gpt_header_size : ℕ
gpt_header_size = 92

abbrev pub gpt_header_signature : ℕ
gpt_header_signature = 0x5452_4150_2049_4645

abbrev pub gpt_header_revision : ℕ
gpt_header_revision = 0x1_0000

-- The 16 bytes of a `genericUuid`, as they lie in memory.
unfoldable pub uuid_bytes : Bytes → ℕ → List ℕ
uuid_bytes b i =
    b i
    ∷ b (i + 1)
    ∷ b (i + 2)
    ∷ b (i + 3)
    ∷ b (i + 4)
    ∷ b (i + 5)
    ∷ b (i + 6)
    ∷ b (i + 7)
    ∷ b (i + 8)
    ∷ b (i + 9)
    ∷ b (i + 10)
    ∷ b (i + 11)
    ∷ b (i + 12)
    ∷ b (i + 13)
    ∷ b (i + 14)
    ∷ b (i + 15)
    ∷ []

abbrev pub gpt_partition_type_none : List ℕ
gpt_partition_type_none = 0 ∷ 0 ∷ 0 ∷ 0 ∷ 0 ∷ 0 ∷ 0 ∷ 0 ∷ 0 ∷ 0 ∷ 0 ∷ 0 ∷ 0 ∷ 0 ∷ 0 ∷ 0 ∷ []

abbrev pub gpt_partition_type_basic_data : List ℕ
gpt_partition_type_basic_data =
    0xa2 ∷ 0xa0 ∷ 0xd0 ∷ 0xeb ∷ 0xe5 ∷ 0xb9 ∷ 0x33 ∷ 0x44 ∷ 0x87 ∷ 0xc0 ∷ 0x68 ∷ 0xb6 ∷ 0xb7 ∷ 0x26
    ∷ 0x99 ∷ 0xc7 ∷ []

abbrev pub gpt_partition_type_esp : List ℕ
gpt_partition_type_esp =
    0x28 ∷ 0x73 ∷ 0x2a ∷ 0xc1 ∷ 0x1f ∷ 0xf8 ∷ 0xd2 ∷ 0x11 ∷ 0xba ∷ 0x4b ∷ 0x00 ∷ 0xa0 ∷ 0xc9 ∷ 0x3e
    ∷ 0xc9 ∷ 0x3b ∷ []

abbrev pub gpt_partition_type_linux_data : List ℕ
gpt_partition_type_linux_data =
    0xe3 ∷ 0xbc ∷ 0x68 ∷ 0x4f ∷ 0xcd ∷ 0xe8 ∷ 0xb1 ∷ 0x4d ∷ 0x96 ∷ 0xe7 ∷ 0xfb ∷ 0xca ∷ 0xf9 ∷ 0x84
    ∷ 0xb7 ∷ 0x09 ∷ []

-- `gptPartition`: the type and the first and last LBA.
pub record GptPartition : Type 0 where
  pub type : List ℕ
  pub starting_lba : ℕ
  pub ending_lba : ℕ

unfoldable pub gpt_partition : Bytes → ℕ → GptPartition
gpt_partition b i = record {
  type = uuid_bytes b i;
  starting_lba = le64 b (i + 32);
  ending_lba = le64 b (i + 40);
}
