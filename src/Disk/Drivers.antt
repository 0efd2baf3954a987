-- ===== src/Disk/Drivers.antt =====
-- Common/Kernel/Disk/Disk.c with its two drivers: ReadDisk as the kernel runs it.
pub mod Bytes
use serra.Base.{ℕ, ◌%◌, ◌^◌, Bool, true, false, Option, none, some}
use serra.Disk.Read.{Machine}
use serra.Disk.Bios.{Firmware, read_sectors_bios}
use serra.Disk.Efi.{BootServices, read_sectors_efi}
use serra.Disk.Start.{Subsystem}

-- The result of a driver. A loop that does not end has none; with a round for each sector it ends.
unfoldable pub finished : {W : Type 0} → W → Option (Bool × W) → Bool × W
finished w none = (false, w)
finished w (some r) = r

-- The services of ReadDisk, with the drivers under the state `t` of the subsystem. A drive number is cut
-- to the 16 or 8 bits of the driver's parameter.
unfoldable pub disk_machine :
    {W : Type 0} → BootServices W → Firmware W → (ℕ → ℕ → W → Bool × W) → Subsystem W → Machine W
disk_machine efi bios free t = record {
  cpu = bios.cpu;
  simd = bios.simd;
  memory = bios.memory;
  store = bios.store;
  allocate = efi.allocate;
  free = free;
  read_sectors_efi = λ buffer lba n drive media_id w.
      read_sectors_efi efi buffer lba n (drive % 2 ^ 16) media_id t.info t.io t.volumes w;
  read_sectors_bios = λ buffer lba n drive w.
      finished w (read_sectors_bios bios n buffer lba n (drive % 2 ^ 8) t.info t.volumes w);
}
