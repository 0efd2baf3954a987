-- ===== src/Disk/Drivers/Bytes.antt =====
-- ReadDisk after a boot by int 13h, down to the real mode code.
use serra.Base.{
  ℕ, ◌+◌, ◌*◌, ◌%◌, ◌^◌, ◌≤◌, ◌<◌, ◌≡◌, refl, sym, ap, ◌∙◌, ◌≢◌, ◌⊎◌, Bool, true, false, not, ◌&&◌,
  ltb, ◌==◌, Option, none, some, arith, if_intro,
}
use serra.Crc.{Bytes}
use serra.Disk.{BootMethod, DiskInfo, Volume, Volumes}
use serra.Disk.Read.{u64, extent_of, start_of, read_disk}
use serra.Disk.Read.Unaligned.{Works, read_disk-bytes}
use serra.Disk.Bios.{Firmware}
use serra.Disk.Bios.Steps.{data_end}
use serra.Disk.Bios.Loop.{Int13Works}
use serra.Disk.Bios.Read.{read_sectors_bios-Reads}
use serra.Disk.Efi.{BootServices, BlockIo, is_efi, read_sectors_efi}
use serra.Disk.Start.{Subsystem}
use serra.Disk.Drivers.{finished, disk_machine}

finished-true :
    {W : Type 0} (w : W) (o : Option (Bool × W))
    → (finished w o).0 ≡ true
    → o ≡ some (true, (finished w o).1)
unfolding finished
finished-true w none h = absurd (ground arith)
finished-true w (some (ok, w')) h = rw h refl

-- Without a boot by EFI its driver reads nothing.
read_sectors_efi-refused :
    {W : Type 0} (efi : BootServices W) (info : DiskInfo) (io : BlockIo) (s : Volumes)
    (buffer lba n index media_id : ℕ) (w : W)
    → is_efi info.boot_method ≡ false
    → (read_sectors_efi efi buffer lba n index media_id info io s w).0 ≡ false
unfolding read_sectors_efi
read_sectors_efi-refused {W} efi info io s buffer lba n index media_id w other =
    let No : Bool × W → Type 0 = λ r. r.0 ≡ false in
    if_intro No (n == 0) refl
      (if_intro No (buffer == 0) refl (if_intro No (not s.is_enabled) refl (rw other refl)))

-- What the memory manager promises to a caller with a buffer of `size` bytes.
pub record IsHeap {W : Type 0} (bios : Firmware W) (allocate : ℕ → W → ℕ × W)
    (free : ℕ → ℕ → W → Bool × W) (buffer size : ℕ) : Type 0 where
  pub allocates :
      (n : ℕ) (w : W)
      → (allocate n w).0 ≢ 0
      → ((allocate n w).0 + n ≤ buffer) ⊎ (buffer + size ≤ (allocate n w).0)
  pub stands :
      (n : ℕ) (w : W)
      → (allocate n w).0 ≢ 0
      → (data_end ≤ (allocate n w).0) × ((allocate n w).0 + n < u64)
  pub frees :
      (pointer n : ℕ) (w : W) (i : ℕ)
      → i < size
      → bios.memory (free pointer n w).1 (buffer + i) ≡ bios.memory w (buffer + i)

-- The real mode code makes the drivers keep what ReadDisk needs of them.
disk_machine-Works :
    {W : Type 0} (efi : BootServices W) (bios : Firmware W) (free : ℕ → ℕ → W → Bool × W)
    (t : Subsystem W) (drive : Bytes) (volume : Volume) (buffer size : ℕ)
    → Int13Works bios (volume.drive % 2 ^ 8) t.info.int13.bytes_per_sector drive
    → t.info.boot_method ≡ BootMethod.int13
    → volume.bytes_per_sector ≡ t.info.int13.bytes_per_sector
    → IsHeap bios efi.allocate free buffer size
    → Works (disk_machine efi bios free t) data_end drive volume buffer size
unfolding disk_machine
disk_machine-Works efi bios free t drive volume buffer size h booted same heap = record {
  routines = h.routines;
  stores = h.stores;
  efi = λ a lba n w above fits last ok x high.
      let refused =
        read_sectors_efi-refused efi t.info t.io t.volumes a lba n (volume.drive % 2 ^ 16)
          volume.media_id w (ap is_efi booted) in
      let clash : true ≡ false = sym ok ∙ refused in absurd (ground arith);
  bios = λ a lba n w above fits last ok x high. rw same (
      read_sectors_bios-Reads bios t.info t.volumes (volume.drive % 2 ^ 8) drive n a lba n w _ h
        above (rw⁻¹ same fits) last (finished-true w _ ok) x high);
  allocates = heap.allocates;
  stands = heap.stands;
  frees = heap.frees;
}

-- After a boot by int 13h, a ReadDisk from a volume of the boot drive that goes by way of a temporary buffer
-- and returns true has put the bytes of the drive from the start on into the buffer, through the loop of the
-- BIOS driver and the buffer of the real mode code. It is needed that the real mode code and the memory
-- manager work as they promise, that the sectors of the volume are those of the drive, that the size is not
-- 0, and that neither the end of the bytes nor the size of the temporary buffer wraps.
pub read_disk-int13 :
    {W : Type 0} (efi : BootServices W) (bios : Firmware W) (free : ℕ → ℕ → W → Bool × W)
    (t : Subsystem W) (drive : Bytes) (volume_num buffer offset size : ℕ) (w : W)
    → Int13Works bios
        ((t.volumes.volume_list volume_num).drive % 2 ^ 8)
        t.info.int13.bytes_per_sector
        drive
    → t.info.boot_method ≡ BootMethod.int13
    → (t.volumes.volume_list volume_num).bytes_per_sector ≡ t.info.int13.bytes_per_sector
    → IsHeap bios efi.allocate free buffer size
    → (buffer % 2 ^ (t.volumes.volume_list volume_num).alignment == 0
        && not (
            ltb
              (extent_of
                (start_of offset (t.volumes.volume_list volume_num))
                size
                (t.volumes.volume_list volume_num).bytes_per_sector).num_sectors
              3))
      ≡ false
    → 0 < size
    → start_of offset (t.volumes.volume_list volume_num) + size < u64
    → 2 ^ (t.volumes.volume_list volume_num).alignment
        + (extent_of
            (start_of offset (t.volumes.volume_list volume_num))
            size
            (t.volumes.volume_list volume_num).bytes_per_sector).num_sectors
          * (t.volumes.volume_list volume_num).bytes_per_sector
      < u64
    → (read_disk (disk_machine efi bios free t) buffer offset size volume_num t.volumes w).0 ≡ true
    → (i : ℕ) → i < size
    → bios.memory
        (read_disk (disk_machine efi bios free t) buffer offset size volume_num t.volumes w).1
        (buffer + i)
      ≡ drive (start_of offset (t.volumes.volume_list volume_num) + i)
unfolding disk_machine
read_disk-int13 efi bios free t drive volume_num buffer offset size w h booted same heap path
      some_size fits small ok i inside =
    let works =
      disk_machine-Works efi bios free t drive (t.volumes.volume_list volume_num) buffer size h
        booted same heap in
    read_disk-bytes (disk_machine efi bios free t) data_end drive t.volumes volume_num buffer offset
      size w works path some_size fits small ok i inside
