-- ===== src/Disk/Efi.antt =====
-- Common/Kernel/Disk/Efi/Efi.c: the driver that uses the block devices of the EFI firmware.
-- `EfiBlockIoHandles` and `EfiBlockIoProtocols` are arrays of addresses in memory.
pub mod Devices
use serra.Base.{
  ℕ, zero, suc, ◌+◌, ◌-◌, ◌*◌, ◌/◌, ◌%◌, ◌^◌, Bool, true, false, not, ltb, leb, ◌==◌, if◌then◌else◌,
}
use serra.Memory.{Memory}
use serra.Fs.Layout.{le64}
use serra.Disk.{Method, VolumeType, Volume, BootMethod, DiskInfo, Volumes, volume_limit, set_volume}
use serra.Disk.Read.{u64}

-- `efiStatus`, as far as the driver tells the codes apart.
abbrev pub efi_success : ℕ
efi_success = 0

abbrev pub efi_buffer_too_small : ℕ
efi_buffer_too_small = 2 ^ 63 + 5

-- What the driver reads of an `efiBlockIoMedia`.
pub record Media : Type 0 where
  pub media_id : ℕ
  pub media_present : Bool
  pub logical_partition : Bool
  pub block_size : ℕ
  pub io_align : ℕ
  pub last_block : ℕ

-- The boot services and the protocols of the firmware, and Allocate.
-- `locate_handle` takes the size and the buffer, and returns the status and the new size;
-- `open_protocol` takes the handle and the address that receives the protocol; `media` is the field of
-- a protocol, an address or NULL; `read_blocks` takes the protocol, the media, the LBA, the size and the
-- buffer. `temp` is the address of the buffer on the stack.
pub record BootServices (W : Type 0) : Type 0 where
  pub memory : W → Memory
  pub has_system_table : W → Bool
  pub has_boot_services : W → Bool
  pub mm_is_enabled : W → Bool
  pub temp : ℕ
  pub allocate : ℕ → W → ℕ × W
  pub locate_handle : ℕ → ℕ → W → ℕ × ℕ × W
  pub open_protocol : ℕ → ℕ → W → ℕ × W
  pub close_protocol : ℕ → W → W
  pub flush_blocks : ℕ → W → W
  pub media : ℕ → W → ℕ
  pub media_at : ℕ → W → Media
  pub read_blocks : ℕ → ℕ → ℕ → ℕ → ℕ → W → ℕ × W

-- `EfiBlockIoHandles`, `NumEfiBlockIoHandles` and `EfiBlockIoProtocols`.
pub record BlockIo : Type 0 where
  pub handles : ℕ
  pub num_handles : ℕ
  pub protocols : ℕ

-- `while ((IoAlign >> Volume->Alignment) > 1)`, on fuel.
unfoldable pub alignment_loop : (fuel io_align alignment : ℕ) → ℕ
alignment_loop zero io_align alignment = alignment
alignment_loop (suc n) io_align alignment =
    let rest = alignment_loop n io_align (alignment + 1) in
    if ltb 1 (io_align / 2 ^ alignment) then rest else alignment

-- `IoAlign` has 32 bits.
unfoldable pub alignment_of : ℕ → ℕ
alignment_of io_align = alignment_loop 32 io_align 0

unfoldable pub block_volume : ℕ → Media → Volume
block_volume index media = record {
  method = Method.efi_block_io;
  drive = index % 2 ^ 32;
  partition = 0;
  type = VolumeType.unknown;
  is_partition = media.logical_partition;
  partition_offset = 0;
  alignment = alignment_of media.io_align;
  bytes_per_sector = media.block_size;
  media_id = media.media_id;
  num_sectors = (media.last_block + 1) % u64;
}

abbrev pub is_efi : BootMethod → Bool
is_efi BootMethod.efi = true
is_efi _ = false

module _ {W : Type 0} (fw : BootServices W) where
  -- `list[index]`, an array of addresses.
  unfoldable pub entry_at : (list index : ℕ) → W → ℕ
  entry_at list index w = le64 (fw.memory w) (list + index * 8)

  -- Whether `EfiBlockIoProtocols[Index]` was opened and its medium is there.
  unfoldable pub is_present : (protocol : ℕ) → W → Bool
  is_present protocol w =
      if protocol == 0
      then false
      else if fw.media protocol w == 0
      then false
      else (fw.media_at (fw.media protocol w) w).media_present

  -- The loop that opens the protocols, on the rounds left.
  unfoldable pub open_protocols : (rounds index : ℕ) → BlockIo → W → Bool × W
  open_protocols zero index io w = (true, w)
  open_protocols (suc n) index io w =
      let (status, w1) =
        fw.open_protocol (entry_at io.handles index w) (io.protocols + index * 8) w in
      let rest = open_protocols n (index + 1) io w1 in
      if not (status == efi_success) then (false, w1) else rest

  -- The loop that adds the volumes; it stops when the list is full.
  unfoldable pub add_devices : (rounds index : ℕ) → BlockIo → W → Volumes → Volumes
  add_devices zero index io w s = s
  add_devices (suc n) index io w s =
      let protocol = entry_at io.protocols index w in
      let volume = block_volume index (fw.media_at (fw.media protocol w) w) in
      let skip = add_devices n (index + 1) io w s in
      let rest =
        add_devices n (index + 1) io w
          (record (set_volume s.num_volumes volume s) { num_volumes = s.num_volumes + 1 }) in
      if leb volume_limit s.num_volumes
      then s
      else if not (is_present protocol w)
      then skip
      else rest

  -- From the list of handles on.
  unfoldable pub open_devices : (size : ℕ) → BlockIo → Volumes → W → Bool × BlockIo × Volumes × W
  open_devices size io s w =
      let (status, size', w1) = fw.locate_handle size io.handles w in
      let (protocols, w2) = fw.allocate size w1 in
      let io' : BlockIo = record io { protocols = protocols } in
      let (opened, w3) = open_protocols io.num_handles 0 io' w2 in
      if io.num_handles == 0
      then (false, io, s, w)
      else if not (status == efi_success)
      then (false, io, s, w1)
      else if protocols == 0
      then (false, io, s, w2)
      else if not opened
      then (false, io', s, w3)
      else (true, io', add_devices io.num_handles 0 io' w3 s, w3)

  unfoldable pub initialize_disk_subsystem_efi :
      BlockIo → Volumes → W → Bool × BlockIo × Volumes × W
  initialize_disk_subsystem_efi io s w =
      let (status, size, w1) = fw.locate_handle 0 fw.temp w in
      let (list, w2) = fw.allocate size w1 in
      let io' : BlockIo = record io { handles = list; num_handles = size / 8 } in
      if not (fw.has_system_table w)
      then (false, io, s, w)
      else if not (fw.has_boot_services w)
      then (false, io, s, w)
      else if not (fw.mm_is_enabled w)
      then (false, io, s, w)
      else if size == 0
      then (false, io, s, w1)
      else if not (status == efi_buffer_too_small)
      then (false, io, s, w1)
      else if list == 0
      then (false, io, s, w2)
      else open_devices size io' s w2

  unfoldable pub close_protocols : (rounds index : ℕ) → BlockIo → W → W
  close_protocols zero index io w = w
  close_protocols (suc n) index io w =
      let handle = entry_at io.handles index w in
      let protocol = entry_at io.protocols index w in
      close_protocols n (index + 1) io (fw.close_protocol handle (fw.flush_blocks protocol w))

  unfoldable pub terminate_disk_subsystem_efi : BlockIo → W → Bool × W
  terminate_disk_subsystem_efi io w =
      if io.handles == 0 then (false, w) else (true, close_protocols io.num_handles 0 io w)

  unfoldable pub read_sectors_efi :
      (buffer lba num_sectors block_io_index media_id : ℕ)
      → DiskInfo
      → BlockIo
      → Volumes
      → W
      → Bool × W
  read_sectors_efi buffer lba n index media_id info io s w =
      let protocol = entry_at io.protocols index w in
      let media = fw.media_at (fw.media protocol w) w in
      let (status, w1) =
        fw.read_blocks protocol media_id lba (n * media.block_size % u64) buffer w in
      if n == 0
      then (false, w)
      else if buffer == 0
      then (false, w)
      else if not s.is_enabled
      then (false, w)
      else if not (is_efi info.boot_method)
      then (false, w)
      else if leb io.num_handles index
      then (false, w)
      else if io.protocols == 0
      then (false, w)
      else if not (is_present protocol w)
      then (false, w)
      else (status == efi_success, w1)
