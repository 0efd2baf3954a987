-- ===== src/Disk/Bios/Read.antt =====
-- ReadSectors_Bios (Common/Kernel/Disk/Bios/Bios.c) ends, and what it reads.
use native.Mathlib.Nat.{div-add-mod', div-le_self, le-div_iff_mul-le}
use serra.Base.{
  ℕ, ◌+◌, ◌-◌, ◌*◌, ◌/◌, ◌%◌, ◌^◌, ◌≤◌, ◌<◌, ◌≡◌, refl, Bool, true, false, not, ltb, leb, ◌==◌,
  if◌then◌else◌, Option, none, some, arith, if_intro,
}
use serra.Crc.{Bytes}
use serra.Memory.{within}
use serra.Disk.{BootMethod, DiskInfo, Volumes}
use serra.Disk.Read.{u64}
use serra.Disk.Bios.{Firmware, is_int13, read_loop, read_sectors_bios}
use serra.Disk.Bios.Steps.{data_end}
use serra.Disk.Bios.Loop.{Int13Works, read_loop-Reads, read_loop_ends, read_loop_succeeds}

per_read-bounds : (b : ℕ) → 0 < b → (0xfe00 / b * b ≤ 0xfe00) × (0xfe00 / b < 2 ^ 16)
per_read-bounds b pos = (omega (arith, div-add-mod' 0xfe00 b), omega (arith, div-le_self 0xfe00 b))

refused :
    {W : Type 0} (c : Bool) (w w' : W) (rest : Option (Bool × W))
    → if◌then◌else◌ {A = Option (Bool × W)} c (some (false, w)) rest ≡ some (true, w')
    → rest ≡ some (true, w')
refused true w w' rest e = cc
refused false w w' rest e = e

undefined :
    {W : Type 0} (c : Bool) (w' : W) (rest : Option (Bool × W))
    → if◌then◌else◌ {A = Option (Bool × W)} c none rest ≡ some (true, w')
    → (c ≡ false) × (rest ≡ some (true, w'))
undefined true w' rest e = cc
undefined false w' rest e = (refl, e)

module _ {W : Type 0} (fw : Firmware W) (info : DiskInfo) (s : Volumes) where
  -- A read that returns true has passed the checks.
  accepted :
      (fuel buffer lba sectors drive : ℕ) (w w' : W)
      → read_sectors_bios fw fuel buffer lba sectors drive info s w ≡ some (true, w')
      → (0 < info.int13.bytes_per_sector)
        × (read_loop fw fuel info.int13.bytes_per_sector
              (0xfe00 / info.int13.bytes_per_sector)
              drive
              buffer
              lba
              sectors
              w
            ≡ some (true, w'))
  unfolding read_sectors_bios
  accepted fuel buffer lba sectors drive w w' e =
      let b = info.int13.bytes_per_sector in
      let rest = read_loop fw fuel b (0xfe00 / b) drive buffer lba sectors w in
      let checked = refused (leb 0xffff_0000 (fw.cr3 w)) w w' _ (
        refused (ltb info.int13.num_sectors ((lba + sectors) % u64)) w w' _ (
          refused (sectors == 0) w w' _ (
            refused (buffer == 0) w w' _ (
              refused (not (is_int13 info.boot_method)) w w' _
                (refused (not s.is_enabled) w w' _ e))))) in
      let (divides, run) = undefined (b == 0) w' rest checked in (ground arith, run)

-- A read of the driver that returns true, into a buffer behind the wrapper's own, has put the bytes of the
-- sectors on the drive into the buffer and has left all other memory behind the wrapper's buffer as it was,
-- where the real mode code works as it promises and neither the buffer nor the LBA runs past 2^64.
pub read_sectors_bios-Reads :
    {W : Type 0} (fw : Firmware W) (info : DiskInfo) (s : Volumes) (number : ℕ) (drive : Bytes)
    (fuel buffer lba sectors : ℕ) (w w' : W)
    → Int13Works fw number info.int13.bytes_per_sector drive
    → data_end ≤ buffer
    → buffer + sectors * info.int13.bytes_per_sector < u64
    → lba + sectors < u64
    → read_sectors_bios fw fuel buffer lba sectors number info s w ≡ some (true, w')
    → (x : ℕ) → data_end ≤ x
    → fw.memory w' x ≡ (
        if within buffer (sectors * info.int13.bytes_per_sector) x
        then drive (lba * info.int13.bytes_per_sector + (x - buffer))
        else fw.memory w x)
read_sectors_bios-Reads fw info s number drive fuel buffer lba sectors w w' h above fits last e x
      high =
    let b = info.int13.bytes_per_sector in
    let (pos, run) = accepted fw info s fuel buffer lba sectors number w w' e in
    let (small, few) = per_read-bounds b pos in
    read_loop-Reads fw number b drive h fuel (0xfe00 / b) buffer lba sectors w w' small few above
      fits last run x high

-- With sectors of 1 to FE00h bytes, and whatever the real mode code does, the driver ends: as many rounds of
-- the loop as there are sectors to read are enough.
pub read_sectors_bios_ends :
    {W : Type 0} (fw : Firmware W) (info : DiskInfo) (s : Volumes)
    (number fuel buffer lba sectors : ℕ) (w : W)
    → 0 < info.int13.bytes_per_sector
    → info.int13.bytes_per_sector ≤ 0xfe00
    → sectors ≤ fuel
    → (r : Bool × W) × (read_sectors_bios fw fuel buffer lba sectors number info s w ≡ some r)
unfolding read_sectors_bios
read_sectors_bios_ends {W} fw info s number fuel buffer lba sectors w pos fine enough =
    let b = info.int13.bytes_per_sector in
    let Ends : Option (Bool × W) → Type 0 = λ o. (r : Bool × W) × (o ≡ some r) in
    let one : 0 < 0xfe00 / b = (le-div_iff_mul-le pos).1 (omega arith) in
    let divides : b == 0 ≡ false = ground arith in
    let no : Ends (some (false, w)) = ((false, w), refl) in
    if_intro Ends (not s.is_enabled) no (
      if_intro Ends (not (is_int13 info.boot_method)) no (
        if_intro Ends (buffer == 0) no (
          if_intro Ends (sectors == 0) no (
            if_intro Ends (ltb info.int13.num_sectors ((lba + sectors) % u64)) no (
              if_intro Ends (leb 0xffff_0000 (fw.cr3 w)) no (
                rw divides (
                  read_loop_ends fw number b fuel (0xfe00 / b) buffer lba sectors w one
                    enough)))))))

-- A read of at least one sector of 8 to FE00h bytes, after a boot by int 13h, within the sectors of the drive
-- and with CR3 below FFFF0000h, into a buffer behind the wrapper's own, returns true if no call of the real
-- mode code fails.
pub read_sectors_bios-succeeds :
    {W : Type 0} (fw : Firmware W) (info : DiskInfo) (s : Volumes) (number : ℕ) (drive : Bytes)
    (fuel buffer lba sectors : ℕ) (w : W)
    → Int13Works fw number info.int13.bytes_per_sector drive
    → ((l n : ℕ) (v : W) → (fw.call_int13 l n number v).0 ≡ 0)
    → s.is_enabled ≡ true
    → info.boot_method ≡ BootMethod.int13
    → 8 ≤ info.int13.bytes_per_sector
    → info.int13.bytes_per_sector ≤ 0xfe00
    → 0 < sectors
    → lba + sectors ≤ info.int13.num_sectors
    → lba + sectors < u64
    → fw.cr3 w < 0xffff_0000
    → data_end ≤ buffer
    → buffer + sectors * info.int13.bytes_per_sector < u64
    → sectors ≤ fuel
    → (w' : W) × (read_sectors_bios fw fuel buffer lba sectors number info s w ≡ some (true, w'))
unfolding read_sectors_bios
read_sectors_bios-succeeds fw info s number drive fuel buffer lba sectors w h answers on int13 wide
      fine some_sectors inside last low above fits enough =
    let b = info.int13.bytes_per_sector in
    let pos : 0 < b = omega arith in
    let one : 0 < 0xfe00 / b = (le-div_iff_mul-le pos).1 (omega arith) in
    let (small, few) = per_read-bounds b pos in
    let divides : b == 0 ≡ false = ground arith in
    let present : buffer == 0 ≡ false = ground arith in
    let more : sectors == 0 ≡ false = ground arith in
    let whole : (lba + sectors) % u64 ≡ lba + sectors = omega arith in
    let within_drive : ltb info.int13.num_sectors (lba + sectors) ≡ false = ground arith in
    let below : leb 0xffff_0000 (fw.cr3 w) ≡ false = ground arith in
    rw (on, int13, present, more, whole, within_drive, below, divides)
      (read_loop_succeeds fw number b drive h fuel (0xfe00 / b) buffer lba sectors w answers wide
        one small few above fits last enough)
