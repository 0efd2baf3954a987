-- ===== src/Disk/Start/Outcome.antt =====
-- What InitializeDiskSubsystem and TerminateDiskSubsystem (Common/Kernel/Disk/Disk.c) leave.
use serra.Base.{
  ℕ, ◌≤◌, ◌<◌, ◌≡◌, refl, ◌≢◌, ◌⊎◌, inl, inr, Bool, true, false, not, ltb, leb, ◌==◌, if◌then◌else◌,
  List, [], ◌∷◌, arith, Bool-cases, if_intro, if_cases,
}
use mathlib.Core.Path.{subst}
use serra.Disk.{Volume, Volumes, volume_limit, BootMethod, Int13Info, DiskInfo}
use serra.Disk.Read.{Machine, is_readable, read_disk}
use serra.Fs.Detect.Append.{Appends, push_all, push_all-Appends}
use serra.Fs.Detect.{add_volume}
use serra.Disk.Bios.{Firmware, is_wrapper, int13_volume, initialize_disk_subsystem_bios}
use serra.Disk.Efi.{
  BootServices, BlockIo, is_efi, initialize_disk_subsystem_efi, terminate_disk_subsystem_efi,
}
use serra.Disk.Efi.Devices.{Opened, device_volumes, initialize_disk_subsystem_efi-Outcome}
use serra.Disk.Start.{
  common_info_table_signature, InfoTable, Subsystem, boot_method_of, uintmax, int13_of, enable,
  start_efi, start_int13, initialize_disk_subsystem, terminate_disk_subsystem,
}

-- The volume list of a subsystem that is enabled.
abbrev pub enabled : Volumes → Volumes
enabled s = record s { is_enabled = true }

enabled-Appends :
    (vs : List Volume) (s s' : Volumes) → Appends vs s s' → Appends vs (enabled s) (enabled s')
enabled-Appends vs s s' a = record {
  count = a.count;
  added = a.added;
  kept = a.kept;
  enabled = refl;
}

drive_of : (table : InfoTable) → (int13_of table).drive_number ≡ table.drive_number
unfolding int13_of
drive_of table = refl

size_checked : (n b : ℕ) → (if n == 0 then false else ltb b 512) ≡ false → (512 ≤ b) ⊎ (n ≡ 0)
size_checked n b h = elim (Bool-cases (n == 0)) [
  | inl empty ↦ inr (ground arith)
  | inr some_sectors ↦ inl (ground arith)
]

-- The BIOS driver adds its volume, or nothing.
initialize_disk_subsystem_bios-Appends :
    {W : Type 0} (bios : Firmware W) (info : DiskInfo) (s : Volumes) (w : W)
    → ((initialize_disk_subsystem_bios bios info s w).0 ≡ false)
        × ((initialize_disk_subsystem_bios bios info s w).1 ≡ s)
      ⊎ (((initialize_disk_subsystem_bios bios info s w).0 ≡ true)
          × (is_wrapper bios w ≡ true)
          × Appends
              (int13_volume bios info ∷ [])
              s
              (initialize_disk_subsystem_bios bios info s w).1)
unfolding initialize_disk_subsystem_bios push_all add_volume
initialize_disk_subsystem_bios-Appends bios info s w = elim (Bool-cases (is_wrapper bios w)) [
  | inr bad ↦ rw bad (inl (refl, refl))
  | inl good ↦ rw good (elim (Bool-cases (leb volume_limit s.num_volumes)) [
    | inl full ↦ rw full (inl (refl, refl))
    | inr room ↦
        let one = push_all-Appends (int13_volume bios info ∷ []) s (ground arith) in
        let e : ltb s.num_volumes volume_limit ≡ true = ground arith in
        let pushed : push_all (int13_volume bios info ∷ []) s
            ≡ add_volume (int13_volume bios info) s =
          rw e refl in
        rw room (inr (refl, refl, subst (Appends (int13_volume bios info ∷ []) s) pushed one))
  ])
]

module _ {W : Type 0} (efi : BootServices W) (bios : Firmware W) (table : InfoTable) where
  -- A start by way of the EFI firmware.
  pub record ByEfi (t u : Subsystem W) : Type 0 where
    pub method : boot_method_of table.method ≡ BootMethod.efi
    pub boot_method : u.info.boot_method ≡ BootMethod.efi
    pub pointers : u.info.efi ≡ table.efi
    pub file_info : table.efi.file_info ≢ 0
    pub handle : table.efi.handle ≢ 0
    pub protocol : table.efi.protocol ≢ 0
    pub devices :
        Appends (device_volumes efi u.io.num_handles 0 u.io u.world) (enabled t.volumes) u.volumes

  -- A start by way of int 13h.
  pub record ByInt13 (t u : Subsystem W) : Type 0 where
    pub method : boot_method_of table.method ≡ BootMethod.int13
    pub boot_method : u.info.boot_method ≡ BootMethod.int13
    pub drive : u.info.int13.drive_number ≡ table.drive_number
    pub some_sectors : 0 < u.info.int13.num_sectors
    pub sector_size : (512 ≤ u.info.int13.bytes_per_sector) ⊎ ((int13_of table).num_sectors ≡ 0)
    pub wrapper : is_wrapper bios t.world ≡ true
    pub drives : Appends (int13_volume bios u.info ∷ []) (enabled t.volumes) u.volumes

  unfoldable pub Outcome : Subsystem W → Bool × Subsystem W → Type 0
  Outcome t r =
      ((r.0 ≡ false) × (r.1.volumes ≡ t.volumes))
      ⊎ ((r.0 ≡ true)
          × (table.signature ≡ common_info_table_signature)
          × (ByEfi t r.1 ⊎ ByInt13 t r.1))

  refusal : (t u : Subsystem W) → u.volumes ≡ t.volumes → Outcome t (false, u)
  unfolding Outcome
  refusal t u same = inl (refl, same)

  start :
      (t u : Subsystem W)
      → table.signature ≡ common_info_table_signature
      → ByEfi t u ⊎ ByInt13 t u
      → Outcome t (true, u)
  unfolding Outcome
  start t u signed by = inr (refl, signed, by)

  start_efi-Outcome :
      (t : Subsystem W)
      → table.signature ≡ common_info_table_signature
      → boot_method_of table.method ≡ BootMethod.efi
      → t.volumes.num_volumes ≤ volume_limit
      → Outcome t (start_efi efi table t)
  unfolding start_efi enable serra.Disk.Efi.Devices.Outcome
  start_efi-Outcome t signed method room =
      let info : DiskInfo = record t.info { boot_method = BootMethod.efi; efi = table.efi } in
      let filled : Subsystem W = record t { info = info } in
      let (status, io, s, w) = initialize_disk_subsystem_efi efi t.io t.volumes t.world in
      let u : Subsystem W = record { info = info; io = io; volumes = s; world = w } in
      if_cases (Outcome t) (table.efi.file_info == 0) (λ _. refusal t filled refl)
        (λ file_info.
          if_cases (Outcome t) (table.efi.handle == 0) (λ _. refusal t filled refl)
            (λ handle.
              if_cases (Outcome t) (table.efi.protocol == 0) (λ _. refusal t filled refl)
                (λ protocol.
                  elim (initialize_disk_subsystem_efi-Outcome efi t.io t.volumes t.world room) [
                    | inl (failed, same) ↦ rw failed (refusal t u same)
                    | inr (done, opened) ↦ rw done (
                        start t (record u { volumes = enabled s }) signed
                          (inl (record {
                            method = method;
                            boot_method = refl;
                            pointers = refl;
                            file_info = λ e. ground arith;
                            handle = λ e. ground arith;
                            protocol = λ e. ground arith;
                            devices =
                                enabled-Appends (device_volumes efi io.num_handles 0 io w) t.volumes
                                  s opened.devices;
                          })))
                  ])))

  start_int13-Outcome :
      (t : Subsystem W)
      → table.signature ≡ common_info_table_signature
      → boot_method_of table.method ≡ BootMethod.int13
      → Outcome t (start_int13 bios table t)
  unfolding start_int13 enable
  start_int13-Outcome t signed method =
      let int13 = int13_of table in
      let no_sectors = int13.num_sectors == 0 in
      let checked : Int13Info = record int13 {
        num_sectors = if no_sectors then uintmax else int13.num_sectors;
      } in
      let info : DiskInfo = record t.info { boot_method = BootMethod.int13; int13 = checked } in
      let (status, s, w) = initialize_disk_subsystem_bios bios info t.volumes t.world in
      let u : Subsystem W = record { info = info; io = t.io; volumes = s; world = w } in
      if_cases (Outcome t) (if no_sectors then false else ltb int13.bytes_per_sector 512)
        (λ _. refusal t (record t { info = info }) refl)
        (λ checks. elim (initialize_disk_subsystem_bios-Appends bios info t.volumes t.world) [
          | inl (failed, same) ↦ rw failed (refusal t u same)
          | inr (done, good, added) ↦ rw done (
              start t (record u { volumes = enabled s }) signed
                (inr (record {
                  method = method;
                  boot_method = refl;
                  drive = drive_of table;
                  some_sectors = ground arith;
                  sector_size = size_checked int13.num_sectors int13.bytes_per_sector checks;
                  wrapper = good;
                  drives = enabled-Appends (int13_volume bios info ∷ []) t.volumes s added;
                })))
        ])

method_cases :
    (m : BootMethod) → (m ≡ BootMethod.unknown) ⊎ ((m ≡ BootMethod.efi) ⊎ (m ≡ BootMethod.int13))
method_cases BootMethod.unknown = inl refl
method_cases BootMethod.efi = inr (inl refl)
method_cases BootMethod.int13 = inr (inr refl)

-- Whatever the firmware answers, with at most 512 volumes, InitializeDiskSubsystem either returns false and
-- leaves the volume list and `IsEnabled` as they were, or it has a table with the right signature, enables
-- the subsystem and returns true: by EFI with three pointers of the table that are not NULL and the volumes of
-- the devices appended, or by int 13h with a valid wrapper, a number of sectors that is not 0, sectors of
-- at least 512 bytes unless the table gave no number of sectors, and the volume of the drive appended.
pub initialize_disk_subsystem-Outcome :
    {W : Type 0} (efi : BootServices W) (bios : Firmware W) (table : InfoTable) (t : Subsystem W)
    → t.volumes.num_volumes ≤ volume_limit
    → Outcome efi bios table t (initialize_disk_subsystem efi bios table t)
unfolding initialize_disk_subsystem
initialize_disk_subsystem-Outcome efi bios table t room =
    if_cases (Outcome efi bios table t) (not (table.signature == common_info_table_signature))
      (λ _. refusal efi bios table t t refl)
      (λ same.
        let signed : table.signature ≡ common_info_table_signature = ground arith in
        elim (method_cases (boot_method_of table.method)) [
          | inl e ↦ rw e (refusal efi bios table t _ refl)
          | inr (inl e) ↦ rw e (start_efi-Outcome efi bios table t signed e room)
          | inr (inr e) ↦ rw e (start_int13-Outcome efi bios table t signed e)
        ])

terminate_disk_subsystem-disabled :
    {W : Type 0} (efi : BootServices W) (t : Subsystem W)
    → (terminate_disk_subsystem efi t).1.volumes.is_enabled ≡ false
unfolding terminate_disk_subsystem
terminate_disk_subsystem-disabled efi t =
    let Off : Bool × Subsystem _ → Type 0 = λ r. r.1.volumes.is_enabled ≡ false in
    if_cases Off (not t.volumes.is_enabled) (λ off. ground arith)
      (λ on. if_intro Off (is_efi t.info.boot_method) refl refl)

read_disk-disabled :
    {W : Type 0} (sv : Machine W) (s : Volumes) (buffer offset size volume_num : ℕ) (w : W)
    → s.is_enabled ≡ false
    → read_disk sv buffer offset size volume_num s w ≡ (false, w)
unfolding read_disk is_readable
read_disk-disabled sv s buffer offset size volume_num w off = rw off refl

-- After TerminateDiskSubsystem every ReadDisk returns false and calls no service.
pub read_disk-terminate_disk_subsystem :
    {W V : Type 0} (efi : BootServices W) (sv : Machine V) (t : Subsystem W)
    (buffer offset size volume_num : ℕ) (w : V)
    → read_disk sv buffer offset size volume_num (terminate_disk_subsystem efi t).1.volumes w
      ≡ (false, w)
read_disk-terminate_disk_subsystem efi sv t buffer offset size volume_num w =
    read_disk-disabled sv (terminate_disk_subsystem efi t).1.volumes buffer offset size volume_num w
      (terminate_disk_subsystem-disabled efi t)
