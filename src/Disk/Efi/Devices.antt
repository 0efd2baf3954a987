-- ===== src/Disk/Efi/Devices.antt =====
-- InitializeDiskSubsystem_Efi (Common/Kernel/Disk/Efi/Efi.c) and the volume list.
use serra.Base.{
  ℕ, zero, suc, ◌+◌, ◌/◌, ◌≤◌, ◌≡◌, refl, sym, ◌≢◌, ◌⊎◌, inl, inr, Bool, true, false, not, ltb, leb,
  ◌==◌, if◌then◌else◌, List, [], ◌∷◌, arith, Bool-cases, if_intro, if_cases,
}
use mathlib.Core.Path.{subst}
use serra.Disk.{Volume, Volumes, volume_limit}
use serra.Fs.Detect.{add_volume}
use serra.Fs.Detect.Append.{push_all, Appends, push_all-Appends}
use serra.Disk.Efi.{
  BootServices, BlockIo, block_volume, entry_at, is_present, add_devices, open_protocols,
  open_devices, efi_success, efi_buffer_too_small, initialize_disk_subsystem_efi,
}

push_all-full :
    (vs : List Volume) (s : Volumes) → leb volume_limit s.num_volumes ≡ true → push_all vs s ≡ s
unfolding push_all
push_all-full [] s full = refl
push_all-full (v ∷ vs) s full =
    let e : ltb s.num_volumes volume_limit ≡ false = ground arith in rw e refl

module _ {W : Type 0} (fw : BootServices W) where
  -- The volumes of the devices whose protocol was opened and whose medium is there, in order.
  unfoldable pub device_volumes : (rounds index : ℕ) → BlockIo → W → List Volume
  device_volumes zero index io w = []
  device_volumes (suc n) index io w =
      let protocol = entry_at fw io.protocols index w in
      let rest = device_volumes n (index + 1) io w in
      if is_present fw protocol w
      then block_volume index (fw.media_at (fw.media protocol w) w) ∷ rest
      else rest

  add_devices-push_all :
      (rounds index : ℕ) (io : BlockIo) (w : W) (s : Volumes)
      → add_devices fw rounds index io w s ≡ push_all (device_volumes rounds index io w) s
  unfolding add_devices device_volumes push_all add_volume
  add_devices-push_all zero index io w s = refl
  add_devices-push_all (suc n) index io w s =
      let protocol = entry_at fw io.protocols index w in
      elim (Bool-cases (leb volume_limit s.num_volumes)) [
        | inl full ↦ rw full (sym (push_all-full (device_volumes (suc n) index io w) s full))
        | inr room ↦
            let e : ltb s.num_volumes volume_limit ≡ true = ground arith in
            elim (Bool-cases (is_present fw protocol w)) [
              | inl here ↦ rw (room, here, e) (add_devices-push_all n (index + 1) io w _)
              | inr gone ↦ rw (room, gone) (add_devices-push_all n (index + 1) io w s)
            ]
      ]

  -- What a driver that was set up has: its arrays, and the volumes of the devices in the list.
  pub record Opened (io : BlockIo) (s s' : Volumes) (w' : W) : Type 0 where
    pub some_handles : io.num_handles ≢ 0
    pub has_handles : io.handles ≢ 0
    pub has_protocols : io.protocols ≢ 0
    pub devices : Appends (device_volumes io.num_handles 0 io w') s s'

  -- Either nothing is added to the volume list, or everything is set up.
  unfoldable pub Outcome : Volumes → Bool × BlockIo × Volumes × W → Type 0
  Outcome s r = ((r.0 ≡ false) × (r.2 ≡ s)) ⊎ ((r.0 ≡ true) × Opened r.1 s r.2 r.3)

  refusal : (io : BlockIo) (s : Volumes) (w : W) → Outcome s (false, io, s, w)
  unfolding Outcome
  refusal io s w = inl (refl, refl)

  success : (io : BlockIo) (s s' : Volumes) (w : W) → Opened io s s' w → Outcome s (true, io, s', w)
  unfolding Outcome
  success io s s' w h = inr (refl, h)

  open_devices-Outcome :
      (size : ℕ) (io : BlockIo) (s : Volumes) (w : W)
      → io.handles ≢ 0
      → s.num_volumes ≤ volume_limit
      → Outcome s (open_devices fw size io s w)
  unfolding open_devices
  open_devices-Outcome size io s w listed room =
      let (status, size', w1) = fw.locate_handle size io.handles w in
      let (protocols, w2) = fw.allocate size w1 in
      let io' : BlockIo = record io { protocols = protocols } in
      let (opened, w3) = open_protocols fw io.num_handles 0 io' w2 in
      if_cases (Outcome s) (io.num_handles == 0) (λ _. refusal io s w)
        (λ some_handles. if_intro (Outcome s) (not (status == efi_success)) (refusal io s w1) (
          if_cases (Outcome s) (protocols == 0) (λ _. refusal io s w2)
            (λ some_protocols. if_intro (Outcome s) (not opened) (refusal io' s w3) (
              success io' s _ w3 (record {
                some_handles = λ e. ground arith;
                has_handles = listed;
                has_protocols = λ e. ground arith;
                devices =
                    subst (Appends (device_volumes io.num_handles 0 io' w3) s)
                      (sym (add_devices-push_all io.num_handles 0 io' w3 s))
                      (push_all-Appends (device_volumes io.num_handles 0 io' w3) s room);
              })))))

-- Whatever the firmware answers, on at most 512 volumes, InitializeDiskSubsystem_Efi either returns false
-- and leaves the volume list as it was, or returns true with at least one handle and lists of handles and
-- protocols that are not NULL, having appended a volume for each device whose protocol is there and whose
-- medium is present, in order and as far as there is room.
pub initialize_disk_subsystem_efi-Outcome :
    {W : Type 0} (fw : BootServices W) (io : BlockIo) (s : Volumes) (w : W)
    → s.num_volumes ≤ volume_limit
    → Outcome fw s (initialize_disk_subsystem_efi fw io s w)
unfolding initialize_disk_subsystem_efi
initialize_disk_subsystem_efi-Outcome fw io s w room =
    let (status, size, w1) = fw.locate_handle 0 fw.temp w in
    let (list, w2) = fw.allocate size w1 in
    let io' : BlockIo = record io { handles = list; num_handles = size / 8 } in
    if_intro (Outcome fw s) (not (fw.has_system_table w)) (refusal fw io s w) (
      if_intro (Outcome fw s) (not (fw.has_boot_services w)) (refusal fw io s w) (
        if_intro (Outcome fw s) (not (fw.mm_is_enabled w)) (refusal fw io s w) (
          if_intro (Outcome fw s) (size == 0) (refusal fw io s w1) (
            if_intro (Outcome fw s) (not (status == efi_buffer_too_small)) (refusal fw io s w1) (
              if_cases (Outcome fw s) (list == 0) (λ _. refusal fw io s w2)
                (λ listed. open_devices-Outcome fw size io' s w2 (λ e. ground arith) room))))))
