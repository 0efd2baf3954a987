-- ===== src/Fs/Subsystem/Extends.antt =====
-- What InitializeFsSubsystem (Common/Kernel/Disk/Fs/Fs.c) leaves of the volume list.
use serra.Base.{
  ltb→lt, ltb→le, ℕ, zero, suc, ◌+◌, ◌-◌, ◌<◌, ◌≤◌, ◌≡◌, refl, inl, inr, true, not, ltb, ◌==◌,
  arith, if_intro, Bool-cases, ap, ◌∙◌, sym, List,
}
use mathlib.Core.Path.{subst}
use serra.Crc.{Bytes}
use serra.Disk.{Volume, VolumeType, Volumes, volume_limit}
use serra.Fs.Layout.{MbrHeader, mbr_header, gpt_header}
use serra.Fs.Mbr.{validate_mbr_header}
use serra.Fs.Detect.{
  Services, bytes_at, has_gpt_entry, partition_volume, mbr_volume, gpt_volume, detect_partition_map,
}
use serra.Fs.Detect.Append.{Appends, Each, Each-nil, Each-cons}
use serra.Fs.Detect.Mbr.{mbr_partitions, IsDetected, detect_partition_map-mbr}
use serra.Fs.Detect.Gpt.{gpt_partitions, detect_partition_map-gpt}
use serra.Fs.Subsystem.{process_volume, process_volumes, initialize_fs_subsystem}

-- The volume with the type taken out of account.
abbrev pub untyped : Volume → Volume
untyped v = record v { type = VolumeType.unknown }

-- `t` has the volumes of `s`, with other types perhaps, and behind them partitions only, in a list
-- that is not overfull.
pub record Extends (s t : Volumes) : Type 0 where
  pub more : s.num_volumes ≤ t.num_volumes
  pub room : t.num_volumes ≤ volume_limit
  pub enabled : t.is_enabled ≡ s.is_enabled
  pub old : (i : ℕ) → i < s.num_volumes → untyped (t.volume_list i) ≡ untyped (s.volume_list i)
  pub new : (i : ℕ) → s.num_volumes ≤ i → i < t.num_volumes → (t.volume_list i).is_partition ≡ true

Extends-refl : (s : Volumes) → s.num_volumes ≤ volume_limit → Extends s s
Extends-refl s h = record {
  more = omega arith;
  room = h;
  enabled = refl;
  old = λ i p. refl;
  new = λ i p q. absurd (omega arith);
}

partition_kept :
    (v w : Volume) → untyped v ≡ untyped w → w.is_partition ≡ true → v.is_partition ≡ true
partition_kept v w e h = ap (λ (x : Volume). x.is_partition) e ∙ h

Extends-trans : (s t u : Volumes) → Extends s t → Extends t u → Extends s u
Extends-trans s t u p q = record {
  more = omega (arith, p.more, q.more);
  room = q.room;
  enabled = q.enabled ∙ p.enabled;
  old = λ i h. q.old i (omega (arith, p.more)) ∙ p.old i h;
  new = λ i low high. elim (Bool-cases (ltb i t.num_volumes)) [
    | inl before ↦
        let h = ltb→lt i t.num_volumes before in
        partition_kept (u.volume_list i) (t.volume_list i) (q.old i h) (p.new i low h)
    | inr behind ↦ q.new i (ltb→le i t.num_volumes behind) high
  ];
}

-- Every volume of the list is a partition.
abbrev AllPartitions : List Volume → Type 0
AllPartitions = Each (λ v. v.is_partition ≡ true)

mbr_partitions-AllPartitions :
    (n index : ℕ) (mbr : MbrHeader) (volume : Volume)
    → AllPartitions (mbr_partitions n index mbr volume)
unfolding mbr_partitions mbr_volume partition_volume
mbr_partitions-AllPartitions zero index mbr volume = Each-nil _
mbr_partitions-AllPartitions (suc n) index mbr volume =
    let rest = mbr_partitions-AllPartitions n (index + 1) mbr volume in
    if_intro AllPartitions _ rest (Each-cons _ (mbr_volume mbr index volume) _ refl rest)

gpt_partitions-AllPartitions :
    (n index : ℕ) (array : Bytes) (volume : Volume)
    → AllPartitions (gpt_partitions n index array volume)
unfolding gpt_partitions gpt_volume partition_volume
gpt_partitions-AllPartitions zero index array volume = Each-nil _
gpt_partitions-AllPartitions (suc n) index array volume =
    let rest = gpt_partitions-AllPartitions n (index + 1) array volume in
    if_intro AllPartitions _ rest (Each-cons _ (gpt_volume array index volume) _ refl rest)

Appends-Extends :
    (vs : List Volume) (s t : Volumes)
    → s.num_volumes ≤ volume_limit
    → AllPartitions vs
    → Appends vs s t
    → Extends s t
unfolding Each
Appends-Extends vs s t h all a = record {
  more = omega (arith, a.count);
  room = omega (arith, a.count);
  enabled = a.enabled;
  old = λ i p. ap untyped (a.kept i p);
  new = λ i low high.
      let e : s.num_volumes + (i - s.num_volumes) ≡ i = omega arith in
      subst (λ (j : ℕ). (t.volume_list j).is_partition ≡ true) e
        (all (i - s.num_volumes) (t.volume_list (s.num_volumes + (i - s.num_volumes)))
          (a.added (i - s.num_volumes) (omega arith)));
}

IsDetected-Extends :
    (mbr : MbrHeader) (volume_num : ℕ) (s t : Volumes)
    → volume_num < s.num_volumes
    → s.num_volumes ≤ volume_limit
    → IsDetected mbr volume_num s t
    → Extends s t
IsDetected-Extends mbr volume_num s t used room d =
    let (u, a, count, others) = d.appended in
    let x =
      Appends-Extends (mbr_partitions 4 0 mbr (s.volume_list volume_num)) s u room
        (mbr_partitions-AllPartitions 4 0 mbr (s.volume_list volume_num)) a in
    record {
      more = omega (arith, x.more);
      room = omega (arith, x.room);
      enabled = d.enabled;
      old = λ i p. elim (Bool-cases (i == volume_num)) [
        | inl same ↦
            let e : volume_num ≡ i = ground arith in
            subst (λ (j : ℕ). untyped (t.volume_list j) ≡ untyped (s.volume_list j)) e
              (ap untyped d.own)
        | inr other ↦ ap untyped (others i (ground arith)) ∙ x.old i p
      ];
      new = λ i low high.
          ap (λ (v : Volume). v.is_partition) (others i (λ e. omega (arith, e)))
          ∙ x.new i low (omega arith);
    }

detect_partition_map-Extends :
    {W : Type 0} (sv : Services W) (mbr : MbrHeader) (volume_num : ℕ) (s : Volumes) (w : W)
    → volume_num < s.num_volumes
    → s.num_volumes ≤ volume_limit
    → Extends s (detect_partition_map sv mbr volume_num s w).1
detect_partition_map-Extends {W} sv mbr volume_num s w used room =
    elim (Bool-cases (has_gpt_entry 4 0 mbr)) [
      | inl gpt ↦ elim (detect_partition_map-gpt sv mbr volume_num s w gpt room).1 [
        | inl same ↦ subst (Extends s) (sym same) (Extends-refl s room)
        | inr (raw, array, h, a) ↦
            Appends-Extends
              (gpt_partitions (gpt_header raw).num_partitions 0 array (s.volume_list volume_num)) s
              _ room
              (gpt_partitions-AllPartitions (gpt_header raw).num_partitions 0 array
                (s.volume_list volume_num))
              a
      ]
      | inr plain ↦
          let (t, e, d) = detect_partition_map-mbr sv mbr volume_num s w plain used room in
          subst (Extends s) (sym (ap (λ (r : ℕ × Volumes × W). r.1) e))
            (IsDetected-Extends mbr volume_num s t used room d)
    ]

module _ {W : Type 0} (sv : Services W) (bootsector : ℕ) where
  process_volume-Extends :
      (index : ℕ) (s : Volumes) (w : W)
      → index < s.num_volumes
      → s.num_volumes ≤ volume_limit
      → Extends s (process_volume sv bootsector index s w).0
  unfolding process_volume
  process_volume-Extends index s w used room =
      let mbr = mbr_header (bytes_at (sv.memory w) bootsector) in
      elim (Bool-cases (validate_mbr_header mbr index s)) [
        | inl valid ↦ rw valid (detect_partition_map-Extends sv mbr index s w used room)
        | inr invalid ↦ rw invalid (Extends-refl s room)
      ]

  process_volumes-Extends :
      (rounds index usable : ℕ) (s : Volumes) (w : W)
      → index + rounds ≤ s.num_volumes
      → s.num_volumes ≤ volume_limit
      → Extends s (process_volumes sv bootsector rounds index usable s w).1
  unfolding process_volumes
  process_volumes-Extends zero index usable s w used room = Extends-refl s room
  process_volumes-Extends (suc n) index usable s w used room =
      let (done, w1) = sv.read_disk bootsector 0 512 index s w in
      let (s2, w2) = process_volume sv bootsector index s w1 in
      let first = process_volume-Extends index s w1 (omega arith) room in
      let later =
        process_volumes-Extends n (index + 1) (usable + 1) s2 w2 (omega (arith, first.more))
          first.room in
      elim (Bool-cases done) [
        | inl read ↦ rw read (Extends-trans s s2 _ first later)
        | inr failed ↦
            rw failed (process_volumes-Extends n (index + 1) usable s w1 (omega arith) room)
      ]

-- Whatever the services answer, InitializeFsSubsystem on at most 512 volumes keeps every volume that was
-- there, but for its type, and the subsystem as it was enabled; all volumes that it adds are partitions,
-- and there are at most 512 volumes in the end.
pub initialize_fs_subsystem-Extends :
    {W : Type 0} (sv : Services W) (bootsector : ℕ) (s : Volumes) (w : W)
    → s.num_volumes ≤ volume_limit
    → Extends s (initialize_fs_subsystem sv bootsector s w).1
unfolding initialize_fs_subsystem
initialize_fs_subsystem-Extends sv bootsector s w room =
    let steps = process_volumes-Extends sv bootsector s.num_volumes 0 0 s w (omega arith) room in
    elim (Bool-cases (not s.is_enabled)) [
      | inl off ↦ rw off (Extends-refl s room)
      | inr on ↦ rw on (elim (Bool-cases (s.num_volumes == 0)) [
        | inl none_left ↦ rw none_left (Extends-refl s room)
        | inr some_left ↦ rw some_left steps
      ])
    ]
