-- ===== src/Fs/Detect/Ledger.antt =====
-- DetectPartitionMap gives back every block that it allocates.
use serra.Base.{
  Bool-cases, inl, inr, if_cases, ◌*◌, ◌-◌, ◌%◌, ◌^◌, if_intro, ℕ, ◌+◌, ◌≡◌, refl, true, not, ◌&&◌,
  ◌||◌, ◌==◌, if◌then◌else◌, arith,
}
use serra.Crc.{calculate_crc32}
use serra.Disk.{Volumes}
use serra.Fs.Layout.{MbrHeader, GptHeader, gpt_header}
use serra.Fs.Mbr.{u64}
use serra.Fs.Gpt.{validate_gpt_header}
use serra.Fs.Detect.{
  has_gpt_entry, add_gpt_entries, bytes_at, Services, free_buffer, load_gpt_array, read_gpt_headers,
  detect_gpt, detect_partition_map,
}

-- How often a block of each address and size was allocated and freed.
pub record Counts : Type 0 where
  pub allocated : ℕ → ℕ → ℕ
  pub freed : ℕ → ℕ → ℕ

abbrev pub bump : ℕ → ℕ → (ℕ → ℕ → ℕ) → ℕ → ℕ → ℕ
bump a z f x y = if x == a && y == z then f x y + 1 else f x y

-- The services, with each call counted.
abbrev pub counted : {W : Type 0} → Services W → Services (W × Counts)
counted sv = record {
  allocate = λ size s.
      let r = sv.allocate size s.0 in
      let c = if r.0 == 0 then s.1 else record (s.1) { allocated = bump r.0 size s.1.allocated } in
      (r.0, (r.1, c));
  free = λ pointer size s.
      let r = sv.free pointer size s.0 in
      (r.0, (r.1, record (s.1) { freed = bump pointer size s.1.freed }));
  read_disk = λ buffer offset size volume v s.
      let r = sv.read_disk buffer offset size volume v s.0 in (r.0, (r.1, s.1));
  memory = λ s. sv.memory s.0;
}

-- The same blocks were allocated and freed between the two counts.
abbrev pub Balanced : Counts → Counts → Type 0
Balanced c d = (a z : ℕ) → d.allocated a z + c.freed a z ≡ c.allocated a z + d.freed a z

Balanced-trans : (c d e : Counts) → Balanced c d → Balanced d e → Balanced c e
Balanced-trans c d e p q a z = omega (arith, p a z, q a z)

-- A block allocated, balanced work, and the block freed unless it is NULL.
module _ {W : Type 0} (sv : Services W) where
  abbrev after_allocate : ℕ → ℕ → Counts → Counts
  after_allocate pointer size c =
      if pointer == 0 then c else record c { allocated = bump pointer size c.allocated }

  free_buffer-Balanced :
      (pointer size : ℕ) (c : Counts) (s : W × Counts)
      → Balanced (after_allocate pointer size c) s.1
      → Balanced c (free_buffer (counted sv) pointer size s).1
  unfolding free_buffer
  free_buffer-Balanced pointer size c s h a z = ground (arith, h a z)

  abbrev after_free : ℕ → ℕ → Counts → Counts
  after_free pointer size c =
      if pointer == 0 then c else record c { freed = bump pointer size c.freed }

  free_buffer-after_free :
      (pointer size : ℕ) (s : W × Counts)
      → (free_buffer (counted sv) pointer size s).1 ≡ after_free pointer size s.1
  unfolding free_buffer
  free_buffer-after_free pointer size s = ground arith

  -- Two blocks allocated, balanced work, and both freed unless they are NULL.
  two_blocks :
      (first second size : ℕ) (c d : Counts)
      → Balanced (after_allocate second size (after_allocate first size c)) d
      → Balanced c (after_free second size (after_free first size d))
  two_blocks first second size c d h a z = ground (arith, h a z)

  after_null :
      (pointer size : ℕ) (c : Counts) → (pointer == 0) ≡ true → after_allocate pointer size c ≡ c
  after_null pointer size c h = rw h

  Balanced-refl : (c : Counts) → Balanced c c
  Balanced-refl c a z = refl

  module _ (volume_num : ℕ) (v : Volumes) where
    -- Shut, so that the rule for conditionals is found by its head.
    Ok : Counts → Volumes × (W × Counts) → Type 0
    Ok c r = Balanced c r.1.1

    ok : (c : Counts) (t : Volumes) (s : W × Counts) → Balanced c s.1 → Ok c (t, s)
    unfolding Ok
    ok c t s h = h

    load_gpt_array-Ok :
        (h : GptHeader) (w : W) (c : Counts)
        → Ok c (load_gpt_array (counted sv) h volume_num v (w, c))
    unfolding load_gpt_array
    load_gpt_array-Ok h w c =
        let volume = v.volume_list volume_num in
        let size = h.num_partitions * h.partition_entry_size % 2 ^ 32 in
        let (array, s1) = (counted sv).allocate size (w, c) in
        let (done, s2) =
          (counted sv).read_disk array (h.partition_lba * volume.bytes_per_sector % u64) size
            volume_num v s1 in
        let bytes = bytes_at ((counted sv).memory s2) array in
        let s3 = free_buffer (counted sv) array size s2 in
        let found = add_gpt_entries h.num_partitions 0 bytes volume v in
        let sound = calculate_crc32 bytes size == h.partition_crc32 in
        let freed : Balanced c s3.1 = free_buffer-Balanced array size c s2 (Balanced-refl s2.1) in
        let checked =
          if_intro (Ok c) (not sound) {x = (v, s3)} {y = (found, s3)} (ok c v s3 freed)
            (ok c found s3 freed) in
        let read = if_intro (Ok c) (not done) {x = (v, s3)} (ok c v s3 freed) checked in
        if_cases (Ok c) (array == 0) {x = (v, s1)}
          (λ e. ok c v s1 (rw (after_null array size c e) (Balanced-refl c))) (λ _. read)

    read_gpt_headers-Ok :
        (primary backup : ℕ) (w : W) (c : Counts)
        → Ok c (read_gpt_headers (counted sv) primary backup volume_num v (w, c))
    unfolding read_gpt_headers
    read_gpt_headers-Ok primary backup w c =
        let volume = v.volume_list volume_num in
        let size = volume.bytes_per_sector in
        let last = (volume.num_sectors + u64 - 1) % u64 * size % u64 in
        let (done_primary, w1) = sv.read_disk primary size size volume_num v w in
        let (done_backup, w2) = sv.read_disk backup last size volume_num v w1 in
        let first = bytes_at (sv.memory w2) primary in
        let second = bytes_at (sv.memory w2) backup in
        let stop = ok c v (w2, c) (Balanced-refl c) in
        let by_backup =
          if_intro (Ok c) (validate_gpt_header second volume) {y = (v, (w2, c))}
            (load_gpt_array-Ok (gpt_header second) w2 c) stop in
        let by_primary =
          if_intro (Ok c) (validate_gpt_header first volume)
            (load_gpt_array-Ok (gpt_header first) w2 c) by_backup in
        if_intro (Ok c) (not done_primary || not done_backup) {x = (v, (w2, c))} stop by_primary

    detect_gpt-Balanced :
        (w : W) (c : Counts) → Balanced c (detect_gpt (counted sv) volume_num v (w, c)).1.1
    unfolding detect_gpt Ok
    detect_gpt-Balanced w c =
        let size = (v.volume_list volume_num).bytes_per_sector in
        let (primary, s1) = (counted sv).allocate size (w, c) in
        let (backup, s2) = (counted sv).allocate size s1 in
        let work =
          if_intro (Ok s2.1) (primary == 0 || backup == 0) {x = (v, s2)}
            {y = read_gpt_headers (counted sv) primary backup volume_num v s2}
            (ok s2.1 v s2 (Balanced-refl s2.1)) (read_gpt_headers-Ok primary backup s2.0 s2.1) in
        let s3 =
          (if primary == 0 || backup == 0
            then (v, s2)
            else read_gpt_headers (counted sv) primary backup volume_num v s2).1 in
        let s4 = free_buffer (counted sv) primary size s3 in
        rw (free_buffer-after_free backup size s4, free_buffer-after_free primary size s3)
          (two_blocks primary backup size c s3.1 work)

-- Whatever the services answer: between the entry to and the return from DetectPartitionMap, each
-- address and size is freed exactly as often as it is allocated, on every path.
pub detect_partition_map-Balanced :
    {W : Type 0} (sv : Services W) (mbr : MbrHeader) (volume_num : ℕ) (v : Volumes) (w : W)
    (c : Counts)
    → Balanced c (detect_partition_map (counted sv) mbr volume_num v (w, c)).2.1
unfolding detect_partition_map
detect_partition_map-Balanced sv mbr volume_num v w c = elim (Bool-cases (has_gpt_entry 4 0 mbr)) [
  | inl protective ↦ rw protective (detect_gpt-Balanced sv volume_num v w c)
  | inr plain ↦ rw plain (Balanced-refl sv c)
]
