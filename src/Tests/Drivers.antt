-- ===== src/Tests/Drivers.antt =====
-- Runs of the drivers and of what is set up on them.
use serra.Base.{◌-◌, ◌==◌, true, false, arith, if◌then◌else◌}
use serra.Memory.{Memory}
use serra.Disk.{Method, VolumeType, Volumes}
use serra.Fs.Detect.{Services}
use serra.Fs.Subsystem.{initialize_fs_subsystem}
use serra.Fs.Subsystem.Extends.{Extends, initialize_fs_subsystem-Extends}

abbrev one_drive : Volumes
one_drive = record {
  is_enabled = true;
  volume_list = λ _. record {
    method = Method.int13;
    drive = 128;
    partition = 0;
    type = VolumeType.unknown;
    is_partition = false;
    partition_offset = 0;
    alignment = 0;
    bytes_per_sector = 512;
    media_id = 0;
    num_sectors = 100;
  };
  num_volumes = 1;
}

-- Every read finds an MBR with a FAT partition of 10 sectors from sector 3 on.
abbrev mbr_sector : Memory
mbr_sector x =
    if x == 510
    then 0x55
    else if x == 511
    then 0xaa
    else if x == 450
    then 0x0c
    else if x == 454
    then 3
    else if x == 458
    then 10
    else 0

abbrev mbr_services : Services Memory
mbr_services = record {
  allocate = λ n w. (0x100000, w);
  free = λ pointer n w. (true, w);
  read_disk = λ buffer offset size volume s w. (true, λ x. mbr_sector (x - buffer));
  memory = λ w. w;
}

initialize_fs_subsystem-Extends_example :
    Extends one_drive (initialize_fs_subsystem mbr_services 0x8000 one_drive (λ _. 0)).1
initialize_fs_subsystem-Extends_example =
    initialize_fs_subsystem-Extends mbr_services 0x8000 one_drive (λ _. 0) (omega arith)
