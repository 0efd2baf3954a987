-- ===== src/Tests.antt =====
-- Runs of the modelled functions on concrete inputs.
mod Text
mod Memory
mod Paging
mod E820
mod Disk
mod Mm
mod Volumes
mod Drivers
mod Boot
mod Fat
mod Console
mod Vga
