-- ===== src/Sys.antt =====
-- pkg/util/sys: block devices, volume groups and loop devices, as the operator sees them through
-- the output of `lsblk`, `udevadm`, `lvm` and `losetup`.
pub mod Parse
pub mod Lvm
pub mod Device
pub mod Disks
pub mod Loop
