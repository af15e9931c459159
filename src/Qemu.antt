-- ===== src/Qemu.antt =====
-- internal/qemu: the virtual machine, its disk, its network and its lifecycle.
pub mod Network
pub mod Image
pub mod Ssh
pub mod Monitor
pub mod Recovery
pub mod Vfio
pub mod Manager
