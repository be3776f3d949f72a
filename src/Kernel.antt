-- ===== src/Kernel.antt =====
-- The kernel and the hardware that the probe modules run against: the calls that they make
-- (`Operations`), programs over those calls (`Programs`, `Calls`), what it means that a program
-- keeps a protocol whatever the kernel answers (`Protocol`), and runs on one machine (`Run`).
mod Operations
mod Programs
mod Calls
mod Protocol
mod Frame
pub mod Run
pub mod Anything
pub mod ConfigSpace
pub mod Leases
pub mod Registers
pub mod ReadOnly
pub use Operations.{
  Op, Ans, PtrOrErr, pointer, failure, ConfigRequest, config_read, config_write, CoreCall,
  scan_root_bus_bridge, size_bridges, assign_resources, stop_root_bus, remove_root_bus,
  bus_add_device, device_attach, device_release_driver, clear_master, Resource, PciDev, IommuDomain,
  ResvRegion,
}
pub use Programs.*
pub use Calls.*
pub use Protocol.*
pub use Frame.*
