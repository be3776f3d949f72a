-- ===== src/Kernel/Calls.antt =====
-- The kernel's functions as programs of one call.
mod Memory
mod Devices
mod Irq
mod Tree
mod Dma
mod Pci
pub use Memory.*
pub use Devices.*
pub use Irq.*
pub use Tree.*
pub use Dma.*
pub use Pci.*
