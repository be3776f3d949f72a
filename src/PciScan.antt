-- ===== src/PciScan.antt =====
-- windows-native/wifi/pmu-probe/a1625_pci_scan.h: the bounded PCI enumeration of the radio.
pub mod Regs
pub mod Caps
pub mod Controls
pub mod Access
pub mod Core
pub mod Identify
pub mod Firmware
pub mod Host
pub mod Silence
