-- ===== src/Lib.antt =====
-- The diagnostic and Wi-Fi kernel modules of windows-native/wifi/pmu-probe: the code that powers the
-- BCM4350 radio of an A1625 behind its PCIe port, enumerates it once, and puts everything back.
--
-- Programs. The C functions are programs over the calls that they make of the kernel and of the
-- hardware (Kernel/Operations.antt): a program returns, or makes a call and goes on with the answer.
-- Nothing is assumed of an answer but its type, so a theorem holds for every behaviour of the kernel
-- and of the device; where a theorem trusts the hardware, a monitor says in what. `Ensures M p Q s`
-- (Kernel/Protocol.antt) says that every run of `p` from the monitor's state `s` makes only calls
-- that the monitor `M` permits, returns, and leaves a result and a state that satisfy `Q`. The
-- monitors are:
--   Kernel/Anything.antt     no trust and no duty
--   Kernel/Leases.antt       what is held: regions, mappings, references, locks and all else that is
--                            taken and given back
--   Kernel/Registers.antt    registers that are plain 32-bit memory
--   Kernel/ReadOnly.antt     no register is written
--   Kernel/ConfigSpace.antt  a configuration space that reads the same each time
--   Radio/Power.antt         the order in which the radio is powered and its reset line is driven
--   Link/Reset.antt          whether the reset line is known to be low
--   Domains/Failures.antt    whether a call on a power domain has failed
--   PciScan/Firmware/Ends.antt  the ticks that pass during a hold
--   Chip/Back.antt           what was read of each register first and last; PciScan/Host/Kept.antt
--                            uses it too
--   PciScan/Access/Mastering.antt   the bus master bits of both functions
-- Kernel/Run.antt runs a program on one machine and shows that what is ensured holds of the run.
--
-- Components, with the file that models each:
--   Phy.antt       a1625_pcie_phy.h: `a1625_with_pcie_phy`, whose loops over `steps` are recursion on
--                  the list, with the applied steps as a list of which the last is the head.
--   Radio.antt     a1625_radio_pulse.h: `read_equal` and `a1625_radio_pulse`; each `goto` label is
--                  the end of one of its functions.
--   PciScan.antt   a1625_pci_scan.h: the capability walks (PciScan/Caps.antt), the controls that are
--                  saved (PciScan/Controls.antt), the configuration accesses (PciScan/Access.antt), the
--                  calls of the PCI core that make them (PciScan/Core.antt), the callback of the walk
--                  of the bus (PciScan/Identify.antt), the time of the driver (PciScan/Firmware.antt)
--                  and `a1625_pci_scan` itself (PciScan/Host.antt). Names of the kernel's pci_regs.h
--                  are in PciScan/Regs.antt.
--   Domains.antt   a1625_pcie_domains.h: `a1625_with_pcie_domains`; each loop over `domains` is recursion
--                  on the list of its elements and yields the array as the loop leaves it.
--   Link.antt      a1625_pcie_domains.c: `observe_held_radio`, the callback of the radio pulse.
--   Endpoint.antt  a1625_pcie_domains.c: `snapshot_endpoint`, the callback of the trained link.
--   Chip.antt      a1625_pcie_domains.c: `snapshot_chip`, with the scan of the EROM.
--   Msi.antt       a1625_msi.h: `a1625_with_msi`; `goto out` is the end of each nested function. The
--                  allocator with its chip is in Msi/Slots.antt, as steps that interleave.
--   DeviceTree.antt   the nodes that are added for a time: a1625_dart_lifetime.h (DeviceTree/Dart.antt),
--                  a1625_dart_map.h (DeviceTree/Map.antt) and a1625_pci_node.h (DeviceTree/PciNode.antt).
--   Ready.antt     a1625_pcie_domains.c: the snapshots of the root port and of the DART,
--                  `observe_ready_phy`, and `a1625_pcie_domains_init` with all that it calls.
--   Probes.antt    a1625_gpio_probe.c, a1625_pmu_probe.c and a1625_power_probe.c; Probes/Runner.antt is
--                  run_probe_once.c, as the list of its system calls.
--   HostCompat.antt  windows-native/kbuild-host-compat.h: `kbuild_strchrnul`.
--   Params.antt    a1625_pcie_domains.c: the module parameters and `a1625_pcie_domains_init`.
--   Board.antt     the check of the board that opens each diagnostic.
-- A callback is a program that the caller passes; it is passed at its context.
--
-- Numbers are natural numbers. A 32-bit register value is a word below 2 ^ 32 where a theorem needs
-- it; return codes are integers, an error being a negative errno. Offsets never wrap in the ranges
-- that the code uses. The loops with a bound of their own (48 and 256 rounds for the capability
-- walks) recurse on that bound, and the scan of the EROM on 1024 rounds, of which each takes at least
-- four of its 0x1000 bytes, and the wait for a fault on its 2000 rounds, so every function is total.
-- The loop of `a1625_hold_wifi` has no bound of its own: it takes a number of rounds, the field `rounds`
-- of `Hold`. PciScan/Firmware/Ends.antt says how many rounds a hold of some seconds needs.
-- A hold until a signal ends at its last round, as if the signal had come.
-- What the PCI core and the driver read and write in one call is any list of requests, served by
-- `a1625_scan_read` and `a1625_scan_write`; what the driver does while it is bound counts as part of the
-- calls that bind and release it. Fields that the code only sets for the kernel are left out.
--
-- Not modelled: log lines (pr_info, pr_err), the kernel's own functions, which are calls with any
-- answer, the text of messages, the check zram-pageout-check.c, which is I/O,
-- and the parts of the repository that are not C: the PowerShell, Python, shell and Rust tools.
mod Prelude
pub mod Kernel
mod Board
pub mod Phy
pub mod Params
pub mod PciScan
pub mod Radio
pub mod Domains
pub mod Link
pub mod Endpoint
pub mod Chip
pub mod Ready
pub mod Msi
pub mod DeviceTree
pub mod Probes
pub mod HostCompat
mod Examples
