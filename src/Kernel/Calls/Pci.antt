-- ===== src/Kernel/Calls/Pci.antt =====
-- The kernel's functions as programs of one call: the PCI core, the network and time.
use Prim.Native.String.{String}
use a1625_linux_winboot.Prelude.{ℕ, ℤ, Bool, Option, List}
use a1625_linux_winboot.Kernel.Operations.{Op, PtrOrErr, CoreCall, ConfigRequest, PciDev}
use a1625_linux_winboot.Kernel.Programs.{Prog, request}

abbrev pub pci_find_bus : (number : ℕ) → Prog (Option ℕ)
pci_find_bus number = request (Op.pci_find_bus number)

abbrev pub root_device_register : String → Prog PtrOrErr
root_device_register a = request (Op.root_device_register a)

abbrev pub root_device_unregister : (dev : ℕ) → Prog (Unit {0})
root_device_unregister dev = request (Op.root_device_unregister dev)

abbrev pub pci_alloc_host_bridge : Prog (Option ℕ)
pci_alloc_host_bridge = request Op.pci_alloc_host_bridge

abbrev pub pci_free_host_bridge : (bridge : ℕ) → Prog (Unit {0})
pci_free_host_bridge bridge = request (Op.pci_free_host_bridge bridge)

abbrev pub request_resource : (start last : ℕ) → Prog ℤ
request_resource start last = request (Op.request_resource start last)

abbrev pub release_resource : (start last : ℕ) → Prog ℤ
release_resource start last = request (Op.release_resource start last)

abbrev pub pci_core : CoreCall → (handle : ℕ) → Prog (ℤ × List ConfigRequest)
pci_core a handle = request (Op.pci_core a handle)

abbrev pub pci_walk_bus : (bridge : ℕ) → Prog (List PciDev)
pci_walk_bus bridge = request (Op.pci_walk_bus bridge)

abbrev pub bridge_has_bus : (bridge : ℕ) → Prog Bool
bridge_has_bus bridge = request (Op.bridge_has_bus bridge)

abbrev pub pci_get_slot : (bus devfn : ℕ) → Prog (Option ℕ)
pci_get_slot bus devfn = request (Op.pci_get_slot bus devfn)

abbrev pub pci_dev_put : (dev : ℕ) → Prog (Unit {0})
pci_dev_put dev = request (Op.pci_dev_put dev)

abbrev pub device_set_driver_override : (dev : ℕ) → String → Prog ℤ
device_set_driver_override dev a = request (Op.device_set_driver_override dev a)

abbrev pub pci_alloc_irq_vectors : (dev : ℕ) → Prog (ℤ × List ConfigRequest)
pci_alloc_irq_vectors dev = request (Op.pci_alloc_irq_vectors dev)

abbrev pub pci_irq_vector : (dev : ℕ) → Prog ℤ
pci_irq_vector dev = request (Op.pci_irq_vector dev)

abbrev pub pci_free_irq_vectors : (dev : ℕ) → Prog (List ConfigRequest)
pci_free_irq_vectors dev = request (Op.pci_free_irq_vectors dev)

abbrev pub pfn_valid : (pfn : ℕ) → Prog Bool
pfn_valid pfn = request (Op.pfn_valid pfn)

abbrev pub read_once : (address : ℕ) → Prog ℕ
read_once address = request (Op.read_once address)

abbrev pub dev_get_by_name : String → Prog (Option ℕ)
dev_get_by_name a = request (Op.dev_get_by_name a)

abbrev pub netdev_parent : (netdev : ℕ) → Prog ℕ
netdev_parent netdev = request (Op.netdev_parent netdev)

abbrev pub dev_put : (netdev : ℕ) → Prog (Unit {0})
dev_put netdev = request (Op.dev_put netdev)

abbrev pub jiffies : Prog ℕ
jiffies = request Op.jiffies

abbrev pub signal_pending : Prog Bool
signal_pending = request Op.signal_pending

abbrev pub msleep_interruptible : ℕ → Prog (Unit {0})
msleep_interruptible a = request (Op.msleep_interruptible a)
