-- ===== src/PciScan/Core.antt =====
-- The calls of the PCI core and of the driver core, whose accesses of configuration space go
-- through `a1625_scan_read` and `a1625_scan_write`. What the core makes of a value that it reads is
-- not known, so the accesses of one call are any list of requests.
pub mod Held
use a1625_linux_winboot.Prelude.{ℕ, ℤ, List, [], ◌∷◌}
use a1625_linux_winboot.Kernel.{
  Prog, ret, ◌>>=◌, ◌>>◌, ConfigRequest, config_read, config_write, CoreCall, pci_core,
}
use a1625_linux_winboot.PciScan.Controls.{Scan}
use a1625_linux_winboot.PciScan.Access.{scan_read, scan_write}

-- The scan as the accesses leave it.
unfoldable pub serve : Scan → List ConfigRequest → Prog Scan
serve scan [] = ret scan
serve scan (config_read bus devfn place size ∷ rest) = do
  scan_read scan bus devfn place size
  serve scan rest
serve scan (config_write bus devfn place size value ∷ rest) = do
  (r, scan) ← scan_write scan bus devfn place size value
  serve scan rest

unfoldable pub core_call : CoreCall → (handle : ℕ) → Scan → Prog (ℤ × Scan)
core_call c handle scan = do
  (r, requests) ← pci_core c handle
  scan ← serve scan requests
  ret (r, scan)
