-- ===== src/PciScan/Regs.antt =====
-- The offsets and bits of PCI configuration space that the scan names, with the values that the
-- kernel's pci_regs.h gives them.
use a1625_linux_winboot.Prelude.{ℕ}

abbrev pub command : ℕ
command = 0x04

abbrev pub command_master : ℕ
command_master = 0x4

abbrev pub primary_bus : ℕ
primary_bus = 0x18

abbrev pub io_base : ℕ
io_base = 0x1c

abbrev pub sec_status : ℕ
sec_status = 0x1e

abbrev pub memory_base : ℕ
memory_base = 0x20

abbrev pub pref_memory_base : ℕ
pref_memory_base = 0x24

abbrev pub pref_base_upper32 : ℕ
pref_base_upper32 = 0x28

abbrev pub pref_limit_upper32 : ℕ
pref_limit_upper32 = 0x2c

abbrev pub io_base_upper16 : ℕ
io_base_upper16 = 0x30

abbrev pub rom_address : ℕ
rom_address = 0x30

abbrev pub rom_address1 : ℕ
rom_address1 = 0x38

abbrev pub rom_address_enable : ℕ
rom_address_enable = 0x1

abbrev pub capability_list : ℕ
capability_list = 0x34

abbrev pub bridge_control : ℕ
bridge_control = 0x3e

abbrev pub bridge_ctl_bus_reset : ℕ
bridge_ctl_bus_reset = 0x40

abbrev pub cap_id_pm : ℕ
cap_id_pm = 0x01

abbrev pub cap_id_msi : ℕ
cap_id_msi = 0x05

abbrev pub cap_id_exp : ℕ
cap_id_exp = 0x10

abbrev pub ext_cap_id_l1ss : ℕ
ext_cap_id_l1ss = 0x1e

abbrev pub pm_ctrl : ℕ
pm_ctrl = 4

abbrev pub pm_ctrl_state_mask : ℕ
pm_ctrl_state_mask = 0x3

abbrev pub pm_ctrl_pme_status : ℕ
pm_ctrl_pme_status = 0x8000

abbrev pub exp_devctl2 : ℕ
exp_devctl2 = 0x28

abbrev pub exp_lnkctl : ℕ
exp_lnkctl = 0x10

abbrev pub exp_lnkctl_ld : ℕ
exp_lnkctl_ld = 0x10

abbrev pub exp_lnkctl_rl : ℕ
exp_lnkctl_rl = 0x20

abbrev pub l1ss_ctl1 : ℕ
l1ss_ctl1 = 0x08

abbrev pub l1ss_ctl2 : ℕ
l1ss_ctl2 = 0x0c

abbrev pub msi_flags : ℕ
msi_flags = 0x02

abbrev pub msi_flags_enable : ℕ
msi_flags_enable = 0x1

abbrev pub msi_flags_64bit : ℕ
msi_flags_64bit = 0x80

abbrev pub msi_flags_maskbit : ℕ
msi_flags_maskbit = 0x100

abbrev pub msi_address_lo : ℕ
msi_address_lo = 0x04

abbrev pub msi_address_hi : ℕ
msi_address_hi = 0x08

abbrev pub msi_data_32 : ℕ
msi_data_32 = 0x08

abbrev pub msi_data_64 : ℕ
msi_data_64 = 0x0c

abbrev pub msi_mask_32 : ℕ
msi_mask_32 = 0x0c

abbrev pub msi_mask_64 : ℕ
msi_mask_64 = 0x10
