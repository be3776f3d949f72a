-- ===== src/Kernel/Calls/Irq.antt =====
-- The kernel's functions as programs of one call: interrupt domains.
use a1625_linux_winboot.Prelude.{ℕ, ℤ, Option}
use a1625_linux_winboot.Kernel.Operations.{Op}
use a1625_linux_winboot.Kernel.Programs.{Prog, request}

abbrev pub irq_find_matching_fwspec : (node : ℕ) → Prog (Option ℕ)
irq_find_matching_fwspec node = request (Op.irq_find_matching_fwspec node)

abbrev pub irq_find_mapping : (domain hwirq : ℕ) → Prog ℕ
irq_find_mapping domain hwirq = request (Op.irq_find_mapping domain hwirq)

abbrev pub irq_domain_alloc_named_fwnode : Prog (Option ℕ)
irq_domain_alloc_named_fwnode = request Op.irq_domain_alloc_named_fwnode

abbrev pub irq_domain_free_fwnode : (fwnode : ℕ) → Prog (Unit {0})
irq_domain_free_fwnode fwnode = request (Op.irq_domain_free_fwnode fwnode)

abbrev pub msi_create_parent_irq_domain : (parent fwnode : ℕ) → Prog (Option ℕ)
msi_create_parent_irq_domain parent fwnode = request (Op.msi_create_parent_irq_domain parent fwnode)

abbrev pub irq_domain_remove : (domain : ℕ) → Prog (Unit {0})
irq_domain_remove domain = request (Op.irq_domain_remove domain)

abbrev pub irq_domain_alloc_irqs : (domain : ℕ) → Prog ℤ
irq_domain_alloc_irqs domain = request (Op.irq_domain_alloc_irqs domain)

abbrev pub irq_domain_free_irqs : (irq : ℕ) → Prog (Unit {0})
irq_domain_free_irqs irq = request (Op.irq_domain_free_irqs irq)

abbrev pub irq_domain_get_irq_data : (domain irq : ℕ) → Prog (Option (ℕ × Option ℕ))
irq_domain_get_irq_data domain irq = request (Op.irq_domain_get_irq_data domain irq)

abbrev pub msi_used : (domain : ℕ) → Prog ℕ
msi_used domain = request (Op.msi_used domain)
