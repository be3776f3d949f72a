-- ===== src/PciScan/Silence/Reading.antt =====
-- The parts of `a1625_pci_scan` that write nothing.
use a1625_linux_winboot.Prelude.{
  ℕ, zero, suc, ◌+◌, ◌≡◌, refl, ◌∙◌, false, not, ◌||◌, ◌==◌, if◌then◌else◌, ℤ, pos, nonzero, List,
  [], ◌∷◌, All, bit_and, arith,
}
use a1625_linux_winboot.Prelude.Bits.{all_ones}
use a1625_linux_winboot.Kernel.{Op, Prog, ret, call, Ensures, bind, branch, mono, readw, readl}
use a1625_linux_winboot.Kernel.ReadOnly.{writes, ReadOnly}
use a1625_linux_winboot.DeviceTree.{in_turn, detached}
use a1625_linux_winboot.DeviceTree.PciNode.{
  PciNode, pci_node_create, pci_node_remove, pci_properties, fill_node, remove_node,
}
use a1625_linux_winboot.PciScan.Regs
use a1625_linux_winboot.PciScan.Access.Mastering.{Unmastered, Silent}
use a1625_linux_winboot.PciScan.Caps.{
  bad_position, cap_walk, scan_cap, bad_ext_position, ext_cap_id, ext_cap_next, extcap_walk,
  scan_extcap,
}
use a1625_linux_winboot.PciScan.Controls.{
  Scan, Wanted, config_of, is_some, unusable, no_room, save_control, save_all, save_bus, windows,
  watchdog, save_msi, save_controls,
}

-- A call that writes nothing leaves the master bits alone.
Silent-writes : (cfg : ℕ) (o : Op) → writes o ≡ false → Silent cfg o
Silent-writes cfg (Op.writew value a) h = ground arith
Silent-writes cfg (Op.writel value a) h = ground arith
Silent-writes cfg _ h = tt

pub unmastered :
    (rc ep : ℕ) {A : Type 0} (Q : A → Type 0) (m : Prog A)
    → Ensures ReadOnly m (λ a _. Q a) tt
    → Ensures (Unmastered rc ep) m (λ a _. Q a) tt
unmastered rc ep Q (ret a) h = h
unmastered rc ep Q (call o k) h =
    ((Silent-writes rc o h.0, Silent-writes ep o h.0), λ r _. unmastered rc ep Q (k r) (h.1 r tt))

-- It writes nothing.
abbrev pub Reads : {A : Type 0} → Prog A → Type 0
Reads m = Ensures ReadOnly m (λ _ _. Unit {0}) tt

in_turn-Reads : (ms : List (Prog ℤ)) → All Reads ms → Reads (in_turn ms)
unfolding in_turn
in_turn-Reads [] h = tt
in_turn-Reads (m ∷ ms) h =
    bind ReadOnly (λ _ _. Unit {0}) (λ _ _. Unit {0}) m _ tt h.0
      λ r _ _.
        branch ReadOnly (λ _ _. Unit {0}) (nonzero r) _ _ tt (λ _. tt) (λ _. in_turn-Reads ms h.1)

pub pci_node_create-Reads : (dart : ℕ) → Reads (pci_node_create dart)
unfolding pci_node_create fill_node pci_properties in_turn
pci_node_create-Reads dart = ground arith

pub pci_node_remove-Reads : (state : PciNode) → Reads (pci_node_remove state)
unfolding pci_node_remove remove_node detached
pci_node_remove-Reads state = ground arith

-- What of the scan stays as it is while its controls are saved and its devices identified.
pub record SameScan (scan after : Scan) : Type 0 where
  pub at_rc : after.rc ≡ scan.rc
  pub at_ep : after.ep ≡ scan.ep
  pub inactive : after.firmware_active ≡ scan.firmware_active

SameScan-trans : (a b c : Scan) → SameScan a b → SameScan b c → SameScan a c
SameScan-trans a b c h k = record {
  at_rc = k.at_rc ∙ h.at_rc;
  at_ep = k.at_ep ∙ h.at_ep;
  inactive = k.inactive ∙ h.inactive;
}

SameScan-refl : (a : Scan) → SameScan a a
SameScan-refl a = record { at_rc = refl; at_ep = refl; inactive = refl }

cap_walk-Reads : (cfg id n position : ℕ) → Reads (cap_walk cfg id n position)
unfolding cap_walk
cap_walk-Reads cfg id zero position = tt
cap_walk-Reads cfg id (suc n) position =
    branch ReadOnly (λ _ _. Unit {0}) (position == 0) _ _ tt (λ _. tt)
      λ _.
        branch ReadOnly (λ _ _. Unit {0}) (bad_position position) _ _ tt (λ _. tt)
          λ _. (
            refl,
            λ found _.
                branch ReadOnly (λ _ _. Unit {0}) (found == id) _ _ tt (λ _. tt)
                  λ _. (refl, λ next _. cap_walk-Reads cfg id n next),
          )

extcap_walk-Reads : (cfg id n position : ℕ) → Reads (extcap_walk cfg id n position)
unfolding extcap_walk
extcap_walk-Reads cfg id zero position = tt
extcap_walk-Reads cfg id (suc n) position =
    branch ReadOnly (λ _ _. Unit {0}) (position == 0) _ _ tt (λ _. tt)
      λ _.
        branch ReadOnly (λ _ _. Unit {0}) (bad_ext_position position) _ _ tt (λ _. tt)
          λ _. (
            refl,
            λ header _.
                branch ReadOnly (λ _ _. Unit {0}) ((header == 0) || (header == all_ones)) _ _ tt
                  (λ _. tt)
                  λ _.
                    branch ReadOnly (λ _ _. Unit {0}) (ext_cap_id header == id) _ _ tt (λ _. tt)
                      (λ _. extcap_walk-Reads cfg id n (ext_cap_next header)),
          )

scan_cap-Reads : (cfg id : ℕ) → Reads (scan_cap cfg id)
unfolding scan_cap
scan_cap-Reads cfg id = (refl, λ first _. cap_walk-Reads cfg id 48 first)

scan_extcap-Reads : (cfg id : ℕ) → Reads (scan_extcap cfg id)
unfolding scan_extcap
scan_extcap-Reads cfg id = extcap_walk-Reads cfg id 256 0x100

-- Nothing is written, and the scan is left so.
abbrev ReadsScan : Prog Scan → Scan → Type 0
ReadsScan m scan = Ensures ReadOnly m (λ s _. SameScan scan s) tt

abbrev ReadsResult : Prog (ℤ × Scan) → Scan → Type 0
ReadsResult m scan = Ensures ReadOnly m (λ r _. SameScan scan r.1) tt

save_control-Reads :
    (scan : Scan) (bus place size mask : ℕ) → ReadsScan (save_control scan bus place size mask) scan
unfolding save_control
save_control-Reads scan bus place size mask =
    bind ReadOnly (λ _ _. Unit {0}) (λ s _. SameScan scan s)
      (if size == 2 then readw (config_of scan bus + place) else readl (config_of scan bus + place))
      _ tt (ground arith) (λ value _ _. record { at_rc = refl; at_ep = refl; inactive = refl })

save_all-Reads : (l : List Wanted) (scan : Scan) → ReadsScan (save_all scan l) scan
unfolding save_all
save_all-Reads [] scan = SameScan-refl scan
save_all-Reads ((bus, place, size, mask) ∷ rest) scan =
    bind ReadOnly (λ s _. SameScan scan s) (λ s _. SameScan scan s)
      (save_control scan bus place size mask) _ tt (save_control-Reads scan bus place size mask)
      λ a _ h.
        mono ReadOnly (λ s _. SameScan a s) (λ s _. SameScan scan s) (save_all a rest) tt
          (save_all-Reads rest a) (λ s _ k. SameScan-trans scan a s h k)

save_bus-Reads : (scan : Scan) (bus : ℕ) → ReadsResult (save_bus scan bus) scan
unfolding save_bus
save_bus-Reads scan bus =
    bind ReadOnly (λ _ _. Unit {0}) (λ r _. SameScan scan r.1) _ _ tt (scan_cap-Reads _ _)
      λ pm _ _.
        bind ReadOnly (λ _ _. Unit {0}) (λ r _. SameScan scan r.1) _ _ tt (scan_cap-Reads _ _)
          λ exp _ _.
            bind ReadOnly (λ _ _. Unit {0}) (λ r _. SameScan scan r.1) _ _ tt
              (scan_extcap-Reads _ _)
              λ l1ss _ _.
                branch ReadOnly (λ r _. SameScan scan r.1) (unusable pm exp l1ss) _ _ tt
                  (λ _. SameScan-refl scan)
                  λ _. (
                    refl,
                    λ control _.
                        branch ReadOnly (λ r _. SameScan scan r.1)
                          (not (bit_and control Regs.pm_ctrl_state_mask == 0)) _ _ tt
                          (λ _. SameScan-refl scan)
                          λ _.
                            bind ReadOnly (λ s _. SameScan scan s) (λ r _. SameScan scan r.1)
                              (save_all scan _) _ tt (save_all-Reads _ scan) (λ s _ h. h),
                  )

save_msi-Reads : (scan : Scan) → ReadsResult (save_msi scan) scan
unfolding save_msi
save_msi-Reads scan =
    bind ReadOnly (λ _ _. Unit {0}) (λ r _. SameScan scan r.1) _ _ tt (scan_cap-Reads _ _)
      λ cap _ _.
        branch ReadOnly (λ r _. SameScan scan r.1) (no_room cap) _ _ tt (λ _. SameScan-refl scan)
          λ _. (
            refl,
            λ flags _.
                branch ReadOnly (λ r _. SameScan scan r.1)
                  (not (bit_and flags Regs.msi_flags_enable == 0)) _ _ tt (λ _. SameScan-refl scan)
                  λ _.
                    bind ReadOnly (λ s _. SameScan scan s) (λ r _. SameScan scan r.1) (save_all _ _)
                      _ tt
                      (mono ReadOnly _ (λ s _. SameScan scan s) _ tt (save_all-Reads _ _)
                        λ s _ h. record { at_rc = h.at_rc; at_ep = h.at_ep; inactive = h.inactive })
                      (λ s _ h. h),
          )

pub save_controls-Reads : (scan : Scan) → ReadsResult (save_controls scan) scan
unfolding save_controls
save_controls-Reads scan =
    bind ReadOnly (λ r _. SameScan scan r.1) (λ r _. SameScan scan r.1) (save_bus scan 0) _ tt
      (save_bus-Reads scan 0)
      λ (r, a) _ h.
        branch ReadOnly (λ r _. SameScan scan r.1) (nonzero r) _ _ tt (λ _. h)
          λ _.
            bind ReadOnly (λ r _. SameScan a r.1) (λ r _. SameScan scan r.1) (save_bus a 1) _ tt
              (save_bus-Reads a 1)
              λ (r, b) _ k.
                branch ReadOnly (λ r _. SameScan scan r.1) (nonzero r) _ _ tt
                  (λ _. SameScan-trans scan a b h k)
                  λ _.
                    bind ReadOnly (λ s _. SameScan b s) (λ r _. SameScan scan r.1)
                      (save_all b (windows b.assign_memory)) _ tt (save_all-Reads _ b)
                      λ c _ l.
                        bind ReadOnly (λ r _. SameScan c r.1) (λ r _. SameScan scan r.1)
                          (if is_some c.msi_domain then save_msi c else ret (pos 0, c)) _ tt
                          (branch ReadOnly (λ r _. SameScan c r.1) (is_some c.msi_domain) _ _ tt
                            (λ _. save_msi-Reads c) (λ _. SameScan-refl c))
                          λ (r, d) _ n.
                            let far =
                              SameScan-trans scan a d h
                                (SameScan-trans a b d k (SameScan-trans b c d l n)) in
                            branch ReadOnly (λ r _. SameScan scan r.1) (nonzero r) _ _ tt (λ _. far)
                              λ _.
                                bind ReadOnly (λ s _. SameScan d s) (λ r _. SameScan scan r.1)
                                  (save_all d (if d.bind_firmware then watchdog else [])) _ tt
                                  (save_all-Reads _ d) (λ e _ o. SameScan-trans scan d e far o)
