-- ===== src/PciScan/Controls/Walked.antt =====
-- The walks along the capability lists, as leases.
use mathlib.Core.Path.{subst}
use a1625_linux_winboot.Prelude.{ℕ, zero, suc, ◌+◌, ◌<◌, ◌≡◌, refl, true, ◌||◌, ◌==◌, List, arith}
use a1625_linux_winboot.Prelude.Bits.{all_ones}
use a1625_linux_winboot.Kernel.{Prog, ret, call, Monitor, Ensures, branch}
use a1625_linux_winboot.Kernel.Anything.{Anything}
use a1625_linux_winboot.Kernel.Leases.{Lease, Leases, mapped}
use a1625_linux_winboot.PciScan.Regs
use a1625_linux_winboot.PciScan.Caps.{
  bad_position, cap_walk, scan_cap, bad_ext_position, ext_cap_id, ext_cap_next, extcap_walk,
  scan_extcap,
}
use a1625_linux_winboot.PciScan.Caps.Range.{Between, scan_cap-Between, scan_extcap-Between}

-- What holds of the result without any trust holds beside what holds of it with some.
pub anyhow :
    (M : Monitor) {A : Type 0} (P : A → Type 0) (Q : A → M.State → Type 0) (m : Prog A)
    (s : M.State)
    → Ensures Anything m (λ a _. P a) tt
    → Ensures M m Q s
    → Ensures M m (λ a t. P a × Q a t) s
anyhow M P Q (ret a) s h k = (h, k)
anyhow M P Q (call o f) s h k =
    (k.0, λ r trusted. anyhow M P Q (f r) (M.next s o r) (h.1 r tt) (k.1 r trusted))

-- All of a function's 4 KiB are mapped.
abbrev pub CfgMapped : (cfg : ℕ) → List Lease → Type 0
CfgMapped cfg s = (a : ℕ) → a < 4096 → mapped (cfg + a) s ≡ true

module _ (cfg : ℕ) (s : List Lease) (on : CfgMapped cfg s) where
  pub on_at : (a x : ℕ) → a < 4096 → cfg + a ≡ x → mapped x s ≡ true
  on_at a x low e = subst (λ y. mapped y s ≡ true) e (on a low)

  cap_walk-Same : (id n position : ℕ) → Ensures Leases (cap_walk cfg id n position) (λ _ t. t ≡ s) s
  unfolding cap_walk
  cap_walk-Same id zero position = refl
  cap_walk-Same id (suc n) position =
      branch Leases (λ _ t. t ≡ s) (position == 0) _ _ s (λ _. refl)
        λ _.
          branch Leases (λ _ t. t ≡ s) (bad_position position) _ _ s (λ _. refl)
            λ good. (
              on position (ground arith),
              λ found _.
                  branch Leases (λ _ t. t ≡ s) (found == id) _ _ s (λ _. refl)
                    λ _. (
                      on_at (position + 1) (cfg + position + 1) (ground arith) (omega arith),
                      λ next _. cap_walk-Same id n next,
                    ),
            )

  extcap_walk-Same :
      (id n position : ℕ) → Ensures Leases (extcap_walk cfg id n position) (λ _ t. t ≡ s) s
  unfolding extcap_walk
  extcap_walk-Same id zero position = refl
  extcap_walk-Same id (suc n) position =
      branch Leases (λ _ t. t ≡ s) (position == 0) _ _ s (λ _. refl)
        λ _.
          branch Leases (λ _ t. t ≡ s) (bad_ext_position position) _ _ s (λ _. refl)
            λ good. (
              on position (ground arith),
              λ header _.
                  branch Leases (λ _ t. t ≡ s) ((header == 0) || (header == all_ones)) _ _ s
                    (λ _. refl)
                    λ _.
                      branch Leases (λ _ t. t ≡ s) (ext_cap_id header == id) _ _ s (λ _. refl)
                        (λ _. extcap_walk-Same id n (ext_cap_next header)),
            )

  pub scan_cap-Found :
      (id : ℕ) → Ensures Leases (scan_cap cfg id) (λ r t. Between 0x40 0xfc r × (t ≡ s)) s
  unfolding scan_cap
  scan_cap-Found id =
      anyhow Leases (λ r. Between 0x40 0xfc r) (λ _ t. t ≡ s) (scan_cap cfg id) s
        (scan_cap-Between cfg id)
        (on Regs.capability_list (omega arith), λ first _. cap_walk-Same id 48 first)

  pub scan_extcap-Found :
      (id : ℕ) → Ensures Leases (scan_extcap cfg id) (λ r t. Between 0x100 0xffc r × (t ≡ s)) s
  unfolding scan_extcap
  scan_extcap-Found id =
      anyhow Leases (λ r. Between 0x100 0xffc r) (λ _ t. t ≡ s) (scan_extcap cfg id) s
        (scan_extcap-Between cfg id) (extcap_walk-Same id 256 0x100)
