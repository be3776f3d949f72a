-- ===== src/PciScan/Caps/Walk.antt =====
-- The capability walk against the linked list that it follows.
use a1625_linux_winboot.Prelude.{
  ℕ, zero, suc, ◌+◌, ◌≤◌, ◌<◌, ◌≡◌, ◌≢◌, refl, false, ◌==◌, ℤ, pos, negsuc, neg, enoent, einval,
  arith, ◌⊎◌, inl, inr,
}
use a1625_linux_winboot.Kernel.{Ensures, branch, mono}
use a1625_linux_winboot.Kernel.ConfigSpace.{Config, Fixed}
use a1625_linux_winboot.PciScan.Regs.{capability_list}
use a1625_linux_winboot.PciScan.Caps.{bad_position, cap_walk, scan_cap}

-- A position that the walk follows.
abbrev pub Good : ℕ → Type 0
Good p = (p ≢ 0) × (bad_position p ≡ false)

module _ (c : Config) (cfg id : ℕ) where
  -- From `p` the list leads in `k` hops, over good positions without the id, to the good position
  -- `q` with it.
  abbrev pub Leads : ℕ → ℕ → ℕ → Type 0
  Leads zero p q = Good p × (c.byte (cfg + p) ≡ id) × (p ≡ q)
  Leads (suc k) p q = Good p × (c.byte (cfg + p) ≢ id) × Leads k (c.byte (cfg + p + 1)) q

  -- What the walk may answer with `n` rounds: a position that the list leads to in fewer hops, or
  -- -ENOENT or -EINVAL, and then it leads to none in fewer hops.
  abbrev pub Outcome : ℕ → ℕ → ℤ → Type 0
  Outcome n p (pos q) = (k : ℕ) × Leads k p q × (k < n)
  Outcome n p (negsuc e) =
      ((negsuc e ≡ neg enoent) ⊎ (negsuc e ≡ neg einval)) × ((k q : ℕ) → Leads k p q → n ≤ k)

  Leads-Good : (k p q : ℕ) → Leads k p q → Good p
  Leads-Good zero p q l = l.0
  Leads-Good (suc k) p q l = l.0

  Outcome-hop :
      (n p : ℕ) (r : ℤ)
      → Good p
      → c.byte (cfg + p) ≢ id
      → Outcome n (c.byte (cfg + p + 1)) r
      → Outcome (suc n) p r
  Outcome-hop n p (pos q) good other (k, leads, bound) = (suc k, (good, other, leads), omega arith)
  Outcome-hop n p (negsuc e) good other (code, none_left) = (code, λ k q l. later k q l)
    where
      later : (k q : ℕ) → Leads k p q → suc n ≤ k
      later zero q l = absurd (other l.1)
      later (suc k) q l = omega (arith, none_left k q l.2)

  cap_walk-Outcome : (n p : ℕ) → Ensures Fixed (cap_walk cfg id n p) (λ r _. Outcome n p r) c
  unfolding cap_walk
  cap_walk-Outcome zero p = (inl refl, λ k q l. omega arith)
  cap_walk-Outcome (suc n) p =
      branch Fixed (λ r _. Outcome (suc n) p r) (p == 0) _ _ c
        (λ at_end. (inl refl, λ k q l. absurd ((Leads-Good k p q l).0 (ground arith))))
        λ more.
          branch Fixed (λ r _. Outcome (suc n) p r) (bad_position p) _ _ c
            (λ bad. (inr refl, λ k q l. ground (arith, Leads-Good k p q l)))
            λ good. (
              tt,
              λ found (e, _).
                  branch Fixed (λ r _. Outcome (suc n) p r) (found == id) _ _ c
                    (λ hit. (0, ((ground arith, good), ground arith, refl), omega arith))
                    λ miss. (
                      tt,
                      λ next (e', _).
                          mono Fixed (λ r _. Outcome n next r) (λ r _. Outcome (suc n) p r) _ c
                            (cap_walk-Outcome n next)
                            λ r _ h.
                              Outcome-hop n p r (ground arith, good) (ground arith) (rw (← e') h),
                    ),
            )

  -- Over configuration space that reads the same every time, `a1625_scan_cap` finds the first
  -- capability with the id when the list leads to it in fewer than 48 hops, over positions that
  -- are aligned and lie in 0x40..0xfc; it answers -ENOENT or -EINVAL only when there is none.
  pub scan_cap-Outcome :
      Ensures Fixed (scan_cap cfg id) (λ r _. Outcome 48 (c.byte (cfg + capability_list)) r) c
  unfolding scan_cap
  scan_cap-Outcome = (tt, λ first (e, _). rw (← e) (cap_walk-Outcome 48 first))
