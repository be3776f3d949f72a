-- ===== src/Endpoint/Held.antt =====
-- The leases of `snapshot_endpoint`, in windows-native/wifi/pmu-probe/a1625_pcie_domains.c.
use a1625_linux_winboot.Prelude.{
  ℕ, ◌/◌, ◌^◌, ◌≡◌, refl, true, false, not, ◌&&◌, ◌||◌, ◌==◌, if◌then◌else◌, ℤ, pos, neg, nonzero,
  eio, List, ◌∷◌, bit_and, arith,
}
use a1625_linux_winboot.Prelude.Bits.{all_ones}
use a1625_linux_winboot.Kernel.{Prog, ret, Ensures, branch, resume}
use a1625_linux_winboot.Kernel.Leases.{Lease, region, mapping, Leases}
use a1625_linux_winboot.Phy.{read_offsets}
use a1625_linux_winboot.Endpoint.{
  rc, ep, Stages, staged, read_config, identified, routed, route_back, with_route, routed_inner,
  both_mapped, both_claimed, snapshot_endpoint,
}

abbrev Back : List Lease → ℤ → List Lease → Type 0
Back s r t = t ≡ s

-- What is held while the endpoint is looked at, over what the caller holds.
abbrev pub endpoint_held : List Lease → List Lease
endpoint_held s = mapping ep 0x1000 ∷ mapping rc 0x1000 ∷ region ep 0x1000 ∷ region rc 0x1000 ∷ s

module _ (s : List Lease) where
  abbrev here : List Lease
  here = endpoint_held s

  module _ (st : Stages) (chip : Ensures Leases st.snapshot_chip (Back here) here)
      (scan : Ensures Leases st.pci_scan (Back here) here) where
    staged-held : Ensures Leases (staged st) (Back here) here
    unfolding staged
    staged-held =
        resume Leases (Back here) (if st.identify_chip then st.snapshot_chip else ret (pos 0)) _
          here (branch Leases (Back here) st.identify_chip _ _ here (λ _. chip) (λ _. refl))
          λ r.
            branch Leases (Back here) (not (nonzero r) && st.scan_pci) _ _ here (λ _. scan)
              (λ _. refl)

    read_config-held : Ensures Leases read_config (Back here) here
    unfolding read_config read_offsets
    read_config-held = ground arith

    identified-held : Ensures Leases (identified st) (Back here) here
    unfolding identified
    identified-held = (
      tt,
      λ _ _. (
        refl,
        λ id _.
            branch Leases (Back here) (not (bit_and id 0xffff == 0x14e4)) _ _ here (λ _. refl)
              λ _. (
                refl,
                λ c _.
                    branch Leases (Back here) (not (c / 2 ^ 16 == 0x0280)) _ _ here (λ _. refl)
                      λ _. (
                        refl,
                        λ m _.
                            branch Leases (Back here) ((m == all_ones) || not (bit_and m 4 == 0)) _
                              _ here (λ _. refl)
                              λ _. (
                                refl,
                                λ sub _.
                                    branch Leases (Back here) (sub == all_ones) _ _ here (λ _. refl)
                                      λ _.
                                        resume Leases (Back here) read_config _ here
                                          read_config-held
                                          λ r.
                                            branch Leases (Back here) (nonzero r) _ _ here
                                              (λ _. refl) (λ _. staged-held),
                              ),
                      ),
              ),
      ),
    )

  module _ (inner : Prog ℤ) (h : Ensures Leases inner (Back here) here) where
    route_back-held : (buses : ℕ) (r : ℤ) → Ensures Leases (route_back buses r) (Back here) here
    unfolding route_back
    route_back-held buses r = ground arith

    with_route-held : (buses : ℕ) → Ensures Leases (with_route inner buses) (Back here) here
    unfolding with_route
    with_route-held buses =
        branch Leases (Back here)
          ((buses == all_ones)
            || (not (bit_and buses 0xff_ffff == 0) && not (bit_and buses 0xff_ffff == 0x01_0100)))
          _ _ here (λ _. refl)
          λ _.
            branch Leases (Back here) (not (bit_and buses 0xff_ffff == 0)) _ _ here (λ _. h)
              λ _. (
                refl,
                λ _ _. (
                  refl,
                  λ found _.
                      resume Leases (Back here)
                        (if found == routed buses then inner else ret (neg eio)) _ here
                        (branch Leases (Back here) (found == routed buses) _ _ here (λ _. h)
                          (λ _. refl))
                        (route_back-held buses),
                ),
              )

    routed_inner-held : Ensures Leases (routed_inner inner) (Back here) here
    unfolding routed_inner
    routed_inner-held = (
      refl,
      λ id _.
          branch Leases (Back here) (not (id == 0x1002_106b)) _ _ here (λ _. refl)
            λ _. (
              refl,
              λ c _.
                  branch Leases (Back here) (not (c == 0x0604_0001)) _ _ here (λ _. refl)
                    λ _. (refl, λ buses _. with_route-held buses),
            ),
    )

  module _ (inner : Prog ℤ) (h : Ensures Leases inner (Back here) here) where
    abbrev regions : List Lease
    regions = region ep 0x1000 ∷ region rc 0x1000 ∷ s

    both_mapped-held : Ensures Leases (both_mapped inner) (Back regions) regions
    unfolding both_mapped
    both_mapped-held = (
      tt,
      elim [
        | false ↦ λ _. ground arith
        | true ↦ λ _. (
          tt,
          elim [
            | false ↦ λ _. ground arith
            | true ↦ λ _. resume Leases (Back regions) inner _ here h λ r. ground arith
          ],
        )
      ],
    )

    both_claimed-held : Ensures Leases (both_claimed (both_mapped inner)) (Back s) s
    unfolding both_claimed
    both_claimed-held = (
      tt,
      elim [
        | false ↦ λ _. refl
        | true ↦ λ _. (
          tt,
          elim [
            | false ↦ λ _. ground arith
            | true ↦ λ _.
                resume Leases (Back s) (both_mapped inner) _ regions both_mapped-held
                  λ r. ground arith
          ],
        )
      ],
    )

  -- Whatever the kernel answers, `snapshot_endpoint` gives back both regions and mappings and
  -- touches registers only inside them, if its stages do while they hold them.
  pub snapshot_endpoint-Leases :
      (st : Stages)
      → Ensures Leases st.snapshot_chip (λ _ t. t ≡ endpoint_held s) (endpoint_held s)
      → Ensures Leases st.pci_scan (λ _ t. t ≡ endpoint_held s) (endpoint_held s)
      → Ensures Leases (snapshot_endpoint st) (λ _ t. t ≡ s) s
  unfolding snapshot_endpoint
  snapshot_endpoint-Leases st chip scan =
      both_claimed-held (routed_inner (identified st))
        (routed_inner-held (identified st) (identified-held st chip scan))
