-- ===== src/Chip/Held.antt =====
-- The leases of `snapshot_chip`, in windows-native/wifi/pmu-probe/a1625_pcie_domains.c.
use a1625_linux_winboot.Prelude.{
  ℕ, zero, suc, ◌+◌, ◌<◌, ◌≡◌, refl, Bool, true, false, not, ◌||◌, ◌==◌, leb, if◌then◌else◌, ℤ,
  List, ◌∷◌, bit_and, arith,
}
use a1625_linux_winboot.Prelude.Bits.{all_ones}
use a1625_linux_winboot.Kernel.{ret, ◌>>=◌, ◌>>◌, iounmap, Ensures, bind, branch, resume}
use a1625_linux_winboot.Kernel.Leases.{Lease, region, mapping, Leases, mapped}
use a1625_linux_winboot.Endpoint.Held.{endpoint_held}
use a1625_linux_winboot.Chip.{
  Saved, bar, erom, read_erom, read_chip, set_long, set_word, decoded, bar_size, touched,
  check_back, put_back, read_saved, probed, known, snapshot_chip,
}

abbrev Back : {A : Type 0} → List Lease → A → List Lease → Type 0
Back s r t = t ≡ s

module _ (s : List Lease) where
  abbrev claimed : List Lease
  claimed = region bar 0x8000 ∷ endpoint_held s

  abbrev here : List Lease
  here = mapping bar 0x1000 ∷ claimed

  reaches_bar : (o : ℕ) → o < 0x1000 → mapped (bar + o) here ≡ true
  reaches_bar o inside = ground arith

  reaches_second : (o : ℕ) → leb 0x1000 (o + 4) ≡ false → mapped (bar + o + 4) here ≡ true
  reaches_second o inside = ground arith

  erom-held : (n o c p : ℕ) → Ensures Leases (erom n o c p) (Back here) here
  unfolding erom
  erom-held zero o c p = refl
  erom-held (suc n) o c p =
      branch Leases (Back here) (leb 0x1000 o) _ _ here (λ _. refl)
        λ inside. (
          reaches_bar o (ground arith),
          λ first _.
              branch Leases (Back here) (first == all_ones) _ _ here (λ _. refl)
                λ _.
                  branch Leases (Back here) (bit_and first 0xf == 0xf) _ _ here (λ _. refl)
                    λ _.
                      branch Leases (Back here) (not (bit_and first 0xfff0_000f == 0x4bf0_0001)) _ _
                        here (λ _. erom-held n (o + 4) c p)
                        λ _.
                          branch Leases (Back here) (leb 0x1000 (o + 4)) _ _ here (λ _. refl)
                            λ inside. (
                              reaches_second o inside,
                              λ second _.
                                  branch Leases (Back here) (not (bit_and second 0xf == 1)) _ _ here
                                    (λ _. refl) λ _. erom-held n (o + 8) (c + 1) _,
                            ),
        )

  read_erom-held : (pointer : ℕ) → Ensures Leases (read_erom pointer) (Back here) here
  unfolding read_erom
  read_erom-held pointer = let loop = erom-held 1024 0 0 0 in ground arith

  read_chip-held : (inspect_erom : Bool) → Ensures Leases (read_chip inspect_erom) (Back here) here
  unfolding read_chip
  read_chip-held inspect_erom = (
    refl,
    λ id _.
        branch Leases (Back here) ((id == all_ones) || not (bit_and id 0xffff == 0x4350)) _ _ here
          (λ _. refl)
          λ _. (
            refl,
            λ p _.
                branch Leases (Back here) ((p == 0) || (p == all_ones) || not (bit_and p 3 == 0)) _
                  _ here (λ _. refl)
                  λ _.
                    branch Leases (Back here) inspect_erom _ _ here (λ _. read_erom-held p)
                      (λ _. refl),
          ),
  )

  decoded-held : (inspect_erom : Bool) → Ensures Leases (decoded inspect_erom) (Back here) here
  unfolding decoded set_long set_word
  decoded-held inspect_erom = let chip = read_chip-held inspect_erom in ground arith

  -- `bar` is mapped if the second result says so.
  abbrev MappedIf : ℤ × Bool → List Lease → Type 0
  MappedIf (r, on) t = t ≡ (if on then here else claimed)

  touched-MappedIf :
      (inspect_erom : Bool) (v : Saved) → Ensures Leases (touched inspect_erom v) MappedIf claimed
  unfolding touched
  touched-MappedIf inspect_erom v = (
    refl,
    λ _ _. (
      refl,
      λ _ _. (
        refl,
        λ mask_low _. (
          refl,
          λ mask_high _. (
            refl,
            λ _ _. (
              refl,
              λ _ _. (
                refl,
                λ low _.
                    branch Leases MappedIf (not (low == v.low)) _ _ claimed (λ _. refl)
                      λ _. (
                        refl,
                        λ high _.
                            branch Leases MappedIf
                              (not (high == v.high) || not (bar_size mask_low mask_high == 0x8000))
                              _ _ claimed (λ _. refl)
                              λ _. (
                                tt,
                                elim [
                                  | false ↦ λ _. refl
                                  | true ↦ λ _.
                                      resume Leases MappedIf (decoded inspect_erom) _ here
                                        (decoded-held inspect_erom) (λ _. refl)
                                ],
                              ),
                      ),
              ),
            ),
          ),
        ),
      ),
    ),
  )

  put_back-mapped : (v : Saved) (r : ℤ) → Ensures Leases (put_back v r) (Back here) here
  unfolding put_back check_back
  put_back-mapped v r = ground arith

  put_back-claimed : (v : Saved) (r : ℤ) → Ensures Leases (put_back v r) (Back claimed) claimed
  unfolding put_back check_back
  put_back-claimed v r = ground arith

  probed-held :
      (inspect_erom : Bool) (v : Saved)
      → Ensures Leases (probed inspect_erom v) (Back claimed) claimed
  unfolding probed
  probed-held inspect_erom v =
      bind Leases MappedIf (Back claimed) (touched inspect_erom v) _ claimed
        (touched-MappedIf inspect_erom v) λ (r, on) t e. rw e (unmapped r on)
    where
      unmapped :
          (r : ℤ) (on : Bool)
          → Ensures Leases
              (do r ← put_back v r; if on then iounmap bar else ret tt; ret r)
              (Back claimed)
              (if on then here else claimed)
      unmapped r true =
          resume Leases (Back claimed) (put_back v r) _ here (put_back-mapped v r)
            (λ q. ground arith)
      unmapped r false =
          resume Leases (Back claimed) (put_back v r) _ claimed (put_back-claimed v r) (λ q. refl)

  known-held :
      (inspect_erom : Bool) (v : Saved)
      → Ensures Leases (known inspect_erom v) (Back claimed) claimed
  unfolding known
  known-held inspect_erom v = let probe = probed-held inspect_erom v in ground arith

  read_saved-held : Ensures Leases read_saved (Back claimed) claimed
  unfolding read_saved
  read_saved-held = ground arith

  -- Whatever the kernel answers, `snapshot_chip` gives back its region and its mapping and touches
  -- registers only inside mappings that it or `snapshot_endpoint` holds; the scan of the EROM stays
  -- inside the 4 KiB that are mapped.
  pub snapshot_chip-Leases :
      (inspect_erom : Bool)
      → Ensures Leases (snapshot_chip inspect_erom) (λ _ t. t ≡ endpoint_held s) (endpoint_held s)
  unfolding snapshot_chip
  snapshot_chip-Leases inspect_erom = (
    tt,
    elim [
      | false ↦ λ _. refl
      | true ↦ λ _. resume Leases (Back (endpoint_held s)) read_saved _ claimed read_saved-held λ v.
          resume Leases (Back (endpoint_held s)) (known inspect_erom v) _ claimed
            (known-held inspect_erom v) (λ r. ground arith)
    ],
  )
