-- ===== src/Chip/Mastering.antt =====
-- The writes of `snapshot_chip` and the bus master bits.
use a1625_linux_winboot.Prelude.{
  ℕ, zero, suc, ◌+◌, ◌≡◌, Bool, true, false, not, ◌||◌, ◌==◌, leb, if◌then◌else◌, ℤ, bit_and, arith,
}
use a1625_linux_winboot.Prelude.Bits.{all_ones}
use a1625_linux_winboot.Kernel.{ret, ◌>>◌, iounmap, Ensures, bind, branch}
use a1625_linux_winboot.Endpoint.{rc, ep}
use a1625_linux_winboot.PciScan.Access.Mastering.{Unmastered}
use a1625_linux_winboot.Chip.{
  Saved, bar, pristine, bar_size, erom, read_erom, read_chip, set_long, set_word, decoded, touched,
  check_back, put_back, read_saved, probed, known, snapshot_chip,
}

abbrev Any : {A : Type 0} → A → Unit {0} → Type 0
Any r t = Unit {0}

erom-quiet : (n o c p : ℕ) → Ensures (Unmastered rc ep) (erom n o c p) Any tt
unfolding erom
erom-quiet zero o c p = tt
erom-quiet (suc n) o c p =
    branch (Unmastered rc ep) Any (leb 0x1000 o) _ _ tt (λ _. tt)
      λ _. (
        (tt, tt),
        λ first _.
            branch (Unmastered rc ep) Any (first == all_ones) _ _ tt (λ _. tt)
              λ _.
                branch (Unmastered rc ep) Any (bit_and first 0xf == 0xf) _ _ tt (λ _. tt)
                  λ _.
                    branch (Unmastered rc ep) Any (not (bit_and first 0xfff0_000f == 0x4bf0_0001)) _
                      _ tt (λ _. erom-quiet n (o + 4) c p)
                      λ _.
                        branch (Unmastered rc ep) Any (leb 0x1000 (o + 4)) _ _ tt (λ _. tt)
                          λ _. (
                            (tt, tt),
                            λ second _.
                                branch (Unmastered rc ep) Any (not (bit_and second 0xf == 1)) _ _ tt
                                  (λ _. tt) λ _. erom-quiet n (o + 8) (c + 1) _,
                          ),
      )

read_erom-quiet : (pointer : ℕ) → Ensures (Unmastered rc ep) (read_erom pointer) Any tt
unfolding read_erom
read_erom-quiet pointer = let loop = erom-quiet 1024 0 0 0 in ground arith

read_chip-quiet : (inspect_erom : Bool) → Ensures (Unmastered rc ep) (read_chip inspect_erom) Any tt
unfolding read_chip
read_chip-quiet inspect_erom = (
  (tt, tt),
  λ id _.
      branch (Unmastered rc ep) Any ((id == all_ones) || not (bit_and id 0xffff == 0x4350)) _ _ tt
        (λ _. tt)
        λ _. (
          (tt, tt),
          λ p _.
              branch (Unmastered rc ep) Any ((p == 0) || (p == all_ones) || not (bit_and p 3 == 0))
                _ _ tt (λ _. tt)
                λ _.
                  branch (Unmastered rc ep) Any inspect_erom _ _ tt (λ _. read_erom-quiet p)
                    (λ _. tt),
        ),
)

decoded-quiet : (inspect_erom : Bool) → Ensures (Unmastered rc ep) (decoded inspect_erom) Any tt
unfolding decoded set_long set_word
decoded-quiet inspect_erom = let chip = read_chip-quiet inspect_erom in ground arith

put_back-quiet :
    (v : Saved) (r : ℤ) → pristine v ≡ true → Ensures (Unmastered rc ep) (put_back v r) Any tt
unfolding put_back check_back
put_back-quiet v r clean = ground arith

touched-quiet :
    (inspect_erom : Bool) (v : Saved) → Ensures (Unmastered rc ep) (touched inspect_erom v) Any tt
unfolding touched
touched-quiet inspect_erom v = (
  ground arith,
  λ _ _. (
    ground arith,
    λ _ _. (
      (tt, tt),
      λ mask_low _. (
        (tt, tt),
        λ mask_high _. (
          ground arith,
          λ _ _. (
            ground arith,
            λ _ _. (
              (tt, tt),
              λ low _.
                  branch (Unmastered rc ep) Any (not (low == v.low)) _ _ tt (λ _. tt)
                    λ _. (
                      (tt, tt),
                      λ high _.
                          branch (Unmastered rc ep) Any
                            (not (high == v.high) || not (bar_size mask_low mask_high == 0x8000)) _
                            _ tt (λ _. tt)
                            λ _. (
                              (tt, tt),
                              elim [
                                | false ↦ λ _. tt
                                | true ↦ λ _.
                                    bind (Unmastered rc ep) Any Any (decoded inspect_erom) _ tt
                                      (decoded-quiet inspect_erom) (λ _ _ _. tt)
                              ],
                            ),
                    ),
            ),
          ),
        ),
      ),
    ),
  ),
)

probed-quiet :
    (inspect_erom : Bool) (v : Saved)
    → pristine v ≡ true
    → Ensures (Unmastered rc ep) (probed inspect_erom v) Any tt
unfolding probed
probed-quiet inspect_erom v clean =
    bind (Unmastered rc ep) Any Any (touched inspect_erom v) _ tt (touched-quiet inspect_erom v)
      λ (r, on) _ _.
        bind (Unmastered rc ep) Any Any (put_back v r) _ tt (put_back-quiet v r clean)
          λ q _ _. unmapped q on
  where
    unmapped :
        (q : ℤ) (on : Bool)
        → Ensures (Unmastered rc ep) (do if on then iounmap bar else ret tt; ret q) Any tt
    unmapped q true = ((tt, tt), λ _ _. tt)
    unmapped q false = tt

known-quiet :
    (inspect_erom : Bool) (v : Saved) → Ensures (Unmastered rc ep) (known inspect_erom v) Any tt
unfolding known
known-quiet inspect_erom v = (
  (tt, tt),
  λ id _.
      branch (Unmastered rc ep) Any (not (id == 0x43a3_14e4)) _ _ tt (λ _. tt)
        λ _. (
          (tt, tt),
          λ c _.
              branch (Unmastered rc ep) Any (not (c == 0x0280_0008) || not (pristine v)) _ _ tt
                (λ _. tt) λ clean. probed-quiet inspect_erom v (ground arith),
        ),
)

-- `snapshot_chip` sets the bus master bit in neither command register, of the root port nor of the
-- endpoint, and writes those two registers by 16 bits only, whatever the registers read as.
pub snapshot_chip-Unmastered :
    (inspect_erom : Bool)
    → Ensures (Unmastered rc ep) (snapshot_chip inspect_erom) (λ _ _. Unit {0}) tt
unfolding snapshot_chip read_saved
snapshot_chip-Unmastered inspect_erom = (
  (tt, tt),
  elim [
    | false ↦ λ _. tt
    | true ↦ λ _. (
      (tt, tt),
      λ low _. (
        (tt, tt),
        λ high _. (
          (tt, tt),
          λ window _. (
            (tt, tt),
            λ mem _. (
              (tt, tt),
              λ rc_cmd _. (
                (tt, tt),
                λ ep_cmd _.
                    bind (Unmastered rc ep) Any Any (known inspect_erom _) _ tt
                      (known-quiet inspect_erom _) (λ _ _ _. ((tt, tt), λ _ _. tt)),
              ),
            ),
          ),
        ),
      ),
    )
  ],
)
