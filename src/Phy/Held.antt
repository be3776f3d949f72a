-- ===== src/Phy/Held.antt =====
-- The leases of `a1625_with_pcie_phy`, in windows-native/wifi/pmu-probe/a1625_pcie_phy.h.
use a1625_linux_winboot.Prelude.{
  ℕ, ◌+◌, ◌<◌, ◌≡◌, refl, Bool, true, false, not, ◌&&◌, ◌||◌, ◌==◌, if◌then◌else◌, ℤ, nonzero,
  Option, none, some, List, [], ◌∷◌, All, arith,
}
use a1625_linux_winboot.Kernel.{Prog, ret, Ensures, bind, branch, Keeps, after, resume}
use a1625_linux_winboot.Kernel.Leases.{Lease, region, mapping, Leases}
use a1625_linux_winboot.Kernel.Leases.{mapped as mapped_at}
use a1625_linux_winboot.Prelude.Bits.{all_ones}
use a1625_linux_winboot.Board.{is_j42d_t7000}
use a1625_linux_winboot.Phy.{
  CoreStep, steps, core, port, core_offsets, port_offsets, radio_is_off, read_offsets, rollback,
  taken, apply_step, after_step, apply_steps, prepared, observe, operated, mapped, claimed,
  with_pcie_phy,
}

-- What is held while the callback runs, over what the caller holds.
abbrev pub phy_held : List Lease → List Lease
phy_held s = mapping port 0x1000 ∷ mapping core 0x2000 ∷ region port 0x1000 ∷ region core 0x2000 ∷ s

abbrev InCore : CoreStep → Type 0
InCore s = s.offset < 0x2000

abbrev Below : ℕ → ℕ → Type 0
Below size o = o < size

taken-InCore :
    (inspect_prefix : Bool) (i : ℕ) (k : CoreStep) (rest : List CoreStep)
    → All InCore (k ∷ rest)
    → InCore (taken inspect_prefix i k rest)
taken-InCore inspect_prefix i k [] inside = ground arith
taken-InCore inspect_prefix i k (k' ∷ rest) inside = ground arith

module _ (s : List Lease) where
  read_core_offsets :
      (offsets : List ℕ)
      → All (Below 0x2000) offsets
      → Ensures Leases (read_offsets core offsets) (λ _ t. t ≡ phy_held s) (phy_held s)
  unfolding read_offsets
  read_core_offsets [] inside = refl
  read_core_offsets (o ∷ rest) inside = let later = read_core_offsets rest inside.1 in ground arith

  read_port_offsets :
      (offsets : List ℕ)
      → All (Below 0x1000) offsets
      → Ensures Leases (read_offsets port offsets) (λ _ t. t ≡ phy_held s) (phy_held s)
  unfolding read_offsets
  read_port_offsets [] inside = refl
  read_port_offsets (o ∷ rest) inside = let later = read_port_offsets rest inside.1 in ground arith

  core_mapped : (o : ℕ) → o < 0x2000 → mapped_at (core + o) (phy_held s) ≡ true
  core_mapped o inside = ground arith

  rollback-held :
      (stack : List CoreStep) (r : ℤ)
      → All InCore stack
      → Ensures Leases (rollback stack r) (λ _ t. t ≡ phy_held s) (phy_held s)
  unfolding rollback
  rollback-held [] r inside = refl
  rollback-held (k ∷ rest) r inside =
      let at = core_mapped k.offset inside.0 in
      (
        at,
        λ v _.
            branch Leases (λ _ t. t ≡ phy_held s) (v == all_ones) _ _ (phy_held s) (λ _. refl)
              (λ _. (at, λ _ _. (at, λ found _. rollback-held rest _ inside.1))),
      )

  -- The leases are unchanged, and the applied steps lie in the core block.
  abbrev Applied : ℤ × List CoreStep → List Lease → Type 0
  Applied (r, applied) t = (t ≡ phy_held s) × All InCore applied

  abbrev Kept : ℤ × Option CoreStep → List Lease → Type 0
  Kept (r, none) t = t ≡ phy_held s
  Kept (r, some k) t = (t ≡ phy_held s) × InCore k

  apply_step-Kept : (k : CoreStep) → InCore k → Ensures Leases (apply_step k) Kept (phy_held s)
  unfolding apply_step
  apply_step-Kept k inside = let at = core_mapped k.offset inside in ground arith

  after_step-Applied :
      (r : ℤ) (kept : Option CoreStep) (applied : List CoreStep)
      (again : List CoreStep → Prog (ℤ × List CoreStep)) (t : List Lease)
      → Kept (r, kept) t
      → All InCore applied
      → ((stack : List CoreStep)
          → All InCore stack
          → Ensures Leases (again stack) Applied (phy_held s))
      → Ensures Leases (after_step r kept applied again) Applied t
  unfolding after_step
  after_step-Applied r none applied again t h inside more = (h, inside)
  after_step-Applied r (some k) applied again t h inside more = rw h.0 (
      branch Leases Applied (nonzero r) _ _ (phy_held s) (λ _. (refl, (h.1, inside)))
        (λ _. more (k ∷ applied) (h.1, inside)))

  apply_steps-Applied :
      (inspect_prefix test_refclk : Bool) (i : ℕ) (todo applied : List CoreStep)
      → All InCore todo
      → All InCore applied
      → Ensures Leases (apply_steps inspect_prefix test_refclk i todo applied) Applied (phy_held s)
  unfolding apply_steps
  apply_steps-Applied inspect_prefix test_refclk i [] applied inside done = (refl, done)
  apply_steps-Applied inspect_prefix test_refclk i (k ∷ rest) applied inside done =
      branch Leases Applied (inspect_prefix && (i == 11) && not test_refclk) _ _ (phy_held s)
        (λ _. (refl, done))
        λ _.
          branch Leases Applied (inspect_prefix && (i == 12)) _ _ (phy_held s) (λ _. (refl, done))
            λ _.
              bind Leases Kept Applied (apply_step (taken inspect_prefix i k rest)) _ (phy_held s)
                (apply_step-Kept _ (taken-InCore inspect_prefix i k rest inside))
                λ (r, kept) t h. after_step-Applied r kept applied _ t h done λ stack inside'.
                  apply_steps-Applied inspect_prefix test_refclk (i + 1) rest stack inside.1 inside'

radio_is_off-Keeps : Keeps Leases radio_is_off
unfolding radio_is_off
radio_is_off-Keeps = record { keeps = λ s. ground arith }

is_j42d_t7000-Keeps : Keeps Leases is_j42d_t7000
unfolding is_j42d_t7000
is_j42d_t7000-Keeps = record { keeps = λ s. ground arith }

steps-InCore : All InCore steps
steps-InCore = ground arith

core_offsets-Below : All (Below 0x2000) core_offsets
core_offsets-Below = ground arith

port_offsets-Below : All (Below 0x1000) port_offsets
port_offsets-Below = ground arith

abbrev Back : List Lease → ℤ → List Lease → Type 0
Back s r t = t ≡ s

module _ (s : List Lease) (operate : Prog ℤ)
    (h : Ensures Leases operate (λ _ t. t ≡ phy_held s) (phy_held s)) where
  observe-held : Ensures Leases (observe operate) (Back (phy_held s)) (phy_held s)
  unfolding observe
  observe-held =
      resume Leases (Back (phy_held s)) (read_offsets core core_offsets) _ (phy_held s)
        (read_core_offsets s core_offsets core_offsets-Below)
        λ r.
          branch Leases (Back (phy_held s)) (nonzero r) _ _ (phy_held s) (λ _. refl)
            λ _.
              resume Leases (Back (phy_held s)) (read_offsets port port_offsets) _ (phy_held s)
                (read_port_offsets s port_offsets port_offsets-Below)
                λ q.
                  branch Leases (Back (phy_held s)) (nonzero q) _ _ (phy_held s) (λ _. refl)
                    (λ _. h)

  module _ (prepare_port inspect_prefix test_refclk : Bool) where
    prepared-Applied :
        Ensures Leases (prepared prepare_port inspect_prefix test_refclk) (Applied s) (phy_held s)
    unfolding prepared
    prepared-Applied =
        branch Leases (Applied s) (not prepare_port) _ _ (phy_held s) (λ _. (refl, tt))
          λ _. after (Applied s) _ (phy_held s) radio_is_off-Keeps λ r.
            branch Leases (Applied s) (nonzero r) _ _ (phy_held s) (λ _. (refl, tt))
              λ _. apply_steps-Applied s inspect_prefix test_refclk 0 steps [] steps-InCore tt

    operated-held :
        Ensures Leases
          (operated prepare_port inspect_prefix test_refclk operate)
          (Back (phy_held s))
          (phy_held s)
    unfolding operated
    operated-held =
        bind Leases (Applied s) (Back (phy_held s)) _ _ (phy_held s) prepared-Applied
          λ (r, applied) t (e, inside). rw e (
            resume Leases (Back (phy_held s)) (if nonzero r then ret r else observe operate) _
              (phy_held s)
              (branch Leases (Back (phy_held s)) (nonzero r) _ _ (phy_held s) (λ _. refl)
                (λ _. observe-held))
              λ q. rollback-held s applied q inside)

module _ (s : List Lease) (inner : Prog ℤ)
    (h : Ensures Leases inner (Back (phy_held s)) (phy_held s)) where
  abbrev regions : List Lease
  regions = region port 0x1000 ∷ region core 0x2000 ∷ s

  mapped-held : Ensures Leases (mapped inner) (Back regions) regions
  unfolding mapped
  mapped-held = (
    tt,
    elim [
      | false ↦ λ _. ground arith
      | true ↦ λ _. (
        tt,
        elim [
          | false ↦ λ _. ground arith
          | true ↦ λ _. resume Leases (Back regions) inner _ (phy_held s) h λ r. ground arith
        ],
      )
    ],
  )

  claimed-held : Ensures Leases (claimed (mapped inner)) (Back s) s
  unfolding claimed
  claimed-held = (
    tt,
    elim [
      | false ↦ λ _. refl
      | true ↦ λ _. (
        tt,
        elim [
          | false ↦ λ _. ground arith
          | true ↦
              λ _. resume Leases (Back s) (mapped inner) _ regions mapped-held λ r. ground arith
        ],
      )
    ],
  )

-- Whatever the kernel answers, `a1625_with_pcie_phy` gives back every region, mapping, reference
-- and lock that it takes, gives back nothing that it does not hold, touches registers only inside
-- a mapping that it holds and looks up a regmap only under the device's lock. So it is if the
-- callback gives back what it takes while the two blocks are mapped.
pub with_pcie_phy-Leases :
    (prepare_port inspect_prefix test_refclk : Bool) (operate : Prog ℤ) (s : List Lease)
    → Ensures Leases operate (λ _ t. t ≡ phy_held s) (phy_held s)
    → Ensures Leases
        (with_pcie_phy prepare_port inspect_prefix test_refclk operate)
        (λ _ t. t ≡ s)
        s
unfolding with_pcie_phy
with_pcie_phy-Leases prepare_port inspect_prefix test_refclk operate s h =
    branch Leases (Back s)
      ((inspect_prefix && not prepare_port) || (test_refclk && not inspect_prefix)) _ _ s
      (λ _. refl)
      λ _. after (Back s) _ s is_j42d_t7000-Keeps λ board.
        branch Leases (Back s) (not board) _ _ s (λ _. refl)
          λ _. claimed-held s _ (operated-held s operate h prepare_port inspect_prefix test_refclk)
