-- ===== src/DeviceTree/Held.antt =====
-- What the modules that add a device tree node share, as leases.
use a1625_linux_winboot.Prelude.{
  ℕ, ◌≡◌, refl, Bool, true, false, not, ==_refl, if◌then◌else◌, ℤ, nonzero, List, [], ◌∷◌, All,
  arith,
}
use a1625_linux_winboot.Kernel.{Prog, ret, ◌>>=◌, ◌>>◌, Ensures, branch, resume}
use a1625_linux_winboot.Kernel.Leases.{Lease, node, applied, Leases, holds}
use a1625_linux_winboot.DeviceTree.{in_turn, detached, reverted}

-- The program comes back to the leases that it starts with.
abbrev pub Same : List Lease → Prog ℤ → Type 0
Same s m = Ensures Leases m (λ _ t. t ≡ s) s

pub in_turn-Same : (ms : List (Prog ℤ)) (s : List Lease) → All (Same s) ms → Same s (in_turn ms)
unfolding in_turn
in_turn-Same [] s h = refl
in_turn-Same (m ∷ ms) s h =
    resume Leases (λ _ t. t ≡ s) m _ s h.0
      λ r. branch Leases (λ _ t. t ≡ s) (nonzero r) _ _ s (λ _. refl) (λ _. in_turn-Same ms s h.1)

pub detached-Same :
    (n : ℕ) (r : ℤ) (s : List Lease) → holds (node n) s ≡ true → Same s (detached n r)
unfolding detached
detached-Same n r s on = ground arith

-- With the changeset applied, unless that failed: the rest, which reverts it and detaches the node.
pub installed-Same :
    (failed : Bool) (changes n : ℕ) (r : ℤ) (inner : Prog ℤ) (mid : Prog (Unit {0}))
    (s : List Lease)
    → holds (node n) s ≡ true
    → ((t : List Lease) → holds (node n) t ≡ true → Ensures Leases mid (λ _ u. u ≡ t) t)
    → Same (applied changes ∷ s) inner
    → Ensures Leases
        (do
          r ← if failed then ret r else inner
          mid
          r ← reverted changes (not failed) r
          detached n r)
        (λ _ t. t ≡ s)
        (if failed then s else applied changes ∷ s)
unfolding reverted
installed-Same true changes n r inner mid s on kept h =
    resume Leases (λ _ t. t ≡ s) mid _ s (kept s on) (λ _. detached-Same n _ s on)
installed-Same false changes n r inner mid s on kept h =
    resume Leases (λ _ t. t ≡ s) inner _ (applied changes ∷ s) h
      λ r.
        resume Leases (λ _ t. t ≡ s) mid _ (applied changes ∷ s) (kept (applied changes ∷ s) on)
          λ _.
            (rw (==_refl changes) refl, λ cleanup _. rw (==_refl changes) (detached-Same n _ s on))
