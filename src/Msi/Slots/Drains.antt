-- ===== src/Msi/Slots/Drains.antt =====
-- What is left when the calls under way end and what is allocated is freed.
use a1625_linux_winboot.Prelude.{ℕ, ◌≡◌, refl, false, List, [], ◌∷◌}
use a1625_linux_winboot.Msi.Slots.{
  Bitmap, BitmapLaws, Region, Slots, commit, free, clear_slot, Step, commits, frees, clears,
  Reachable, then_step, Steps, stay, step_on,
}
use a1625_linux_winboot.Msi.Slots.Owners.{Reachable-idle}

-- Nothing is under way or allocated, and no slot is marked.
pub record AllFree (s : Slots) : Type 0 where
  pub flying : s.flying ≡ []
  pub live : s.live ≡ []
  pub leaving : s.leaving ≡ []
  pub unused : (b : ℕ) → s.used b ≡ false

module _ (m : Bitmap) (laws : BitmapLaws m) where
  abbrev Ends : Slots → Type 0
  Ends s = (t : Slots) × Steps m s t × AllFree t

  earlier-Ends : (s t : Slots) → Step m s t → Ends t → Ends s
  earlier-Ends s t step (u, steps, free) = (u, step_on s t u step steps, free)

  leaving-Ends :
      (l : List ℕ) (s : Slots)
      → s.flying ≡ []
      → s.live ≡ []
      → s.leaving ≡ l
      → Reachable m s
      → Ends s
  unfolding clear_slot
  leaving-Ends [] s flying live leaving reached = (
    s,
    stay s,
    record {
      flying = flying;
      live = live;
      leaving = leaving;
      unused = Reachable-idle m laws s reached flying live leaving;
    },
  )
  leaving-Ends (b ∷ l) s flying live leaving reached =
      let t = clear_slot m [] l b s in
      let step = clears [] l b s leaving in
      earlier-Ends s t step (leaving-Ends l t flying live refl (then_step s t reached step))

  live-Ends : (l : List Region) (s : Slots) → s.flying ≡ [] → s.live ≡ l → Reachable m s → Ends s
  unfolding free
  live-Ends [] s flying live reached = leaving-Ends s.leaving s flying live refl reached
  live-Ends (r ∷ l) s flying live reached =
      let t = free [] l r s in
      let step = frees [] l r s live in
      earlier-Ends s t step (live-Ends l t flying refl (then_step s t reached step))

  flying-Ends : (l : List Region) (s : Slots) → s.flying ≡ l → Reachable m s → Ends s
  unfolding commit
  flying-Ends [] s flying reached = live-Ends s.live s flying refl reached
  flying-Ends (r ∷ l) s flying reached =
      let t = commit [] l r s in
      let step = commits [] l r s flying in
      earlier-Ends s t step (flying-Ends l t refl (then_step s t reached step))

  -- No slot is ever lost: from every state that the callers of `a1625_msi_alloc` and `a1625_msi_free`
  -- reach, however they interleave and whatever the parent answers, there are steps of theirs after
  -- which no call is under way, nothing is allocated and no slot is marked as used, which is what
  -- `a1625_with_msi` asks for before it removes the domain. The bitmap functions do what they are
  -- documented to do.
  pub Reachable-Drains : (s : Slots) → Reachable m s → (t : Slots) × Steps m s t × AllFree t
  Reachable-Drains s reached = flying-Ends s.flying s refl reached
