-- ===== src/Machine/Registers.antt =====
-- Registers that hold what was last written to them, as the BCM2835 manual describes its
-- read/write control registers, and a hardware that consists of such registers alone.
use rpi_devenv.Base.{
  ℕ, ◌≡◌, refl, Bool, false, List, [], ◌∷◌, arith, ◌==◌, if◌then◌else◌, ◌∙◌, Bool-cases, inl, inr,
}
use rpi_devenv.Machine.Defs.{
  Event, loaded, stored, barrier, sync_barrier, entered, left, hinted, woke,
}

-- Does the event store to `a`?
abbrev pub stores : ℕ → Event → Bool
stores a (stored b v) = b == a
stores a _ = false

-- The register at `a` keeps the last value stored, until the next store.
pub record IsRegister (hw : List Event → ℕ → ℕ) (a : ℕ) : Type 0 where
  pub gets : (v : ℕ) (l : List Event) → hw (stored a v ∷ l) a ≡ v
  pub keeps : (e : Event) (l : List Event) → stores a e ≡ false → hw (e ∷ l) a ≡ hw l a

-- Plain memory with the contents `reset` at power-up.
unfoldable pub ram : (ℕ → ℕ) → List Event → ℕ → ℕ
ram reset [] a = reset a
ram reset (stored b v ∷ l) a = if b == a then v else ram reset l a
ram reset (_ ∷ l) a = ram reset l a

pub ram-IsRegister : (reset : ℕ → ℕ) (a : ℕ) → IsRegister (ram reset) a
unfolding ram
ram-IsRegister reset a = record { gets = λ v l. ground arith; keeps = keeps }
  where
    keeps : (e : Event) (l : List Event) → stores a e ≡ false → ram reset (e ∷ l) a ≡ ram reset l a
    keeps (stored b v) l h = ground arith
    keeps (loaded b v) l h = refl
    keeps barrier l h = refl
    keeps sync_barrier l h = refl
    keeps entered l h = refl
    keeps left l h = refl
    keeps hinted l h = refl
    keeps (woke w) l h = refl

-- The log after a read and a write of one register inside a critical section.
abbrev pub after_rmw : ℕ → ℕ → ℕ → List Event → List Event
after_rmw a x v l = left ∷ stored a v ∷ loaded a x ∷ entered ∷ l

module _ {hw : List Event → ℕ → ℕ} {b : ℕ} (r : IsRegister hw b) where
  pub hw-store : (a v : ℕ) (l : List Event) → hw (stored a v ∷ l) b ≡ (if a == b then v else hw l b)
  hw-store a v l = elim (Bool-cases (a == b)) [
    | inl same ↦ let e : a ≡ b = ground arith in rw (same, e) (r.gets v l)
    | inr other ↦ rw other (r.keeps (stored a v) l other)
  ]

  pub hw-rmw :
      (a x v : ℕ) (l : List Event) → hw (after_rmw a x v l) b ≡ (if a == b then v else hw l b)
  hw-rmw a x v l =
      r.keeps left _ refl
      ∙ hw-store a v _
      ∙ rw (r.keeps (loaded a x) (entered ∷ l) refl, r.keeps entered l refl)
