-- ===== src/Gpio/Detect/Handlers.antt =====
-- The rounds of the interrupt handlers of src/gpio.rs, and a run of them over a list of bits.
use rpi_devenv.Base.{
  ℕ, zero, suc, ◌+◌, ◌≤◌, ◌<◌, ◌≡◌, refl, ap, ◌∙◌, true, false, not, ◌&&◌, Option, none, some, List,
  [], ◌∷◌, map, ◌==◌, ltb, leb, if◌then◌else◌, Bool-cases, inl, inr, arith,
}
use rpi_devenv.Bits.{bit, ◌<<<◌}
use rpi_devenv.Machine.{
  Machine, M, Slot, pin_waker, put_waker, peek, for_each, take_slot, write_volatile, wake_opt, woke,
  stored, IsRegister, ◌>>=◌, ◌>>◌,
}
use rpi_devenv.Gpio.State.{registers, all}
use rpi_devenv.Gpio.Defs.{detect_status_base}
use rpi_devenv.Gpio.Ones.Complete.{set_positions}
use rpi_devenv.Gpio.Detect.{disable_detection, handle_bit1, handle_bit2}
use rpi_devenv.Machine.{woken, push}
use rpi_devenv.Gpio.Detect.Rounds.{member, disable_all-waker, disable_all-bit, Handled}

abbrev pub round : List ℕ → ℕ → ℕ → M (Unit {0})
round rs status i = do
  waker ← take_slot (pin_waker i)
  for_each (disable_detection i) rs
  write_volatile status (1 <<< i)
  wake_opt waker

wake_opt-woken :
    (w : Option ℕ) (s : Machine)
    → (woken (wake_opt w s).1.log ≡ push w (woken s.log))
      × ((wake_opt w s).1.hw ≡ s.hw)
      × ((wake_opt w s).1.waker ≡ s.waker)
wake_opt-woken none s = (refl, refl, refl)
wake_opt-woken (some w) s = (refl, refl, refl)

wake_opt-keeps :
    (w : Option ℕ) (s : Machine) (b : ℕ) → IsRegister s.hw b → peek b (wake_opt w s).1 ≡ peek b s
wake_opt-keeps none s b reg = refl
wake_opt-keeps (some w) s b reg = rw (reg.keeps (woke w) s.log refl)

pub round-Handled :
    (rs : List ℕ) (status i : ℕ) (s : Machine)
    → i < 32
    → Handled rs status i s (round rs status i s).1
round-Handled rs status i s hi =
    let s1 : Machine = record s { waker = put_waker s.waker (pin_waker i) none } in
    let s2 : Machine = (for_each (disable_detection i) rs s1).1 in
    let s3 : Machine = (write_volatile status (1 <<< i) s2).1 in
    let w = s.waker (pin_waker i) in
    let d = disable_all-waker i rs s1 in
    record {
      same_hw = (wake_opt-woken w s3).1 ∙ d.1;
      slots = (wake_opt-woken w s3).2 ∙ d.0;
      wakes = (wake_opt-woken w s3).0 ∙ ap (push w) d.2;
      clears = λ b k hk ne reg.
          let reg' : IsRegister s3.hw b = rw (d.1) reg in
          let after_store : peek b s3 ≡ peek b s2 =
            rw (reg'.keeps (stored status (1 <<< i)) s2.log ne) in
          ap (bit k) (wake_opt-keeps w s3 b reg')
          ∙ ap (bit k) after_store
          ∙ disable_all-bit i b k rs s1 hi hk reg;
    }

for_each-map :
    {A B : Type 0} (f : B → M (Unit {0})) (g : A → B) (xs : List A) (s : Machine)
    → for_each (λ x. f (g x)) xs s ≡ for_each f (map g xs) s
unfolding for_each
for_each-map f g [] s = refl
for_each-map f g (x ∷ xs) s = for_each-map f g xs (f (g x) s).1

pub handle_bit1-round :
    (i : ℕ) (s : Machine) → handle_bit1 i s ≡ round (registers all) detect_status_base i s
unfolding handle_bit1
handle_bit1-round i s = refl

pub handle_bit2-round :
    (i : ℕ) (s : Machine)
    → handle_bit2 i s ≡ round (map (λ r. r + 4) (registers all)) (detect_status_base + 4) i s
unfolding handle_bit2
handle_bit2-round i s =
    let s1 : Machine = record s { waker = put_waker s.waker (pin_waker i) none } in
    rw (for_each-map (disable_detection i) (λ (r : ℕ). r + 4) (registers all) s1)

-- The wakers that a run over the slots of `is` takes, newest first, before those of `ws`.
abbrev pub wakers_at : (Slot → Option ℕ) → List ℕ → List ℕ → List ℕ
wakers_at f [] ws = ws
wakers_at f (i ∷ is) ws = wakers_at f is (push (f (pin_waker i)) ws)

wakers_at-congr :
    (f g : Slot → Option ℕ) (n j x : ℕ) (ws : List ℕ)
    → ((i : ℕ) → j ≤ i → f (pin_waker i) ≡ g (pin_waker i))
    → wakers_at f (set_positions n j x) ws ≡ wakers_at g (set_positions n j x) ws
unfolding set_positions
wakers_at-congr f g zero j x ws h = refl
wakers_at-congr f g (suc n) j x ws h = elim (Bool-cases (bit j x)) [
  | inl e ↦ rw e (
      ap (λ (o : Option ℕ). wakers_at f (set_positions n (suc j) x) (push o ws)) (h j (omega arith))
      ∙ wakers_at-congr f g n (suc j) x (push (g (pin_waker j)) ws) (λ i p. h i (omega arith)))
  | inr e ↦ rw e (wakers_at-congr f g n (suc j) x ws (λ i p. h i (omega arith)))
]

-- A run over all set positions of `x` from `j` on, `n` of them.
pub record Ran (rs : List ℕ) (status n j x : ℕ) (s s' : Machine) : Type 0 where
  pub same_hw : s'.hw ≡ s.hw
  pub slots :
      (i : ℕ)
      → s'.waker (pin_waker i)
        ≡ (if leb j i && ltb i (j + n) && bit i x then none else s.waker (pin_waker i))
  pub wakes : woken s'.log ≡ wakers_at s.waker (set_positions n j x) (woken s.log)
  pub clears :
      (b k : ℕ)
      → k < 32
      → (status == b) ≡ false
      → IsRegister s.hw b
      → bit k (peek b s')
        ≡ (bit k (peek b s) && not (member b rs && (leb j k && ltb k (j + n) && bit k x)))

module _ (rs : List ℕ) (status n j x : ℕ) (s s' : Machine) where
  Ran-skip : bit j x ≡ false → Ran rs status n (suc j) x s s' → Ran rs status (suc n) j x s s'
  unfolding set_positions
  Ran-skip e r = record {
    same_hw = r.same_hw;
    slots = λ i. r.slots i ∙ ground arith;
    wakes = rw e r.wakes;
    clears = λ b k hk ne reg. r.clears b k hk ne reg ∙ ground arith;
  }

  Ran-take :
      (s1 : Machine)
      → bit j x ≡ true
      → Handled rs status j s s1
      → Ran rs status n (suc j) x s1 s'
      → Ran rs status (suc n) j x s s'
  unfolding set_positions
  Ran-take s1 e h r = record {
    same_hw = r.same_hw ∙ h.same_hw;
    slots = λ i. r.slots i ∙ rw h.slots (ground arith);
    wakes = rw e (
        r.wakes
        ∙ wakers_at-congr s1.waker s.waker n (suc j) x (woken s1.log)
            (λ i p. rw h.slots (ground arith))
        ∙ ap (wakers_at s.waker (set_positions n (suc j) x)) h.wakes);
    clears = λ b k hk ne reg.
        let reg' : IsRegister s1.hw b = rw h.same_hw reg in
        r.clears b k hk ne reg' ∙ ground (arith, h.clears b k hk ne reg);
  }

module _ (body : ℕ → M (Unit {0})) (rs : List ℕ) (status x : ℕ)
    (each : (i : ℕ) (s : Machine) → i < 32 → Handled rs status i s (body i s).1) where
  pub run-Ran :
      (n j : ℕ) (s : Machine)
      → j + n ≤ 32
      → Ran rs status n j x s (for_each body (set_positions n j x) s).1
  unfolding set_positions for_each
  run-Ran zero j s h = record {
    same_hw = refl;
    slots = λ i. ground arith;
    wakes = refl;
    clears = λ b k hk ne reg. ground arith;
  }
  run-Ran (suc n) j s h = elim (Bool-cases (bit j x)) [
    | inl e ↦ rw e (
        Ran-take rs status n j x s _ (body j s).1 e (each j s (omega arith))
          (run-Ran n (suc j) (body j s).1 (omega arith)))
    | inr e ↦ rw e (Ran-skip rs status n j x s _ e (run-Ran n (suc j) s (omega arith)))
  ]
