-- ===== src/Timer/Clock.antt =====
-- Reading the 64-bit clock of src/system_time/driver.rs from its two words.
use rpi_devenv.Base.{
  ℕ, zero, suc, ◌+◌, ◌/◌, ◌%◌, ◌^◌, ◌≤◌, ◌<◌, bit_or, ◌≡◌, ◌≢◌, refl, ◌∙◌, true, false, Option,
  none, some, List, [], ◌∷◌, ◌++◌, ◌==◌, if◌then◌else◌, Bool-cases, inl, inr, arith, subst,
}
use rpi_devenv.Bits.{◌<<<◌}
use rpi_devenv.Bits.Join.{bit_or-shl}
use rpi_devenv.Machine.{Machine, Event, loaded, stored, barrier}
use rpi_devenv.Timer.Defs.{
  Outcome, returned, panicked, out_of_fuel, now, system_time_clo, system_time_chi,
}

-- The counter of the timer, read as two registers: 64 bits that do not run out, which never run
-- back, and which move by less than 2^29 ticks (nine minutes) from one event to the next.
pub record Clock (hw : List Event → ℕ → ℕ) : Type 0 where
  pub time : List Event → ℕ
  pub high : (l : List Event) → hw l system_time_chi ≡ time l / 2 ^ 32
  pub low : (l : List Event) → hw l system_time_clo ≡ time l % 2 ^ 32
  pub fits : (l : List Event) → time l < 2 ^ 64
  pub grows : (e : Event) (l : List Event) → time l ≤ time (e ∷ l)
  pub slow : (e : Event) (l : List Event) → time (e ∷ l) < time l + 2 ^ 29

-- The events of one round of `now`.
abbrev hi_read : Machine → ℕ
hi_read s = s.hw (barrier ∷ s.log) system_time_chi % 2 ^ 32

abbrev log1 : Machine → List Event
log1 s = loaded system_time_chi (hi_read s) ∷ barrier ∷ s.log

abbrev lo_read : Machine → ℕ
lo_read s = s.hw (log1 s) system_time_clo % 2 ^ 32

abbrev log2 : Machine → List Event
log2 s = loaded system_time_clo (lo_read s) ∷ log1 s

abbrev check_read : Machine → ℕ
check_read s = s.hw (log2 s) system_time_chi % 2 ^ 32

abbrev log3 : Machine → List Event
log3 s = loaded system_time_chi (check_read s) ∷ log2 s

abbrev pub after_round : Machine → Machine
after_round s = record s { log = log3 s }

module _ (fuel : ℕ) (s : Machine) where
  now-same :
      (check_read s == hi_read s) ≡ true
      → now (suc fuel) s ≡ (returned (bit_or (hi_read s <<< 32) (lo_read s)), after_round s)
  unfolding now
  now-same e = ground arith

  now-again : (check_read s == hi_read s) ≡ false → now (suc fuel) s ≡ now fuel (after_round s)
  unfolding now
  now-again e = ground arith

-- What `now` returns lies between the time at the call and the time at the return.
abbrev pub Between : {hw : List Event → ℕ → ℕ} → Clock hw → Machine → Outcome ℕ × Machine → Type 0
Between c s (returned t, s') = (c.time s.log ≤ t) × (t ≤ c.time s'.log)
Between c s (panicked, s') = ⊥
Between c s (out_of_fuel, s') = ⊥

module _ (s : Machine) (c : Clock s.hw) where
  words :
      (hi_read s ≡ c.time (barrier ∷ s.log) / 2 ^ 32)
      × (lo_read s ≡ c.time (log1 s) % 2 ^ 32)
      × (check_read s ≡ c.time (log2 s) / 2 ^ 32)
  words = (
    rw (c.high (barrier ∷ s.log)) (omega (arith, c.fits (barrier ∷ s.log))),
    rw (c.low (log1 s)) (omega arith),
    rw (c.high (log2 s)) (omega (arith, c.fits (log2 s))),
  )

  round_order :
      (c.time s.log ≤ c.time (barrier ∷ s.log))
      × (c.time (barrier ∷ s.log) ≤ c.time (log1 s))
      × (c.time (log1 s) ≤ c.time (log2 s))
      × (c.time (log2 s) ≤ c.time (log3 s))
  round_order = (
    c.grows barrier s.log,
    c.grows (loaded system_time_chi (hi_read s)) (barrier ∷ s.log),
    c.grows (loaded system_time_clo (lo_read s)) (log1 s),
    c.grows (loaded system_time_chi (check_read s)) (log2 s),
  )

  now-same-Between :
      (fuel : ℕ) → (check_read s == hi_read s) ≡ true → Between c s (now (suc fuel) s)
  now-same-Between fuel e =
      let same : check_read s ≡ hi_read s = ground arith in
      rw (now-same fuel s e, bit_or-shl 32 (hi_read s) (lo_read s) (omega arith))
        (omega (arith, words, round_order), omega (arith, words, round_order))

Between-earlier :
    {hw : List Event → ℕ → ℕ} (c : Clock hw) (s t : Machine) (r : Outcome ℕ × Machine)
    → c.time s.log ≤ c.time t.log
    → Between c t r
    → Between c s r
Between-earlier c s t (returned x, s') h b = (omega (arith, b), b.1)
Between-earlier c s t (panicked, s') h b = b
Between-earlier c s t (out_of_fuel, s') h b = b

second_round :
    (s : Machine) (c : Clock s.hw)
    → (check_read s == hi_read s) ≡ false
    → (check_read (after_round s) == hi_read (after_round s)) ≡ true
second_round s c e =
    let s' = after_round s in
    let moved : check_read s ≢ hi_read s = ground arith in
    let slow : c.time (log2 s') < c.time (barrier ∷ s.log) + 2 ^ 32 = omega (
      arith,
      c.slow (loaded system_time_chi (hi_read s)) (barrier ∷ s.log),
      c.slow (loaded system_time_clo (lo_read s)) (log1 s),
      c.slow (loaded system_time_chi (check_read s)) (log2 s),
      c.slow barrier (log3 s),
      c.slow (loaded system_time_chi (hi_read s')) (barrier ∷ s'.log),
      c.slow (loaded system_time_clo (lo_read s')) (log1 s'),
    ) in
    let same : check_read s' ≡ hi_read s' =
      omega (arith, words s c, words s' c, round_order s c, round_order s' c) in
    ground arith

-- `now` returns within two rounds, and the number that it puts together from two reads of 32 bits
-- is not before the time at the call nor after the time at the return, also if the low word wraps
-- around between the reads. The clock never runs back and moves by less than 2^29 ticks between
-- two events.
pub now-Between : (fuel : ℕ) (s : Machine) (c : Clock s.hw) → 2 ≤ fuel → Between c s (now fuel s)
now-Between zero s c h = absurd (omega arith)
now-Between (suc zero) s c h = absurd (omega arith)
now-Between (suc (suc fuel)) s c h = elim (Bool-cases (check_read s == hi_read s)) [
  | inl e ↦ now-same-Between s c (suc fuel) e
  | inr e ↦ rw (now-again (suc fuel) s e) (
      Between-earlier c s (after_round s) (now (suc fuel) (after_round s))
        (omega (arith, round_order s c))
        (now-same-Between (after_round s) c fuel (second_round s c e)))
]

-- The last value stored to `a`.
unfoldable pub last_stored : ℕ → List Event → Option ℕ
last_stored a [] = none
last_stored a (stored b v ∷ l) = if b == a then some v else last_stored a l
last_stored a (_ ∷ l) = last_stored a l

-- What is used of a call of `now` that returns.
pub record Now {hw : List Event → ℕ → ℕ} (c : Clock hw) (s : Machine) (r : Outcome ℕ × Machine)
    : Type 0 where
  pub at : ℕ
  pub new : List Event
  pub is : r ≡ (returned at, record s { log = new ++ s.log })
  pub after_call : c.time s.log ≤ at
  pub before_return : at ≤ c.time (new ++ s.log)
  pub silent : (a : ℕ) → last_stored a (new ++ s.log) ≡ last_stored a s.log

now-is :
    (fuel : ℕ) (s : Machine) (c : Clock s.hw)
    → 2 ≤ fuel
    → (x : ℕ) (new : List Event) → now fuel s ≡ (returned x, record s { log = new ++ s.log })
    → ((a : ℕ) → last_stored a (new ++ s.log) ≡ last_stored a s.log)
    → Now c s (now fuel s)
now-is fuel s c h x new e quiet =
    let b : Between c s (returned x, record s { log = new ++ s.log }) =
      subst (λ r. Between c s r) e (now-Between fuel s c h) in
    record { at = x; new = new; is = e; after_call = b.0; before_return = b.1; silent = quiet }

pub now_lem : (fuel : ℕ) (s : Machine) (c : Clock s.hw) → 2 ≤ fuel → Now c s (now fuel s)
unfolding last_stored
now_lem zero s c h = absurd (omega arith)
now_lem (suc zero) s c h = absurd (omega arith)
now_lem (suc (suc fuel)) s c h = elim (Bool-cases (check_read s == hi_read s)) [
  | inl e ↦
      now-is (suc (suc fuel)) s c h (bit_or (hi_read s <<< 32) (lo_read s))
        (loaded system_time_chi (check_read s)
          ∷ loaded system_time_clo (lo_read s)
          ∷ loaded system_time_chi (hi_read s)
          ∷ barrier
          ∷ [])
        (now-same (suc fuel) s e) (λ a. refl)
  | inr e ↦
      let t = after_round s in
      now-is (suc (suc fuel)) s c h (bit_or (hi_read t <<< 32) (lo_read t))
        (loaded system_time_chi (check_read t)
          ∷ loaded system_time_clo (lo_read t)
          ∷ loaded system_time_chi (hi_read t)
          ∷ barrier
          ∷ loaded system_time_chi (check_read s)
          ∷ loaded system_time_clo (lo_read s)
          ∷ loaded system_time_chi (hi_read s)
          ∷ barrier
          ∷ [])
        (now-again (suc fuel) s e ∙ now-same fuel t (second_round s c e)) (λ a. refl)
]
