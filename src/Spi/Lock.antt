-- ===== src/Spi/Lock.antt =====
-- Bit 1 of `AUX_ENABLES` as the lock of the SPI master: `Spi1::get` and drop of src/aux/spi.rs.
use rpi_devenv.Base.{
  ℕ, ◌%◌, ◌^◌, ◌<◌, bit_and, bit_or, ◌≡◌, refl, sym, ap, ◌∙◌, Bool, true, false, not, ◌&&◌, ◌||◌,
  List, [], ◌∷◌, ◌==◌, if◌then◌else◌, Bool-cases, inl, inr, arith,
}
use rpi_devenv.Bits.{bit, has, has-shl, ◌<<<◌, not32, bit-set, bit-clear}
use rpi_devenv.Bits.Fields.{bit-mod}
use rpi_devenv.Machine.{
  Machine, M, barrier, entered, left, loaded, stored, peek, IsRegister, ◌>>=◌, ◌>>◌, pure,
}
use rpi_devenv.Spi.Defs.{
  Config, cntl0, cntl1, control0, control1, aux_enables_reg, claim, get, drop_spi,
}

-- Is peripheral `k` enabled?
abbrev pub is_enabled : ℕ → Machine → Bool
is_enabled k s = bit k (peek aux_enables_reg s)

pub data Op : Type 0 where
  get_spi drop_it : Op

-- The specification: the master is handed out only while it is not enabled.
abbrev pub spi_step : Op → Bool → Bool × Bool
spi_step get_spi locked = (not locked, true)
spi_step drop_it locked = (true, false)

-- What each call does, and whether it returned what was asked for.
unfoldable pub do_op : Config → Op → M Bool
do_op c get_spi = get c
do_op c drop_it = do drop_spi; pure true

with_bit :
    (k : ℕ) (s : Machine) → is_enabled 1 s ≡ true → is_enabled k s ≡ (is_enabled k s || (k == 1))
with_bit k s b1 = elim (Bool-cases (k == 1)) [
  | inl same ↦ let e : k ≡ 1 = ground arith in rw (same, e) (rw b1 refl)
  | inr other ↦ ground arith
]

module _ (s : Machine) (r : IsRegister s.hw aux_enables_reg) (k : ℕ) (hk : k < 32) where
  drop_spi-bits :
      ((drop_spi s).1.hw ≡ s.hw) × (is_enabled k (drop_spi s).1 ≡ (is_enabled k s && not (k == 1)))
  unfolding drop_spi
  drop_spi-bits =
      let l = entered ∷ stored control0 (1 <<< 11) ∷ barrier ∷ s.log in
      let x = s.hw l aux_enables_reg % 2 ^ 32 in
      let v = bit_and x (not32 0b10) in
      let same : x ≡ peek aux_enables_reg s = rw (
        r.keeps entered (stored control0 (1 <<< 11) ∷ barrier ∷ s.log) refl,
        r.keeps (stored control0 (1 <<< 11)) (barrier ∷ s.log) refl,
        r.keeps barrier s.log refl,
      ) in
      let l' = loaded aux_enables_reg x ∷ l in
      let e = r.keeps left (stored aux_enables_reg v ∷ l') refl ∙ r.gets v l' in
      (refl, rw e (bit-mod 32 k v hk ∙ bit-clear k 1 x hk (omega arith) ∙ rw same))

  get-bits :
      (c : Config)
      → ((get c s).0 ≡ not (is_enabled 1 s))
        × ((get c s).1.hw ≡ s.hw)
        × (is_enabled k (get c s).1 ≡ (is_enabled k s || (k == 1)))
  unfolding get claim
  get-bits c =
      let l = entered ∷ barrier ∷ s.log in
      let x = s.hw l aux_enables_reg % 2 ^ 32 in
      let same : x ≡ peek aux_enables_reg s =
        rw (r.keeps entered (barrier ∷ s.log) refl, r.keeps barrier s.log refl) in
      let l' = loaded aux_enables_reg x ∷ l in
      let v = bit_or x (1 <<< 1) in
      let done = left ∷ stored aux_enables_reg v ∷ l' in
      let e =
        r.keeps (stored control1 (cntl1 c)) (stored control0 (cntl0 c) ∷ done) refl
        ∙ r.keeps (stored control0 (cntl0 c)) done refl
        ∙ r.keeps left (stored aux_enables_reg v ∷ l') refl
        ∙ r.gets v l' in
      let f =
        r.keeps left l' refl
        ∙ r.keeps (loaded aux_enables_reg x) l refl
        ∙ r.keeps entered (barrier ∷ s.log) refl
        ∙ r.keeps barrier s.log refl in
      elim (Bool-cases (has x (0b1 <<< 1))) [
        | inl taken ↦
            let g : get c s ≡ (false, record s { log = left ∷ l' }) = ground arith in
            let b1 : is_enabled 1 s ≡ true = sym (ap (bit 1) same) ∙ sym (has-shl x 1) ∙ taken in
            rw g (rw b1 refl, refl, rw f (with_bit k s b1))
        | inr free ↦
            let log = stored control1 (cntl1 c) ∷ stored control0 (cntl0 c) ∷ done in
            let g : get c s ≡ (true, record s { log = log }) = ground arith in
            let b1 : is_enabled 1 s ≡ false = sym (ap (bit 1) same) ∙ sym (has-shl x 1) ∙ free in
            rw g (rw b1 refl, refl, rw e (bit-mod 32 k v hk ∙ bit-set k 1 x ∙ rw same))
      ]

-- A sequence of calls and its results, and the specification's.
unfoldable pub do_ops : Config → List Op → M (List Bool)
do_ops c [] = pure []
do_ops c (o ∷ os) = do b ← do_op c o; bs ← do_ops c os; pure (b ∷ bs)

abbrev pub spi_steps : List Op → Bool → List Bool × Bool
spi_steps [] k = ([], k)
spi_steps (o ∷ os) k = let r = spi_step o k in let rs = spi_steps os r.1 in (r.0 ∷ rs.0, rs.1)

do_op-bits :
    (c : Config) (o : Op) (s : Machine) (r : IsRegister s.hw aux_enables_reg) (k : ℕ)
    → k < 32
    → ((do_op c o s).0 ≡ (spi_step o (is_enabled 1 s)).0)
      × ((do_op c o s).1.hw ≡ s.hw)
      × (is_enabled k (do_op c o s).1
          ≡ (if k == 1 then (spi_step o (is_enabled 1 s)).1 else is_enabled k s))
unfolding do_op
do_op-bits c get_spi s r k hk = ground (arith, get-bits s r k hk c)
do_op-bits c drop_it s r k hk = ground (arith, drop_spi-bits s r k hk)

-- Any sequence of gets and drops of the SPI master gives what the lock gives that bit 1 of the
-- auxiliary enables holds: a get succeeds exactly if the master is not taken. No other bit of the
-- enables changes, so the Mini UART stays enabled throughout. The enables keep what is written.
pub do_ops-spi_steps :
    (c : Config) (os : List Op) (s : Machine) (k : ℕ)
    → IsRegister s.hw aux_enables_reg
    → k < 32
    → ((do_ops c os s).0 ≡ (spi_steps os (is_enabled 1 s)).0)
      × (is_enabled k (do_ops c os s).1
          ≡ (if k == 1 then (spi_steps os (is_enabled 1 s)).1 else is_enabled k s))
unfolding do_ops
do_ops-spi_steps c [] s k r hk = (refl, ground arith)
do_ops-spi_steps c (o ∷ os) s k r hk =
    let one = do_op-bits c o s r 1 (omega arith) in
    let this = do_op-bits c o s r k hk in
    let rest = do_ops-spi_steps c os (do_op c o s).1 k (rw one.1 r) hk in
    ground (arith, one, this, rest)
