-- ===== src/Uart/Locks.antt =====
-- The enable bits of the Mini UART as the lock of its two halves: `pair`, `Reader::get`,
-- `Writer::get` and the drops of src/aux/uart.rs and src/aux/uart/ against an automaton.
use rpi_devenv.Base.{
  ℕ, ◌%◌, ◌^◌, ◌<◌, bit_and, bit_or, ◌≡◌, refl, ◌∙◌, Bool, true, false, not, ◌||◌, none, some, List,
  [], ◌∷◌, if◌then◌else◌, Bool-cases, inl, inr, arith,
}
use rpi_devenv.Bits.{bit, has, not32, bit-or, bit-clear}
use rpi_devenv.Bits.Fields.{has-three, bit-mod}
use rpi_devenv.Machine.{
  Machine, M, barrier, entered, left, loaded, stored, peek, IsRegister, ◌>>=◌, ◌>>◌, pure,
}
use rpi_devenv.Uart.Defs.{
  Config, config_setup, claim, set_up_if, pair, extra_control_reg, interrupt_id_reg,
  line_control_reg, baudrate_reg,
}
use rpi_devenv.Uart.Reader
use rpi_devenv.Uart.Writer

-- Is the receiver, the transmitter enabled?
pub record Lock : Type 0 where
  pub rx : Bool
  pub tx : Bool

unfoldable pub lock_of : Machine → Lock
lock_of s = record { rx = bit 0 (peek extra_control_reg s); tx = bit 1 (peek extra_control_reg s) }

pub data Op : Type 0 where
  get_reader get_writer get_pair drop_reader drop_writer : Op

-- The specification: a half, or both, are handed out only while neither is.
unfoldable pub lock_step : Op → Lock → Bool × Lock
lock_step get_reader k =
    if k.rx || k.tx then (false, k) else (true, record { rx = true; tx = false })
lock_step get_writer k =
    if k.rx || k.tx then (false, k) else (true, record { rx = false; tx = true })
lock_step get_pair k = if k.rx || k.tx then (false, k) else (true, record { rx = true; tx = true })
lock_step drop_reader k = (true, record { rx = false; tx = k.tx })
lock_step drop_writer k = (true, record { rx = k.rx; tx = false })

-- The code: what each call does, and whether it returned what was asked for.
pub do_op : Config → Op → M Bool
do_op c get_reader = Reader.get c
do_op c get_writer = Writer.get c
do_op c get_pair = pair c
do_op c drop_reader = do Reader.drop_reader; pure true
do_op c drop_writer = do Writer.drop_writer; pure true

module _ (s : Machine) (r : IsRegister s.hw extra_control_reg) where
  config-keeps :
      (c : Config) (t : Machine)
      → t.hw ≡ s.hw
      → ((config_setup c t).1.hw ≡ s.hw)
        × (peek extra_control_reg (config_setup c t).1 ≡ peek extra_control_reg t)
  unfolding config_setup
  config-keeps c t e =
      let r' : IsRegister t.hw extra_control_reg = rw e r in
      (
        e,
        rw (
          r'.keeps (stored baudrate_reg _) _ refl,
          r'.keeps (stored line_control_reg _) _ refl,
          r'.keeps barrier t.log refl,
        ),
      )

  claim-control :
      (e k : ℕ) (t : Machine)
      → t.hw ≡ s.hw
      → e < 4
      → ((claim e k t).0 ≡ (if has (peek extra_control_reg t) 0b11 then none else some tt))
        × ((claim e k t).1.hw ≡ s.hw)
        × (peek extra_control_reg (claim e k t).1 ≡ (
            if has (peek extra_control_reg t) 0b11
            then peek extra_control_reg t
            else bit_or (peek extra_control_reg t) e % 2 ^ 32))
  unfolding claim
  claim-control e k t h small =
      let r' : IsRegister t.hw extra_control_reg = rw h r in
      let x = peek extra_control_reg t in
      let en = r'.keeps entered t.log refl in
      let fail : t.hw (left ∷ loaded extra_control_reg x ∷ entered ∷ t.log) extra_control_reg
          ≡ t.hw t.log extra_control_reg =
        r'.keeps left _ refl ∙ r'.keeps (loaded extra_control_reg x) _ refl ∙ en in
      let v = bit_or x e in
      let l = stored extra_control_reg v ∷ loaded extra_control_reg x ∷ entered ∷ t.log in
      let win : t.hw (left ∷ stored interrupt_id_reg k ∷ l) extra_control_reg ≡ v =
        r'.keeps left _ refl ∙ r'.keeps (stored interrupt_id_reg k) l refl ∙ r'.gets v _ in
      elim (Bool-cases (has x 0b11)) [
        | inl y ↦ rw (en, y) (refl, h, rw fail)
        | inr n ↦ rw (en, n) (refl, h, rw win)
      ]

  get-lock :
      (c : Config) (e k : ℕ) (t : Machine)
      → t.hw ≡ s.hw
      → e < 4
      → let t' = (do r ← claim e k; set_up_if c r) t in
        (t'.0 ≡ not (has (peek extra_control_reg t) 0b11))
        × (t'.1.hw ≡ s.hw)
        × (peek extra_control_reg t'.1 ≡ (
            if has (peek extra_control_reg t) 0b11
            then peek extra_control_reg t
            else bit_or (peek extra_control_reg t) e % 2 ^ 32))
  get-lock c e k t h small =
      let a = claim-control e k t h small in
      let b = config-keeps c (claim e k t).1 a.1 in
      elim (Bool-cases (has (peek extra_control_reg t) 0b11)) [
        | inl y ↦
            let e0 : (claim e k t).0 ≡ none = rw y at a.0 in rw (e0, y) (refl, a.1, rw y at a.2)
        | inr n ↦
            let e0 : (claim e k t).0 ≡ some tt = rw n at a.0 in
            rw (e0, n) (refl, b.0, b.1 ∙ (rw n at a.2))
      ]

  -- The claim that `pair` and the `get`s make behind their barrier.
  get-lock_step :
      (c : Config) (e k : ℕ)
      → e < 4
      → let t' = (do r ← claim e k; set_up_if c r) (record s { log = barrier ∷ s.log }) in
        (t'.0 ≡ not ((lock_of s).rx || (lock_of s).tx))
        × (t'.1.hw ≡ s.hw)
        × (lock_of t'.1 ≡ (
            if (lock_of s).rx || (lock_of s).tx
            then lock_of s
            else record { rx = bit 0 e; tx = bit 1 e }))
  unfolding lock_of
  get-lock_step c e k small =
      let t : Machine = record s { log = barrier ∷ s.log } in
      let same : peek extra_control_reg t ≡ peek extra_control_reg s =
        rw (r.keeps barrier s.log refl) in
      let x = peek extra_control_reg s in
      let g = get-lock c e k t refl small in
      ground (
        arith,
        g,
        same,
        has-three x,
        bit-mod 32 0 (bit_or x e),
        bit-mod 32 1 (bit_or x e),
        bit-or 0 x e,
        bit-or 1 x e,
      )

  drop-step :
      (m v : ℕ)
      → let t : Machine = record s {
        log =
            left
            ∷ stored extra_control_reg v
            ∷ loaded extra_control_reg m
            ∷ entered
            ∷ barrier
            ∷ s.log;
      } in
        lock_of t ≡ record { rx = bit 0 v; tx = bit 1 v }
  unfolding lock_of
  drop-step m v =
      let l = loaded extra_control_reg m ∷ entered ∷ barrier ∷ s.log in
      let e = r.keeps left (stored extra_control_reg v ∷ l) refl ∙ r.gets v l in
      rw e (ground (arith, bit-mod 32 0 v, bit-mod 32 1 v))

  drop_reader-step :
      (lock_of (Reader.drop_reader s).1 ≡ record { rx = false; tx = (lock_of s).tx })
      × ((Reader.drop_reader s).1.hw ≡ s.hw)
  unfolding Reader.drop_reader
  drop_reader-step =
      let m = s.hw (entered ∷ barrier ∷ s.log) extra_control_reg % 2 ^ 32 in
      let same : m ≡ peek extra_control_reg s =
        rw (r.keeps entered (barrier ∷ s.log) refl, r.keeps barrier s.log refl) in
      (
        drop-step m (bit_and m (not32 1))
            ∙ unfold lock_of in ground (arith, same, bit-clear 0 0 m, bit-clear 1 0 m),
        refl,
      )

  drop_writer-step :
      (lock_of (Writer.drop_writer s).1 ≡ record { rx = (lock_of s).rx; tx = false })
      × ((Writer.drop_writer s).1.hw ≡ s.hw)
  unfolding Writer.drop_writer
  drop_writer-step =
      let m = s.hw (entered ∷ barrier ∷ s.log) extra_control_reg % 2 ^ 32 in
      let same : m ≡ peek extra_control_reg s =
        rw (r.keeps entered (barrier ∷ s.log) refl, r.keeps barrier s.log refl) in
      (
        drop-step m (bit_and m (not32 2))
            ∙ unfold lock_of in ground (arith, same, bit-clear 0 1 m, bit-clear 1 1 m),
        refl,
      )

  do_op-lock_step :
      (c : Config) (o : Op)
      → ((do_op c o s).0 ≡ (lock_step o (lock_of s)).0)
        × ((do_op c o s).1.hw ≡ s.hw)
        × (lock_of (do_op c o s).1 ≡ (lock_step o (lock_of s)).1)
  unfolding do_op lock_step bit Reader.get Writer.get pair
  do_op-lock_step c get_reader = ground (arith, get-lock_step c 1 0b10 (omega arith))
  do_op-lock_step c get_writer = ground (arith, get-lock_step c 0b10 0b100 (omega arith))
  do_op-lock_step c get_pair = ground (arith, get-lock_step c 0b11 0b110 (omega arith))
  do_op-lock_step c drop_reader = (refl, drop_reader-step.1, drop_reader-step.0)
  do_op-lock_step c drop_writer = (refl, drop_writer-step.1, drop_writer-step.0)

-- A sequence of calls and its results.
pub do_ops : Config → List Op → M (List Bool)
do_ops c [] = pure []
do_ops c (o ∷ os) = do b ← do_op c o; bs ← do_ops c os; pure (b ∷ bs)

unfoldable pub lock_steps : List Op → Lock → List Bool × Lock
lock_steps [] k = ([], k)
lock_steps (o ∷ os) k =
    ((lock_step o k).0 ∷ (lock_steps os (lock_step o k).1).0, (lock_steps os (lock_step o k).1).1)

-- Any sequence of claims and drops of the two halves has the results of the automaton and leaves
-- the enable bits as the automaton says: while a half is enabled no claim succeeds, not even of
-- the other half. The control register keeps what is written.
pub do_ops-lock_steps :
    (c : Config) (os : List Op) (s : Machine)
    → IsRegister s.hw extra_control_reg
    → ((do_ops c os s).0 ≡ (lock_steps os (lock_of s)).0)
      × (lock_of (do_ops c os s).1 ≡ (lock_steps os (lock_of s)).1)
unfolding do_ops lock_steps
do_ops-lock_steps c [] s r = (refl, refl)
do_ops-lock_steps c (o ∷ os) s r =
    let a = do_op-lock_step s r c o in
    let ih = do_ops-lock_steps c os (do_op c o s).1 (rw a.1 r) in ground (arith, a, ih)
