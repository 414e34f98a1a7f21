-- ===== src/Bootloader/Loads.antt =====
-- What the first stage of bootloader/src/main.rs leaves in memory.
use rpi_devenv.Base.{
  ℕ, ◌+◌, ◌-◌, ◌*◌, ◌%◌, ◌^◌, ◌≤◌, ◌≡◌, refl, sym, ap, ◌∙◌, some, List, [], ◌∷◌, ◌++◌, ltb,
  if◌then◌else◌, arith,
}
use rpi_devenv.Base.{length, fun_ext}
use rpi_devenv.Bootloader.{
  MiniUart, Memory, write_byte, byte_at, from_le_bytes, relocate_address, set_up, load, first_stage,
}

-- A receiver that hands out the bytes that the host sent, in order; `wire` are those to come.
unfoldable pub IsReceiver : {S : Type 0} → MiniUart S → (S → List ℕ) → Type 0
IsReceiver {S} u wire =
    (s : S) (bs rest : List ℕ)
    → wire s ≡ bs ++ rest
    → ((u.receive_exact (length bs) s).0 ≡ bs) × (wire (u.receive_exact (length bs) s).1 ≡ rest)

-- Memory with a program laid over it from an address on.
unfoldable pub overlay : ℕ → List ℕ → Memory → Memory
overlay address program mem a =
    if ltb a address
    then mem a
    else (if ltb (a - address) (length program) then byte_at (a - address) program else mem a)

overlay-nil : (address : ℕ) (mem : Memory) (a : ℕ) → mem a ≡ overlay address [] mem a
unfolding overlay
overlay-nil address mem a = ground arith

overlay-cons :
    (address b : ℕ) (bs : List ℕ) (mem : Memory) (a : ℕ)
    → overlay (address + 1) bs (write_byte mem address b) a ≡ overlay address (b ∷ bs) mem a
unfolding overlay
overlay-cons address b bs mem a = ground arith

load_lem :
    {S : Type 0} (u : MiniUart S) (wire : S → List ℕ) (address : ℕ) (mem : Memory) (s : S)
    (program rest : List ℕ)
    → IsReceiver u wire
    → address + length program ≤ relocate_address
    → wire s ≡ program ++ rest
    → ((load u (length program) address mem s).0 ≡ overlay address program mem)
      × (wire (load u (length program) address mem s).1 ≡ rest)
unfolding load IsReceiver
load_lem u wire address mem s [] rest hu fits hs = (fun_ext (λ a. overlay-nil address mem a), hs)
load_lem u wire address mem s (b ∷ bs) rest hu fits hs =
    let r = u.receive_exact 1 s in
    let got = hu s (b ∷ []) (bs ++ rest) hs in
    let stored = byte_at 0 r.0 in
    let dest = (address + 1) % 2 ^ 32 in
    let next : dest ≡ address + 1 = omega arith in
    let mem' = write_byte mem address stored in
    let further = load_lem u wire dest mem' r.1 bs rest hu (omega arith) got.1 in
    let same =
      ap (λ d. overlay d bs mem') next
      ∙ ap (λ x. overlay (address + 1) bs (write_byte mem address x)) (ap (byte_at 0) got.0) in
    (further.0 ∙ same ∙ fun_ext (λ a. overlay-cons address b bs mem a), further.1)

-- What is above a program, as the loader that runs, is as it was.
overlay-above :
    (address : ℕ) (program : List ℕ) (mem : Memory) (x : ℕ)
    → address + length program ≤ x
    → overlay address program mem x ≡ mem x
unfolding overlay
overlay-above address program mem x h = ground arith

-- Once the UART is set up, if the host sends the program's length as four bytes, the least
-- significant first, and then the program, and the program ends below the address that the loader
-- relocated itself to, the first stage enters the load address, with the program in memory from
-- that address on, every other byte as it was, those of the loader from the relocation address up
-- among them, and nothing more read.
pub first_stage-loads :
    {S : Type 0} (u : MiniUart S) (wire : S → List ℕ) (address : ℕ) (mem : Memory) (s ready : S)
    (a b c d : ℕ) (program rest : List ℕ)
    → IsReceiver u wire
    → set_up u s ≡ some ready
    → wire ready ≡ a ∷ b ∷ c ∷ d ∷ (program ++ rest)
    → address + length program ≤ relocate_address
    → length program ≡ a + b * 2 ^ 8 + c * 2 ^ 16 + d * 2 ^ 24
    → (end : S) × (first_stage u address mem s
        ≡ some (record {
          memory = overlay address program mem;
          uart = u.release end;
          entered = address;
        }))
      × ((x : ℕ) → relocate_address ≤ x → overlay address program mem x ≡ mem x)
      × (wire end ≡ rest)
unfolding first_stage from_le_bytes IsReceiver
first_stage-loads u wire address mem s ready a b c d program rest hu hs hw fits hl =
    let r = u.receive_exact 4 ready in
    let got = hu ready (a ∷ b ∷ c ∷ d ∷ []) (program ++ rest) hw in
    let l = load_lem u wire address mem r.1 program rest hu fits got.1 in
    (
      (load u (length program) address mem r.1).1,
      rw (hs, got.0, sym hl, l.0) refl,
      (λ x h. overlay-above address program mem x (omega arith)),
      l.1,
    )
