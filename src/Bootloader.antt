-- ===== src/Bootloader.antt =====
-- bootloader/src/main.rs: the first stage that receives the kernel by the Mini UART and jumps
-- to it. The UART and the pins that it calls are not those of src/ (the names `rpi::uart::MiniUart`
-- and `set_bit_mode` are not in the library), so they are a parameter, a record of operations.
pub mod Loads
mod Tests
use rpi_devenv.Base.{
  ℕ, zero, suc, ◌+◌, ◌*◌, ◌%◌, ◌^◌, Bool, true, Option, none, some, List, [], ◌∷◌, ◌==◌,
  if◌then◌else◌,
}

-- The operations on a state of the UART and the pins; `none` is what `unwrap` panics on.
pub record MiniUart (S : Type 0) : Type 0 where
  pub get : S → Option S
  pub set_bit_mode : Bool → S → S
  pub set_baud_rate : ℕ → S → S
  pub get_pin : ℕ → S → Option S
  pub enable_transmitter : S → S
  pub enable_receiver : S → S
  pub send_blocking : List ℕ → S → S
  pub receive_exact : ℕ → S → List ℕ × S
  pub release : S → S

-- Memory by bytes, and where the first stage ended.
abbrev pub Memory : Type 0
Memory = ℕ → ℕ

pub record Started (S : Type 0) : Type 0 where
  pub memory : Memory
  pub uart : S
  pub entered : ℕ

abbrev pub write_byte : Memory → ℕ → ℕ → Memory
write_byte mem dest v a = if a == dest then v else mem a

-- The byte at an index of a buffer.
abbrev pub byte_at : ℕ → List ℕ → ℕ
byte_at i [] = 0
byte_at zero (b ∷ bs) = b
byte_at (suc i) (b ∷ bs) = byte_at i bs

unfoldable pub from_le_bytes : List ℕ → ℕ
from_le_bytes bs =
    byte_at 0 bs + byte_at 1 bs * 2 ^ 8 + byte_at 2 bs * 2 ^ 16 + byte_at 3 bs * 2 ^ 24

-- The UART and its pins made ready, and the byte that tells the host so.
abbrev with_pins : {S : Type 0} → MiniUart S → Option S → Option S
with_pins u none = none
with_pins u (some s) =
    some (u.send_blocking (0xFF ∷ []) (u.enable_receiver (u.enable_transmitter s)))

abbrev second_pin : {S : Type 0} → MiniUart S → Option S → Option S
second_pin u none = none
second_pin u (some s) = u.get_pin 15 s

abbrev set_up_got : {S : Type 0} → MiniUart S → Option S → Option S
set_up_got u none = none
set_up_got u (some s) =
    with_pins u (second_pin u (u.get_pin 14 (u.set_baud_rate 115_200 (u.set_bit_mode true s))))

unfoldable pub set_up : {S : Type 0} → MiniUart S → S → Option S
set_up u s = set_up_got u (u.get s)

-- Where the linker script puts the loader itself while it runs.
abbrev pub relocate_address : ℕ
relocate_address = 0x2000000

-- The loop, with the bytes still to come, the destination, a pointer of 32 bits, and the memory.
unfoldable pub load : {S : Type 0} → MiniUart S → ℕ → ℕ → Memory → S → Memory × S
load u zero dest mem s = (mem, s)
load u (suc left) dest mem s =
    let r = u.receive_exact 1 s in
    load u left ((dest + 1) % 2 ^ 32) (write_byte mem dest (byte_at 0 r.0)) r.1

abbrev pub load_and_enter : {S : Type 0} → MiniUart S → ℕ → Memory → Option S → Option (Started S)
load_and_enter u address mem none = none
load_and_enter u address mem (some s) =
    let r = u.receive_exact 4 s in
    let l = load u (from_le_bytes r.0) address mem r.1 in
    some (record { memory = l.0; uart = u.release l.1; entered = address })

-- `none` is a panic. The load address is the linker script's.
unfoldable pub first_stage : {S : Type 0} → MiniUart S → ℕ → Memory → S → Option (Started S)
first_stage u address mem s = load_and_enter u address mem (set_up u s)
