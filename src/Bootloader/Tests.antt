-- ===== src/Bootloader/Tests.antt =====
-- A run of the first stage of the bootloader on a wire that holds the bytes to come.
use rpi_devenv.Base.{ℕ, ◌≤◌, ◌≡◌, arith, refl, ap, some, List, [], ◌∷◌, ◌++◌}
use rpi_devenv.Base.{length, take, drop}
use rpi_devenv.Bootloader.{MiniUart, relocate_address, first_stage, set_up}
use rpi_devenv.Bootloader.Loads.{IsReceiver, overlay, first_stage-loads}

-- The wire's bytes are the state; nothing fails.
abbrev wired : MiniUart (List ℕ)
wired = record {
  get = λ s. some s;
  set_bit_mode = λ b s. s;
  set_baud_rate = λ r s. s;
  get_pin = λ p s. some s;
  enable_transmitter = λ s. s;
  enable_receiver = λ s. s;
  send_blocking = λ bs s. s;
  receive_exact = λ n s. (take n s, drop n s);
  release = λ s. s;
}

take-whole : (bs rest : List ℕ) → take (length bs) (bs ++ rest) ≡ bs
take-whole [] [] = refl
take-whole [] (x ∷ rest) = refl
take-whole (b ∷ bs) rest = ap (λ l. b ∷ l) (take-whole bs rest)

drop-whole : (bs rest : List ℕ) → drop (length bs) (bs ++ rest) ≡ rest
drop-whole [] [] = refl
drop-whole [] (x ∷ rest) = refl
drop-whole (b ∷ bs) rest = drop-whole bs rest

wired-IsReceiver : IsReceiver wired (λ s. s)
unfolding IsReceiver
wired-IsReceiver s bs rest e = rw e (take-whole bs rest, drop-whole bs rest)

-- A program of three bytes, and one byte that is not read.
abbrev sent : List ℕ
sent = 3 ∷ 0 ∷ 0 ∷ 0 ∷ 0xE1 ∷ 0xA0 ∷ 0x0F ∷ 9 ∷ []

ready_to_receive : set_up wired sent ≡ some sent
unfolding set_up
ready_to_receive = refl

first_stage-loads_example :
    (end : List ℕ) × (first_stage wired 0x8000 (λ a. 0) sent
      ≡ some (record {
        memory = overlay 0x8000 (0xE1 ∷ 0xA0 ∷ 0x0F ∷ []) (λ a. 0);
        uart = end;
        entered = 0x8000;
      }))
    × ((x : ℕ) → relocate_address ≤ x → overlay 0x8000 (0xE1 ∷ 0xA0 ∷ 0x0F ∷ []) (λ a. 0) x ≡ 0)
    × (end ≡ 9 ∷ [])
first_stage-loads_example =
    first_stage-loads wired (λ s. s) 0x8000 (λ a. 0) sent sent 3 0 0 0 (0xE1 ∷ 0xA0 ∷ 0x0F ∷ [])
      (9 ∷ []) wired-IsReceiver ready_to_receive refl (omega arith) refl
