-- ===== src/Spi/Tests.antt =====
-- Runs of the model of src/aux/spi.rs on concrete machines, and the theorems on them.
use rpi_devenv.Base.{
  ℕ, ◌+◌, ◌/◌, ◌^◌, ◌≤◌, ◌≡◌, refl, true, false, ◌&&◌, none, some, List, [], ◌∷◌, ◌==◌, leb,
  if◌then◌else◌, arith,
}
use rpi_devenv.Base.{length, onto}
use rpi_devenv.Bits.{bit, ◌<<<◌}
use rpi_devenv.Machine.{Machine, Event, barrier, ram, ram-IsRegister, set_waker}
use rpi_devenv.Spi.Defs.{
  Config, cntl1, h0, idle_low, aux_enables_reg, control0, status_reg, io, txhold, read_bit,
}
use rpi_devenv.Spi.Entry.{to_entry, from_entry, chunks, or_bytes}
use rpi_devenv.Spi.Bus.{write}
use rpi_devenv.Spi.Async.{
  poll_write, TransferInPlaceFut, poll_transfer, await_interrupt, rx_loop, tx_loop, send_or_wait,
  slice_at,
}
use rpi_devenv.Spi.Packing.{from_entry-to_entry}
use rpi_devenv.Spi.Lock.{is_enabled, get_spi, drop_it, do_ops, do_ops-spi_steps}
use rpi_devenv.Spi.Queue.{queued, plan, next_bit, IsOrder}
use rpi_devenv.Spi.Sending.{write-done}
use rpi_devenv.Base.{Bool-cases, inl, inr, bit_and, sym, ◌∙◌, ◌%◌}
use rpi_devenv.Bits.{◌>>>◌}
use rpi_devenv.Machine.{Poll, ready}
use rpi_devenv.Spi.Entry.{as_chunks, from_entry, fill_bytes}
use rpi_devenv.Spi.Async.{receive, receive_entry, start_transfer}
use rpi_devenv.Spi.Originals.{taken, IsFifo}
use rpi_devenv.Base.{ltb}
use rpi_devenv.Spi.Bus.{transfer, transfer_in_place}
use rpi_devenv.Spi.Replies.{IsReply, IsInputBit, IsConfigured, start_transfer-Received}
use rpi_devenv.Spi.Life.{AtEnd}
use rpi_devenv.Spi.Device.{shows, Answers, answered}
use rpi_devenv.Spi.Echo.{echo, transfer_in_place-echoed}
use rpi_devenv.Spi.Lengths.{exchanged, rest_of, transfer-answered}
use rpi_devenv.Base.{◌++◌}
use rpi_devenv.Spi.Defs.{busy, clear_fifos}
use rpi_devenv.Spi.Async.{WriteCall, start_write, poll_write_call, poll_flush}
use rpi_devenv.Spi.Calls.{
  TransferCall, start_transfer_call, poll_sending, poll_received, poll_transferring,
  poll_transfer_call,
}
use rpi_devenv.Spi.Flushed.{Called, start_write-WrittenOf}
use rpi_devenv.Spi.Flushed as Flushed
use rpi_devenv.Spi.Ongoing.{Ongoing, exchange_plan}
use rpi_devenv.Spi.Delivered.{start_transfer_call-DeliveredOf}
use rpi_devenv.Spi.Life.{Life, begun, polled}
use rpi_devenv.Spi.Async.{poll_chunks}
use rpi_devenv.Machine.{woke, woken}

abbrev over : (List Event → ℕ → ℕ) → Machine
over hw = record {
  hw = hw;
  log = [];
  waker = λ _. none;
  gpio_set = record { lower = 0; upper = 0 };
  driver = record { c1 = none; c3 = none };
}

-- The Mini UART is enabled, and the SPI master is free.
abbrev reset : ℕ → ℕ
reset a = if a == aux_enables_reg then 1 else 0

abbrev start : Machine
start = over (ram reset)

-- The FIFO is full once two entries are in it.
abbrev small : Machine
small = over (λ l a. if a == status_reg && leb 2 (length (queued l)) then 1 <<< 10 else 0)

-- The FIFO always has room.
abbrev roomy : Machine
roomy = over (λ l a. 0)

abbrev slow : Config
slow = record {
  speed = 4999;
  post_input = false;
  data_out_hold = h0;
  in_rising = true;
  out_rising = false;
  out_most_significant_first = false;
  in_most_significant_first = false;
  extra_cs_high_time = 0;
  keep_input = false;
  polarity = idle_low;
}

abbrev seven : List ℕ
seven = 1 ∷ 2 ∷ 3 ∷ 4 ∷ 5 ∷ 6 ∷ 7 ∷ []

entry_ls : to_entry (1 ∷ 2 ∷ 3 ∷ []) false ≡ 0x03030201
unfolding to_entry or_bytes
entry_ls = refl

entry_ms : to_entry (0x10 ∷ 2 ∷ 3 ∷ []) true ≡ 0x13020300
unfolding to_entry or_bytes
entry_ms = refl

do_ops-spi_steps_example :
    ((do_ops slow (get_spi ∷ get_spi ∷ drop_it ∷ get_spi ∷ []) start).0
      ≡ true ∷ false ∷ true ∷ true ∷ [])
    × (is_enabled 0 (do_ops slow (get_spi ∷ get_spi ∷ drop_it ∷ get_spi ∷ []) start).1 ≡ true)
unfolding bit ram
do_ops-spi_steps_example =
    do_ops-spi_steps slow (get_spi ∷ get_spi ∷ drop_it ∷ get_spi ∷ []) start 0
      (ram-IsRegister reset aux_enables_reg) (omega arith)

from_entry-to_entry_example :
    (from_entry (0 ∷ 0 ∷ 0 ∷ []) (to_entry (0x10 ∷ 2 ∷ 3 ∷ []) true) true ≡ 0x13 ∷ 2 ∷ 3 ∷ [])
    × (to_entry (0x10 ∷ 2 ∷ 3 ∷ []) true / 2 ^ 24 ≡ 0x13)
from_entry-to_entry_example =
    from_entry-to_entry true (0 ∷ 0 ∷ 0 ∷ []) (0x10 ∷ 2 ∷ 3 ∷ []) (omega arith)
      (omega arith, (omega arith, (omega arith, tt))) refl

write-done_example :
    ((write 1 seven roomy).0 ≡ some tt)
    × (queued (write 1 seven roomy).1.log
        ≡ onto
            (plan (next_bit control0 6 (record roomy { log = barrier ∷ [] })) (chunks seven))
            (queued []))
write-done_example = write-done 1 seven roomy (omega arith) (λ l. refl)

-- The FIFO is full with two entries until an interrupt has woken the task.
abbrev draining : Machine
draining = over (λ l a.
    if a == status_reg && (leb 2 (length (queued l)) && leb (length (woken l)) 0)
    then 1 <<< 10
    else 0)

abbrev part_written : (Poll (Unit {0}) × WriteCall) × Machine
part_written = poll_write_call 7 (start_write seven) draining

abbrev interrupted : Machine
interrupted = record part_written.1 { log = woke 7 ∷ part_written.1.log }

abbrev all_written : (Poll (Unit {0}) × WriteCall) × Machine
all_written = poll_write_call 8 part_written.0.1 interrupted

draining-IsOrder : IsOrder draining.hw false
unfolding IsOrder
draining-IsOrder l = refl

written_in_two : Called (start_write seven) draining (ready tt) all_written.0.1 all_written.1
unfolding start_write poll_write_call poll_flush busy clear_fifos poll_write poll_chunks chunks
    read_bit queued to_entry or_bytes await_interrupt set_waker
written_in_two =
    Flushed.polled (Flushed.meanwhile (Flushed.polled Flushed.begun 7) interrupted refl refl) 8

start_write-WrittenOf_example :
    queued all_written.1.log ≡ onto (plan false (chunks seven)) (queued [])
start_write-WrittenOf_example =
    start_write-WrittenOf false seven draining (ready tt) all_written.0.1 all_written.1
      draining-IsOrder written_in_two

-- A transfer of six bytes: two whole chunks, and no byte behind them.
abbrev six : TransferInPlaceFut
six = record {
  whole = (1 ∷ 2 ∷ 3 ∷ []) ∷ (4 ∷ 5 ∷ 6 ∷ []) ∷ [];
  rest = [];
  tx_index = 0;
  rx_index = 0;
}

-- Nothing arrives, and there is room for everything: a third entry, without bytes, ends the transfer.
abbrev silent : Machine
silent = over (λ l a. if a == status_reg then 1 <<< 7 else 0)

six-entries :
    queued (poll_transfer 7 six silent).1.log
    ≡ (io, 0) ∷ (txhold, 0x03060504) ∷ (txhold, 0x03030201) ∷ []
unfolding poll_transfer rx_loop tx_loop send_or_wait read_bit slice_at queued to_entry or_bytes
    await_interrupt set_waker
six-entries = refl

-- What is sent comes back: the receive FIFO holds as many entries as were queued and not yet taken.
abbrev loop_back : List Event → ℕ → ℕ
loop_back l a = if a == status_reg && leb (length (queued l)) (taken l + 0) then 0x80 else 0

abbrev looped : Machine
looped = over loop_back

false-true : {B : Type 0} → false ≡ true → B
false-true h = cc

loop_back-IsFifo : IsFifo loop_back 0
unfolding IsFifo
loop_back-IsFifo l h = elim (Bool-cases (leb (length (queued l)) (taken l + 0))) [
  | inl none_left ↦
      let shown : (bit_and ((loop_back l status_reg % 2 ^ 32) >>> 7) 1 == 1) ≡ true =
        rw none_left refl in
      false-true (sym h ∙ shown)
  | inr some_left ↦ ground (arith, some_left)
]

loop_back-IsOrder : IsOrder loop_back false
unfolding IsOrder
loop_back-IsOrder l = refl

abbrev bytes : List ℕ
bytes = 1 ∷ 2 ∷ 3 ∷ 4 ∷ []

-- The first poll sends both entries, the second one receives them.
abbrev first_poll : (Poll (Unit {0}) × TransferInPlaceFut) × Machine
first_poll = poll_transfer 7 (start_transfer bytes) looped

abbrev second_poll : (Poll (Unit {0}) × TransferInPlaceFut) × Machine
second_poll = poll_transfer 8 first_poll.0.1 first_poll.1

two_polls : Life (start_transfer bytes) looped (ready tt) second_poll.0.1 second_poll.1
unfolding start_transfer as_chunks chunks poll_transfer rx_loop tx_loop send_or_wait read_bit
    slice_at queued to_entry or_bytes await_interrupt set_waker receive receive_entry from_entry
    fill_bytes taken
two_polls = polled (polled begun 7) 8

-- Two bytes are to be read, and four to be sent: the second poll receives and sends the rest.
abbrev two : List ℕ
two = 0 ∷ 0 ∷ []

abbrev first_call : (Poll (Unit {0}) × TransferCall) × Machine
first_call = poll_transfer_call 7 (start_transfer_call two bytes) looped

abbrev second_call : (Poll (Unit {0}) × TransferCall) × Machine
second_call = poll_transfer_call 8 first_call.0.1 first_call.1

two_calls : Ongoing (start_transfer_call two bytes) looped (ready tt) second_call.0.1 second_call.1
unfolding start_transfer_call poll_transfer_call poll_transferring poll_received poll_sending
    start_write poll_write_call poll_flush busy clear_fifos poll_write poll_chunks start_transfer
    as_chunks chunks poll_transfer rx_loop tx_loop send_or_wait read_bit slice_at queued to_entry
    or_bytes await_interrupt set_waker receive receive_entry from_entry fill_bytes taken
two_calls = Ongoing.polled (Ongoing.polled Ongoing.begun 7) 8

start_transfer_call-DeliveredOf_example :
    queued second_call.1.log
    ≡ onto
        (exchange_plan false (exchanged two bytes) ++ plan false (chunks (rest_of two bytes)))
        (queued [])
start_transfer_call-DeliveredOf_example =
    start_transfer_call-DeliveredOf false 0 two bytes looped (ready tt) second_call.0.1
      second_call.1 loop_back-IsFifo loop_back-IsOrder (unfold queued taken in refl) two_calls

loop_back-IsReply : IsReply loop_back (λ _. 0)
unfolding IsReply
loop_back-IsReply l = refl

-- The order configured for the input is not the one that the transfer uses.
abbrev ms_input : Config
ms_input = record slow { in_most_significant_first = true }

loop_back-IsConfigured : IsConfigured loop_back ms_input
unfolding IsConfigured
loop_back-IsConfigured l = unfold cntl1 bit in refl

one_chunk : 1 ≤ length (start_transfer bytes).whole
unfolding start_transfer as_chunks chunks
one_chunk = omega arith

start_transfer-Received_example :
    let f = second_poll.0.1 in
    let f0 = start_transfer bytes in
    (slice_at f.whole f.rest 1 ≡ (
      if ltb 1 f.rx_index
      then from_entry (slice_at f0.whole f0.rest 1) 0 false
      else slice_at f0.whole f0.rest 1))
    × AtEnd (ready tt) (length f0.whole) f.rx_index
start_transfer-Received_example =
    start_transfer-Received (λ _. 0) ms_input bytes looped (ready tt) second_poll.0.1 second_poll.1
      1 loop_back-IsReply loop_back-IsConfigured two_polls one_chunk

-- The device echoes each entry, at once.
abbrev echoing : List Event → ℕ → ℕ
echoing l a = if a == io then echo 0 (queued l) (taken l) else loop_back l a

echoing-shows : (l : List Event) → shows echoing 7 l ≡ leb (length (queued l)) (taken l)
echoing-shows l = elim (Bool-cases (leb (length (queued l)) (taken l))) [
  | inl empty ↦
      let e : leb (length (queued l)) (taken l + 0) ≡ true = ground arith in rw (empty, e) refl
  | inr there ↦
      let e : leb (length (queued l)) (taken l + 0) ≡ false = ground arith in rw (there, e) refl
]

-- The other bits of the status are clear.
echoing-quiet : (l : List Event) → (shows echoing 6 l ≡ false) × (shows echoing 10 l ≡ false)
echoing-quiet l = elim (Bool-cases (leb (length (queued l)) (taken l + 0))) [
  | inl empty ↦ rw empty (refl, refl)
  | inr there ↦ rw there (refl, refl)
]

echoing-Answers : Answers echoing (echo 0) false false 0 1
unfolding IsInputBit IsOrder
echoing-Answers = record {
  out_order = λ l. refl;
  in_order = λ l. refl;
  replies = λ l. ground arith;
  late = λ l. 0;
  soon = λ l. omega arith;
  nearer = λ v l h e. absurd (ground (arith, echoing-shows l));
  calm = λ l. 0;
  calm_soon = λ l. omega arith;
  calmer = λ v l e. absurd (false-true (sym (echoing-quiet l).0 ∙ e));
}

transfer_in_place-echoed_example :
    let r = transfer_in_place 1 bytes (over echoing) in (r.0.0 ≡ some tt) × (r.0.1 ≡ bytes)
transfer_in_place-echoed_example =
    transfer_in_place-echoed 0 1 bytes (over echoing) echoing-Answers (unfold queued taken in refl)
      (omega arith, (omega arith, (omega arith, (omega arith, tt))))

transfer-answered_example :
    let s = over echoing in
    let r = transfer 1 two bytes s in
    (r.0.0 ≡ some tt)
    × (r.0.1
        ≡ answered
            (echo 0)
            false
            (queued s.log)
            (taken s.log)
            (chunks (exchanged two bytes))
            (plan false (chunks (exchanged two bytes))))
    × (queued r.1.log
        ≡ onto
            (plan false (chunks (rest_of two bytes)))
            (onto (plan false (chunks (exchanged two bytes))) (queued s.log)))
transfer-answered_example =
    transfer-answered (echo 0) false false 0 1 two bytes (over echoing) echoing-Answers
      (unfold queued taken in refl) (omega arith) (λ l. (echoing-quiet l).1)
