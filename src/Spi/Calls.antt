-- ===== src/Spi/Calls.antt =====
-- The async `transfer` and `transfer_in_place` of src/aux/spi.rs: what each poll of a call does, with
-- the futures that the call awaits one after the other.
use rpi_devenv.Base.{ℕ, Option, none, some, List, ◌++◌, leb, if◌then◌else◌}
use rpi_devenv.Base.{length, take, drop}
use rpi_devenv.Machine.{M, ◌>>=◌, pure, Poll, ready, pending}
use rpi_devenv.Spi.Bus.{concat}
use rpi_devenv.Spi.Async.{
  poll_flush, WriteCall, start_write, poll_write_call, TransferInPlaceFut, start_transfer,
  poll_transfer,
}

-- A call awaits the flush, with the slice to transfer; then the transfer; then, if there is more to
-- send than to receive, the write of the rest, with the slice received.
pub data TransferCall : Type 0 where
  flushing : List ℕ → Option (List ℕ) → TransferCall
  transferring : TransferInPlaceFut → Option (List ℕ) → TransferCall
  sending_rest : List ℕ → WriteCall → TransferCall

unfoldable pub start_transfer_in_place : List ℕ → TransferCall
start_transfer_in_place words = flushing words none

unfoldable pub start_transfer_call : List ℕ → List ℕ → TransferCall
start_transfer_call read' out =
    if leb (length out) (length read')
    then flushing (out ++ drop (length out) read') none
    else flushing (take (length read') out) (some (drop (length read') out))

-- The caller's slice.
abbrev pub buffer : TransferInPlaceFut → List ℕ
buffer f = concat f.whole ++ f.rest

unfoldable pub poll_sending : ℕ → List ℕ → WriteCall → M (Poll (Unit {0}) × TransferCall)
poll_sending w received c = do (r, c') ← poll_write_call w c; pure (r, sending_rest received c')

unfoldable pub poll_received :
    ℕ → TransferInPlaceFut → Option (List ℕ) → M (Poll (Unit {0}) × TransferCall)
poll_received w f none = pure (ready tt, transferring f none)
poll_received w f (some rest) = poll_sending w (buffer f) (start_write rest)

unfoldable pub poll_transferring :
    ℕ → TransferInPlaceFut → Option (List ℕ) → M (Poll (Unit {0}) × TransferCall)
poll_transferring w f rest = do
  (r, f') ← poll_transfer w f
  elim r [ pending ↦ pure (pending, transferring f' rest) | ready _ ↦ poll_received w f' rest ]

unfoldable pub poll_transfer_call : ℕ → TransferCall → M (Poll (Unit {0}) × TransferCall)
poll_transfer_call w (sending_rest received c) = poll_sending w received c
poll_transfer_call w (transferring f rest) = poll_transferring w f rest
poll_transfer_call w (flushing words rest) = do
  r ← poll_flush w
  elim r [
    | pending ↦ pure (pending, flushing words rest)
    | ready _ ↦ poll_transferring w (start_transfer words) rest
  ]
