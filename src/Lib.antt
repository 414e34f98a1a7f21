-- ===== src/Lib.antt =====
-- A model of rpi-devenv, hardware abstractions over the BCM2835 of the Raspberry Pi, and proofs of
-- what its drivers do.
--
-- The program's parts, and the files that model them:
--   src/lib.rs (barriers, `set_waker`, `wake`)            Machine
--   src/lib.rs (`first_stage`), src/interrupt.rs          Interrupt
--   src/critical_section_impl.rs, src/executor.rs,
--     src/interrupt.rs (`enable`, `disable`)              Processor
--   src/aux.rs                                            Aux
--   src/aux/spi.rs, src/aux/spi/registers.rs              Spi
--   src/gpio.rs, src/gpio/state.rs                        Gpio
--   src/aux/uart.rs, src/aux/uart/                        Uart
--   src/system_time/driver.rs                             Timer
--   src/mmu.rs                                            Mmu
--   macros/src/lib.rs                                     Macros
--   bootloader/src/main.rs                                Bootloader
--   kernel/src/main.rs                                    Kernel
-- Base passes on the library's names, with Boolean tests and list lemmas on the native numbers;
-- Bits has the single bits of a word and what `|`, `&`, `!`, `<<` and `>>` do to them.
--
-- Machine (Machine/Defs) is the state that all drivers share: the log of what the processor did
-- (loads, stores, barriers, entering and leaving critical sections, spin hints, wakers woken),
-- newest first; the waker slots (`WAKER_SET`, `READER_WAKER`, `WRITER_WAKER`, `SPI_WAKER`);
-- `GPIO_SET`; and the time driver's two alarms. An operation is a function from a machine to a
-- result and a machine, `M A`, and is written as a do block in the order of the source. The drivers
-- meet only there: a driver stores a waker, an interrupt handler takes and wakes it.
--
-- The hardware is a parameter, the field `hw`: what a read of an address finds after a log, taken
-- modulo 2^32 by every read. Theorems that need a register to keep what is written assume
-- `IsRegister` (Machine/Registers) of that register; those on the time assume `Clock`
-- (Timer/Clock); those on bytes that arrive assume `IsReceiver` (Uart/Wire) or `Answers`
-- (Spi/Device). Code outside the repository is a parameter or an event: `critical_section::with`
-- enters, runs its closure and leaves; a waker is the number of the task that it wakes, and
-- `will_wake` compares the numbers; the callback of an alarm is an argument of the handler;
-- `bitflags` gives the named flags that a value contains, in the order of their declaration. Const
-- and type parameters of the source (pin numbers, pin modes) are arguments, and the handles that
-- carry no state (`Reader`, `Writer`, `Spi1`) are a Boolean that says whether one is returned.
--
-- Gpio: State has the flags, pulls and pin modes; Defs the pins (`lock`, `unlock`, `get`, levels,
-- pulls); Ones the iterator `IterOnes`; Detect the `Detector` and the two interrupt handlers. Their
-- proofs stand in Locks, Levels, Ownership (sequences of calls), Ones/Complete and under Detect.
-- Uart: Defs has registers, baud rates, `Config` and `pair`; Reader, Writer and Handler the two
-- halves and the dispatch; the proofs stand in Locks, Baud, Served, Wire (a line whose bytes arrive
-- late and a receiver that keeps them), Loopback and under Reader and Writer. Timer: Defs has the
-- driver; Clock, Alarm and Ring the proofs on one call, Calls, Registered and Runs those on
-- sequences of calls and interrupts. Mmu: Defs has the descriptors and the table, Fields and Walk
-- the proofs.
--
-- Spi: Defs has registers, `Config`, `get` and drop; Entry the packing of bytes; Bus the blocking
-- calls; Async the futures, and Calls the async calls that await them; Duplex the `nb` calls. The
-- registers stand where `SPI1.add` puts them, at four times the offset. Queue reads off the log
-- what was queued, Slices says what a buffer's slices become. The proofs stand in Lock, Packing,
-- Sending and in the files below. Polled, Written and Flushed are about the async write; Transfers,
-- Originals, Life and Replies about the transfer future, and Ongoing and Delivered about the async
-- transfers: the life of a future or a call is a data type of polls and of what happens between
-- them. Waits is about the waker of a call that waits. Device, Exchange, Echo and Lengths are about
-- the blocking transfers with a device whose answer to an entry may depend on all the entries
-- queued by then (the record `Answers`). Aux dispatches to the handlers of Uart and Spi; Interrupt
-- (Defs) has the tables of sources, `setup`, the dispatch to the handlers of Timer, Aux and Gpio,
-- and `first_stage`, whose `main` is a parameter; an interrupt is a call of the dispatch between
-- two operations. Its proofs stand in Enabled, Dispatch, Wakes, Transfers, Alarms and Boot; an
-- interrupt is enabled there if any store so far has set its bit in the enable register of its
-- half, as storing a 0 does nothing.
--
-- Processor: Mask is about the status register that `acquire` and `release` act on, apart from the
-- Machine, where entering and leaving a critical section are events. Executor has the loop of `run`
-- and the interrupts as a step relation; `raw.poll` of the embassy crates is one stage of it, and
-- the model keeps, beside `WORK_SIGNALED`, whether a task was woken since the last poll began.
--
-- Macros works on what the `syn` crate parsed, with its tokens and parser as parameters. Bootloader
-- takes the UART, which is not the library's, as a record of operations, and a receiver that hands
-- out the bytes sent as a hypothesis; the destination is a pointer of 32 bits, and the program is
-- assumed to end below the address to which the loader has relocated itself. Kernel takes
-- `write_fmt` as a parameter.
--
-- Loops: a loop over a buffer or an iterator is recursion on a list; a loop that waits for the
-- hardware runs on fuel, and its result says when the fuel ran out. `IterOnes` gets 32 rounds, as a
-- `u32` has 32 bits, and is shown to be exhausted then. The waits of the blocking SPI calls each
-- run on the fuel that the call is given, which is enough if it is more than the looks that
-- `Answers` says the device may take, and so does the blocking read of each byte of the Mini UART,
-- with the looks that `IsReceiver` says the byte may take. Reading the clock and the loop of the
-- alarm interrupt are shown to end within two rounds on a clock that keeps `Clock`. `write_all`
-- needs at most one poll for each byte and one more while the FIFO has room. Words are kept to 32
-- bits where the source's operation could leave them; `FIFO_SIZE - level` wraps around, as in a
-- release build, and a shift to the left drops the bits that leave the word.
--
-- Not modelled: src/boot.s, bootloader/src/boot.s and the linker scripts (assembly),
-- src/aux/spi/mode.rs (no code uses it), spawning tasks in src/executor.rs, the spans of the
-- macro's errors and its tests, and the traits that carry no code (`RxPin`, `TxPin`, the error
-- kinds).
pub mod Base
pub mod Bits
pub mod Machine
pub mod Gpio
pub mod Uart
pub mod Spi
pub mod Timer
pub mod Aux
pub mod Interrupt
pub mod Processor
pub mod Mmu
pub mod Macros
pub mod Bootloader
pub mod Kernel
