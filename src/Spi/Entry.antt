-- ===== src/Spi/Entry.antt =====
-- The packing of bytes into the entries of the FIFOs in src/aux/spi.rs.
use rpi_devenv.Base.{ℕ, ◌+◌, ◌-◌, ◌*◌, ◌/◌, ◌%◌, ◌^◌, bit_or, Bool, List, [], ◌∷◌, if◌then◌else◌}
use rpi_devenv.Base.{length, take, drop}
use rpi_devenv.Bits.{◌<<<◌, ◌>>>◌}

-- How far byte `i` of a slice of `len` bytes is shifted.
abbrev pub shift : Bool → ℕ → ℕ → ℕ
shift ms_bit_first len i = if ms_bit_first then (len - i) * 8 else i * 8

-- The loop over the bytes from index `i` on.
unfoldable pub or_bytes : Bool → ℕ → ℕ → ℕ → List ℕ → ℕ
or_bytes ms len i entry [] = entry
or_bytes ms len i entry (byte ∷ bytes) =
    or_bytes ms len (i + 1) (bit_or entry (byte <<< shift ms len i % 2 ^ 32)) bytes

unfoldable pub to_entry : List ℕ → Bool → ℕ
to_entry slice ms = bit_or (or_bytes ms (length slice) 0 0 slice) (length slice <<< 24 % 2 ^ 32)

unfoldable pub fill_bytes : Bool → ℕ → ℕ → ℕ → List ℕ → List ℕ
fill_bytes ms len i entry [] = []
fill_bytes ms len i entry (_ ∷ bytes) =
    (entry >>> shift ms len i) % 2 ^ 8 ∷ fill_bytes ms len (i + 1) entry bytes

-- The slice's new bytes.
unfoldable pub from_entry : List ℕ → ℕ → Bool → List ℕ
from_entry slice entry ms = fill_bytes ms (length slice) 0 entry slice

-- `chunks(3)` of a slice.
unfoldable pub chunks : List ℕ → List (List ℕ)
chunks [] = []
chunks (a ∷ []) = (a ∷ []) ∷ []
chunks (a ∷ b ∷ []) = (a ∷ b ∷ []) ∷ []
chunks (a ∷ b ∷ c ∷ rest) = (a ∷ b ∷ c ∷ []) ∷ chunks rest

-- `as_chunks_mut::<3>`: the whole chunks and the bytes that are left.
unfoldable pub as_chunks : List ℕ → List (List ℕ) × List ℕ
as_chunks slice =
    let len_rounded_down = length slice / 3 * 3 in
    (chunks (take len_rounded_down slice), drop len_rounded_down slice)
