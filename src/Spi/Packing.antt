-- ===== src/Spi/Packing.antt =====
-- The entries of src/aux/spi.rs against the bytes that went into them.
use rpi_devenv.Base.{
  ℕ, ◌+◌, ◌*◌, ◌/◌, ◌%◌, ◌^◌, ◌≤◌, ◌<◌, bit_or, ◌≡◌, refl, ◌∙◌, Bool, true, false, List, [], ◌∷◌,
  if◌then◌else◌, arith,
}
use rpi_devenv.Base.{length, AreBytes}
use rpi_devenv.Bits.{bit_or-lt, ◌<<<◌}
use rpi_devenv.Bits.Join.{low-bit_or, bit_or-shl, high-bit_or}
use rpi_devenv.Spi.Entry.{or_bytes, to_entry, fill_bytes, from_entry}

-- One more byte above the bytes below it.
or-byte :
    (k b low x : ℕ)
    → x ≡ low
    → low < 2 ^ k
    → b <<< k % 2 ^ 32 ≡ b <<< k
    → bit_or x (b <<< k % 2 ^ 32) ≡ b * 2 ^ k + low
or-byte k b low x e h fits = rw (fits, e) (low-bit_or k b low h)

-- One more byte below the bytes above it.
or-byte_below :
    (k hi b x : ℕ)
    → x ≡ hi * 2 ^ (k + 8)
    → b < 2 ^ 8
    → b <<< k % 2 ^ 32 ≡ b <<< k
    → b <<< k < 2 ^ (k + 8)
    → bit_or x (b <<< k % 2 ^ 32) ≡ hi * 2 ^ (k + 8) + b * 2 ^ k
or-byte_below k hi b x e h fits small = rw (fits, e) (bit_or-shl (k + 8) hi (b <<< k) small)

-- The bytes of a slice of at most three, lowest first, below its length.
abbrev ls_value : List ℕ → ℕ
ls_value [] = 0
ls_value (a ∷ bs) = a + ls_value bs * 2 ^ 8

to_entry-ls :
    (slice : List ℕ)
    → length slice ≤ 3
    → AreBytes slice
    → to_entry slice false ≡ length slice * 2 ^ 24 + ls_value slice
unfolding to_entry or_bytes
to_entry-ls [] n h = or-byte 24 0 0 0 refl (omega arith) (omega arith)
to_entry-ls (a ∷ []) n h =
    let e0 = or-byte 0 a 0 0 refl (omega arith) (omega arith) in
    or-byte 24 1 a _ (e0 ∙ omega arith) (omega arith) (omega arith) ∙ omega arith
to_entry-ls (a ∷ b ∷ []) n h =
    let e0 = or-byte 0 a 0 0 refl (omega arith) (omega arith) in
    let e1 = or-byte 8 b a _ (e0 ∙ omega arith) (omega arith) (omega arith) in
    or-byte 24 2 (b * 2 ^ 8 + a) _ e1 (omega arith) (omega arith) ∙ omega arith
to_entry-ls (a ∷ b ∷ c ∷ []) n h =
    let e0 = or-byte 0 a 0 0 refl (omega arith) (omega arith) in
    let e1 = or-byte 8 b a _ (e0 ∙ omega arith) (omega arith) (omega arith) in
    let e2 = or-byte 16 c (b * 2 ^ 8 + a) _ e1 (omega arith) (omega arith) in
    or-byte 24 3 (c * 2 ^ 16 + (b * 2 ^ 8 + a)) _ e2 (omega arith) (omega arith) ∙ omega arith
to_entry-ls (a ∷ b ∷ c ∷ d ∷ bs) n h = absurd (omega arith)

from_entry-to_entry_ls :
    (old slice : List ℕ)
    → length slice ≤ 3
    → AreBytes slice
    → length old ≡ length slice
    → (from_entry old (to_entry slice false) false ≡ slice)
      × (to_entry slice false / 2 ^ 24 ≡ length slice)
unfolding from_entry fill_bytes
from_entry-to_entry_ls [] [] n h e = rw (to_entry-ls [] n h) (refl, refl)
from_entry-to_entry_ls (_ ∷ []) (a ∷ []) n h e =
    rw (to_entry-ls (a ∷ []) n h) (ground arith, omega arith)
from_entry-to_entry_ls (_ ∷ _ ∷ []) (a ∷ b ∷ []) n h e =
    rw (to_entry-ls (a ∷ b ∷ []) n h) (ground arith, omega arith)
from_entry-to_entry_ls (_ ∷ _ ∷ _ ∷ []) (a ∷ b ∷ c ∷ []) n h e =
    rw (to_entry-ls (a ∷ b ∷ c ∷ []) n h) (ground arith, omega arith)
from_entry-to_entry_ls old slice n h e = absurd (omega arith)

-- What goes round with the most significant bit first: three bytes run into the length field.
abbrev pub ms_back : List ℕ → List ℕ
ms_back (a ∷ b ∷ c ∷ []) = bit_or a 3 ∷ b ∷ c ∷ []
ms_back slice = slice

abbrev pub ms_length : List ℕ → ℕ
ms_length (a ∷ b ∷ c ∷ []) = bit_or a 3
ms_length slice = length slice

to_entry-ms_one : (a : ℕ) → a < 2 ^ 8 → to_entry (a ∷ []) true ≡ 1 * 2 ^ 24 + a * 2 ^ 8
unfolding to_entry or_bytes
to_entry-ms_one a h =
    let e0 = or-byte 8 a 0 0 refl (omega arith) (omega arith) in
    or-byte 24 1 (a * 2 ^ 8) _ (e0 ∙ omega arith) (omega arith) (omega arith)

to_entry-ms_two :
    (a b : ℕ)
    → a < 2 ^ 8
    → b < 2 ^ 8
    → to_entry (a ∷ b ∷ []) true ≡ 2 * 2 ^ 24 + (a * 2 ^ 16 + b * 2 ^ 8)
unfolding to_entry or_bytes
to_entry-ms_two a b ha hb =
    let e0 = or-byte 16 a 0 0 refl (omega arith) (omega arith) in
    let e1 = or-byte_below 8 a b _ (e0 ∙ omega arith) hb (omega arith) (omega arith) in
    or-byte 24 2 (a * 2 ^ 16 + b * 2 ^ 8) _ e1 (omega arith) (omega arith)

to_entry-ms_three :
    (a b c : ℕ)
    → a < 2 ^ 8
    → b < 2 ^ 8
    → c < 2 ^ 8
    → to_entry (a ∷ b ∷ c ∷ []) true ≡ bit_or a 3 * 2 ^ 24 + (b * 2 ^ 16 + c * 2 ^ 8)
unfolding to_entry or_bytes
to_entry-ms_three a b c ha hb hc =
    let e0 = or-byte 24 a 0 0 refl (omega arith) (omega arith) in
    let e1 = or-byte_below 16 a b _ (e0 ∙ omega arith) hb (omega arith) (omega arith) in
    let e2 =
      or-byte_below 8 (a * 2 ^ 8 + b) c _ (e1 ∙ omega arith) hc (omega arith) (omega arith) in
    let e3 : (a * 2 ^ 8 + b) * 2 ^ 16 + c * 2 ^ 8 ≡ a * 2 ^ 24 + (b * 2 ^ 16 + c * 2 ^ 8) =
      omega arith in
    rw (e2, e3) (high-bit_or 24 a 3 (b * 2 ^ 16 + c * 2 ^ 8) (omega arith))

from_entry-to_entry_ms :
    (old slice : List ℕ)
    → length slice ≤ 3
    → AreBytes slice
    → length old ≡ length slice
    → (from_entry old (to_entry slice true) true ≡ ms_back slice)
      × (to_entry slice true / 2 ^ 24 ≡ ms_length slice)
unfolding from_entry fill_bytes
from_entry-to_entry_ms [] [] n h e = unfold to_entry or_bytes in (refl, refl)
from_entry-to_entry_ms (_ ∷ []) (a ∷ []) n h e =
    rw (to_entry-ms_one a h.0) (ground arith, omega arith)
from_entry-to_entry_ms (_ ∷ _ ∷ []) (a ∷ b ∷ []) n h e =
    rw (to_entry-ms_two a b h.0 h.1.0) (ground arith, omega arith)
from_entry-to_entry_ms (_ ∷ _ ∷ _ ∷ []) (a ∷ b ∷ c ∷ []) n h e =
    let small = bit_or-lt 8 a 3 h.0 (omega arith) in
    rw (to_entry-ms_three a b c h.0 h.1.0 h.1.1.0) (ground arith, omega arith)
from_entry-to_entry_ms old slice n h e = absurd (omega arith)

-- What `to_entry` packs from at most three bytes, `from_entry` unpacks, in the same bit order, into
-- a slice of the same length, and the entry's length field holds their number. It is otherwise only
-- for three bytes with the most significant bit first: then the first byte comes back with its two
-- lowest bits set, and it stands, with them, in the length field in place of the number three.
pub from_entry-to_entry :
    (ms : Bool) (old slice : List ℕ)
    → length slice ≤ 3
    → AreBytes slice
    → length old ≡ length slice
    → (from_entry old (to_entry slice ms) ms ≡ (if ms then ms_back slice else slice))
      × (to_entry slice ms / 2 ^ 24 ≡ (if ms then ms_length slice else length slice))
from_entry-to_entry true old slice n h e = from_entry-to_entry_ms old slice n h e
from_entry-to_entry false old slice n h e = from_entry-to_entry_ls old slice n h e
