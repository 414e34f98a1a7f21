-- ===== src/Spi/Slices.antt =====
-- The entries that the slices of a buffer become in src/aux/spi.rs.
use rpi_devenv.Base.{
  ℕ, zero, suc, ◌+◌, ◌≤◌, ◌<◌, ◌≡◌, refl, ap, ◌∙◌, Bool, List, [], ◌∷◌, ◌++◌, ltb, if◌then◌else◌,
  arith,
}
use rpi_devenv.Base.{length, onto}
use rpi_devenv.Spi.Defs.{io, txhold}
use rpi_devenv.Spi.Entry.{to_entry}
use rpi_devenv.Spi.Async.{slice_at}

-- The entries of `count` slices of a buffer from index `i` on, the bytes left behind the whole
-- chunks last, which go to the register that ends the transfer.
unfoldable pub entries : Bool → List (List ℕ) → List ℕ → ℕ → ℕ → List (ℕ × ℕ)
entries ms whole rest i zero = []
entries ms whole rest i (suc count) =
    (if ltb i (length whole) then txhold else io, to_entry (slice_at whole rest i) ms)
    ∷ entries ms whole rest (i + 1) count

pub length-onto : (xs ys : List (ℕ × ℕ)) → length (onto xs ys) ≡ length xs + length ys
unfolding onto
length-onto [] ys = omega arith
length-onto (x ∷ xs) ys = length-onto xs (x ∷ ys) ∙ omega arith

pub length-entries :
    (ms : Bool) (whole : List (List ℕ)) (rest : List ℕ) (i count : ℕ)
    → length (entries ms whole rest i count) ≡ count
unfolding entries
length-entries ms whole rest i zero = refl
length-entries ms whole rest i (suc count) = ap suc (length-entries ms whole rest (i + 1) count)

entries-add :
    (ms : Bool) (whole : List (List ℕ)) (rest : List ℕ) (i a b : ℕ)
    → entries ms whole rest i (a + b) ≡ entries ms whole rest i a ++ entries ms whole rest (i + a) b
unfolding entries
entries-add ms whole rest i zero b =
    let e0 : 0 + b ≡ b = omega arith in let e1 : i + 0 ≡ i = omega arith in rw (e0, e1) refl
entries-add ms whole rest i (suc a) b =
    let e0 : suc a + b ≡ suc (a + b) = omega arith in
    let e1 : i + suc a ≡ i + 1 + a = omega arith in
    rw (e0, e1, entries-add ms whole rest (i + 1) a b) refl

pub entries-more :
    (ms : Bool) (whole : List (List ℕ)) (rest : List ℕ) (a b : ℕ)
    → entries ms whole rest 0 (a + b) ≡ entries ms whole rest 0 a ++ entries ms whole rest a b
entries-more ms whole rest a b =
    let e : 0 + a ≡ a = omega arith in
    entries-add ms whole rest 0 a b
    ∙ ap (λ k. entries ms whole rest 0 a ++ entries ms whole rest k b) e

pub entries-same :
    (ms : Bool) (whole whole' : List (List ℕ)) (rest rest' : List ℕ) (i count : ℕ)
    → length whole ≡ length whole'
    → ((j : ℕ) → i ≤ j → j < i + count → slice_at whole rest j ≡ slice_at whole' rest' j)
    → entries ms whole rest i count ≡ entries ms whole' rest' i count
unfolding entries
entries-same ms whole whole' rest rest' i zero e h = refl
entries-same ms whole whole' rest rest' i (suc count) e h =
    rw
      (
        e,
        h i (omega arith) (omega arith),
        entries-same ms whole whole' rest rest' (i + 1) count e
            (λ j lo hi. h j (omega arith) (omega arith)),
      )
      refl
