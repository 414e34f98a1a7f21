-- ===== src/Machine/Log.antt =====
-- What the log of events says of the tasks woken.
use mathlib.Core.List.{List, [], ◌∷◌}
use mathlib.Core.Option.{Option, none, some}
use Prim.Native.Nat.{ℕ}
use rpi_devenv.Machine.Defs.{Event, woke}

-- The tasks woken so far, newest first.
abbrev pub woken : List Event → List ℕ
woken [] = []
woken (woke w ∷ l) = w ∷ woken l
woken (_ ∷ l) = woken l

abbrev pub push : Option ℕ → List ℕ → List ℕ
push none ws = ws
push (some w) ws = w ∷ ws
