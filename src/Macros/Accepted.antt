-- ===== src/Macros/Accepted.antt =====
-- Which functions the attribute `main` accepts.
use rpi_devenv.Base.{
  ◌≡◌, ◌↔◌, ◌⊎◌, refl, Bool, true, false, Option, none, some, List, [], ◌∷◌, inl, inr, arith,
}
use rpi_devenv.Machine.{Result, ok, err, is_some}
use rpi_devenv.Macros.{
  ItemFn, ReturnKind, never, missing, typed, Expansion, is_empty, expand, check_output, modify_fn,
  modify_parsed, main,
}

-- `fn name() -> !`: no parameter of either kind, no qualifier but `const`, and the type `!`.
unfoldable pub IsEntryPoint : {T : Type 0} → ItemFn T → Type 0
IsEntryPoint f =
    (f.asyncness ≡ none)
    × (f.unsafety ≡ none)
    × (f.abi ≡ none)
    × (f.params ≡ [])
    × (f.inputs ≡ [])
    × (f.variadic ≡ none)
    × (f.output ≡ never)

is_ok : {E A : Type 0} → Result E A → Bool
is_ok (ok a) = true
is_ok (err e) = false

modify_fn-accepts : {T : Type 0} (f : ItemFn T) → IsEntryPoint f → modify_fn f ≡ ok (expand f)
unfolding IsEntryPoint modify_fn check_output
modify_fn-accepts f (a, u, b, p, i, v, o) = rw (a, u, b, p, i, v, o) refl

list-cases : {T : Type 0} (l : List T) → (is_empty l ≡ false) ⊎ (l ≡ [])
list-cases [] = inr refl
list-cases (x ∷ xs) = inl refl

option-cases : {T : Type 0} (o : Option T) → (is_some o ≡ true) ⊎ (o ≡ none)
option-cases none = inr refl
option-cases (some x) = inl refl

err-ok : {E A : Type 0} {e : E} {a : A} {B : Type 0} → err e ≡ ok a → B
err-ok h = cc

ok-inj : {E A : Type 0} {a b : A} {r : Result E A} → r ≡ ok a → r ≡ ok b → b ≡ a
ok-inj h g = cc

check_output-ok :
    {T : Type 0} (f : ItemFn T) (o : ReturnKind T) (x : Expansion T)
    → check_output f o ≡ ok x
    → (o ≡ never) × (x ≡ expand f)
unfolding check_output
check_output-ok f missing x h = err-ok h
check_output-ok f (typed t) x h = err-ok h
check_output-ok f never x h = (refl, ok-inj refl h)

-- A function is accepted if and only if it is `fn name() -> !` up to attributes, visibility and
-- `const`.
modify_fn-ok :
    {T : Type 0} (f : ItemFn T) (x : Expansion T)
    → modify_fn f ≡ ok x
    → IsEntryPoint f × (x ≡ expand f)
unfolding IsEntryPoint modify_fn
modify_fn-ok f x h = ground (
  arith,
  option-cases f.asyncness,
  option-cases f.unsafety,
  option-cases f.abi,
  list-cases f.params,
  list-cases f.inputs,
  option-cases f.variadic,
  check_output-ok f f.output x,
)

parsed-ok :
    {T : Type 0} (r : Result T (ItemFn T)) (x : Expansion T)
    → modify_parsed r ≡ ok x
    → (f : ItemFn T) × (r ≡ ok f) × IsEntryPoint f × (x ≡ expand f)
parsed-ok (ok f) x h = let m = modify_fn-ok f x h in (f, refl, m.0, m.1)
parsed-ok (err e) x h = err-ok h

-- The attribute accepts an item if and only if it has no arguments itself and the item is read as
-- a function that is not async or unsafe, has the default ABI, no generics, no parameters and no
-- variadic, and returns `!`; and it expands to that function with its attributes, visibility,
-- `const`, name and block, exported as `_main`.
pub main-Accepted :
    {T : Type 0} (parse : List T → Result T (ItemFn T)) (args input : List T) (x : Expansion T)
    → (main parse args input ≡ ok x)
      ↔ ((args ≡ []) × (f : ItemFn T) × (parse input ≡ ok f) × IsEntryPoint f × (x ≡ expand f))
unfolding main
main-Accepted parse [] input x = (
  λ h. let m = parsed-ok (parse input) x h in (refl, m.0, m.1, m.2, m.3),
  λ (a, f, p, e, q). rw (p, q) (modify_fn-accepts f e),
)
main-Accepted parse (a ∷ args) input x = (λ h. err-ok h, λ (e, _, _, _, _). cc)
