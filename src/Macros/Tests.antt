-- ===== src/Macros/Tests.antt =====
-- The attribute `main` on the functions of macros/tests/ui, with tokens as numbers.
use rpi_devenv.Base.{ℕ, ◌≡◌, ◌↔◌, refl, none, some, List, [], ◌∷◌}
use rpi_devenv.Machine.{Result, ok, err}
use rpi_devenv.Macros.{
  ItemFn, never, missing, typed, cannot_be_async, must_never_return, must_return_never,
  takes_no_arguments, cannot_have_generics, cannot_have_parameters, check_output, modify_fn, expand,
  main,
}
use rpi_devenv.Macros.Accepted.{IsEntryPoint, main-Accepted}

-- `fn main() -> !`.
abbrev correct : ItemFn ℕ
correct = record {
  attrs = [];
  vis = 0;
  constness = none;
  asyncness = none;
  unsafety = none;
  abi = none;
  ident = 1;
  params = [];
  inputs = [];
  variadic = none;
  output = never;
  block = 2;
}

abbrev no_arguments : List ℕ
no_arguments = []

abbrev parsed : ItemFn ℕ → List ℕ → Result ℕ (ItemFn ℕ)
parsed f input = ok f

-- The cases of the tests: async.rs, no_return.rs, wrong_return.rs, attr_arguments.rs, generics.rs
-- and fn_arguments.rs.
ui_tests :
    (main (parsed (record correct { asyncness = some 5 })) [] [] ≡ err cannot_be_async)
    × (main (parsed (record correct { output = missing })) [] [] ≡ err must_never_return)
    × (main (parsed (record correct { output = typed 6 })) [] [] ≡ err must_return_never)
    × (main (parsed correct) (3 ∷ []) [] ≡ err takes_no_arguments)
    × (main (parsed (record correct { params = 3 ∷ [] })) [] [] ≡ err cannot_have_generics)
    × (main (parsed (record correct { inputs = 3 ∷ [] })) [] [] ≡ err cannot_have_parameters)
unfolding main modify_fn check_output
ui_tests = (refl, refl, refl, refl, refl, refl)

main-Accepted_example : (main (parsed correct) [] (1 ∷ 2 ∷ []) ≡ ok (expand correct)) ↔ (
    (no_arguments ≡ [])
    × (f : ItemFn ℕ) × (parsed correct [] ≡ ok f)
    × IsEntryPoint f
    × (expand correct ≡ expand f))
main-Accepted_example = main-Accepted (parsed correct) [] (1 ∷ 2 ∷ []) (expand correct)
