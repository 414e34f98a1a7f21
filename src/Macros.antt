-- ===== src/Macros.antt =====
-- macros/src/lib.rs: the attribute `main` on a function, as a function of what `syn` parsed.
-- The tokens of `syn` and the parser of a function are parameters.
pub mod Accepted
mod Tests
use rpi_devenv.Base.{Bool, true, false, Option, none, some, List, [], ◌∷◌, if◌then◌else◌}
use rpi_devenv.Machine.{Result, ok, err, is_some}

-- A type is `!` or any other; the return type may be missing.
pub data ReturnKind (T : Type 0) : Type 0 where
  never : ReturnKind T
  missing : ReturnKind T
  typed : T → ReturnKind T

-- `ItemFn` with the fields of its `Signature`.
pub record ItemFn (T : Type 0) : Type 0 where
  pub attrs : List T
  pub vis : T
  pub constness : Option T
  pub asyncness : Option T
  pub unsafety : Option T
  pub abi : Option T
  pub ident : T
  pub params : List T
  pub inputs : List T
  pub variadic : Option T
  pub output : ReturnKind T
  pub block : T

-- The compile errors, in the order of the checks; `no_parse` holds the parser's own.
pub data Error (T : Type 0) : Type 0 where
  takes_no_arguments : Error T
  no_parse : T → Error T
  cannot_be_async cannot_be_unsafe : Error T
  must_use_default_abi : Error T
  cannot_have_generics cannot_have_parameters cannot_be_variadic : Error T
  must_never_return must_return_never : Error T

-- What is quoted: the attributes kept and the export name `_main` in front of them, then a function
-- without parameters that never returns, around the block as it was.
pub record Expansion (T : Type 0) : Type 0 where
  pub attrs : List T
  pub exported_as_main : Bool
  pub vis : T
  pub constness : Option T
  pub ident : T
  pub block : T

abbrev pub is_empty : {T : Type 0} → List T → Bool
is_empty [] = true
is_empty (x ∷ xs) = false

abbrev pub expand : {T : Type 0} → ItemFn T → Expansion T
expand f = record {
  attrs = f.attrs;
  exported_as_main = true;
  vis = f.vis;
  constness = f.constness;
  ident = f.ident;
  block = f.block;
}

unfoldable pub check_output :
    {T : Type 0} → ItemFn T → ReturnKind T → Result (Error T) (Expansion T)
check_output f missing = err must_never_return
check_output f (typed t) = err must_return_never
check_output f never = ok (expand f)

unfoldable pub modify_fn : {T : Type 0} → ItemFn T → Result (Error T) (Expansion T)
modify_fn f =
    if is_some f.asyncness
    then err cannot_be_async
    else (if is_some f.unsafety
        then err cannot_be_unsafe
        else (if is_some f.abi
            then err must_use_default_abi
            else (if is_empty f.params
                then (if is_empty f.inputs
                    then (if is_some f.variadic
                        then err cannot_be_variadic
                        else check_output f f.output)
                    else err cannot_have_parameters)
                else err cannot_have_generics)))

abbrev pub modify_parsed : {T : Type 0} → Result T (ItemFn T) → Result (Error T) (Expansion T)
modify_parsed (err e) = err (no_parse e)
modify_parsed (ok f) = modify_fn f

-- The attribute: its arguments, and the item that it stands on, read by the parser.
unfoldable pub main :
    {T : Type 0} → (List T → Result T (ItemFn T)) → List T → List T → Result (Error T) (Expansion T)
main parse args input =
    if is_empty args then modify_parsed (parse input) else err takes_no_arguments
