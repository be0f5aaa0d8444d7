-- ===== src/Process/Arguments.antt =====
-- src/task/process.c: the arguments of a command, and how a process gets them. The objects that
-- `process_malloc` gives are kept apart: the array `argv` is a list of pointers, and a string is the
-- list of its bytes, found by its address. `none` is an access outside of an object or through a bad
-- pointer; a list of arguments that ends in a cycle uses up the fuel, which is `none` too.
pub mod Count
pub mod Inject
pub mod Refused
mod Tests
use ra_os.Base.{
  ℕ, zero, suc, ◌+◌, ◌*◌, ◌==◌, if◌then◌else◌, Bool, true, false, Option, none, some, List, ◌>>=◌,
  Result, ok, err, eio, enomem, replicate, store,
}
use ra_os.Strings.{strncpy}
use ra_os.Process.Memory.{Machine, process_malloc}

-- `struct command_argument`
pub record CommandArgument : Type 0 where
  pub argument : List ℕ
  pub next : Option ℕ

-- The arguments in memory, by address.
abbrev pub Commands : Type 0
Commands = ℕ → Option CommandArgument

-- `sizeof(current->argument)`
abbrev pub argument_size : ℕ
argument_size = 512

-- The loop of `process_count_command_arguments`, with `i` counted so far.
unfoldable pub count_loop : ℕ → Commands → Option ℕ → ℕ → Option ℕ
count_loop fuel commands none i = some i
count_loop zero commands (some current) i = none
count_loop (suc fuel) commands (some current) i = do
  command ← commands current
  count_loop fuel commands command.next (i + 1)

unfoldable pub process_count_command_arguments : ℕ → Commands → Option ℕ → Option ℕ
unfolding count_loop
process_count_command_arguments fuel commands root_argument =
    count_loop fuel commands root_argument 0

-- The process while it gets its arguments: its memory, the array `argv` and the strings.
pub record Injection : Type 0 where
  pub machine : Machine
  pub argv : List ℕ
  pub strings : ℕ → List ℕ

-- `struct process_arguments`: `argv` is the address of the array.
pub record ProcessArguments : Type 0 where
  pub argc : ℕ
  pub argv : ℕ

-- The loop of `process_inject_arguments`.
unfoldable pub inject_loop :
    ℕ → Commands → Option ℕ → ℕ → Injection → Option (Result (Unit {0}) × Injection)
unfolding process_malloc strncpy
inject_loop fuel commands none i injection = some (ok tt, injection)
inject_loop zero commands (some current) i injection = none
inject_loop (suc fuel) commands (some current) i injection = do
  command ← commands current
  (got, machine) ← process_malloc injection.machine argument_size
  elim got [
    | none ↦ some (err enomem, record injection { machine = machine })
    | some argument_str ↦ do
      copied ← strncpy (replicate argument_size 0) command.argument argument_size
      argv ← store injection.argv i argument_str
      inject_loop fuel commands command.next (i + 1) (record {
        machine = machine;
        argv = argv;
        strings = λ a. if a == argument_str then copied else injection.strings a;
      })
  ]

-- A pointer takes 4 bytes. With an error the arguments of the process stay as they are.
unfoldable pub process_inject_arguments :
    ℕ
    → Commands
    → Machine
    → (ℕ → List ℕ)
    → Option ℕ
    → ProcessArguments
    → Option (Result (Unit {0}) × Injection × ProcessArguments)
unfolding process_count_command_arguments inject_loop process_malloc
process_inject_arguments fuel commands machine strings root_argument arguments = do
  argc ← process_count_command_arguments fuel commands root_argument
  elim (argc == 0) [
    | true ↦
        some (
          err eio,
          record { machine = machine; argv = replicate 0 0; strings = strings },
          arguments,
        )
    | false ↦ do
      (got, machine') ← process_malloc machine (4 * argc)
      let injection : Injection = record {
        machine = machine';
        argv = replicate argc 0;
        strings = strings;
      }
      elim got [
        | none ↦ some (err enomem, injection, arguments)
        | some argv ↦ do
          (res, injected) ← inject_loop fuel commands root_argument 0 injection
          elim res [
            | err e ↦ some (err e, injected, arguments)
            | ok _ ↦ some (ok tt, injected, record { argc = argc; argv = argv })
          ]
      ]
  ]

-- `argc` and `argv` for the program.
unfoldable pub process_get_arguments : ProcessArguments → ℕ × ℕ
process_get_arguments arguments = (arguments.argc, arguments.argv)
