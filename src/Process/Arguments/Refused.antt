-- ===== src/Process/Arguments/Refused.antt =====
-- A process that cannot get its arguments.
use ra_os.Base.{
  ℕ, zero, suc, ◌+◌, ◌*◌, ◌≤◌, ◌<◌, ◌≡◌, refl, ◌∙◌, sym, ◌==◌, if◌then◌else◌, false, Option, none,
  some, List, [], ◌∷◌, ◌++◌, ◌>>=◌, err, eio, enomem, length, replicate, length-append, arith,
  ==_of_ne,
}
use mathlib.Core.List.{append_assoc}
use ra_os.Process.Memory.{Machine, process_malloc}
use ra_os.Process.Arguments.{
  Commands, argument_size, Injection, ProcessArguments, inject_loop, process_inject_arguments,
}
use ra_os.Process.Arguments.Count.{Chain, finish, link, process_count_command_arguments-length}
use ra_os.Process.Arguments.Inject.{padded, Grants, done, grant, inject_step}

-- Where `process_malloc` gives no object for a string after those before.
stopped_run :
    (fuel current i : ℕ) (argument : List ℕ) (next : Option ℕ) (commands : Commands)
    (injection : Injection) (machine : Machine)
    → commands current ≡ some (record { argument = argument; next = next })
    → process_malloc injection.machine argument_size ≡ some (none, machine)
    → inject_loop (suc fuel) commands (some current) i injection
      ≡ some (err enomem, record injection { machine = machine })
unfolding inject_loop
stopped_run fuel current i argument next commands injection machine at got =
    rw (at, ◌>>=◌, got, ◌>>=◌) refl

inject_loop-enomem :
    (commands : Commands) (fuel : ℕ) (root : Option ℕ) (ss : List (List ℕ)) (i : ℕ)
    (pre ps : List ℕ) (injection : Injection) (machine machine' : Machine)
    → Chain commands root ss
    → length ss ≤ fuel
    → Grants injection.machine ps machine
    → length ps < length ss
    → process_malloc machine argument_size ≡ some (none, machine')
    → injection.argv ≡ pre ++ replicate (length ss) 0
    → i ≡ length pre
    → (injected : Injection) × (inject_loop fuel commands root i injection
        ≡ some (err enomem, injected))
      × (injected.machine ≡ machine')
inject_loop-enomem commands zero _ _ i pre ps injection machine machine' finish enough grants fewer
      refused have here =
    absurd (omega arith)
inject_loop-enomem commands (suc fuel) _ _ i pre ps injection machine machine' finish enough grants
      fewer refused have here =
    absurd (omega arith)
inject_loop-enomem commands zero _ _ i pre ps injection machine machine'
      (link current next s after ss at text short rest) enough grants fewer refused have here =
    absurd (omega arith)
inject_loop-enomem commands (suc fuel) _ _ i pre _ injection _ machine'
      (link current next s after ss at text short rest) enough (done m) fewer refused have here =
    (
      record injection { machine = machine' },
      stopped_run fuel current i (s ++ 0 ∷ after) next commands injection machine' at refused,
      refl,
    )
inject_loop-enomem commands (suc fuel) _ _ i pre _ injection _ machine'
      (link current next s after ss at text short rest) enough (grant m m' m'' p ps got grants)
      fewer refused have here =
    let (injected, looped, same) =
      inject_loop-enomem commands fuel next ss (i + 1) (pre ++ (p ∷ [])) ps
        (record {
          machine = m';
          argv = pre ++ p ∷ replicate (length ss) 0;
          strings = λ a. if a == p then padded s else injection.strings a;
        })
        m'' machine' rest (omega arith) grants (omega arith) refused
        (sym (append_assoc pre (p ∷ []) (replicate (length ss) 0)))
        (omega (arith, length-append pre (p ∷ []))) in
    (
      injected,
      inject_step fuel current i p next s after pre (replicate (length ss) 0) commands injection m'
            at text short got have here
          ∙ looped,
      same,
    )

-- Without an argument the result is EIO, and nothing changes.
pub process_inject_arguments-eio :
    (fuel : ℕ) (commands : Commands) (machine : Machine) (strings : ℕ → List ℕ)
    (arguments : ProcessArguments)
    → process_inject_arguments fuel commands machine strings none arguments
      ≡ some (err eio, record { machine = machine; argv = []; strings = strings }, arguments)
unfolding process_inject_arguments
process_inject_arguments-eio fuel commands machine strings arguments = refl

-- When `process_malloc` gives the array and objects for fewer strings than there are, and then none, the
-- result is ENOMEM, and the arguments of the process stay as they were. What it gave before stays with
-- the process.
pub process_inject_arguments-enomem :
    (fuel : ℕ) (commands : Commands) (machine machine1 machine2 machine3 : Machine)
    (strings : ℕ → List ℕ) (root : Option ℕ) (arguments : ProcessArguments) (ss : List (List ℕ))
    (argv : ℕ) (ps : List ℕ)
    → Chain commands root ss
    → length ss ≤ fuel
    → process_malloc machine (4 * length ss) ≡ some (some argv, machine1)
    → Grants machine1 ps machine2
    → length ps < length ss
    → process_malloc machine2 argument_size ≡ some (none, machine3)
    → (injected : Injection) × (process_inject_arguments fuel commands machine strings root
          arguments
        ≡ some (err enomem, injected, arguments))
      × (injected.machine ≡ machine3)
unfolding process_inject_arguments
process_inject_arguments-enomem fuel commands machine machine1 machine2 machine3 strings root
      arguments ss argv ps chain enough got grants fewer refused =
    let counted = process_count_command_arguments-length fuel commands root ss chain enough in
    let test : (length ss == 0) ≡ false = ==_of_ne (length ss) 0 (λ e. omega (arith, e)) in
    let (injected, looped, same) =
      inject_loop-enomem commands fuel root ss 0 [] ps
        (record { machine = machine1; argv = replicate (length ss) 0; strings = strings }) machine2
        machine3 chain enough grants fewer refused refl refl in
    (
      injected,
      rw (process_inject_arguments, counted, ◌>>=◌, test, got, ◌>>=◌, looped, ◌>>=◌) refl,
      same,
    )
