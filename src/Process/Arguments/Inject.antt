-- ===== src/Process/Arguments/Inject.antt =====
-- The arguments that a process gets.
use ra_os.Base.{
  ℕ, zero, suc, ◌+◌, ◌-◌, ◌*◌, ◌≤◌, ◌<◌, ◌≡◌, refl, ◌∙◌, ap, subst, sym, ◌==◌, if◌then◌else◌, false,
  Option, some, some_eq, List, [], ◌∷◌, ◌++◌, ◌>>=◌, ok, length, get_elem?, replicate, take, drop,
  min, arith, store-middle, ==_of_eq, ==_of_ne, length-replicate, length-append,
}
use mathlib.Core.List.{append_assoc}
use ra_os.Strings.{strncpy}
use ra_os.Strings.Copy.{strncpy_lem}
use ra_os.Strings.Length.{NonZero}
use ra_os.Task.Links.{has}
use ra_os.Process.Memory.{Machine, process_malloc}
use ra_os.Process.Arguments.{
  Commands, argument_size, Injection, ProcessArguments, inject_loop, process_inject_arguments,
}
use ra_os.Process.Arguments.Count.{Chain, finish, link, process_count_command_arguments-length}

-- A string of an argument in its own object.
abbrev pub padded : List ℕ → List ℕ
padded s = s ++ 0 ∷ replicate (511 - length s) 0

drop-replicate : (n m : ℕ) → drop {A = ℕ} n (replicate m 0) ≡ replicate (m - n) 0
drop-replicate zero m = ap (λ k. replicate k 0) (omega arith)
drop-replicate (suc n) zero = ap (λ k. replicate k 0) {x = 0} (omega arith)
drop-replicate (suc n) (suc m) = drop-replicate n m ∙ ap (λ k. replicate k 0) (omega arith)

take_all : (n : ℕ) (s : List ℕ) → length s ≤ n → take n s ≡ s
take_all zero [] h = refl
take_all zero (c ∷ s) h = absurd (omega arith)
take_all (suc n) [] h = refl
take_all (suc n) (c ∷ s) h = ap (λ r. c ∷ r) (take_all n s (omega arith))

strncpy-padded :
    (s after : List ℕ)
    → NonZero s
    → length s < argument_size
    → strncpy (replicate argument_size 0) (s ++ 0 ∷ after) argument_size ≡ some (padded s)
strncpy-padded s after text short =
    let room : 512 ≡ length {A = ℕ} (replicate argument_size 0) =
      sym (length-replicate {A = ℕ} argument_size 0) in
    let whole : take 511 s ≡ s = take_all 511 s (omega arith) in
    let left : drop {A = ℕ} (min 511 (length s) + 1) (replicate 512 0)
        ≡ replicate (511 - length s) 0 =
      drop-replicate (min 511 (length s) + 1) 512
      ∙ ap (λ k. replicate k 0) {x = 512 - (min 511 (length s) + 1)} {y = 511 - length s}
          (omega arith) in
    strncpy_lem s after (replicate argument_size 0) argument_size text (omega (arith, room))
    ∙ ap (λ t. some (t ++ 0 ∷ drop (min 511 (length s) + 1) (replicate 512 0))) whole
    ∙ ap (λ t. some (s ++ 0 ∷ t)) left

-- Calls of `process_malloc` for strings that succeed, with the addresses that they give.
pub data Grants : Machine → List ℕ → Machine → Type 0 where
  done : (machine : Machine) → Grants machine [] machine
  grant :
      (machine machine' machine'' : Machine) (p : ℕ) (ps : List ℕ)
      → process_malloc machine argument_size ≡ some (some p, machine')
      → Grants machine' ps machine''
      → Grants machine (p ∷ ps) machine''

-- The strings after the copies.
written : List ℕ → List (List ℕ) → (ℕ → List ℕ) → ℕ → List ℕ
written [] ss strings = strings
written (p ∷ ps) [] strings = strings
written (p ∷ ps) (s ∷ ss) strings = written ps ss (λ a. if a == p then padded s else strings a)

pub inject_step :
    (fuel current i p : ℕ) (next : Option ℕ) (s after pre argv : List ℕ) (commands : Commands)
    (injection : Injection) (machine : Machine)
    → commands current ≡ some (record { argument = s ++ 0 ∷ after; next = next })
    → NonZero s
    → length s < argument_size
    → process_malloc injection.machine argument_size ≡ some (some p, machine)
    → injection.argv ≡ pre ++ 0 ∷ argv
    → i ≡ length pre
    → inject_loop (suc fuel) commands (some current) i injection
      ≡ inject_loop fuel commands next (i + 1) (record {
        machine = machine;
        argv = pre ++ p ∷ argv;
        strings = λ a. if a == p then padded s else injection.strings a;
      })
unfolding inject_loop
inject_step fuel current i p next s after pre argv commands injection machine at text short got have
      here =
    rw
      (
        at,
        ◌>>=◌,
        got,
        ◌>>=◌,
        strncpy-padded s after text short,
        have,
        store-middle pre 0 p argv i here,
      )
      refl

inject_loop-written :
    (commands : Commands) (fuel : ℕ) (root : Option ℕ) (ss : List (List ℕ)) (i : ℕ)
    (pre ps : List ℕ) (injection : Injection) (machine : Machine)
    → Chain commands root ss
    → length ss ≤ fuel
    → Grants injection.machine ps machine
    → length ps ≡ length ss
    → injection.argv ≡ pre ++ replicate (length ss) 0
    → i ≡ length pre
    → inject_loop fuel commands root i injection
      ≡ some (
        ok tt,
        record { machine = machine; argv = pre ++ ps; strings = written ps ss injection.strings },
      )
unfolding inject_loop written
inject_loop-written commands fuel _ _ i pre _ injection _ finish enough (done machine) same have
      here =
    ap (λ a. some (ok tt, record injection { argv = a })) have
inject_loop-written commands fuel _ _ i pre _ injection _ finish enough
      (grant m m' m'' p ps got grants) same have here =
    absurd (omega arith)
inject_loop-written commands fuel _ _ i pre _ injection _
      (link current next s after ss at text short rest) enough (done machine) same have here =
    absurd (omega arith)
inject_loop-written commands zero _ _ i pre _ injection _
      (link current next s after ss at text short rest) enough (grant m m' m'' p ps got grants) same
      have here =
    absurd (omega arith)
inject_loop-written commands (suc fuel) _ _ i pre _ injection _
      (link current next s after ss at text short rest) enough (grant m m' m'' p ps got grants) same
      have here =
    inject_step fuel current i p next s after pre (replicate (length ss) 0) commands injection m' at
      text short got have here
    ∙ inject_loop-written commands fuel next ss (i + 1) (pre ++ (p ∷ [])) ps
        (record {
          machine = m';
          argv = pre ++ p ∷ replicate (length ss) 0;
          strings = λ a. if a == p then padded s else injection.strings a;
        })
        m'' rest (omega arith) grants (omega arith)
        (sym (append_assoc pre (p ∷ []) (replicate (length ss) 0)))
        (omega (arith, length-append pre (p ∷ [])))
    ∙ ap
        (λ a. some (
          ok tt,
          record {
            machine = m'';
            argv = a;
            strings = written ps ss (λ b. if b == p then padded s else injection.strings b);
          },
        ))
        (append_assoc pre (p ∷ []) ps)

-- No address stands twice.
abbrev pub Distinct : List ℕ → Type 0
Distinct [] = Unit
Distinct (p ∷ ps) = (has p ps ≡ false) × Distinct ps

written_other :
    (ps : List ℕ) (ss : List (List ℕ)) (strings : ℕ → List ℕ) (a : ℕ)
    → has a ps ≡ false
    → written ps ss strings a ≡ strings a
unfolding written
written_other [] ss strings a absent = refl
written_other (p ∷ ps) [] strings a absent = refl
written_other (p ∷ ps) (s ∷ ss) strings a absent =
    let here : (a == p) ≡ false = ground (arith, absent) in
    written_other ps ss (λ b. if b == p then padded s else strings b) a (ground (arith, absent))
    ∙ rw here refl

written_at :
    (ps : List ℕ) (ss : List (List ℕ)) (strings : ℕ → List ℕ) (k p : ℕ) (s : List ℕ)
    → Distinct ps
    → get_elem? ps k ≡ some p
    → get_elem? ss k ≡ some s
    → written ps ss strings p ≡ padded s
unfolding written
written_at [] ss strings k p s distinct at have = absurd (ground (arith, at))
written_at (q ∷ ps) [] strings k p s distinct at have = absurd (ground (arith, have))
written_at (q ∷ ps) (t ∷ ss) strings zero p s distinct at have =
    let same : q ≡ p = some_eq at in
    let text : padded t ≡ padded s = ap padded (some_eq have) in
    let gone : has p ps ≡ false = subst (λ a. has a ps ≡ false) same distinct.0 in
    written_other ps ss (λ b. if b == q then padded t else strings b) p gone
    ∙ rw (==_of_eq p q (sym same)) text
written_at (q ∷ ps) (t ∷ ss) strings (suc k) p s distinct at have =
    written_at ps ss (λ b. if b == q then padded t else strings b) k p s distinct.1 at have

-- A process gets the arguments of a command: when `process_malloc` gives an array for a list of at
-- least one argument, whose strings are shorter than 512 bytes, and an object for each of them, all at
-- different addresses, the call succeeds, `argc` is the number of arguments, and entry `k` of `argv`
-- points to string `k`, followed by zero bytes up to the end of its object. One round of fuel for each
-- argument is enough.
pub process_inject_arguments_lem :
    (fuel : ℕ) (commands : Commands) (machine machine1 machine2 : Machine) (strings : ℕ → List ℕ)
    (root : Option ℕ) (arguments : ProcessArguments) (ss : List (List ℕ)) (argv : ℕ) (ps : List ℕ)
    → Chain commands root ss
    → 0 < length ss
    → length ss ≤ fuel
    → process_malloc machine (4 * length ss) ≡ some (some argv, machine1)
    → Grants machine1 ps machine2
    → length ps ≡ length ss
    → Distinct ps
    → (injected : Injection) × (process_inject_arguments fuel commands machine strings root
          arguments
        ≡ some (ok tt, injected, record { argc = length ss; argv = argv }))
      × (injected.machine ≡ machine2)
      × (injected.argv ≡ ps)
      × ((k p : ℕ) (s : List ℕ)
          → get_elem? ps k ≡ some p
          → get_elem? ss k ≡ some s
          → injected.strings p ≡ padded s)
unfolding process_inject_arguments
process_inject_arguments_lem fuel commands machine machine1 machine2 strings root arguments ss argv
      ps chain some_argument enough got grants same distinct =
    let counted = process_count_command_arguments-length fuel commands root ss chain enough in
    let test : (length ss == 0) ≡ false = ==_of_ne (length ss) 0 (λ e. omega (arith, e)) in
    let looped =
      inject_loop-written commands fuel root ss 0 [] ps
        (record { machine = machine1; argv = replicate (length ss) 0; strings = strings }) machine2
        chain enough grants same refl refl in
    (
      record { machine = machine2; argv = ps; strings = written ps ss strings },
      rw (process_inject_arguments, counted, ◌>>=◌, test, got, ◌>>=◌, looped, ◌>>=◌) refl,
      refl,
      refl,
      λ k p s at have. written_at ps ss strings k p s distinct at have,
    )
