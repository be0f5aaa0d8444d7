-- ===== src/Process/Slots.antt =====
-- The array of processes.
use ra_os.Base.{
  ℕ, zero, suc, ◌+◌, ◌<◌, ◌≡◌, ◌≢◌, refl, ◌∙◌, sym, ap, if◌then◌else◌, leb, Option, none, some,
  List, [], ◌∷◌, ok, set, get_elem?, length, get_elem?-set_self, get_elem?-set_ne, arith, ==_of_eq,
}
use ra_os.Base.Int.{pos}
use ra_os.Process.{
  Processes, join, max_processes, process_get, free_slot_loop, process_get_free_slot, first_process,
  process_switch, process_switch_to_any, process_unlink,
}

free_slot :
    (processes : List (Option ℕ)) (i k : ℕ)
    → get_elem? processes k ≡ some none
    → (n : ℕ) × (free_slot_loop processes i ≡ ok (i + n))
      × (get_elem? processes n ≡ some none)
      × (n < length processes)
unfolding free_slot_loop
free_slot [] i k h = absurd (ground (arith, h))
free_slot (none ∷ processes) i k h = (0, ap ok (omega arith), refl, omega arith)
free_slot (some p ∷ processes) i zero h = absurd (ground (arith, h))
free_slot (some p ∷ processes) i (suc k) h =
    let (n, found, empty, inside) = free_slot processes (i + 1) k h in
    (suc n, found ∙ ap ok (omega arith), empty, omega arith)

get_at :
    (table : Processes) (i : ℕ)
    → i < max_processes
    → process_get table (pos i) ≡ join (get_elem? table.processes i)
unfolding process_get
get_at table i h = ground arith

-- What loading program `p` into slot `n` does: the slot was free, the program is there afterwards, and
-- every other slot and the current process stay.
abbrev pub Loaded : Processes → ℕ → ℕ → Processes → Type 0
Loaded table n p table' =
    (process_get table (pos n) ≡ none)
    × (process_get table' (pos n) ≡ some p)
    × ((j : ℕ) → j ≢ n → process_get table' (pos j) ≡ process_get table (pos j))
    × (table'.current_process ≡ table.current_process)

-- A free entry of the 12 is found.
pub free_slot_found :
    (table : Processes) (k : ℕ)
    → length table.processes ≡ max_processes
    → get_elem? table.processes k ≡ some none
    → (n : ℕ) × (process_get_free_slot table ≡ ok n)
      × (process_get table (pos n) ≡ none)
      × (n < length table.processes)
unfolding process_get_free_slot
free_slot_found table k size free =
    let (n, found, empty, inside) = free_slot table.processes 0 k free in
    (n, found ∙ ap ok (omega arith), get_at table n (omega (arith, size)) ∙ ap join empty, inside)

pub set-Loaded :
    (table : Processes) (n p : ℕ)
    → length table.processes ≡ max_processes
    → n < length table.processes
    → process_get table (pos n) ≡ none
    → Loaded table n p (record table { processes = set table.processes n (some p) })
unfolding process_get
set-Loaded table n p size inside empty =
    let table' : Processes = record table { processes = set table.processes n (some p) } in
    (
      empty,
      get_at table' n (omega (arith, size))
          ∙ ap join (get_elem?-set_self table.processes n (some p) inside),
      λ j other.
          ap (λ o. if leb max_processes j then none else join o)
            (get_elem?-set_ne table.processes n j (some p) (λ e. other (sym e))),
      refl,
    )

first_live :
    (processes : List (Option ℕ)) (k q : ℕ)
    → get_elem? processes k ≡ some (some q)
    → (c : ℕ) × (j : ℕ) × (first_process processes ≡ some c)
      × (get_elem? processes j ≡ some (some c))
unfolding first_process
first_live [] k q h = absurd (ground (arith, h))
first_live (some p ∷ processes) k q h = (p, 0, refl, refl)
first_live (none ∷ processes) zero q h = absurd (ground (arith, h))
first_live (none ∷ processes) (suc k) q h =
    let (c, j, first, at) = first_live processes k q h in (c, suc j, first, at)

-- Unlinking the current process `p` of slot `id`, with another process in slot `k`, empties the slot
-- alone and makes a process of the array the current one.
pub process_unlink-current :
    (table : Processes) (p id k q : ℕ)
    → table.current_process ≡ some p
    → id < length table.processes
    → k ≢ id
    → get_elem? table.processes k ≡ some (some q)
    → (table' : Processes) × (c : ℕ) × (j : ℕ) × (process_unlink table p id ≡ some table')
      × (get_elem? table'.processes id ≡ some none)
      × ((i : ℕ) → i ≢ id → get_elem? table'.processes i ≡ get_elem? table.processes i)
      × (table'.current_process ≡ some c)
      × (get_elem? table'.processes j ≡ some (some c))
unfolding process_unlink process_switch_to_any process_switch
process_unlink-current table p id k q current inside other at =
    let rest = set table.processes id none in
    let (c, j, first, live) =
      first_live rest k q (get_elem?-set_ne table.processes id k none (λ e. other (sym e)) ∙ at) in
    (
      record { processes = rest; current_process = some c },
      c,
      j,
      ground (arith, current, first, ==_of_eq p p refl),
      get_elem?-set_self table.processes id none inside,
      λ i differs. get_elem?-set_ne table.processes id i none (λ e. differs (sym e)),
      refl,
      live,
    )
