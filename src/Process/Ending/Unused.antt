-- ===== src/Process/Ending/Unused.antt =====
-- A process that has an entry which is not in use.
use ra_os.Base.{ℕ, ◌^◌, ◌≤◌, ◌<◌, ◌≡◌, refl, none, some, get_elem?, All, ◌>>=◌}
use ra_os.Memory.Heap.{block_size}
use ra_os.Process.Memory.{max_program_allocations}
use ra_os.Process.Memory.Terminate.{IsClean, unused, process_terminate_allocations-null}
use ra_os.Process.Ending.{Running, process_terminate}

-- A process with an entry that is not in use cannot be terminated: freeing its allocations frees NULL
-- for that entry, which writes before the table of the heap. The heap starts above its first 4096
-- bytes and below 2 GiB, and the entries without a pointer have no size.
pub process_terminate-null :
    (running : Running) (k : ℕ)
    → block_size ≤ running.machine.heap.saddr
    → running.machine.heap.saddr ≤ 2 ^ 31
    → All IsClean running.machine.allocations
    → k < max_program_allocations
    → get_elem? running.machine.allocations k ≡ some unused
    → process_terminate running ≡ none
unfolding process_terminate
process_terminate-null running k above below clean inside entry =
    rw
      (
        process_terminate,
        process_terminate_allocations-null running.machine k above below clean inside entry,
        ◌>>=◌,
      )
      refl
