-- ===== src/Memory/Paging/Release.antt =====
-- `paging_free_4gb` of src/memory/paging/paging.c: the tables, the directory and its chunk go back to the
-- heap.
use ra_os.Base.{ℕ, zero, suc, ◌+◌, ◌*◌, Option, some, ◌>>=◌, bit_and}
use ra_os.Memory.Heap.{HeapState, free}
use ra_os.Memory.Paging.{Ram, entries_per_table}

-- `rounds` entries of the directory are left, from index `i` on.
unfoldable pub free_tables : ℕ → HeapState → Ram → ℕ → ℕ → Option HeapState
unfolding free
free_tables zero heap ram directory i = some heap
free_tables (suc rounds) heap ram directory i = do
  heap' ← free heap (bit_and (ram (directory + 4 * i)) 0xfffff000)
  free_tables rounds heap' ram directory (i + 1)

-- `chunk` is the address of the `struct paging_4gb_chunk`.
unfoldable pub free_4gb : HeapState → Ram → ℕ → ℕ → Option HeapState
unfolding free_tables free
free_4gb heap ram directory chunk = do
  tables_freed ← free_tables entries_per_table heap ram directory 0
  directory_freed ← free tables_freed directory
  free directory_freed chunk
