-- ===== src/Fs/Mount/Resolve.antt =====
-- Inserting a file system into a table that has room, and finding it for a disk.
use ra_os.Base.{
  ℕ, zero, suc, ◌+◌, ◌≡◌, ◌∙◌, ap, refl, true, false, none, some, List, [], ◌∷◌, replicate, ◌++◌,
  set, arith,
}
use ra_os.Base.Int.{ℤ}
use ra_os.Fs.PathParser.{is_zero}
use ra_os.Fs.Mount.{Systems, get_free_filesystem, insert_filesystem, resolve}

-- The file systems `known` fill the table's first entries, and `room` entries are free.
abbrev pub table_of : {F : Type 0} → List F → ℕ → Systems F
table_of [] room = replicate room none
table_of (fs ∷ known) room = some fs ∷ table_of known room

get_free_filesystem-table_of :
    {F : Type 0} (known : List F) (room i : ℕ)
    → (k : ℕ) × (get_free_filesystem (table_of known (suc room)) i ≡ some (i + k))
      × ((fs : F) → set (table_of known (suc room)) k (some fs) ≡ table_of (known ++ fs ∷ []) room)
unfolding get_free_filesystem
get_free_filesystem-table_of [] room i = (0, ap some (omega arith), λ fs. refl)
get_free_filesystem-table_of (g ∷ known) room i =
    let (k, found, placed) = get_free_filesystem-table_of known room (i + 1) in
    (suc k, found ∙ ap some (omega arith), λ fs. ap (λ t. some g ∷ t) (placed fs))

-- `fs_insert_filesystem` puts a file system behind those of a table that has a free entry.
pub insert_filesystem-table_of :
    {F : Type 0} (known : List F) (fs : F) (room : ℕ)
    → insert_filesystem (table_of known (suc room)) fs ≡ some (table_of (known ++ fs ∷ []) room)
unfolding insert_filesystem
insert_filesystem-table_of known fs room =
    let (k, found, placed) = get_free_filesystem-table_of known room 0 in
    rw (insert_filesystem, found)
      (ap (λ j. some (set (table_of known (suc room)) j (some fs))) (omega arith)
        ∙ ap some (placed fs))

-- The file systems refuse the disk one after the other, and leave it as `disk'`.
pub data Refuse {F D : Type 0} (try : F → D → ℤ × D) : List F → D → D → Type 0 where
  done : (disk : D) → Refuse try [] disk disk
  refuse :
      (fs : F) (known : List F) (disk next disk' : D) (res : ℤ)
      → try fs disk ≡ (res, next)
      → is_zero res ≡ false
      → Refuse try known next disk'
      → Refuse try (fs ∷ known) disk disk'

resolve-free :
    {F D : Type 0} (try : F → D → ℤ × D) (room : ℕ) (disk : D)
    → resolve try (replicate room none) disk ≡ (none, disk)
unfolding resolve
resolve-free try zero disk = refl
resolve-free try (suc room) disk = resolve-free try room disk

resolve-accept :
    {F D : Type 0} (try : F → D → ℤ × D) (fs : F) (systems : Systems F) (disk bound : D) (res : ℤ)
    → try fs disk ≡ (res, bound)
    → is_zero res ≡ true
    → resolve try (some fs ∷ systems) disk ≡ (some fs, bound)
unfolding resolve
resolve-accept try fs systems disk bound res e z =
    rw (resolve, ap (λ r. r.0) e, z) (ap (λ r. (some fs, r.1)) e)

resolve-refuse :
    {F D : Type 0} (try : F → D → ℤ × D) (fs : F) (systems : Systems F) (disk next : D) (res : ℤ)
    → try fs disk ≡ (res, next)
    → is_zero res ≡ false
    → resolve try (some fs ∷ systems) disk ≡ resolve try systems next
unfolding resolve
resolve-refuse try fs systems disk next res e z =
    rw (resolve, ap (λ r. r.0) e, z) (ap (λ r. resolve try systems r.1) e)

-- `fs_resolve` binds a disk to none when all file systems of the table refuse it.
resolve-none :
    {F D : Type 0} (try : F → D → ℤ × D) (known : List F) (disk disk' : D) (room : ℕ)
    → Refuse try known disk disk'
    → resolve try (table_of known room) disk ≡ (none, disk')
resolve-none try known disk disk' room (done _) = resolve-free try room disk
resolve-none try known disk disk' room (refuse fs rest _ next _ res e z more) =
    resolve-refuse try fs _ disk next res e z ∙ resolve-none try rest next disk' room more

-- `fs_resolve` binds a disk to the first file system of the table that accepts it, once those before
-- it have refused it one after the other.
pub resolve-first :
    {F D : Type 0} (try : F → D → ℤ × D) (front back : List F) (fs : F) (disk disk' bound : D)
    (room : ℕ) (res : ℤ)
    → Refuse try front disk disk'
    → try fs disk' ≡ (res, bound)
    → is_zero res ≡ true
    → resolve try (table_of (front ++ fs ∷ back) room) disk ≡ (some fs, bound)
resolve-first try front back fs disk disk' bound room res (done _) e z =
    resolve-accept try fs _ disk bound res e z
resolve-first try front back fs disk disk' bound room res (refuse g rest _ next _ r f y more) e z =
    resolve-refuse try g _ disk next r f y
    ∙ resolve-first try rest back fs next disk' bound room res more e z
