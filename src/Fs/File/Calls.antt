-- ===== src/Fs/File/Calls.antt =====
-- The calls `fopen` and `fclose`: what they do to the table of descriptors.
use ra_os.Base.{
  Outcome, done, failed, ◌++◌, Bool-cases, ◌==◌, ℕ, ◌+◌, ◌-◌, ◌<◌, ◌≡◌, ◌≢◌, refl, ap, ◌∙◌, sym,
  if◌then◌else◌, not, ◌||◌, Option, none, some, List, [], ◌∷◌, arith, Result, ok, err, ◌>>=◌, Error,
  subst, set, get_elem?, get_elem?-set_self, get_elem?-set_ne, ◌⊎◌, inl, inr,
}
use ra_os.Base.Int.{ℤ, pos, sub_ℕ}
use native.Mathlib.Decide.{ℕ_discrete}
use ra_os.Fs.File.{
  Descriptor, Table, Files, FileSystem, max_descriptors, new_descriptor, get_descriptor,
  free_descriptor, add_descriptor, open_descriptor, fclose, fopen, open_root, get_mode_by_string,
  FileMode, read_mode, write_mode, append_mode, invalid, join,
}
use ra_os.Fs.PathParser.{PathRoot, is_zero, parse}
use ra_os.Strings.{strncmp}
use ra_os.Strings.Length.{NonZero}
use ra_os.Fs.PathParser.Parse.{parse-total}
use ra_os.Fs.File.Table.{
  IsValid, set-IsValid, new_descriptor-ok, get_descriptor-pos, get_descriptor-out,
}

module _ {P : Type 0} where
  get_descriptor-set :
      (table : Table P) (i other : ℕ) (o : Option (Descriptor P))
      → other ≢ i + 1
      → get_descriptor (set table i o) (pos other) ≡ get_descriptor table (pos other)
  unfolding get_descriptor
  get_descriptor-set table i other o h = elim (ℕ_discrete other 0) [
    | yes e ↦ rw e
    | no n ↦ rw (get_elem?-set_ne table i (other - 1) o (omega arith))
  ]

  get_descriptor-set_self :
      (table : Table P) (i : ℕ) (o : Option (Descriptor P))
      → IsValid table
      → i + 1 < max_descriptors
      → get_descriptor (set table i o) (pos (i + 1)) ≡ o
  get_descriptor-set_self table i o valid k =
      get_descriptor-pos (set table i o) (i + 1) (omega arith) k
      ∙ ap (λ n. join (get_elem? (set table i o) n)) {x = i + 1 - 1} {y = i} (omega arith)
      ∙ ap join (get_elem?-set_self table i o (omega (arith, valid.size)))

  -- `table'` is `table` with the entry of the number `fd` replaced by `o`.
  pub record Changes (table table' : Table P) (fd : ℕ) (o : Option (Descriptor P)) : Type 0 where
    pub valid : IsValid table'
    pub this : fd < max_descriptors → get_descriptor table' (pos fd) ≡ o
    pub others :
        (other : ℕ)
        → other ≢ fd
        → get_descriptor table' (pos other) ≡ get_descriptor table (pos other)

  set-Changes :
      (table : Table P) (i : ℕ) (o : Option (Descriptor P))
      → IsValid table
      → i < max_descriptors
      → ((d : Descriptor P) → o ≡ some d → d.index ≡ i + 1)
      → Changes table (set table i o) (i + 1) o
  set-Changes table i o valid k keep = record {
    valid = set-IsValid table i o valid k keep;
    this = λ small. get_descriptor-set_self table i o valid small;
    others = λ other n. get_descriptor-set table i other o n;
  }

  abbrev pub number : Option (Descriptor P) → ℕ
  number none = 0
  number (some d) = d.index

  new_descriptor-Changes :
      (table table' : Table P) (p : P) (fd : ℕ)
      → IsValid table
      → new_descriptor table p ≡ ok (fd, table')
      → (0 < fd) × Changes table table' fd (some (record { index = fd; private_ = p }))
  new_descriptor-Changes table table' p fd valid h =
      let (i, first, e, e') = new_descriptor-ok table table' p fd h in
      let d : Descriptor P = record { index = i + 1; private_ = p } in
      let step : Changes table (set table i (some d)) (i + 1) (some d) =
        set-Changes table i (some d) valid (omega (arith, first.inside, valid.size))
          (λ d' k. sym (ap number k)) in
      (omega arith, rw (e', e) step)

free_descriptor-Changes :
    {P : Type 0} (table : Table P) (fd : ℕ) (d : Descriptor P)
    → IsValid table
    → get_descriptor table (pos fd) ≡ some d
    → Changes table (free_descriptor table d) fd none
unfolding free_descriptor
free_descriptor-Changes table fd d valid h =
    let (positive, small, here) = get_descriptor-out table fd d h in
    let e : d.index ≡ fd = valid.numbered (fd - 1) d here ∙ omega arith in
    subst (λ n. Changes table (set table (d.index - 1) none) n none) {x = d.index - 1 + 1} {y = fd}
      (omega arith) (set-Changes table (d.index - 1) none valid (omega arith) (λ d' k. cc))

strncmp-one :
    (m : ℕ) (str : List ℕ) (c : ℕ) → (r : ℤ) × (strncmp (m ∷ str) (c ∷ 0x00 ∷ []) 1 ≡ some r)
unfolding strncmp
strncmp-one m str c = elim (Bool-cases (m == c)) [
  | inr n ↦ (sub_ℕ m c, rw (n) refl)
  | inl e ↦ elim (Bool-cases (m == 0)) [
    | inl z ↦ (pos 0, rw (e, z) refl)
    | inr n ↦ (pos 0, rw (e, n) refl)
  ]
]

-- The first byte of the mode is enough.
get_mode_by_string-some :
    (m : ℕ) (mode_str : List ℕ)
    → (mode : FileMode) × (get_mode_by_string (m ∷ mode_str) ≡ some mode)
unfolding get_mode_by_string
get_mode_by_string-some m mode_str =
    let (r, e) = strncmp-one m mode_str b'r' in
    let (w, f) = strncmp-one m mode_str b'w' in
    let (a, g) = strncmp-one m mode_str b'a' in
    (
      if is_zero r
          then read_mode
          else if is_zero w
          then write_mode
          else if is_zero a
          then append_mode
          else invalid,
      rw (get_mode_by_string, e, f, g) refl,
    )

some_inj {ℓ} : {A : Type ℓ} {x y : A} → some x ≡ some y → x ≡ y
some_inj h = cc

-- `fopen` gave a new number, or 0 and left the table alone.
pub data Opened (fs : FileSystem) (files files' : Files fs.Private) (fd : ℕ) : Type 0 where
  refused : fd ≡ 0 → files' ≡ files → Opened fs files files' fd
  opened :
      (p : fs.Private)
      → 0 < fd
      → files'.mounted ≡ files.mounted
      → Changes files.table files'.table fd (some (record { index = fd; private_ = p }))
      → Opened fs files files' fd

module _ (fs : FileSystem) (files : Files fs.Private) (valid : IsValid files.table) where
  -- The result `r` of a call, as `Opened` reads it.
  abbrev IsOpened : ℕ × Files fs.Private → Type 0
  IsOpened r = Opened fs files r.1 r.0

  add_descriptor-IsOpened : (o : Outcome fs.Private) → IsOpened (add_descriptor fs files o)
  unfolding add_descriptor
  add_descriptor-IsOpened (failed e) = refused refl refl
  add_descriptor-IsOpened (done p) = added (new_descriptor files.table p) refl
    where
      added :
          (r : Result (ℕ × Table fs.Private))
          → new_descriptor files.table p ≡ r
          → IsOpened (elim r [
            | err e ↦ (0, files)
            | ok (fd, table) ↦ (fd, record files { table = table })
          ])
      added (err e) k = refused refl refl
      added (ok (n, table)) k =
          let (positive, changes) = new_descriptor-Changes files.table table p n valid k in
          opened p positive refl changes

  -- A call whose result is as `Opened` says.
  abbrev Gives : Option (ℕ × Files fs.Private) → Type 0
  Gives o =
      (fd : ℕ) × (files' : Files fs.Private) × (o ≡ some (fd, files')) × Opened fs files files' fd

  refused-Gives : Gives (some (0, files))
  refused-Gives = (0, files, refl, refused refl refl)

  open-Gives :
      (o : Option (Outcome fs.Private)) (r : Outcome fs.Private)
      → o ≡ some r
      → Gives (o >>= λ opened. some (add_descriptor fs files opened))
  open-Gives o r h =
      let (fd, files') = add_descriptor fs files r in
      (fd, files', rw (h, ◌>>=◌) refl, add_descriptor-IsOpened r)

  open_descriptor-Gives :
      (path : List (List ℕ)) (mode : FileMode) (r : Outcome fs.Private)
      → fs.open_path path mode ≡ some r
      → Gives (open_descriptor fs files path mode)
  unfolding open_descriptor
  open_descriptor-Gives path invalid r h = refused-Gives
  open_descriptor-Gives path read_mode r h = open-Gives (fs.open_path path read_mode) r h
  open_descriptor-Gives path write_mode r h = open-Gives (fs.open_path path write_mode) r h
  open_descriptor-Gives path append_mode r h = open-Gives (fs.open_path path append_mode) r h

  -- The file system answers for a path.
  abbrev Answers : List ℕ → List (List ℕ) → Type 0
  Answers mode_str path =
      (mode : FileMode)
      → get_mode_by_string mode_str ≡ some mode
      → (r : Outcome fs.Private) × (fs.open_path path mode ≡ some r)

  open_root-Gives :
      (drive_no : ℤ) (parts : List (List ℕ)) (m : ℕ) (mode_str : List ℕ)
      → Answers (m ∷ mode_str) parts
      → Gives (open_root fs files (record { drive_no = drive_no; parts = parts }) (m ∷ mode_str))
  unfolding open_root
  open_root-Gives drive_no [] m mode_str answers = refused-Gives
  open_root-Gives drive_no (part ∷ path) m mode_str answers =
      let (mode, e) = get_mode_by_string-some m mode_str in
      let (r, h) = answers mode e in
      elim (Bool-cases (not (is_zero drive_no) || not files.mounted)) [
        | inl t ↦ (0, files, rw t refl, refused refl refl)
        | inr f ↦
            let (fd, files', run, made) = open_descriptor-Gives (part ∷ path) mode r h in
            (fd, files', rw (f, e, ◌>>=◌) run, made)
      ]

  -- With a valid table of descriptors, `fopen` of a path that a zero byte ends returns, when the file
  -- system answers for the parts of that path in that mode. It either answers 0 and changes nothing,
  -- or answers a positive number and leaves a valid table, in which the number, if it is below 512,
  -- names the new descriptor, and every other number names what it named.
  pub fopen-Opened :
      (filename after : List ℕ) (m : ℕ) (mode_str : List ℕ)
      → NonZero filename
      → ((root : PathRoot)
          → parse (filename ++ 0x00 ∷ after) ≡ some (some root)
          → (mode : FileMode) → get_mode_by_string (m ∷ mode_str) ≡ some mode
          → (r : Outcome fs.Private) × (fs.open_path root.parts mode ≡ some r))
      → (fd : ℕ) × (files' : Files fs.Private) × (fopen fs files
            (filename ++ 0x00 ∷ after)
            (m ∷ mode_str)
          ≡ some (fd, files'))
        × Opened fs files files' fd
  unfolding fopen
  fopen-Opened filename after m mode_str h answers =
      let (root, e) = parse-total filename after h in found root e
    where
      found :
          (root : Option PathRoot)
          → parse (filename ++ 0x00 ∷ after) ≡ some root
          → Gives (fopen fs files (filename ++ 0x00 ∷ after) (m ∷ mode_str))
      found none e = (0, files, rw (fopen, e) refl, refused refl refl)
      found (some root) e =
          let (fd, files', run, made) =
            open_root-Gives root.drive_no root.parts m mode_str (answers root e) in
          (fd, files', rw (fopen, e) run, made)

  -- With a valid table, `fclose` of a number that names a descriptor frees its entry and no other
  -- when the file system closes the file, answers the file system's error and changes nothing when
  -- that is what it gets, and fails with it.
  pub fclose-Changes :
      (fd : ℕ) (d : Descriptor fs.Private)
      → get_descriptor files.table (pos fd) ≡ some d
      → ((fs.close d.private_ ≡ none) × (fclose fs files (pos fd) ≡ none))
        ⊎ ((e : Error) × (fs.close d.private_ ≡ some (err e))
            × (fclose fs files (pos fd) ≡ some (err e, files)))
        ⊎ ((table : Table fs.Private) × (fs.close d.private_ ≡ some (ok tt))
            × (fclose fs files (pos fd) ≡ some (ok tt, record files { table = table }))
            × Changes files.table table fd none)
  unfolding fclose
  fclose-Changes fd d h = closed (fs.close d.private_) refl
    where
      closed :
          (r : Option (Result (Unit {0})))
          → fs.close d.private_ ≡ r
          → ((fs.close d.private_ ≡ none) × (fclose fs files (pos fd) ≡ none))
            ⊎ ((e : Error) × (fs.close d.private_ ≡ some (err e))
                × (fclose fs files (pos fd) ≡ some (err e, files)))
            ⊎ ((table : Table fs.Private) × (fs.close d.private_ ≡ some (ok tt))
                × (fclose fs files (pos fd) ≡ some (ok tt, record files { table = table }))
                × Changes files.table table fd none)
      closed none k = inl (k, rw (fclose, h, k))
      closed (some (err e)) k = inr (inl (e, k, rw (fclose, h, k)))
      closed (some (ok u)) k = inr (
          inr (
            free_descriptor files.table d,
            k,
            rw (fclose, h, k),
            free_descriptor-Changes files.table fd d valid h,
          ))
