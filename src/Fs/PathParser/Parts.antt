-- ===== src/Fs/PathParser/Parts.antt =====
-- The loops of src/fs/pparser.c over the parts of a path.
use ra_os.Base.{
  ℕ, zero, suc, ◌+◌, ◌-◌, ◌≤◌, ◌<◌, ◌≡◌, refl, ◌≢◌, sym, ap, ◌∙◌, ◌==◌, if◌then◌else◌, none, some,
  List, [], ◌∷◌, ◌++◌, map, arith, length, replicate, Bool-cases, ◌>>=◌, ◌⊎◌, inl, inr,
  length-append, ==_of_ne, ne_of_==, eq_of_==, All, store, store-middle,
}
use mathlib.Core.Path.{ap₂}
use mathlib.Core.List.{append_assoc}
use ra_os.Strings.Length.{NonZero}
use ra_os.Fs.PathParser.{max_path, part_loop, get_path_part, parts_loop}

-- The bytes of a name: neither the end of the path nor a slash.
abbrev pub IsName : List ℕ → Type 0
IsName = All (λ c. (c ≢ 0x00) × (c ≢ b'/'))

-- The buffer that holds a name.
abbrev pub buffer_of : List ℕ → List ℕ
buffer_of name = name ++ replicate (max_path - length name) 0x00

-- A byte that ends a name.
abbrev pub Ends : ℕ → Type 0
Ends c = (c ≡ b'/') ⊎ (c ≡ 0x00)

part_loop-stop :
    (stop : ℕ) (after : List ℕ) (i : ℕ) (buffer : List ℕ)
    → Ends stop
    → part_loop (stop ∷ after) i buffer
      ≡ some (record { count = i; buffer = buffer; left = stop ∷ after })
unfolding part_loop
part_loop-stop stop after i buffer h = ground arith

part_loop-byte :
    (c : ℕ) (path : List ℕ) (i : ℕ) (buffer written : List ℕ)
    → c ≢ 0x00
    → c ≢ b'/'
    → store buffer i c ≡ some written
    → part_loop (c ∷ path) i buffer ≡ part_loop path (i + 1) written
unfolding part_loop
part_loop-byte c path i buffer written h k e = rw (==_of_ne c 0 h, ==_of_ne c b'/' k) (rw e refl)

part_loop-name :
    (s : List ℕ) (stop : ℕ) (after pre : List ℕ) (m i : ℕ)
    → IsName s
    → Ends stop
    → i ≡ length pre
    → length s ≤ m
    → part_loop (s ++ stop ∷ after) i (pre ++ replicate m 0x00)
      ≡ some (record {
        count = i + length s;
        buffer = pre ++ (s ++ replicate (m - length s) 0x00);
        left = stop ∷ after;
      })
part_loop-name [] stop after pre m i h e f k =
    part_loop-stop stop after i _ e
    ∙ ap₂
        (λ n j. some (record { count = n; buffer = pre ++ replicate j 0x00; left = stop ∷ after }))
        (omega arith) (omega arith)
part_loop-name (c ∷ s) stop after pre zero i h e f k = absurd (omega arith)
part_loop-name (c ∷ s) stop after pre (suc m) i h e f k =
    part_loop-byte c _ i _ _ h.0.0 h.0.1 (store-middle pre 0x00 c (replicate m 0x00) i f)
    ∙ ap (part_loop (s ++ stop ∷ after) (i + 1))
        (sym (append_assoc pre (c ∷ []) (replicate m 0x00)))
    ∙ part_loop-name s stop after (pre ++ c ∷ []) m (i + 1) h.1 e
        (omega (arith, length-append pre (c ∷ []))) (omega arith)
    ∙ ap₂ (λ n b. some (record { count = n; buffer = b; left = stop ∷ after })) (omega arith)
        (append_assoc pre (c ∷ []) _ ∙ ap (λ j. pre ++ (c ∷ (s ++ replicate j 0x00))) (omega arith))

-- What is left behind a name that ends in `stop`.
abbrev pub behind : ℕ → List ℕ → List ℕ
behind stop after = if stop == b'/' then after else stop ∷ after

-- `path_get_path_part` reads a name of at most 128 bytes up to the slash or zero byte that ends
-- it, into a buffer, and skips the slash; for an empty name it answers NULL.
pub get_path_part-name :
    (s : List ℕ) (stop : ℕ) (after : List ℕ)
    → IsName s
    → Ends stop
    → length s ≤ max_path
    → get_path_part (s ++ stop ∷ after)
      ≡ some (if length s == 0 then none else some (buffer_of s), behind stop after)
unfolding get_path_part
get_path_part-name s stop after h e k = rw (part_loop-name s stop after [] max_path 0 h e refl k) (
    ap (λ n. some (if n == 0 then none else some (buffer_of s), behind stop after))
      {x = 0 + length s} (omega arith))

-- The path that names a list of parts: the parts with slashes between them.
abbrev pub join : List (List ℕ) → List ℕ
join [] = []
join (name ∷ []) = name
join (name ∷ next ∷ names) = name ++ b'/' ∷ join (next ∷ names)

-- A part of a path is a name of at least one byte.
pub record IsPart (name : List ℕ) : Type 0 where
  pub bytes : IsName name
  pub filled : 0 < length name

parts_loop-end : (fuel : ℕ) (after : List ℕ) → 0 < fuel → parts_loop fuel (0x00 ∷ after) ≡ some []
unfolding parts_loop
parts_loop-end zero after h = absurd (omega arith)
parts_loop-end (suc fuel) after h =
    rw (get_path_part-name [] 0x00 after tt (inr refl) (omega arith), parts_loop) refl

parts_loop-part :
    (name : List ℕ) (stop : ℕ) (after : List ℕ) (fuel : ℕ)
    → IsPart name
    → Ends stop
    → length name ≤ max_path
    → parts_loop (suc fuel) (name ++ stop ∷ after)
      ≡ (parts_loop fuel (behind stop after) >>= λ parts. some (buffer_of name ∷ parts))
unfolding parts_loop
parts_loop-part name stop after fuel p e h =
    rw (get_path_part-name name stop after p.bytes e h, parts_loop)
      (rw (==_of_ne (length name) 0 (omega (arith, p.filled))) refl)

-- The loop reads the parts of a joined path in order, each into a buffer of its own.
pub parts_loop-join :
    (names : List (List ℕ)) (after : List ℕ) (fuel : ℕ)
    → All IsPart names
    → length (join names) ≤ max_path
    → length names < fuel
    → parts_loop fuel (join names ++ 0x00 ∷ after) ≡ some (map buffer_of names)
parts_loop-join names after zero h k f = absurd (omega arith)
parts_loop-join [] after (suc fuel) h k f = parts_loop-end (suc fuel) after (omega arith)
parts_loop-join (name ∷ []) after (suc fuel) h k f =
    parts_loop-part name 0x00 after fuel h.0 (inr refl) k
    ∙ ap (λ o. o >>= λ parts. some (buffer_of name ∷ parts))
        (parts_loop-end fuel after (omega arith))
parts_loop-join (name ∷ next ∷ names) after (suc fuel) h k f =
    let size = length-append name (b'/' ∷ join (next ∷ names)) in
    ap (parts_loop (suc fuel)) (append_assoc name (b'/' ∷ join (next ∷ names)) (0x00 ∷ after))
    ∙ parts_loop-part name b'/' _ fuel h.0 (inl refl) (omega arith)
    ∙ ap (λ o. o >>= λ parts. some (buffer_of name ∷ parts))
        (parts_loop-join (next ∷ names) after fuel h.1 (omega arith) (omega arith))

-- Any string is a name, or a name, a slash and a string.
pub break_at :
    (s : List ℕ)
    → NonZero s
    → IsName s
      ⊎ ((name : List ℕ) × (rest : List ℕ) × IsName name × NonZero rest × (s ≡ name ++ b'/' ∷ rest))
break_at [] h = inl tt
break_at (c ∷ s) h = elim (Bool-cases (c == b'/')) [
  | inl slash ↦ inr ([], s, tt, h.1, ap (λ x. x ∷ s) (eq_of_== c b'/' slash))
  | inr other ↦ elim (break_at s h.1) [
    | inl all ↦ inl ((h.0, ne_of_== c b'/' other), all)
    | inr (name, rest, good, nonzero, e) ↦
        inr (c ∷ name, rest, ((h.0, ne_of_== c b'/' other), good), nonzero, ap (λ t. c ∷ t) e)
  ]
]

-- An empty name ends the loop.
parts_loop-empty :
    (stop : ℕ) (after : List ℕ) (fuel : ℕ)
    → Ends stop
    → parts_loop (suc fuel) (stop ∷ after) ≡ some []
unfolding parts_loop
parts_loop-empty stop after fuel e =
    rw (get_path_part-name [] stop after tt e (omega arith), parts_loop) refl

-- One more name before a rest on which the loop ends with a result.
parts_loop-more :
    (name : List ℕ) (stop : ℕ) (after : List ℕ) (fuel : ℕ)
    → IsName name
    → Ends stop
    → length name ≤ max_path
    → (0 < length name
        → (parts : List (List ℕ)) × (parts_loop fuel (behind stop after) ≡ some parts))
    → (parts : List (List ℕ)) × (parts_loop (suc fuel) (name ++ stop ∷ after) ≡ some parts)
parts_loop-more [] stop after fuel h e k inner = ([], parts_loop-empty stop after fuel e)
parts_loop-more (c ∷ name) stop after fuel h e k inner =
    let (parts, done) = inner (omega arith) in
    (
      buffer_of (c ∷ name) ∷ parts,
      parts_loop-part (c ∷ name) stop after fuel (record { bytes = h; filled = omega arith }) e k
          ∙ ap (λ o. o >>= λ ps. some (buffer_of (c ∷ name) ∷ ps)) done,
    )

-- The loop ends with a result on every string that a buffer can hold, with fuel above its length.
pub parts_loop-total :
    (fuel : ℕ) (s after : List ℕ)
    → NonZero s
    → length s ≤ max_path
    → length s < fuel
    → (parts : List (List ℕ)) × (parts_loop fuel (s ++ 0x00 ∷ after) ≡ some parts)
parts_loop-total zero s after h k f = absurd (omega arith)
parts_loop-total (suc fuel) s after h k f = elim (break_at s h) [
  | inl all ↦
      parts_loop-more s 0x00 after fuel all (inr refl) k
        (λ filled. ([], parts_loop-end fuel after (omega arith)))
  | inr (name, rest, good, nonzero, e) ↦
      let size = ap length e ∙ length-append name (b'/' ∷ rest) in
      let (parts, done) =
        parts_loop-more name b'/' (rest ++ 0x00 ∷ after) fuel good (inl refl) (omega arith)
          (λ filled. parts_loop-total fuel rest after nonzero (omega arith) (omega arith)) in
      (
        parts,
        ap (parts_loop (suc fuel))
              (ap (λ t. t ++ 0x00 ∷ after) e ∙ append_assoc name (b'/' ∷ rest) (0x00 ∷ after))
            ∙ done,
      )
]
