-- ===== src/Terminal/Print.antt =====
-- What `print` shows, and where the cursor is afterwards.
use ra_os.Base.{
  ℕ, ◌+◌, ◌*◌, ◌^◌, ◌≤◌, ◌<◌, ◌≡◌, ◌≢◌, refl, ap, ◌∙◌, ◌==◌, if◌then◌else◌, List, [], ◌∷◌, arith,
  ==_of_eq, ==_of_ne, length, All, some, leb, ◌>>=◌, lt→ltb, true, false,
}
use native.Mathlib.Decide.{ℕ_discrete, dec_lt}
use ra_os.Base.Bits.{bit_or-parts}
use ra_os.Terminal.{Terminal, vga_width, next16, make_char, putchar, writechar, print}

-- The index of the cell at the cursor.
abbrev pub cursor : Terminal → ℕ
cursor t = t.row * vga_width + t.col

-- The cells of the screen: 80 columns and 20 rows.
abbrev pub screen : ℕ
screen = 1600

-- The cursor stands in a line.
abbrev pub IsInLine : Terminal → Type 0
IsInLine t = t.col < vga_width

-- A character of plain text: 7 bits, and no end of line.
abbrev pub IsPlain : ℕ → Type 0
IsPlain c = (c < 128) × (c ≢ b'\n')

-- A cell holds the color in its upper byte and the 7-bit character in its lower byte.
pub make_char_lem : (ch color : ℕ) → ch < 128 → color < 256 → make_char ch color ≡ color * 256 + ch
unfolding make_char
make_char_lem ch color h k = ground (arith, bit_or-parts 8 color ch)

at_end : (col : ℕ) → vga_width ≤ col → leb vga_width col ≡ true
at_end col h = ground arith

in_line : (col : ℕ) → col < vga_width → leb vga_width col ≡ false
in_line col h = ground arith

-- A plain character is shown at the cursor, which is on the screen, the cursor moves on by one cell, and
-- every other cell stays as it is.
pub writechar-plain :
    (t : Terminal) (c color : ℕ)
    → IsInLine t
    → IsPlain c
    → color < 256
    → cursor t < screen
    → (t' : Terminal) × (writechar t c color ≡ some t')
      × IsInLine t'
      × (cursor t' ≡ cursor t + 1)
      × ((i : ℕ) → t'.video_mem i ≡ (if i == cursor t then color * 256 + c else t.video_mem i))
unfolding writechar putchar
writechar-plain t c color h p k s =
    let inside = lt→ltb (cursor t) screen s in
    let text = ==_of_ne c b'\n' p.1 in
    let cell : make_char c color ≡ color * 256 + c = make_char_lem c color p.0 k in
    let drawn : ℕ → ℕ = λ i. if i == cursor t then make_char c color else t.video_mem i in
    let shows = λ (i : ℕ). ap (λ (v : ℕ). if i == cursor t then v else t.video_mem i) cell in
    elim (dec_lt (next16 t.col) vga_width) [
      | no last ↦ (
        record t { video_mem = drawn; row = next16 t.row; col = 0 },
        rw (writechar, text, inside, ◌>>=◌, at_end (next16 t.col) (omega arith)) refl,
        omega arith,
        omega arith,
        shows,
      )
      | yes more ↦ (
        record t { video_mem = drawn; col = next16 t.col },
        rw (writechar, text, inside, ◌>>=◌, in_line (next16 t.col) more) refl,
        more,
        omega arith,
        shows,
      )
    ]

-- A line end moves the cursor to the start of the next row and shows nothing.
pub writechar-newline :
    (t : Terminal) (color : ℕ)
    → t.row + 1 < 2 ^ 16
    → writechar t b'\n' color ≡ some (record t { row = t.row + 1; col = 0 })
unfolding writechar
writechar-newline t color h = ground arith

-- The cell that shows the string after `n` characters.
abbrev pub shown : List ℕ → ℕ → ℕ → (ℕ → ℕ) → ℕ → ℕ
shown [] start color mem i = mem i
shown (c ∷ str) start color mem i =
    if i == start then color * 256 + c else shown str (start + 1) color mem i

-- Before its start a string shows nothing, and the rest shows what was there.
shown-before :
    (str : List ℕ) (start color : ℕ) (mem : ℕ → ℕ) (i : ℕ)
    → i < start
    → shown str start color mem i ≡ mem i
shown-before [] start color mem i h = refl
shown-before (c ∷ str) start color mem i h =
    rw (==_of_ne i start (omega arith)) (shown-before str (start + 1) color mem i (omega arith))

pub shown-over :
    (str : List ℕ) (start color : ℕ) (mem mem' : ℕ → ℕ) (i : ℕ)
    → mem i ≡ mem' i
    → shown str start color mem i ≡ shown str start color mem' i
shown-over [] start color mem mem' i h = h
shown-over (c ∷ str) start color mem mem' i h =
    ap (λ o. if i == start then color * 256 + c else o)
      (shown-over str (start + 1) color mem mem' i h)

-- A first cell, and the string behind it.
shown-cons :
    (str : List ℕ) (start color cell : ℕ) (mem' mem : ℕ → ℕ) (i : ℕ)
    → mem' i ≡ (if i == start then cell else mem i)
    → shown str (start + 1) color mem' i
      ≡ (if i == start then cell else shown str (start + 1) color mem i)
shown-cons str start color cell mem' mem i h = elim (ℕ_discrete i start) [
  | yes here ↦ rw (==_of_eq i start here) (
      shown-before str (start + 1) color mem' i (omega arith) ∙ h ∙ rw (==_of_eq i start here) refl)
  | no there ↦
      rw (==_of_ne i start there)
        (shown-over str (start + 1) color mem' mem i (h ∙ rw (==_of_ne i start there) refl))
]

-- `print` of plain text from a cursor in a line, with room for the text on the screen of 80 * 20 cells,
-- stays on it. It shows the characters in white on black in the cells from the cursor on, changes no other
-- cell, and leaves the cursor behind the last one.
pub print-shown :
    (str : List ℕ) (t : Terminal)
    → IsInLine t
    → All IsPlain str
    → cursor t + length str ≤ screen
    → (t' : Terminal) × (print t str ≡ some t')
      × IsInLine t'
      × (cursor t' ≡ cursor t + length str)
      × ((i : ℕ) → t'.video_mem i ≡ shown str (cursor t) 15 t.video_mem i)
unfolding print
print-shown [] t h p r = (t, refl, h, omega arith, λ i. refl)
print-shown (c ∷ str) t h p r =
    let (t1, wrote, line, moved, cell) = writechar-plain t c 15 h p.0 (omega arith) (omega arith) in
    let (t', printed, line', moved', cells) = print-shown str t1 line p.1 (omega arith) in
    (
      t',
      rw (wrote, ◌>>=◌) printed,
      line',
      omega arith,
      λ i.
          cells i
          ∙ ap (λ k. shown str k 15 t1.video_mem i) moved
          ∙ shown-cons str (cursor t) 15 (15 * 256 + c) t1.video_mem t.video_mem i (cell i),
    )
