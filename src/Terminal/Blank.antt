-- ===== src/Terminal/Blank.antt =====
-- `terminal_initialize`: an empty screen.
use ra_os.Base.{
  ℕ, zero, suc, ◌+◌, ◌*◌, ◌≡◌, refl, ◌∙◌, ap, ◌==◌, if◌then◌else◌, leb, ltb, Bool, ◌&&◌, List, some,
  arith, length, All, ◌≤◌,
}
use ra_os.Terminal.{
  Terminal, vga_width, vga_height, make_char, print, blank_row, blank_rows, terminal_initialize,
}
use ra_os.Terminal.Print.{IsPlain, screen, cursor, shown, print-shown, shown-over}

-- The cell is one of `n` from `start` on.
abbrev pub among : ℕ → ℕ → ℕ → Bool
among start n i = leb start i && ltb i (start + n)

blank_char : make_char 0x20 0 ≡ 0x20
unfolding make_char
blank_char = refl

first_cell :
    (start n i x : ℕ)
    → (if among (start + 1) n i then 0x20 else if i == start then 0x20 else x)
      ≡ (if among start (suc n) i then 0x20 else x)
first_cell start n i x = ground arith

blank_row-among :
    (rounds : ℕ) (mem : ℕ → ℕ) (y x i : ℕ)
    → blank_row rounds mem y x i ≡ (if among (y * vga_width + x) rounds i then 0x20 else mem i)
unfolding blank_row
blank_row-among zero mem y x i = ground arith
blank_row-among (suc rounds) mem y x i =
    blank_row-among rounds (λ j. if j == y * vga_width + x then make_char 0x20 0 else mem j) y
      (x + 1) i
    ∙ rw blank_char (
        ap (λ s. if among s rounds i then 0x20 else if i == y * vga_width + x then 0x20 else mem i)
          {x = y * vga_width + (x + 1)} {y = y * vga_width + x + 1} (omega arith)
        ∙ first_cell (y * vga_width + x) rounds i (mem i))

blank_rows-among :
    (rounds : ℕ) (mem : ℕ → ℕ) (y i : ℕ)
    → blank_rows rounds mem y i
      ≡ (if among (y * vga_width) (rounds * vga_width) i then 0x20 else mem i)
unfolding blank_rows
blank_rows-among zero mem y i = ground arith
blank_rows-among (suc rounds) mem y i =
    blank_rows-among rounds (blank_row vga_width mem y 0) (y + 1) i
    ∙ ap (λ c. if among ((y + 1) * vga_width) (rounds * vga_width) i then 0x20 else c)
        (blank_row-among vga_width mem y 0 i)
    ∙ ground arith

blank_rows-all :
    (rounds : ℕ) (mem : ℕ → ℕ) (i : ℕ)
    → blank_rows rounds mem 0 i ≡ (if ltb i (rounds * vga_width) then 0x20 else mem i)
blank_rows-all rounds mem i = blank_rows-among rounds mem 0 i ∙ ground arith

-- The cells of an empty screen over the memory that was there.
abbrev pub blank : (ℕ → ℕ) → ℕ → ℕ
blank mem i = if ltb i (vga_height * vga_width) then 0x20 else mem i

initialize-row : (mem : ℕ → ℕ) → (terminal_initialize mem).row ≡ 0
unfolding terminal_initialize
initialize-row mem = refl

initialize-col : (mem : ℕ → ℕ) → (terminal_initialize mem).col ≡ 0
unfolding terminal_initialize
initialize-col mem = refl

initialize_rows : (mem : ℕ → ℕ) → (terminal_initialize mem).video_mem ≡ blank_rows vga_height mem 0
unfolding terminal_initialize
initialize_rows mem = refl

initialize-video_mem : (mem : ℕ → ℕ) (i : ℕ) → (terminal_initialize mem).video_mem i ≡ blank mem i
initialize-video_mem mem i = ap (λ f. f i) (initialize_rows mem) ∙ blank_rows-all vga_height mem i

-- After `terminal_initialize` the 80 * 20 cells are blanks on black, no other cell has changed, and the
-- first plain text that is printed, of at most so many characters, stands in them from the first cell on,
-- with the cursor behind it.
pub print-terminal_initialize :
    (str : List ℕ) (mem : ℕ → ℕ)
    → All IsPlain str
    → length str ≤ screen
    → (t' : Terminal) × (print (terminal_initialize mem) str ≡ some t')
      × (cursor t' ≡ length str)
      × ((i : ℕ) → t'.video_mem i ≡ shown str 0 15 (blank mem) i)
print-terminal_initialize str mem plain short =
    let t = terminal_initialize mem in
    let row = initialize-row mem in
    let col = initialize-col mem in
    let (t', printed, line, at, cells) =
      print-shown str t (omega (arith, col)) plain (omega (arith, row, col)) in
    (
      t',
      printed,
      at ∙ omega (arith, row, col),
      λ i.
          cells i
          ∙ ap (λ c. shown str c 15 t.video_mem i) {x = cursor t} {y = 0} (omega (arith, row, col))
          ∙ shown-over str 0 15 t.video_mem (blank mem) i (initialize-video_mem mem i),
    )
