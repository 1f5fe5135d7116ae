-- ===== src/Editor/Painting.antt =====
-- The loops of kernel/src/editor.rs that paint the text in colours, without the bytes they send: the
-- indexes and the slices they take, and how they go on. `none` is a panic, or a loop that has not
-- ended when its fuel is out.
use latency_os.Prelude.{
  ℕ, zero, suc, ◌+◌, ◌-◌, Bool, true, false, not, ◌&&◌, ◌||◌, Option, none, some, Cells, ltb, leb,
  ◌==◌, if◌then◌else◌,
}
use latency_os.Editor.Arrays.{◌>>=◌, max_editor_buf, read, minus, scan_right, find_newline}
use latency_os.Editor.{PulseEditor}
use latency_os.Editor.Lines.{smaller}

-- where a loop is, and whether it is in a comment or in a text
pub record Brush : Type 0 where
  pub at : ℕ
  pub in_comment : Bool
  pub in_string : Bool

abbrev pub is_alphanumeric : ℕ → Bool
is_alphanumeric c =
    leb b'0' c && leb c b'9' || (leb b'A' c && leb c b'Z') || (leb b'a' c && leb c b'z')

abbrev pub is_word_byte : ℕ → Bool
is_word_byte c = is_alphanumeric c || c == b'.' || c == b'_'

unfoldable pub get_word_len : PulseEditor → ℕ → Option ℕ
unfolding scan_right
get_word_len e pos = scan_right is_word_byte e.buffer pos (e.buf_len - pos) >>= λ stop.
    let len = stop - pos in some (if len == 0 && ltb pos e.buf_len then 1 else len)

unfoldable pub get_time_literal_len : PulseEditor → ℕ → Option ℕ
unfolding scan_right
get_time_literal_len e pos =
    scan_right is_alphanumeric e.buffer pos (e.buf_len - pos) >>= λ stop. some (stop - pos)

-- The length of `&buffer[start..end]`, which panics if its ends are out of order or out of the array.
unfoldable pub slice : ℕ → ℕ → Option ℕ
slice start end = if leb start end && leb end max_editor_buf then some (end - start) else none

-- `i + 1 < end && buffer[i + 1] == c`
unfoldable pub next_is : PulseEditor → (end i c : ℕ) → Option Bool
next_is e end i c =
    if ltb (i + 1) end then (read e.buffer (i + 1) >>= λ v. some (v == c)) else some false

-- A word that begins with `@`, `$` or `#`; `clip` is for the loop that cuts it at the end of the line.
unfoldable pub paint_word : (clip : Bool) → PulseEditor → (end i : ℕ) → Option ℕ
unfolding get_word_len slice
paint_word clip e end i = get_word_len e i >>= λ len.
    slice i (if clip then smaller (i + len) end else i + len) >>= λ _. some (i + len)

-- an operator of two bytes, or the first of them alone
unfoldable pub paint_pair : PulseEditor → (end i c : ℕ) → Option ℕ
unfolding next_is
paint_pair e end i c = next_is e end i c >>= λ two. some (if two then i + 2 else i + 1)

abbrev pub clipped : Bool → (end i len : ℕ) → Option ℕ
clipped clip end i len =
    if clip then (minus end i >>= λ rest. some (smaller len rest)) else some len

-- A number. The last two bytes of a longer one are compared with the units of time.
unfoldable pub paint_number : (clip : Bool) → PulseEditor → (end i : ℕ) → Option ℕ
unfolding get_time_literal_len slice
paint_number clip e end i = get_time_literal_len e i >>= λ found.
    clipped clip end i found >>= λ len.
    (if ltb 2 len then slice (i + len - 2) (i + len) else some 0) >>= λ _.
    slice i (i + len) >>= λ _. some (i + len)

-- a byte outside of comments and texts
unfoldable pub paint_plain : (clip : Bool) → PulseEditor → (end i b : ℕ) → Option ℕ
unfolding paint_word paint_pair paint_number
paint_plain clip e end i b =
    if b == b'@' || b == b'$' || b == b'#'
    then paint_word clip e end i
    else if b == b':' || b == b'+' || b == b'-'
    then paint_pair e end i b'='
    else if b == b'|'
    then paint_pair e end i b'>'
    else if leb b'0' b && leb b b'9'
    then paint_number clip e end i
    else some (i + 1)

unfoldable pub paint_byte : (clip : Bool) → PulseEditor → (end b : ℕ) → Brush → Option Brush
unfolding next_is paint_plain
paint_byte clip e end b s =
    if b == b'\t'
    then some (record s { at = s.at + 1 })
    else ((if not s.in_string && b == b'/' then next_is e end s.at b'/' else some false)
        >>= λ slashes.
            let in_comment = s.in_comment || slashes in
            if not in_comment && b == b'"'
            then some (record s { at = s.at + 1; in_string = not s.in_string })
            else if in_comment || s.in_string
            then some (record s { at = s.at + 1; in_comment = in_comment })
            else (paint_plain clip e end s.at b >>= λ i. some (record s { at = i })))

-- the loop of `redraw_current_line`, up to the end of the line; the place it has come to
unfoldable pub paint_line : (fuel : ℕ) → PulseEditor → (end : ℕ) → Brush → Option ℕ
unfolding paint_byte
paint_line zero e end s = if ltb s.at end then none else some s.at
paint_line (suc fuel) e end s =
    if ltb s.at end
    then (read e.buffer s.at >>= λ b. paint_byte true e end b s >>= λ s'. paint_line fuel e end s')
    else some s.at

-- The loop of `redraw`, which ends below row 22 of the screen; the row it has come to.
unfoldable pub paint_rows : (fuel : ℕ) → PulseEditor → (screen_row : ℕ) → Brush → Option ℕ
unfolding paint_byte
paint_rows zero e screen_row s = if ltb s.at e.buf_len then none else some screen_row
paint_rows (suc fuel) e screen_row s =
    if ltb s.at e.buf_len
    then (read e.buffer s.at >>= λ b.
        if b == b'\n'
        then (if leb (screen_row + 1) 22
            then (some (screen_row + 1) >>= λ row.
                paint_rows fuel e row
                  (record { at = s.at + 1; in_comment = false; in_string = false }))
            else some (screen_row + 1))
        else if ltb 22 screen_row
        then some screen_row
        else (paint_byte false e e.buf_len b s >>= λ s'. paint_rows fuel e screen_row s'))
    else some screen_row

-- The place where the line `top_line` begins, from the line `line` at `i` with `n` bytes behind it.
unfoldable pub skip_lines : Cells ℕ → (top_line line i n : ℕ) → Option ℕ
skip_lines b top_line line i zero = some i
skip_lines b top_line line i (suc n) =
    if ltb line top_line
    then (read b i >>= λ v. skip_lines b top_line (if v == b'\n' then line + 1 else line) (i + 1) n)
    else some i

-- the lines on the screen
unfoldable pub paint_screen : PulseEditor → Option ℕ
unfolding skip_lines paint_rows
paint_screen e = skip_lines e.buffer e.top_line 1 0 e.buf_len >>= λ start_idx.
    paint_rows e.buf_len e 2 (record { at = start_idx; in_comment = false; in_string = false })

-- the place that was found, or the end
abbrev pub or_end : ℕ → Option ℕ → ℕ
or_end n none = n
or_end n (some i) = i

-- the line that begins at `line_start`
unfoldable pub paint_current : PulseEditor → (line_start : ℕ) → Option ℕ
unfolding find_newline paint_line
paint_current e line_start = find_newline e.buffer line_start (e.buf_len - line_start) >>= λ found.
    paint_line e.buf_len e (or_end e.buf_len found)
      (record { at = line_start; in_comment = false; in_string = false })
