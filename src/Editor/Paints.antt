-- ===== src/Editor/Paints.antt =====
-- The loops of kernel/src/editor.rs that paint the text end and do not panic.
use latency_os.Prelude.{
  ℕ, zero, suc, ◌+◌, ◌-◌, ◌≤◌, ◌<◌, ◌≡◌, refl, arith, Bool, true, false, not, ◌&&◌, ◌||◌, Option,
  none, some, Cells, ltb, leb, ◌==◌, if◌then◌else◌, Bool-cases, subst, inl, inr, ltb→lt,
}
use latency_os.Editor.Arrays.{◌>>=◌, max_editor_buf, minus, scan_right}
use latency_os.Editor.{PulseEditor}
use latency_os.Editor.Lines.{smaller}
use latency_os.Editor.Scans.{read_lem}
use latency_os.Editor.Valid.{IsValid, scan_right_within, find_newline_within}
use latency_os.Editor.Painting.{
  Brush, is_alphanumeric, is_word_byte, get_word_len, get_time_literal_len, slice, next_is,
  paint_word, paint_pair, clipped, paint_number, paint_plain, paint_byte, paint_line, paint_rows,
  skip_lines, paint_screen, paint_current, or_end,
}

-- The step does not panic, and passes the byte at `i`.
abbrev Passes : ℕ → Option ℕ → Type 0
Passes i none = ⊥
Passes i (some j) = i < j

abbrev Moves : ℕ → Option Brush → Type 0
Moves i none = ⊥
Moves i (some s) = i < s.at

-- The loop does not panic, and ends.
abbrev pub Ends : {A : Type 0} → Option A → Type 0
Ends none = ⊥
Ends (some _) = Unit

slice_lem :
    (start end : ℕ) → start ≤ end → end ≤ max_editor_buf → slice start end ≡ some (end - start)
unfolding slice
slice_lem start end low high = ground (arith, low, high)

next_is_lem :
    (e : PulseEditor) (end i c : ℕ)
    → end ≤ max_editor_buf
    → (two : Bool) × (next_is e end i c ≡ some two)
unfolding next_is
next_is_lem e end i c fits = elim (Bool-cases (ltb (i + 1) end)) [
  | inr off ↦ (false, rw off refl)
  | inl on ↦
      let lt = ltb→lt (i + 1) end on in
      let reads = read_lem e.buffer (i + 1) (e.buffer (i + 1)) (omega arith) refl in
      (e.buffer (i + 1) == c, rw on (rw reads refl))
]

word_len :
    (stop i n : ℕ)
    → i < n
    → i ≤ stop
    → stop ≤ n
    → (0 < (if stop - i == 0 && ltb i n then 1 else stop - i))
      × (i + (if stop - i == 0 && ltb i n then 1 else stop - i) ≤ n)
word_len stop i n lt low high = (ground arith, ground arith)

get_word_len_lem :
    (e : PulseEditor) (i : ℕ)
    → IsValid e
    → i < e.buf_len
    → (len : ℕ) × (get_word_len e i ≡ some len) × (0 < len) × (i + len ≤ e.buf_len)
unfolding get_word_len
get_word_len_lem e i v lt =
    let (stop, found, low, high) =
      scan_right_within is_word_byte e.buffer i (e.buf_len - i) (omega (arith, v.fits)) in
    let (some_left, within) = word_len stop i e.buf_len lt low (omega (arith, high, lt)) in
    (if stop - i == 0 && ltb i e.buf_len then 1 else stop - i, rw found refl, some_left, within)

-- A digit is part of its own literal.
get_time_literal_len_lem :
    (e : PulseEditor) (i : ℕ)
    → IsValid e
    → i < e.buf_len
    → is_alphanumeric (e.buffer i) ≡ true
    → (len : ℕ) × (get_time_literal_len e i ≡ some len) × (0 < len) × (i + len ≤ e.buf_len)
unfolding get_time_literal_len scan_right
get_time_literal_len_lem e i v lt first =
    let (stop, found, low, high) =
      scan_right_within is_alphanumeric e.buffer (i + 1) (e.buf_len - (i + 1))
        (omega (arith, v.fits)) in
    let reads = read_lem e.buffer i (e.buffer i) (omega (arith, v.fits)) refl in
    let left : e.buf_len - i ≡ suc (e.buf_len - (i + 1)) = omega arith in
    (
      stop - i,
      rw left (rw reads (rw first (rw found refl))),
      omega (arith, low),
      omega (arith, low, high, lt),
    )

paint_word-Passes :
    (clip : Bool) (e : PulseEditor) (end i : ℕ)
    → IsValid e
    → end ≤ e.buf_len
    → i < end
    → Passes i (paint_word clip e end i)
unfolding paint_word
paint_word-Passes clip e end i v inside lt =
    let (len, found, some_left, within) = get_word_len_lem e i v (omega arith) in
    let stop : ℕ = if clip then smaller (i + len) end else i + len in
    let after : i ≤ stop = ground arith in
    let fits : stop ≤ max_editor_buf = ground (arith, v.fits) in
    rw found (rw (slice_lem i stop after fits) (omega arith))

paint_pair-Passes :
    (e : PulseEditor) (end i c : ℕ) → end ≤ max_editor_buf → Passes i (paint_pair e end i c)
unfolding paint_pair
paint_pair-Passes e end i c fits =
    let (two, found) = next_is_lem e end i c fits in
    rw found (elim two as (λ (t : Bool). i < (if t then i + 2 else i + 1)) [
      | true ↦ omega arith
      | false ↦ omega arith
    ])

clipped_lem :
    (clip : Bool) (end i found : ℕ)
    → i < end
    → 0 < found
    → (len : ℕ) × (clipped clip end i found ≡ some len) × (0 < len) × (len ≤ found)
clipped_lem false end i found lt some_found = (found, refl, some_found, omega arith)
clipped_lem true end i found lt some_found =
    let rest : minus end i ≡ some (end - i) = ground arith in
    (smaller found (end - i), rw rest refl, ground arith, ground arith)

paint_number-Passes :
    (clip : Bool) (e : PulseEditor) (end i : ℕ)
    → IsValid e
    → end ≤ e.buf_len
    → i < end
    → is_alphanumeric (e.buffer i) ≡ true
    → Passes i (paint_number clip e end i)
unfolding paint_number
paint_number-Passes clip e end i v inside lt first =
    let (found, counted, some_found, within) = get_time_literal_len_lem e i v (omega arith) first in
    let (len, cut, some_left, short) = clipped_lem clip end i found lt some_found in
    let whole = slice_lem i (i + len) (omega arith) (omega (arith, v.fits)) in
    rw counted (
      rw cut (elim (Bool-cases (ltb 2 len)) [
        | inr few ↦ rw few (rw whole (omega arith))
        | inl many ↦ rw many (
            rw (slice_lem (i + len - 2) (i + len) (omega arith) (omega (arith, v.fits)))
              (rw whole (omega arith)))
      ]))

Passes-if :
    (i : ℕ) (b : Bool) (x y : Option ℕ)
    → (b ≡ true → Passes i x)
    → Passes i y
    → Passes i (if b then x else y)
Passes-if i true x y p q = p refl
Passes-if i false x y p q = q

digit_lem : (b : ℕ) → (leb b'0' b && leb b b'9') ≡ true → is_alphanumeric b ≡ true
digit_lem b digit = rw digit refl

paint_plain-Passes :
    (clip : Bool) (e : PulseEditor) (end i : ℕ)
    → IsValid e
    → end ≤ e.buf_len
    → i < end
    → Passes i (paint_plain clip e end i (e.buffer i))
unfolding paint_plain
paint_plain-Passes clip e end i v inside lt =
    let fits : end ≤ max_editor_buf = omega (arith, v.fits) in
    let one : i < i + 1 = omega arith in
    let b : ℕ = e.buffer i in
    let number : Option ℕ =
      if leb b'0' b && leb b b'9' then paint_number clip e end i else some (i + 1) in
    let pipe : Option ℕ = if b == b'|' then paint_pair e end i b'>' else number in
    let pair : Option ℕ =
      if b == b':' || b == b'+' || b == b'-' then paint_pair e end i b'=' else pipe in
    Passes-if i (b == b'@' || b == b'$' || b == b'#') (paint_word clip e end i) pair
      (λ _. paint_word-Passes clip e end i v inside lt)
      (Passes-if i (b == b':' || b == b'+' || b == b'-') (paint_pair e end i b'=') pipe
        (λ _. paint_pair-Passes e end i b'=' fits)
        (Passes-if i (b == b'|') (paint_pair e end i b'>') number
          (λ _. paint_pair-Passes e end i b'>' fits)
          (Passes-if i (leb b'0' b && leb b b'9') (paint_number clip e end i) (some (i + 1))
            (λ digit. paint_number-Passes clip e end i v inside lt (digit_lem b digit)) one)))

Moves-if :
    (i : ℕ) (b : Bool) (x y : Option Brush) → Moves i x → Moves i y → Moves i (if b then x else y)
Moves-if i true x y p q = p
Moves-if i false x y p q = q

Moves-bind :
    (i : ℕ) (m : Option ℕ) (s : Brush)
    → Passes i m
    → Moves i (m >>= λ j. some (record s { at = j }))
Moves-bind i none s p = p
Moves-bind i (some j) s p = p

slashes_lem :
    (e : PulseEditor) (end i : ℕ) (b : Bool)
    → end ≤ max_editor_buf
    → (s : Bool) × ((if b then next_is e end i b'/' else some false) ≡ some s)
slashes_lem e end i true fits = next_is_lem e end i b'/' fits
slashes_lem e end i false fits = (false, refl)

paint_byte-Moves :
    (clip : Bool) (e : PulseEditor) (end : ℕ) (s : Brush)
    → IsValid e
    → end ≤ e.buf_len
    → s.at < end
    → Moves s.at (paint_byte clip e end (e.buffer s.at) s)
unfolding paint_byte
paint_byte-Moves clip e end s v inside lt =
    let b : ℕ = e.buffer s.at in
    let (slashes, found) =
      slashes_lem e end s.at (not s.in_string && b == b'/') (omega (arith, v.fits)) in
    let in_comment : Bool = s.in_comment || slashes in
    let one : s.at < s.at + 1 = omega arith in
    let plain : Option Brush = paint_plain clip e end s.at b >>= λ i. some (record s { at = i }) in
    let inner : Option Brush =
      if in_comment || s.in_string
      then some (record s { at = s.at + 1; in_comment = in_comment })
      else plain in
    Moves-if s.at (b == b'\t') _ _ one (
      rw found (
        Moves-if s.at (not in_comment && b == b'"')
          (some (record s { at = s.at + 1; in_string = not s.in_string })) inner one
          (Moves-if s.at (in_comment || s.in_string)
            (some (record s { at = s.at + 1; in_comment = in_comment })) plain one
            (Moves-bind s.at _ s (paint_plain-Passes clip e end s.at v inside lt)))))

Ends-if : (b : Bool) (x y : Option ℕ) → Ends x → Ends y → Ends (if b then x else y)
Ends-if true x y p q = p
Ends-if false x y p q = q

Ends-when : (b : Bool) (x y : Option ℕ) → (b ≡ true → Ends x) → Ends y → Ends (if b then x else y)
Ends-when true x y p q = p refl
Ends-when false x y p q = q

Ends-bind :
    (i : ℕ) (m : Option Brush) (f : Brush → Option ℕ)
    → Moves i m
    → ((s : Brush) → i < s.at → Ends (f s))
    → Ends (m >>= f)
Ends-bind i none f p ends = p
Ends-bind i (some s) f p ends = ends s p

paint_line-Ends :
    (fuel : ℕ) (e : PulseEditor) (end : ℕ) (s : Brush)
    → IsValid e
    → end ≤ e.buf_len
    → end ≤ s.at + fuel
    → Ends (paint_line fuel e end s)
unfolding paint_line
paint_line-Ends zero e end s v inside enough =
    let off : ltb s.at end ≡ false = ground (arith, enough) in rw off tt
paint_line-Ends (suc fuel) e end s v inside enough = elim (Bool-cases (ltb s.at end)) [
  | inr off ↦ rw off tt
  | inl on ↦
      let lt = ltb→lt s.at end on in
      let reads = read_lem e.buffer s.at (e.buffer s.at) (omega (arith, v.fits)) refl in
      rw on (
        rw reads (
          Ends-bind s.at _ (paint_line fuel e end) (paint_byte-Moves true e end s v inside lt)
            (λ s' past. paint_line-Ends fuel e end s' v inside (omega (arith, enough)))))
]

paint_rows-Ends :
    (fuel : ℕ) (e : PulseEditor) (screen_row : ℕ) (s : Brush)
    → IsValid e
    → e.buf_len ≤ s.at + fuel
    → Ends (paint_rows fuel e screen_row s)
unfolding paint_rows
paint_rows-Ends zero e screen_row s v enough =
    let off : ltb s.at e.buf_len ≡ false = ground (arith, enough) in rw off tt
paint_rows-Ends (suc fuel) e screen_row s v enough =
    Ends-when (ltb s.at e.buf_len) _ _
      (λ on.
        let lt = ltb→lt s.at e.buf_len on in
        let reads = read_lem e.buffer s.at (e.buffer s.at) (omega (arith, v.fits)) refl in
        rw reads (
          Ends-if (e.buffer s.at == b'\n') _ _
            (Ends-if (leb (screen_row + 1) 22) _ _
              (paint_rows-Ends fuel e (screen_row + 1)
                (record { at = s.at + 1; in_comment = false; in_string = false }) v
                (omega (arith, enough)))
              tt)
            (Ends-if (ltb 22 screen_row) _ _ tt (
              Ends-bind s.at _ (paint_rows fuel e screen_row)
                (paint_byte-Moves false e e.buf_len s v (omega arith) lt)
                (λ s' past. paint_rows-Ends fuel e screen_row s' v (omega (arith, enough)))))))
      tt

skip_lines_lem :
    (b : Cells ℕ) (top_line line i n : ℕ)
    → i + n ≤ max_editor_buf
    → (at : ℕ) × (skip_lines b top_line line i n ≡ some at)
unfolding skip_lines
skip_lines_lem b top_line line i zero fits = (i, refl)
skip_lines_lem b top_line line i (suc n) fits = elim (Bool-cases (ltb line top_line)) [
  | inr off ↦ (i, rw off refl)
  | inl on ↦
      let reads = read_lem b i (b i) (omega arith) refl in
      let (at, found) =
        skip_lines_lem b top_line (if b i == b'\n' then line + 1 else line) (i + 1) n
          (omega arith) in
      (at, rw on (rw reads found))
]

pub paint_screen-Ends : (e : PulseEditor) → IsValid e → Ends (paint_screen e)
unfolding paint_screen
paint_screen-Ends e v =
    let (start, found) = skip_lines_lem e.buffer e.top_line 1 0 e.buf_len (omega (arith, v.fits)) in
    rw found (
      paint_rows-Ends e.buf_len e 2 (record { at = start; in_comment = false; in_string = false }) v
        (omega arith))

pub paint_current-Ends :
    (e : PulseEditor) (line_start : ℕ)
    → IsValid e
    → line_start ≤ e.buf_len
    → Ends (paint_current e line_start)
unfolding paint_current
paint_current-Ends e line_start v low =
    let (found, seen, high) =
      find_newline_within e.buffer line_start (e.buf_len - line_start) (omega (arith, v.fits)) in
    let whole : line_start + (e.buf_len - line_start) ≡ e.buf_len = omega (arith, low) in
    let within : or_end e.buf_len found ≤ e.buf_len = subst (λ k. or_end k found ≤ k) whole high in
    rw seen (
      paint_line-Ends e.buf_len e (or_end e.buf_len found)
        (record { at = line_start; in_comment = false; in_string = false }) v within
        (omega (arith, within)))
