-- ===== src/Editor/Kills.antt =====
-- `kill_line_backward` of kernel/src/editor.rs, against the edit of a text.
use latency_os.Prelude.{
  ℕ, ◌+◌, ◌-◌, ◌≤◌, ◌≡◌, refl, ◌∙◌, ap, arith, Bool, true, Option, some, List, [], ◌∷◌, length,
  Cells, subst, sym, ltb, ◌==◌, if◌then◌else◌, Bool-cases, inl, inr,
}
use latency_os.Editor.Arrays.{◌>>=◌, max_editor_buf, minus, move_down}
use latency_os.Editor.{PulseEditor}
use latency_os.Editor.Lines.{kill_line_backward}
use latency_os.Editor.Texts.{Spells, Leads, cut_out}
use latency_os.Editor.Zipper.{
  back_while, in_line, column, Represents, placed, TurnsPlaced, Edit, edited,
}
use latency_os.Editor.Places.{Holds-placed, start_and_col}
use latency_os.Editor.Scans.{back_while-Holds, length-back_while}

-- `by` bytes go between two texts: what remains of each kill when its test has passed
pub cut-Represents :
    (before after : List ℕ) (n by : ℕ) (e : PulseEditor)
    → length before + by + length after ≡ n
    → n ≤ max_editor_buf
    → Leads e.buffer before
    → Spells e.buffer (length before + by) after
    → (e' : PulseEditor) × ((minus n by >>= λ rest.
          move_down (length before) by (rest - length before) e.buffer >>= λ b.
          some
            (record e { buffer = b; buf_len = rest; cursor = length before; needs_redraw = true }))
        ≡ some e')
      × Represents (before, after) e'
cut-Represents before after n by e whole fits left right =
    let (r, made, kept, moved) =
      cut_out e.buffer before after by (omega (arith, whole)) left right in
    let less : minus n by ≡ some (length before + length after) = ground (arith, whole) in
    let count : length before + length after - length before ≡ length after = omega arith in
    let e' : Cells ℕ → PulseEditor = λ b. record e {
      buffer = b;
      buf_len = length before + length after;
      cursor = length before;
      needs_redraw = true;
    } in
    (
      e' r,
      ap
            (λ m. m >>= λ rest.
              move_down (length before) by (rest - length before) e.buffer >>= λ b. some (record e {
                buffer = b;
                buf_len = rest;
                cursor = length before;
                needs_redraw = true;
              }))
            less
          ∙ ap (λ (k : ℕ). move_down (length before) by k e.buffer >>= λ b. some (e' b)) count
          ∙ ap (λ m. m >>= λ b. some (e' b)) made,
      record {
        cursor = refl;
        buf_len = refl;
        fits = omega (arith, whole);
        left = kept;
        right = moved;
      },
    )

back_while-column :
    (before after : List ℕ) → column before ≡ 0 → (back_while in_line before after).0 ≡ before
back_while-column [] after e = refl
back_while-column (x ∷ before) after e = elim (Bool-cases (x == b'\n')) [
  | inl stop ↦ rw stop
  | inr on ↦ absurd (ground arith)
]

pub kill_backward-placed :
    (before after : List ℕ)
    → TurnsPlaced kill_line_backward (before, after) (edited Edit.kill_backward (before, after))
unfolding kill_line_backward
kill_backward-placed before after e v =
    let n = length before + length after in
    let above : List ℕ = (back_while in_line before after).0 in
    let size = length-back_while before after in
    let h = back_while-Holds in_line e.buffer n before after (Holds-placed before after e v) in
    let count : minus (length before) (length above) ≡ some (column before) = ground arith in
    let body : ℕ → ℕ → Option PulseEditor = λ (start c : ℕ). minus n c >>= λ rest.
    move_down start c (rest - start) e.buffer >>= λ b.
    some (record e { buffer = b; buf_len = rest; cursor = start; needs_redraw = true }) in
    let reaches : kill_line_backward (placed (before, after) e) ≡ (
        if ltb 0 (column before)
        then body (length above) (column before)
        else some (placed (before, after) e)) =
      ap
        (λ m. m >>= λ (start, col). minus (length before) start >>= λ c.
          if ltb 0 c then body start c else some (placed (before, after) e))
        (start_and_col before after e (omega (arith, v.fits)) v.left)
      ∙ ap
          (λ m.
            m >>= λ c. if ltb 0 c then body (length above) c else some (placed (before, after) e))
          count in
    elim (Bool-cases (ltb 0 (column before))) [
      | inr start ↦
          let same : above ≡ before = back_while-column before after (ground arith) in
          (
            placed (before, after) e,
            reaches
                ∙ ap
                    (λ (b : Bool).
                      if b
                      then body (length above) (column before)
                      else some (placed (before, after) e))
                    start,
            subst (λ a. Represents (a, after) (placed (before, after) e)) (sym same) v,
          )
      | inl later ↦
          let (e', cut, represents) =
            cut-Represents above after n (column before) e (omega (arith, size)) v.fits h.left
              (subst (λ k. Spells e.buffer k after) size v.right) in
          (
            e',
            reaches
                ∙ ap
                    (λ (b : Bool).
                      if b
                      then body (length above) (column before)
                      else some (placed (before, after) e))
                    later
                ∙ cut,
            represents,
          )
    ]
