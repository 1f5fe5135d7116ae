-- ===== src/Editor/Rows.antt =====
-- `move_cursor_up` and `move_cursor_down` of kernel/src/editor.rs, against the moves on a text.
use latency_os.Prelude.{
  ℕ, suc, ◌+◌, ◌-◌, ◌≡◌, refl, ◌∙◌, ap, arith, Bool, true, Option, none, some, List, [], ◌∷◌,
  length, subst, sym, ltb, leb, ◌==◌, if◌then◌else◌, Bool-cases, inl, inr,
}
use latency_os.Editor.Arrays.{◌>>=◌, line_start_from, find_newline, minus}
use latency_os.Editor.{PulseEditor}
use latency_os.Editor.Lines.{smaller, move_cursor_up, move_cursor_down, to_line_above, to_next_line}
use latency_os.Editor.Zipper.{
  Text, back_while, forth_while, forth_in_line, in_line, column, Represents, placed, TurnsPlaced,
  Move, moved, onto_above, onto_below,
}
use latency_os.Editor.Places.{carried, carried-Represents, Holds-placed, start_and_col}
use latency_os.Editor.Scans.{
  Holds, back_while-Holds, forth_while-Holds, forth_in_line-Holds, step_back, step_forth,
  line_start_from_lem, found, find_newline_lem, line_length, length-back_while,
  line_length-back_while, back_while-stop, length-forth_in_line,
}

onto_above-placed :
    (before after : List ℕ) (t : Text)
    → back_while in_line before after ≡ t
    → (e : PulseEditor) → Represents (before, after) (placed (before, after) e)
    → (e' : PulseEditor) × (to_line_above (placed (before, after) e) (column before) (length t.0)
        ≡ some e')
      × Represents (onto_above (column before) (before, after) t) e'
onto_above-placed before after ([], rest) eq e v = (placed (before, after) e, refl, v)
onto_above-placed before after (x ∷ above, rest) eq e v =
    let n = length before + length after in
    let here : Holds e.buffer n (x ∷ above, rest) =
      subst (Holds e.buffer n) eq
        (back_while-Holds in_line e.buffer n before after (Holds-placed before after e v)) in
    let s : Text = back_while in_line above (x ∷ rest) in
    let h =
      back_while-Holds in_line e.buffer n above (x ∷ rest)
        (step_back e.buffer n x above rest here) in
    let col = column before in
    let newline = back_while-stop before after above rest x eq in
    let line : line_length s.1 ≡ column above =
      line_length-back_while above (x ∷ rest) ∙ rw newline (omega arith) in
    let size = length-back_while above (x ∷ rest) in
    let to : ℕ = length s.0 + smaller col (column above) in
    let go : ltb 0 (suc (length above)) ≡ true = ground arith in
    let back : suc (length above) - 1 ≡ length above = omega arith in
    let len : minus (length above) (length s.0) ≡ some (column above) = ground arith in
    (
      carried to n e,
      ap
            (λ (b : Bool).
              if b
              then (line_start_from e.buffer (suc (length above) - 1) >>= λ p.
                  minus (suc (length above) - 1) p >>= λ l. some (carried (p + smaller col l) n e))
              else some (placed (before, after) e))
            go
          ∙ ap
              (λ (k : ℕ). line_start_from e.buffer k >>= λ p.
                minus k p >>= λ l. some (carried (p + smaller col l) n e))
              back
          ∙ ap
              (λ r.
                r >>= λ p. minus (length above) p >>= λ l. some (carried (p + smaller col l) n e))
              (line_start_from_lem e.buffer above (x ∷ rest) (omega (arith, v.fits, here.whole))
                here.left.1)
          ∙ ap (λ r. r >>= λ l. some (carried (length s.0 + smaller col l) n e)) len,
      carried-Represents e n to (forth_in_line col s.0 s.1)
          (ap (λ (k : ℕ). length s.0 + smaller col k) (sym line)
            ∙ sym (length-forth_in_line col s.0 s.1))
          v.fits (forth_in_line-Holds col e.buffer n s.0 s.1 h),
    )

pub up-placed :
    (before after : List ℕ)
    → TurnsPlaced move_cursor_up (before, after) (moved Move.up (before, after))
unfolding move_cursor_up
up-placed before after e v =
    let (e', goes, represents) =
      onto_above-placed before after (back_while in_line before after) refl e v in
    (
      e',
      ap (λ r. r >>= λ (start, col). to_line_above (placed (before, after) e) col start)
            (start_and_col before after e (omega (arith, v.fits)) v.left)
          ∙ goes,
      represents,
    )

-- The end of the line that starts at `(x ∷ before, below)`.
abbrev line_end_of : ℕ → Option ℕ → ℕ
line_end_of n none = n
line_end_of n (some i) = i

line_end_of-found :
    (n : ℕ) (before below : List ℕ)
    → length before + length below ≡ n
    → line_end_of n (found (forth_while in_line before below)) ≡ length before + line_length below
line_end_of-found n before [] e = sym e
line_end_of-found n before (x ∷ below) e = elim (Bool-cases (x == b'\n')) [
  | inl stop ↦ rw stop (omega arith)
  | inr on ↦ rw on (line_end_of-found n (x ∷ before) below (omega arith) ∙ omega arith)
]

onto_below-placed :
    (before after : List ℕ) (t : Text)
    → forth_while in_line before after ≡ t
    → (e : PulseEditor) → Represents (before, after) (placed (before, after) e)
    → (e' : PulseEditor) × (to_next_line (placed (before, after) e) (column before) (found t)
        ≡ some e')
      × Represents (onto_below (column before) (before, after) t) e'
onto_below-placed before after (above, []) eq e v = (placed (before, after) e, refl, v)
onto_below-placed before after (above, x ∷ below) eq e v =
    let n = length before + length after in
    let there : Holds e.buffer n (above, x ∷ below) =
      subst (Holds e.buffer n) eq
        (forth_while-Holds in_line e.buffer n before after (Holds-placed before after e v)) in
    let h = step_forth e.buffer n x above below there in
    let col = column before in
    let start : length above + 1 ≡ suc (length above) = omega arith in
    let go : leb (suc (length above)) n ≡ true = ground (arith, h.whole) in
    let rest : n - suc (length above) ≡ length below = omega (arith, h.whole) in
    let seek =
      find_newline_lem e.buffer (x ∷ above) below (omega (arith, v.fits, h.whole)) h.right in
    let line_end = line_end_of-found n (x ∷ above) below h.whole in
    let len : minus (suc (length above) + line_length below) (suc (length above))
        ≡ some (line_length below) =
      ground arith in
    let to : ℕ = suc (length above) + smaller col (line_length below) in
    (
      carried to n e,
      ap
            (λ (k : ℕ).
              if leb k n
              then (find_newline e.buffer k (n - k) >>= λ f.
                  minus (line_end_of n f) k >>= λ l. some (carried (k + smaller col l) n e))
              else some (placed (before, after) e))
            start
          ∙ ap
              (λ (b : Bool).
                if b
                then (find_newline e.buffer (suc (length above)) (n - suc (length above)) >>= λ f.
                    minus (line_end_of n f) (suc (length above)) >>= λ l.
                    some (carried (suc (length above) + smaller col l) n e))
                else some (placed (before, after) e))
              go
          ∙ ap
              (λ (k : ℕ). find_newline e.buffer (suc (length above)) k >>= λ f.
                minus (line_end_of n f) (suc (length above)) >>= λ l.
                some (carried (suc (length above) + smaller col l) n e))
              rest
          ∙ ap
              (λ r. r >>= λ f. minus (line_end_of n f) (suc (length above)) >>= λ l.
                some (carried (suc (length above) + smaller col l) n e))
              seek
          ∙ ap
              (λ (k : ℕ). minus k (suc (length above)) >>= λ l.
                some (carried (suc (length above) + smaller col l) n e))
              line_end
          ∙ ap (λ r. r >>= λ l. some (carried (suc (length above) + smaller col l) n e)) len,
      carried-Represents e n to (forth_in_line col (x ∷ above) below)
          (sym (length-forth_in_line col (x ∷ above) below)) v.fits
          (forth_in_line-Holds col e.buffer n (x ∷ above) below h),
    )

pub down-placed :
    (before after : List ℕ)
    → TurnsPlaced move_cursor_down (before, after) (moved Move.down (before, after))
unfolding move_cursor_down
down-placed before after e v =
    let (e', goes, represents) =
      onto_below-placed before after (forth_while in_line before after) refl e v in
    let n = length before + length after in
    let rest : n - length before ≡ length after = omega arith in
    (
      e',
      ap
            (λ r. r >>= λ (_, col).
              find_newline e.buffer (length before) (n - length before) >>= λ f.
              to_next_line (placed (before, after) e) col f)
            (start_and_col before after e (omega (arith, v.fits)) v.left)
          ∙ ap
              (λ (k : ℕ). find_newline e.buffer (length before) k >>= λ f.
                to_next_line (placed (before, after) e) (column before) f)
              rest
          ∙ ap (λ r. r >>= λ f. to_next_line (placed (before, after) e) (column before) f)
              (find_newline_lem e.buffer before after v.fits v.right)
          ∙ goes,
      represents,
    )
