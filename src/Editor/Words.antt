-- ===== src/Editor/Words.antt =====
-- `move_word_left` and `move_word_right` of kernel/src/editor.rs, against the moves on a text.
use latency_os.Prelude.{
  ℕ, suc, ◌+◌, ◌-◌, ◌≡◌, refl, ◌∙◌, ap, arith, Bool, true, false, some, List, [], ◌∷◌, length, leb,
  ◌==◌, if◌then◌else◌,
}
use latency_os.Editor.Arrays.{◌>>=◌, scan_left, scan_right}
use latency_os.Editor.{is_blank, is_word, move_word_left, move_word_right}
use latency_os.Editor.Zipper.{Text, back_while, forth_while, placed, TurnsPlaced, Move, moved}
use latency_os.Editor.Places.{carried, carried-Represents, Holds-placed}
use latency_os.Editor.Scans.{back_while-Holds, forth_while-Holds, scan_left_lem, scan_right_lem}

pub word_left-placed :
    (before after : List ℕ)
    → TurnsPlaced move_word_left (before, after) (moved Move.word_left (before, after))
unfolding move_word_left
word_left-placed [] after e v = (placed ([], after) e, refl, v)
word_left-placed (x ∷ before) after e v =
    let n = length (x ∷ before) + length after in
    let gap : Text = back_while is_blank (x ∷ before) after in
    let h =
      back_while-Holds is_blank e.buffer n (x ∷ before) after
        (Holds-placed (x ∷ before) after e v) in
    let h2 = back_while-Holds is_word e.buffer n gap.0 gap.1 h in
    let to : ℕ = length (back_while is_word gap.0 gap.1).0 in
    let go : (suc (length before) == 0) ≡ false = ground arith in
    (
      carried to n e,
      ap
            (λ (t : Bool).
              if t
              then some (placed (x ∷ before, after) e)
              else (scan_left is_blank e.buffer (suc (length before)) >>= λ word_end.
                  scan_left is_word e.buffer word_end >>= λ pos. some (carried pos n e)))
            go
          ∙ ap
              (λ r. r >>= λ word_end.
                scan_left is_word e.buffer word_end >>= λ pos. some (carried pos n e))
              (scan_left_lem is_blank e.buffer (x ∷ before) after (omega (arith, v.fits)) v.left)
          ∙ ap (λ r. r >>= λ pos. some (carried pos n e))
              (scan_left_lem is_word e.buffer gap.0 gap.1 (omega (arith, v.fits, h.whole)) h.left),
      carried-Represents e n to (back_while is_word gap.0 gap.1) refl v.fits h2,
    )

pub word_right-placed :
    (before after : List ℕ)
    → TurnsPlaced move_word_right (before, after) (moved Move.word_right (before, after))
unfolding move_word_right
word_right-placed before [] e v =
    let stop : leb (length before + 0) (length before) ≡ true = ground arith in
    rw stop (placed (before, []) e, refl, v)
word_right-placed before (x ∷ after) e v =
    let n = length before + suc (length after) in
    let go : leb n (length before) ≡ false = ground arith in
    let word : Text = forth_while is_word before (x ∷ after) in
    let h =
      forth_while-Holds is_word e.buffer n before (x ∷ after)
        (Holds-placed before (x ∷ after) e v) in
    let h2 = forth_while-Holds is_blank e.buffer n word.0 word.1 h in
    let to : ℕ = length (forth_while is_blank word.0 word.1).0 in
    let rest : n - length before ≡ suc (length after) = omega arith in
    let rest2 : n - length word.0 ≡ length word.1 = omega (arith, h.whole) in
    (
      carried to n e,
      ap
            (λ (t : Bool).
              if t
              then some (placed (before, x ∷ after) e)
              else (scan_right is_word e.buffer (length before) (n - length before) >>= λ word_end.
                  scan_right is_blank e.buffer word_end (n - word_end) >>= λ pos.
                  some (carried pos n e)))
            go
          ∙ ap
              (λ (k : ℕ). scan_right is_word e.buffer (length before) k >>= λ word_end.
                scan_right is_blank e.buffer word_end (n - word_end) >>= λ pos.
                some (carried pos n e))
              rest
          ∙ ap
              (λ r. r >>= λ word_end.
                scan_right is_blank e.buffer word_end (n - word_end) >>= λ pos.
                some (carried pos n e))
              (scan_right_lem is_word e.buffer before (x ∷ after) v.fits v.right)
          ∙ ap
              (λ (k : ℕ).
                scan_right is_blank e.buffer (length word.0) k >>= λ pos. some (carried pos n e))
              rest2
          ∙ ap (λ r. r >>= λ pos. some (carried pos n e))
              (scan_right_lem is_blank e.buffer word.0 word.1 (omega (arith, v.fits, h.whole))
                h.right),
      carried-Represents e n to (forth_while is_blank word.0 word.1) refl v.fits h2,
    )
