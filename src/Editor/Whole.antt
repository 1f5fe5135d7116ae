-- ===== src/Editor/Whole.antt =====
-- The moves of the cursor in kernel/src/editor.rs leave the text as it is.
use latency_os.Prelude.{
  ℕ, zero, suc, ◌≡◌, refl, ◌∙◌, Bool, List, [], ◌∷◌, ◌==◌, Bool-cases, inl, inr,
}
use latency_os.Editor.{is_blank, is_word}
use latency_os.Editor.Zipper.{
  Text, whole, back_while, forth_while, forth_in_line, in_line, column, onto_above, onto_below,
  Move, moved,
}

back_while-whole :
    (test : ℕ → Bool) (before after : List ℕ)
    → whole (back_while test before after).0 (back_while test before after).1 ≡ whole before after
back_while-whole test [] after = refl
back_while-whole test (x ∷ before) after = elim (Bool-cases (test x)) [
  | inl on ↦ rw on (back_while-whole test before (x ∷ after))
  | inr off ↦ rw off
]

forth_while-whole :
    (test : ℕ → Bool) (before after : List ℕ)
    → whole (forth_while test before after).0 (forth_while test before after).1 ≡ whole before after
forth_while-whole test before [] = refl
forth_while-whole test before (x ∷ after) = elim (Bool-cases (test x)) [
  | inl on ↦ rw on (forth_while-whole test (x ∷ before) after)
  | inr off ↦ rw off
]

forth_in_line-whole :
    (col : ℕ) (before after : List ℕ)
    → whole (forth_in_line col before after).0 (forth_in_line col before after).1
      ≡ whole before after
forth_in_line-whole zero before after = refl
forth_in_line-whole (suc col) before [] = refl
forth_in_line-whole (suc col) before (x ∷ after) = elim (Bool-cases (x == b'\n')) [
  | inl stop ↦ rw stop
  | inr on ↦ rw on (forth_in_line-whole col (x ∷ before) after)
]

onto_above-whole :
    (col : ℕ) (here t : Text)
    → whole t.0 t.1 ≡ whole here.0 here.1
    → whole (onto_above col here t).0 (onto_above col here t).1 ≡ whole here.0 here.1
onto_above-whole col here ([], after) e = refl
onto_above-whole col here (x ∷ above, after) e =
    let start : Text = back_while in_line above (x ∷ after) in
    forth_in_line-whole col start.0 start.1 ∙ back_while-whole in_line above (x ∷ after) ∙ e

onto_below-whole :
    (col : ℕ) (here t : Text)
    → whole t.0 t.1 ≡ whole here.0 here.1
    → whole (onto_below col here t).0 (onto_below col here t).1 ≡ whole here.0 here.1
onto_below-whole col here (before, []) e = refl
onto_below-whole col here (before, x ∷ below) e = forth_in_line-whole col (x ∷ before) below ∙ e

pub moved-whole :
    (m : Move) (before after : List ℕ)
    → whole (moved m (before, after)).0 (moved m (before, after)).1 ≡ whole before after
moved-whole Move.word_left before after =
    let gap : Text = back_while is_blank before after in
    back_while-whole is_word gap.0 gap.1 ∙ back_while-whole is_blank before after
moved-whole Move.word_right before after =
    let word : Text = forth_while is_word before after in
    forth_while-whole is_blank word.0 word.1 ∙ forth_while-whole is_word before after
moved-whole Move.up before after =
    onto_above-whole (column before) (before, after) (back_while in_line before after)
      (back_while-whole in_line before after)
moved-whole Move.down before after =
    onto_below-whole (column before) (before, after) (forth_while in_line before after)
      (forth_while-whole in_line before after)
