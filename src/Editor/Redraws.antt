-- ===== src/Editor/Redraws.antt =====
-- The redraws of kernel/src/editor.rs, without the bytes they send: they end, do not panic, and keep
-- the editor valid.
use latency_os.Prelude.{
  ℕ, suc, ◌+◌, ◌-◌, ◌≤◌, ◌≡◌, arith, Bool, true, false, ◌&&◌, Option, none, some, take, ltb, leb,
  if◌then◌else◌,
}
use latency_os.Vm.Text.{codes}
use latency_os.Lexer.Places.{newlines}
use latency_os.Editor.Arrays.{◌>>=◌, minus}
use latency_os.Editor.Painting.{paint_screen, paint_current}
use latency_os.Editor.Paints.{Ends, paint_screen-Ends, paint_current-Ends}
use latency_os.Editor.{PulseEditor, set_status}
use latency_os.Editor.Lines.{get_row_col, adjust_scroll}
use latency_os.Editor.Zipper.{Text, Represents}
use latency_os.Editor.Screen.{width, get_row_col-newlines, adjust_scroll-newlines}
use latency_os.Editor.Commands.{redraw, update_cursor_only, redraw_current_line, run_code}
use latency_os.Editor.Valid.{IsValid, Safe, text_of, IsValid-Represents, line_start_within}

-- `adjust_scroll` leaves the row of the cursor at or below the top line.
scrolled :
    (e : PulseEditor)
    → IsValid e
    → (e' : PulseEditor) × (changed : Bool) × (row : ℕ) × (col : ℕ) × (adjust_scroll e
        ≡ some (e', changed))
      × (get_row_col e' ≡ some (row, col))
      × (e'.top_line ≤ row)
      × IsValid e'
scrolled e v =
    let t : Text = text_of e in
    let r = IsValid-Represents e v in
    let (_, (top, changed, scrolls, low, _, _, _)) = adjust_scroll-newlines t e r in
    let e' : PulseEditor = record e { top_line = top } in
    let r' : Represents t e' = record {
      cursor = r.cursor;
      buf_len = r.buf_len;
      fits = r.fits;
      left = r.left;
      right = r.right;
    } in
    (
      e',
      changed,
      suc (newlines t.0),
      width t.0,
      scrolls,
      get_row_col-newlines t e' r',
      low,
      record { inside = v.inside; fits = v.fits },
    )

minus_le : (a b : ℕ) → b ≤ a → minus a b ≡ some (a - b)
minus_le a b le = ground arith

Safe-after : (m : Option ℕ) (x : Option PulseEditor) → Ends m → Safe x → Safe (m >>= λ _. x)
Safe-after none x ends s = absurd ends
Safe-after (some n) x ends s = s

pub redraw-Safe : (e : PulseEditor) → IsValid e → Safe (redraw e)
unfolding redraw
redraw-Safe e v =
    let (e', changed, row, col, scrolls, at, low, v') = scrolled e v in
    let placed : Safe (minus row e'.top_line >>= λ _. some (record e' { needs_redraw = false })) =
      rw (minus_le row e'.top_line low) (record { inside = v'.inside; fits = v'.fits }) in
    rw scrolls (rw at (Safe-after (paint_screen e') _ (paint_screen-Ends e' v') placed))

Safe-if : (b : Bool) (x y : Option PulseEditor) → Safe x → Safe y → Safe (if b then x else y)
Safe-if true x y p q = p
Safe-if false x y p q = q

pub update_cursor_only-Safe : (e : PulseEditor) → IsValid e → Safe (update_cursor_only e)
unfolding update_cursor_only
update_cursor_only-Safe e v =
    let (e', changed, row, col, scrolls, at, low, v') = scrolled e v in
    rw scrolls (
      Safe-if changed (redraw e') _ (redraw-Safe e' v')
        (rw at (rw (minus_le row e'.top_line low) v')))

pub redraw_current_line-Safe : (e : PulseEditor) → IsValid e → Safe (redraw_current_line e)
unfolding redraw_current_line
redraw_current_line-Safe e v =
    let (e', changed, row, col, scrolls, at, low, v') = scrolled e v in
    let (start, line_col, made, before) = line_start_within e' v' in
    let painted : Safe (paint_current e' start >>= λ _. some (record e' { needs_redraw = false })) =
      Safe-after (paint_current e' start) _
        (paint_current-Ends e' start v' (omega (arith, before, v'.inside)))
        (record { inside = v'.inside; fits = v'.fits }) in
    rw scrolls (
      Safe-if changed (redraw e') _ (redraw-Safe e' v') (
        rw at (
          rw made (
            Safe-if (leb e'.top_line row && ltb row (e'.top_line + 21)) _ (redraw e')
              (rw (minus_le row e'.top_line low) painted) (redraw-Safe e' v')))))

-- The run came to an end or to an error: it did not panic, and it returned.
abbrev pub Returned : Option Bool → Type 0
Returned none = ⊥
Returned (some _) = Unit

pub run_code-Safe :
    (ran : Option Bool) (e : PulseEditor) → Returned ran → IsValid e → Safe (run_code ran e)
unfolding run_code set_status
run_code-Safe (some done) e returned v =
    redraw-Safe
      (record e {
        status_msg = take 64 (
            codes (
              if done
              then "Code executed successfully."
              else "Compile/Runtime error! (Diagnostic displayed)"));
        needs_redraw = true;
      })
      (record { inside = v.inside; fits = v.fits })
run_code-Safe none e returned v = absurd returned
