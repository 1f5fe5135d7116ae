-- ===== src/Editor/KeyRuns.antt =====
-- The keys of kernel/src/editor.rs, one by one: each keeps the editor valid.
use latency_os.Prelude.{
  ℕ, arith, Bool, true, false, ◌&&◌, Option, none, some, List, Cells, ◌==◌, if◌then◌else◌,
}
use latency_os.Vm.Text.{codes}
use latency_os.Editor.Arrays.{◌>>=◌}
use latency_os.Editor.{
  PulseEditor, EditorEscState, insert_char, insert_str, delete_char_backspace,
  delete_char_under_cursor, move_word_left, move_word_right, set_status,
}
use latency_os.Editor.Lines.{move_cursor_up, move_cursor_down}
use latency_os.Editor.Zipper.{Edit, Move}
use latency_os.Editor.Keys.{
  Session, Ending, at_normal, normal_key, esc_key, ss3_move, ss3_key, tilde_key, csi_key, key_in,
  read_byte, and_structure, and_cursor, and_normal,
}
use latency_os.Editor.Commands.{
  run_code, times, step_right, step_left, to_line_start, to_line_end, cut_current_line,
}
use latency_os.Editor.Valid.{IsValid, Safe, run_edit-Safe, run_move-Safe}
use latency_os.Editor.Redraws.{Returned, run_code-Safe}
use latency_os.Editor.KeyParts.{
  Safe-bind, save_file-IsValid, times-Safe, step_right-Safe, step_left-Safe, to_line_start-Safe,
  to_line_end-Safe, cut_current_line-Safe,
}

-- The step does not panic, and leaves a valid editor.
abbrev pub Runs : Option Session → Type 0
Runs none = ⊥
Runs (some s) = IsValid s.editor

pub Runs-bind :
    (m : Option PulseEditor) (f : PulseEditor → Option Session)
    → Safe m
    → ((e : PulseEditor) → IsValid e → Runs (f e))
    → Runs (m >>= f)
Runs-bind none f s keeps = s
Runs-bind (some e) f s keeps = keeps e s

and_structure-Runs : (s : Session) (m : Option PulseEditor) → Safe m → Runs (and_structure s m)
and_structure-Runs s none h = h
and_structure-Runs s (some e) h = h

and_cursor-Runs : (s : Session) (m : Option PulseEditor) → Safe m → Runs (and_cursor s m)
and_cursor-Runs s none h = h
and_cursor-Runs s (some e) h = h

and_normal-Runs : (m : Option Session) → Runs m → Runs (and_normal m)
and_normal-Runs none h = h
and_normal-Runs (some s) h = record { inside = h.inside; fits = h.fits }

ss3_move-Runs : (done : Ending) (b : ℕ) (s : Session) → IsValid s.editor → Runs (ss3_move done b s)
unfolding ss3_move
ss3_move-Runs done b s v =
    let e = s.editor in
    ground (
      arith,
      and_cursor-Runs s (move_cursor_up e) (run_move-Safe Move.up e v),
      and_cursor-Runs s (move_cursor_down e) (run_move-Safe Move.down e v),
      and_cursor-Runs s (step_right e) (step_right-Safe e v),
      and_cursor-Runs s (step_left e) (step_left-Safe e v),
      and_cursor-Runs s (to_line_start e) (to_line_start-Safe e v),
      and_cursor-Runs s (to_line_end e) (to_line_end-Safe e v),
      save_file-IsValid done.saved e v,
    )

insert_str-Safe : (s : List ℕ) (e : PulseEditor) → IsValid e → Safe (insert_str s e)
insert_str-Safe s = run_edit-Safe (Edit.pasted s)

insert_char-Safe : (c : ℕ) (e : PulseEditor) → IsValid e → Safe (insert_char c e)
insert_char-Safe c = run_edit-Safe (Edit.typed c)

normal_key-Runs :
    (done : Ending) (b : ℕ) (s : Session)
    → Returned done.ran
    → IsValid s.editor
    → Runs (normal_key done b s)
unfolding normal_key
normal_key-Runs done b s returned v =
    let e = s.editor in
    ground (
      arith,
      save_file-IsValid done.saved e v,
      and_structure-Runs s (run_code done.ran e) (run_code-Safe done.ran e returned v),
      and_structure-Runs s (times 20 move_cursor_up e)
          (times-Safe 20 move_cursor_up (run_move-Safe Move.up) e v),
      and_structure-Runs s (times 20 move_cursor_down e)
          (times-Safe 20 move_cursor_down (run_move-Safe Move.down) e v),
      and_structure-Runs s (cut_current_line e) (cut_current_line-Safe e v),
      Runs-bind (insert_str (codes "    ") e)
          (λ e'. some (record s { editor = e'; line_changed = true; last_was_cr = false }))
          (insert_str-Safe (codes "    ") e v) (λ e' w. w),
      Runs-bind (delete_char_backspace e)
          (λ e'. some (record s { editor = e'; structure_changed = true; last_was_cr = false }))
          (run_edit-Safe Edit.backspace e v) (λ e' w. w),
      Runs-bind (insert_char b'\n' e)
          (λ e'. some (record s { editor = e'; structure_changed = true; last_was_cr = true }))
          (insert_char-Safe b'\n' e v) (λ e' w. w),
      Runs-bind (insert_char b'\n' e)
          (λ e'. some (record s { editor = e'; structure_changed = true; last_was_cr = false }))
          (insert_char-Safe b'\n' e v) (λ e' w. w),
      Runs-bind (insert_char b e)
          (λ e'. some (record s { editor = e'; line_changed = true; last_was_cr = false }))
          (insert_char-Safe b e v) (λ e' w. w),
    )

esc_key-Runs :
    (done : Ending) (b : ℕ) (s : Session)
    → Returned done.ran
    → IsValid s.editor
    → Runs (esc_key done b s)
unfolding esc_key set_status
esc_key-Runs done b s returned v =
    let e = s.editor in
    let ran : Safe (run_code done.ran e >>= λ e'. some (at_normal e')) =
      Safe-bind (run_code done.ran e) (λ e'. some (at_normal e'))
        (run_code-Safe done.ran e returned v)
        (λ e' w. record { inside = w.inside; fits = w.fits }) in
    ground (
      arith,
      save_file-IsValid done.saved e v,
      and_structure-Runs s (run_code done.ran e >>= λ e'. some (at_normal e')) ran,
      Runs-bind (insert_char b e)
          (λ e'. some (record s { editor = at_normal e'; line_changed = true }))
          (insert_char-Safe b e v) (λ e' w. record { inside = w.inside; fits = w.fits }),
    )

ss3_key-Runs : (done : Ending) (b : ℕ) (s : Session) → IsValid s.editor → Runs (ss3_key done b s)
unfolding ss3_key
ss3_key-Runs done b s v = and_normal-Runs (ss3_move done b s) (ss3_move-Runs done b s v)

then_structure :
    (s : Session) (m : Option PulseEditor) → Safe m → Runs (and_normal (and_structure s m))
then_structure s m h = and_normal-Runs (and_structure s m) (and_structure-Runs s m h)

then_cursor : (s : Session) (m : Option PulseEditor) → Safe m → Runs (and_normal (and_cursor s m))
then_cursor s m h = and_normal-Runs (and_cursor s m) (and_cursor-Runs s m h)

tilde_key-Runs :
    (done : Ending) (n : ℕ) (s : Session)
    → Returned done.ran
    → IsValid s.editor
    → Runs (tilde_key done n s)
unfolding tilde_key
tilde_key-Runs done n s returned v =
    let e = s.editor in
    ground (
      arith,
      save_file-IsValid done.saved e v,
      then_structure s (run_code done.ran e) (run_code-Safe done.ran e returned v),
      then_structure s (delete_char_under_cursor e) (run_edit-Safe Edit.delete e v),
      then_cursor s (to_line_start e) (to_line_start-Safe e v),
      then_cursor s (to_line_end e) (to_line_end-Safe e v),
      then_structure s (times 20 move_cursor_up e)
          (times-Safe 20 move_cursor_up (run_move-Safe Move.up) e v),
      then_structure s (times 20 move_cursor_down e)
          (times-Safe 20 move_cursor_down (run_move-Safe Move.down) e v),
    )

Safe-if :
    (b : Bool) (f g : PulseEditor → Option PulseEditor) (e : PulseEditor)
    → Safe (f e)
    → Safe (g e)
    → Safe (if b then f e else g e)
Safe-if true f g e p q = p
Safe-if false f g e p q = q

csi_key-Runs :
    (done : Ending) (b : ℕ) (params : Cells ℕ) (param_count : ℕ) (s : Session)
    → Returned done.ran
    → IsValid s.editor
    → Runs (csi_key done b params param_count s)
unfolding csi_key
csi_key-Runs done b params param_count s returned v =
    let e = s.editor in
    let is_ctrl : Bool = params 0 == 1 && params 1 == 5 in
    let n : ℕ = if is_ctrl then 5 else 1 in
    ground (
      arith,
      then_cursor s (times n move_cursor_up e)
          (times-Safe n move_cursor_up (run_move-Safe Move.up) e v),
      then_cursor s (times n move_cursor_down e)
          (times-Safe n move_cursor_down (run_move-Safe Move.down) e v),
      then_cursor s (if is_ctrl then move_word_right e else step_right e) (
          Safe-if is_ctrl move_word_right step_right e (run_move-Safe Move.word_right e v)
            (step_right-Safe e v)),
      then_cursor s (if is_ctrl then move_word_left e else step_left e) (
          Safe-if is_ctrl move_word_left step_left e (run_move-Safe Move.word_left e v)
            (step_left-Safe e v)),
      then_cursor s (to_line_start e) (to_line_start-Safe e v),
      then_cursor s (to_line_end e) (to_line_end-Safe e v),
      tilde_key-Runs done (params 0) s returned v,
      then_structure s (delete_char_under_cursor e) (run_edit-Safe Edit.delete e v),
    )

key_in-Runs :
    (state : EditorEscState) (done : Ending) (b : ℕ) (s : Session)
    → Returned done.ran
    → IsValid s.editor
    → Runs (key_in state done b s)
key_in-Runs EditorEscState.normal done b s returned v = normal_key-Runs done b s returned v
key_in-Runs EditorEscState.esc done b s returned v = esc_key-Runs done b s returned v
key_in-Runs EditorEscState.ss3 done b s returned v = ss3_key-Runs done b s v
key_in-Runs (EditorEscState.csi params param_count) done b s returned v =
    csi_key-Runs done b params param_count s returned v

pub read_byte-Runs :
    (done : Ending) (b : ℕ) (s : Session)
    → Returned done.ran
    → IsValid s.editor
    → Runs (read_byte done b s)
unfolding read_byte
read_byte-Runs done b s returned v = key_in-Runs s.editor.esc_state done b s returned v
