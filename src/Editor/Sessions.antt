-- ===== src/Editor/Sessions.antt =====
-- The sessions of kernel/src/editor.rs: bytes, and the redraws behind their batches.
use latency_os.Prelude.{
  ℕ, zero, suc, ◌≤◌, arith, false, Option, none, some, List, [], ◌∷◌, length, take,
}
use latency_os.Editor.Texts.{copy_in_lem}
use latency_os.Editor.{PulseEditor, set_status, set_filename}
use latency_os.Editor.Keys.{Session, Input, read_byte, refresh, keys, ready, start_editor}
use latency_os.Editor.Commands.{load_file, redraw, redraw_current_line, update_cursor_only}
use latency_os.Editor.KeyRuns.{Runs, Runs-bind, read_byte-Runs}
use latency_os.Editor.Valid.{Safe, IsValid}
use latency_os.Editor.Redraws.{
  Returned, redraw-Safe, redraw_current_line-Safe, update_cursor_only-Safe,
}
use latency_os.Editor.Arrays.{◌>>=◌}

take_within : (n : ℕ) (xs : List ℕ) → length (take n xs) ≤ n
take_within zero xs = omega arith
take_within (suc n) [] = omega arith
take_within (suc n) (x ∷ xs) = omega (arith, take_within n xs)

load_file-Safe :
    (name : List ℕ) (found : Option (List ℕ)) (e : PulseEditor) → Safe (load_file name found e)
unfolding load_file set_status set_filename
load_file-Safe name none e = omega arith
load_file-Safe name (some contents) e =
    let size = take_within 4096 contents in
    let (b, made, _, _, _) = copy_in_lem 0 (take 4096 contents) e.buffer (omega arith) in
    rw made (record { inside = omega arith; fits = size })

then_Runs :
    (m : Option Session) (f : Session → Option Session)
    → Runs m
    → ((s : Session) → IsValid s.editor → Runs (f s))
    → Runs (m >>= f)
then_Runs none f h keeps = h
then_Runs (some s) f h keeps = keeps s h

refresh-Runs : (s : Session) → IsValid s.editor → Runs (refresh s)
unfolding refresh
refresh-Runs s v =
    let e = s.editor in
    ground (
      arith,
      v,
      Runs-bind (redraw e)
          (λ e'. some (record s {
            editor = e';
            structure_changed = false;
            line_changed = false;
            cursor_only = false;
          }))
          (redraw-Safe e v) (λ e' w. w),
      Runs-bind (redraw_current_line e)
          (λ e'. some (record s { editor = e'; line_changed = false; cursor_only = false }))
          (redraw_current_line-Safe e v) (λ e' w. w),
      Runs-bind (update_cursor_only e) (λ e'. some (record s { editor = e'; cursor_only = false }))
          (update_cursor_only-Safe e v) (λ e' w. w),
    )

-- Each run that a key of the session asks for returns, and does not panic.
abbrev pub RunsReturn : List Input → Type 0
RunsReturn [] = Unit
RunsReturn (Input.typed done b ∷ input) = Returned done.ran × RunsReturn input
RunsReturn (Input.drained ∷ input) = RunsReturn input

keys-Runs :
    (input : List Input) (s : Session) → RunsReturn input → IsValid s.editor → Runs (keys input s)
unfolding keys
keys-Runs [] s r v = v
keys-Runs (Input.typed done b ∷ input) s (returned, r) v = ground (
  arith,
  v,
  then_Runs (read_byte done b s) (keys input) (read_byte-Runs done b s returned v)
      (λ s' w. keys-Runs input s' r w),
)
keys-Runs (Input.drained ∷ input) s r v = ground (
  arith,
  v,
  then_Runs (refresh s) (keys input) (refresh-Runs s v) (λ s' w. keys-Runs input s' r w),
)

-- A session of the editor, from a file of any size or none, does not panic, and each of its redraws
-- ends, whatever bytes are typed, in batches of any size with a redraw behind each, and however the
-- saves among them end, provided that each run of the typed program returns and does not panic. Its
-- cursor is inside its text at the end, and its text inside the buffer.
pub start_editor-Runs :
    (name : List ℕ) (found : Option (List ℕ)) (input : List Input) (e : PulseEditor)
    → RunsReturn input
    → Runs (start_editor name found input e)
unfolding start_editor set_status
start_editor-Runs name found input e r =
    Runs-bind (load_file name found e) _ (load_file-Safe name found e) (λ loaded v.
      Runs-bind (redraw (ready loaded)) _
        (redraw-Safe (ready loaded) (record { inside = v.inside; fits = v.fits }))
        (λ drawn w.
          keys-Runs input
            (record {
              editor = drawn;
              last_was_cr = false;
              line_changed = false;
              structure_changed = false;
              cursor_only = false;
            })
            r w))
