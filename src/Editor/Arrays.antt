-- ===== src/Editor/Arrays.antt =====
-- The loops of kernel/src/editor.rs over its buffer of 4096 bytes.
use latency_os.Prelude.{
  ℕ, zero, suc, ◌+◌, ◌-◌, Bool, Option, none, some, List, [], ◌∷◌, ltb, leb, ◌==◌, if◌then◌else◌,
  Cells, update,
}

infixl 5 ◌>>=◌
abbrev pub ◌>>=◌ {ℓ κ} : {A : Type ℓ} {B : Type κ} → Option A → (A → Option B) → Option B
none >>= f = none
some a >>= f = f a

abbrev pub max_editor_buf : ℕ
max_editor_buf = 4096

-- An index expression panics outside the array.
abbrev pub read : Cells ℕ → ℕ → Option ℕ
read b i = if ltb i max_editor_buf then some (b i) else none

abbrev pub write : Cells ℕ → ℕ → ℕ → Option (Cells ℕ)
write b i v = if ltb i max_editor_buf then some (update b i v) else none

-- A difference of `usize` panics below 0.
abbrev pub minus : ℕ → ℕ → Option ℕ
minus a b = if leb b a then some (a - b) else none

-- `for i in (start..start + n).rev() { buffer[i + by] = buffer[i] }`
unfoldable pub move_up : (start by n : ℕ) → Cells ℕ → Option (Cells ℕ)
move_up start by zero b = some b
move_up start by (suc n) b =
    read b (start + n) >>= λ v. write b (start + n + by) v >>= λ b'. move_up start by n b'

-- `for i in start..start + n { buffer[i] = buffer[i + by] }`
unfoldable pub move_down : (start by n : ℕ) → Cells ℕ → Option (Cells ℕ)
move_down start by zero b = some b
move_down start by (suc n) b =
    read b (start + by) >>= λ v. write b start v >>= λ b'. move_down (start + 1) by n b'

-- `buffer[start..start + s.len()].copy_from_slice(s)`
unfoldable pub copy_in : ℕ → List ℕ → Cells ℕ → Option (Cells ℕ)
copy_in start [] b = some b
copy_in start (x ∷ xs) b = write b start x >>= λ b'. copy_in (start + 1) xs b'

-- `while pos > 0 && test(buffer[pos - 1]) { pos -= 1 }`
unfoldable pub scan_left : (ℕ → Bool) → Cells ℕ → ℕ → Option ℕ
scan_left test b zero = some 0
scan_left test b (suc pos) =
    read b pos >>= λ v. if test v then scan_left test b pos else some (suc pos)

-- `while pos < pos + n && test(buffer[pos]) { pos += 1 }`, with `n` bytes left
unfoldable pub scan_right : (ℕ → Bool) → Cells ℕ → ℕ → ℕ → Option ℕ
scan_right test b pos zero = some pos
scan_right test b pos (suc n) =
    read b pos >>= λ v. if test v then scan_right test b (pos + 1) n else some pos

-- The place behind the last newline below `i`, or 0.
unfoldable pub line_start_from : Cells ℕ → ℕ → Option ℕ
line_start_from b zero = some 0
line_start_from b (suc i) =
    read b i >>= λ v. if v == b'\n' then some (i + 1) else line_start_from b i

-- The place of the first newline among the `n` bytes from `i` on.
unfoldable pub find_newline : Cells ℕ → ℕ → ℕ → Option (Option ℕ)
find_newline b i zero = some none
find_newline b i (suc n) =
    read b i >>= λ v. if v == b'\n' then some (some i) else find_newline b (i + 1) n
