-- ===== src/Ring.antt =====
-- kernel/src/ring_buffer.rs: `SpscRingBuffer`, a ring between one producer core and one consumer
-- core. `head` and `tail` run through all of `usize` and wrap; the index is their remainder.
pub mod Cores
pub mod Queue
mod Tests
use latency_os.Prelude.{
  ℕ, ◌+◌, ◌-◌, ◌%◌, ◌^◌, Bool, Option, none, some, Cells, update, ltb, leb, ◌==◌, if◌then◌else◌,
}
use latency_os.Prelude.Word.{word_add, word_sub}

pub record Ring {ℓ} (A : Type ℓ) : Type ℓ where
  pub buffer : Cells A
  pub head : ℕ
  pub tail : ℕ

unfoldable pub new {ℓ} : {A : Type ℓ} → A → Ring A
new default_val = record { buffer = λ _. default_val; head = 0; tail = 0 }

-- `head.wrapping_sub(tail) >= CAP`
abbrev pub full_by : ℕ → ℕ → ℕ → Bool
full_by cap head tail = leb cap (word_sub head tail)

module _ {ℓ} {A : Type ℓ} (cap : ℕ) where
  -- `none` is `Err(())`.
  unfoldable pub push : Ring A → A → Option (Ring A)
  push r item =
      if full_by cap r.head r.tail
      then none
      else some
          (record r { buffer = update r.buffer (r.head % cap) item; head = word_add r.head 1 })

  unfoldable pub pop : Ring A → Option (A × Ring A)
  pop r =
      if r.tail == r.head
      then none
      else some (r.buffer (r.tail % cap), record r { tail = word_add r.tail 1 })

  unfoldable pub is_empty : Ring A → Bool
  is_empty r = r.tail == r.head

  unfoldable pub is_full : Ring A → Bool
  is_full r = full_by cap r.head r.tail

  unfoldable pub len : Ring A → ℕ
  len r =
      let diff = r.head - r.tail in
      if leb r.tail r.head then (if leb diff cap then diff else cap) else 0
