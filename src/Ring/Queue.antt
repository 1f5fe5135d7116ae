-- ===== src/Ring/Queue.antt =====
-- One call after the other on an `SpscRingBuffer` (kernel/src/ring_buffer.rs): a bounded queue, and
-- what `len` tells of it.
use Prim.Native.Nat.{◌∣◌}
use native.Mathlib.Nat.{mod-mod_of_dvd}
use native.Mathlib.Decide.{dec_lt, ℕ_discrete}
use latency_os.Prelude.{
  if◌then◌else◌, leb, Bool-cases, ◌⊎◌, ℕ, zero, suc, ◌+◌, ◌%◌, ◌^◌, ◌≤◌, ◌<◌, ◌≡◌, refl, sym, ap,
  ◌∙◌, ◌≢◌, arith, true, List, [], ◌∷◌, ◌++◌, length, none, some, Cells, update, ==_ne, ==_iff, ◌⊎◌,
  inl, inr, ◌↔◌,
}
use latency_os.Prelude.Word.{IsWord, word_add, word_sub}
use latency_os.Ring.{Ring, push, pop, len, is_empty, is_full}
use latency_os.Ring.Cores.Invariant.{cell-ne}

-- how many items the ring holds
abbrev pub occupancy {ℓ} : {A : Type ℓ} → Ring A → ℕ
occupancy r = word_sub r.head r.tail

pub record IsValid {ℓ} {A : Type ℓ} (cap : ℕ) (r : Ring A) : Type 0 where
  pub head_word : IsWord r.head
  pub tail_word : IsWord r.tail
  pub fits : occupancy r ≤ cap

module _ {ℓ} {A : Type ℓ} (cap : ℕ) where
  -- the `n` items from `tail` on
  abbrev pub window : Cells A → ℕ → ℕ → List A
  window buffer tail zero = []
  window buffer tail (suc n) = buffer (tail % cap) ∷ window buffer (word_add tail 1) n

  abbrev pub contents : Ring A → List A
  contents r = window r.buffer r.tail (occupancy r)

  pub length-window : (buffer : Cells A) (tail n : ℕ) → length (window buffer tail n) ≡ n
  length-window buffer tail zero = refl
  length-window buffer tail (suc n) = ap suc (length-window buffer (word_add tail 1) n)

  -- A write behind the window leaves it alone.
  window-update :
      (divides : cap ∣ 2 ^ 64) (buffer : Cells A) (item : A) (head tail n : ℕ)
      → IsWord tail
      → head ≡ (tail + n) % 2 ^ 64
      → n < cap
      → window (update buffer (head % cap) item) tail (suc n) ≡ window buffer tail n ++ item ∷ []
  window-update divides buffer item head tail zero w e lt =
      let same : tail ≡ head = omega arith in
      rw ((==_iff (tail % cap) (head % cap)).1 (ap (λ k. k % cap) same))
  window-update divides buffer item head tail (suc n) w e lt =
      let cell : head % cap ≡ (tail + suc n) % cap =
        ap (λ k. k % cap) e ∙ mod-mod_of_dvd cap (tail + suc n) divides in
      let ne : tail % cap ≢ head % cap =
        λ p. cell-ne cap tail (tail + suc n) (omega arith) (omega arith) (sym (p ∙ cell)) in
      let rest =
        window-update divides buffer item head (word_add tail 1) n (omega arith) (omega arith)
          (omega arith) in
      rw (==_ne (tail % cap) (head % cap) ne) (ap (λ t. buffer (tail % cap) ∷ t) rest)

  window_of_pos :
      (buffer : Cells A) (tail n m : ℕ)
      → n ≡ suc m
      → window buffer tail n ≡ buffer (tail % cap) ∷ window buffer (word_add tail 1) m
  window_of_pos buffer tail n m e = ap (window buffer tail) e

module _ {ℓ} {A : Type ℓ} (cap : ℕ) (divides : cap ∣ 2 ^ 64) (small : cap < 2 ^ 64) where
  abbrev pushed : Ring A → A → Ring A
  pushed r x = record r { buffer = update r.buffer (r.head % cap) x; head = word_add r.head 1 }

  -- A valid ring takes an item unless it holds `cap` items, also where the indices have wrapped:
  -- the item goes behind those it holds. `cap` divides 2 ^ 64.
  pub push_refines :
      (r : Ring A) (x : A)
      → IsValid cap r
      → ((push cap r x ≡ none) × (occupancy r ≡ cap))
        ⊎ ((r' : Ring A) × (push cap r x ≡ some r')
            × IsValid cap r'
            × (contents cap r' ≡ contents cap r ++ x ∷ []))
  unfolding push
  push_refines r x v = elim (dec_lt (occupancy r) cap) [
    | no ge ↦ inl (ground (arith, v.fits), omega (arith, v.fits))
    | yes lt ↦
        let more : occupancy (pushed r x) ≡ suc (occupancy r) =
          omega (arith, v.head_word, v.tail_word) in
        inr (
          pushed r x,
          ground arith,
          record { head_word = omega arith; tail_word = v.tail_word; fits = omega arith },
          ap (window cap (pushed r x).buffer r.tail) more
              ∙ window-update cap divides r.buffer x r.head r.tail (occupancy r) v.tail_word
                  (omega (arith, v.head_word, v.tail_word)) lt,
        )
  ]

  -- A valid ring gives its oldest item and keeps the others, unless it is empty.
  pub pop_refines :
      (r : Ring A)
      → IsValid cap r
      → ((pop cap r ≡ none) × (contents cap r ≡ []))
        ⊎ ((x : A) × (r' : Ring A) × (pop cap r ≡ some (x, r'))
            × IsValid cap r'
            × (contents cap r ≡ x ∷ contents cap r'))
  unfolding pop
  pop_refines r v = elim (ℕ_discrete r.tail r.head) [
    | yes e ↦
        let none_held : occupancy r ≡ 0 = omega (arith, v.head_word) in
        inl (ground arith, ap (window cap r.buffer r.tail) none_held)
    | no ne ↦
        let r' : Ring A = record r { tail = word_add r.tail 1 } in
        let fewer : occupancy r ≡ suc (occupancy r') = omega (arith, v.head_word, v.tail_word) in
        inr (
          r.buffer (r.tail % cap),
          r',
          ground arith,
          record { head_word = v.head_word; tail_word = omega arith; fits = omega (arith, v.fits) },
          window_of_pos cap r.buffer r.tail (occupancy r) (occupancy r') fewer,
        )
  ]

  -- `is_empty` and `is_full` tell how many items a valid ring holds.
  is_empty-is_full :
      (r : Ring A)
      → IsValid cap r
      → ((is_empty cap r ≡ true) ↔ (length (contents cap r) ≡ 0))
        × ((is_full cap r ≡ true) ↔ (length (contents cap r) ≡ cap))
  unfolding is_empty is_full
  is_empty-is_full r v =
      let held = length-window cap r.buffer r.tail (occupancy r) in
      (
        ((λ e. ground (arith, held)), (λ e. ground (arith, held, v.head_word, v.tail_word))),
        ((λ e. ground (arith, held, v.fits)), (λ e. ground (arith, held, v.fits))),
      )

  -- `len` is the number of items of a valid ring as long as `head` has not wrapped past `tail`, and
  -- 0 once it has; the ring holds at least one item then.
  pub len_lem :
      (r : Ring A)
      → IsValid cap r
      → (len cap r ≡ (if leb r.tail r.head then length (contents cap r) else 0))
        × ((leb r.tail r.head ≡ true) ⊎ (0 < length (contents cap r)))
  unfolding len
  len_lem r v =
      let held = length-window cap r.buffer r.tail (occupancy r) in
      elim (Bool-cases (leb r.tail r.head)) [
        | inl le ↦ (ground (arith, held, v.fits, v.head_word), inl le)
        | inr gt ↦ (ground arith, inr (ground (arith, held, v.head_word, v.tail_word)))
      ]
