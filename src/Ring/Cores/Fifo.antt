-- ===== src/Ring/Cores/Fifo.antt =====
-- What the two cores see of one `SpscRingBuffer` (kernel/src/ring_buffer.rs): items come out in the
-- order in which they went in, and no cell is written while it is read.
use Prim.Native.Nat.{◌∣◌}
use latency_os.Prelude.{
  ℕ, zero, suc, ◌-◌, ◌%◌, ◌^◌, ◌≤◌, ◌<◌, ◌≡◌, refl, sym, ap, ap₂, ◌∙◌, ◌≢◌, arith, false, List, [],
  ◌∷◌, ◌++◌, get_elem?, length, drop, ℕ, some,
}
use latency_os.Ring.{new, full_by}
use latency_os.Ring.Cores.{Producer, Consumer, System, Reach, here, next, start}
use latency_os.Ring.Cores.Invariant.{
  IsConsistent, wrap-cell, cell-ne, producer_at, consumer_at, Step-IsConsistent, has_room,
  has_waiting,
}

append-drop_of_prefix :
    {A : Type 0} (xs ys : List A)
    → length xs ≤ length ys
    → ((k : ℕ) → k < length xs → get_elem? xs k ≡ get_elem? ys k)
    → ys ≡ xs ++ drop (length xs) ys
append-drop_of_prefix [] ys le h = refl
append-drop_of_prefix (x ∷ xs) [] le h = absurd (omega arith)
append-drop_of_prefix (x ∷ xs) (y ∷ ys) le h =
    let e : some x ≡ some y = h 0 (omega arith) in
    ap₂ ◌∷◌ (let q : y ≡ x = cc in q)
      (append-drop_of_prefix xs ys (omega arith) (λ k lt. h (suc k) (omega arith)))

length-drop : {A : Type 0} (n : ℕ) (xs : List A) → length (drop n xs) ≡ length xs - n
length-drop zero xs = omega arith
length-drop (suc n) [] = omega arith
length-drop (suc n) (x ∷ xs) = omega (arith, length-drop n xs)

start-IsConsistent : {A : Type 0} (cap : ℕ) (v : A) → IsConsistent cap (start v)
unfolding new
start-IsConsistent cap v = record {
  head_counts = refl;
  tail_counts = refl;
  order = omega arith;
  room = omega arith;
  cells = λ k a b. absurd (omega arith);
  prefix = λ k lt. absurd (omega arith);
  producer = tt;
  consumer = tt;
}

module _ {A : Type 0} (cap : ℕ) (divides : cap ∣ 2 ^ 64) (small : cap < 2 ^ 64) (v : A) where
  Reach-IsConsistent : {s : System A} → Reach cap (start v) s → IsConsistent cap s
  Reach-IsConsistent here = start-IsConsistent cap v
  Reach-IsConsistent (next r st) = Step-IsConsistent cap divides small (Reach-IsConsistent r) st

  -- However the loads and stores of the two cores interleave, and however often the indices have
  -- wrapped: what was popped, followed by at most `cap` items, is what was pushed. No item is lost,
  -- invented, doubled or reordered, if `cap` divides 2 ^ 64 and is below it.
  pub pushed-eq-popped-append :
      {s : System A}
      → Reach cap (start v) s
      → (waiting : List A) × (s.pushed ≡ s.popped ++ waiting) × (length waiting ≤ cap)
  pushed-eq-popped-append {s} r =
      let c = Reach-IsConsistent r in
      (
        drop (length s.popped) s.pushed,
        append-drop_of_prefix s.popped s.pushed c.order c.prefix,
        omega (arith, length-drop {A = A} (length s.popped) s.pushed, c.room),
      )

  -- When the producer is about to write a cell and the consumer is about to read one, these are two
  -- different cells: the cores never access one cell at the same time.
  pub write-ne-read :
      {s : System A} {item : A} {head tail tail' head' : ℕ}
      → Reach cap (start v) s
      → s.producer ≡ Producer.has_both item head tail
      → full_by cap head tail ≡ false
      → s.consumer ≡ Consumer.has_both tail' head'
      → tail' ≢ head'
      → head % cap ≢ tail' % cap
  write-ne-read {s} {item = item} {head = head} {tail = tail} {tail' = tail'} {head' = head'} r p
        free q ne e =
      let c = Reach-IsConsistent r in
      let h = (producer_at cap divides small s c p).0 in
      let t = (consumer_at cap divides small s c q).0 in
      cell-ne cap (length s.popped) (length s.pushed)
        (has_waiting cap divides small s c tail' head' q ne)
        (has_room cap divides small s c item head tail p free)
        (sym (ap (λ n. n % cap) h ∙ wrap-cell cap divides small s c (length s.pushed))
          ∙ e
          ∙ (ap (λ n. n % cap) t ∙ wrap-cell cap divides small s c (length s.popped)))
