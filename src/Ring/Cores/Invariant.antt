-- ===== src/Ring/Cores/Invariant.antt =====
-- The invariant of the two cores on one `SpscRingBuffer` (kernel/src/ring_buffer.rs): the indices
-- count the pushed and the popped items modulo 2 ^ 64, and the cells between them hold the items.
use native.Mathlib.Nat.{mod-mod_of_dvd, div-add-mod}
use native.Mathlib.Decide.{dec_lt, ℕ_discrete}
use Prim.Native.Nat.{◌∣◌}
use latency_os.Prelude.{
  Cells, get_elem?-append_left, get_elem?-append_last, ℕ, ◌+◌, ◌-◌, ◌*◌, ◌/◌, ◌%◌, ◌^◌, ◌≤◌, ◌<◌,
  ◌≡◌, sym, subst, ap, ap₂, leb→lt, ==_ne, ==_iff, ◌∙◌, ◌≢◌, arith, false, List, [], ◌∷◌, ◌++◌,
  some, get_elem?, length, update, length-append,
}
use latency_os.Prelude.Word.{word_add, word_sub}
use latency_os.Ring.{full_by}
use latency_os.Ring.Cores.{Producer, Consumer, System, Step}

-- `n` as a `usize` that has wrapped
abbrev pub wrap : ℕ → ℕ
wrap n = n % 2 ^ 64

-- What the producer knows when `pushes` items were pushed and `pops` popped: its copy of `head` is
-- current; its copy of `tail` may be old, but was true when the ring held at most `cap` items.
abbrev pub ProducerKnows : {A : Type 0} → ℕ → ℕ → ℕ → Cells A → Producer A → Type 0
ProducerKnows cap pushes pops buffer Producer.idle = Unit
ProducerKnows cap pushes pops buffer (Producer.has_head item head) = head ≡ wrap pushes
ProducerKnows cap pushes pops buffer (Producer.has_both item head tail) =
    (head ≡ wrap pushes) × (old : ℕ) × (tail ≡ wrap old) × (old ≤ pops) × (pushes ≤ old + cap)
ProducerKnows cap pushes pops buffer (Producer.has_written item head) =
    (head ≡ wrap pushes) × (pushes < pops + cap) × (buffer (pushes % cap) ≡ item)

-- What the consumer knows: its copy of `tail` is current, its copy of `head` may be old.
abbrev pub ConsumerKnows : {A : Type 0} → ℕ → List A → Consumer A → Type 0
ConsumerKnows pops pushed Consumer.idle = Unit
ConsumerKnows pops pushed (Consumer.has_tail tail) = tail ≡ wrap pops
ConsumerKnows pops pushed (Consumer.has_both tail head) =
    (tail ≡ wrap pops) × (seen : ℕ) × (head ≡ wrap seen) × (pops ≤ seen) × (seen ≤ length pushed)
ConsumerKnows pops pushed (Consumer.has_item tail item) =
    (tail ≡ wrap pops) × (pops < length pushed) × (get_elem? pushed pops ≡ some item)

pub record IsConsistent {A : Type 0} (cap : ℕ) (s : System A) : Type 0 where
  pub head_counts : s.ring.head ≡ wrap (length s.pushed)
  pub tail_counts : s.ring.tail ≡ wrap (length s.popped)
  pub order : length s.popped ≤ length s.pushed
  pub room : length s.pushed ≤ length s.popped + cap
  pub cells :
      (k : ℕ)
      → length s.popped ≤ k
      → k < length s.pushed
      → get_elem? s.pushed k ≡ some (s.ring.buffer (k % cap))
  pub prefix : (k : ℕ) → k < length s.popped → get_elem? s.popped k ≡ get_elem? s.pushed k
  pub producer : ProducerKnows cap (length s.pushed) (length s.popped) s.ring.buffer s.producer
  pub consumer : ConsumerKnows (length s.popped) s.pushed s.consumer

-- The producer's knowledge stays true when the consumer pops, and the other way round.
module _ {A : Type 0} where
  ProducerKnows-pop :
      (cap pushes pops : ℕ) (buffer : Cells A) (p : Producer A)
      → ProducerKnows cap pushes pops buffer p
      → ProducerKnows cap pushes (pops + 1) buffer p
  ProducerKnows-pop cap pushes pops buffer Producer.idle k = tt
  ProducerKnows-pop cap pushes pops buffer (Producer.has_head item head) k = k
  ProducerKnows-pop cap pushes pops buffer (Producer.has_both item head tail) (e, old, f, lo, hi) =
      (e, old, f, omega arith, hi)
  ProducerKnows-pop cap pushes pops buffer (Producer.has_written item head) (e, lt, w) =
      (e, omega arith, w)

  ConsumerKnows-push :
      (pops : ℕ) (pushed : List A) (item : A) (c : Consumer A)
      → ConsumerKnows pops pushed c
      → ConsumerKnows pops (pushed ++ item ∷ []) c
  ConsumerKnows-push pops pushed item Consumer.idle k = tt
  ConsumerKnows-push pops pushed item (Consumer.has_tail tail) k = k
  ConsumerKnows-push pops pushed item (Consumer.has_both tail head) (e, seen, f, lo, hi) =
      (e, seen, f, lo, omega (arith, length-append {0} pushed (item ∷ [])))
  ConsumerKnows-push pops pushed item (Consumer.has_item tail v) (e, lt, w) = (
    e,
    omega (arith, length-append {0} pushed (item ∷ [])),
    get_elem?-append_left pushed (item ∷ []) pops lt ∙ w,
  )

-- Two of fewer than `cap` numbers in a row have different cells.
pub cell-ne : (cap k n : ℕ) → k < n → n < k + cap → n % cap ≢ k % cap
cell-ne cap k n lt room e = elim (dec_lt (k / cap) (n / cap)) [
  | yes p ↦
      let q : (k / cap + 1) * cap ≤ n / cap * cap = grind arith in
      absurd (omega (arith, div-add-mod n cap, div-add-mod k cap))
  | no p ↦
      let q : n / cap * cap ≤ k / cap * cap = grind arith in
      absurd (omega (arith, div-add-mod n cap, div-add-mod k cap))
]

-- The wrapped difference of two counts less than 2 ^ 64 apart is their difference.
pub word_sub-wrap :
    (n old : ℕ) → old ≤ n → n < old + 2 ^ 64 → word_sub (wrap n) (wrap old) ≡ n - old
word_sub-wrap n old lo hi = omega arith

word_add-wrap : (n : ℕ) → word_add (wrap n) 1 ≡ wrap (n + 1)
word_add-wrap n = omega arith

length-snoc : {A : Type 0} (xs : List A) (x : A) → length (xs ++ x ∷ []) ≡ length xs + 1
length-snoc xs x = length-append xs (x ∷ [])

module _ {A : Type 0} (cap : ℕ) (divides : cap ∣ 2 ^ 64) (small : cap < 2 ^ 64) (s : System A)
    (c : IsConsistent cap s) where
  pub wrap-cell : (n : ℕ) → wrap n % cap ≡ n % cap
  wrap-cell n = mod-mod_of_dvd cap n divides

  -- what a core knows where it stands
  pub producer_at :
      {p : Producer A}
      → s.producer ≡ p
      → ProducerKnows cap (length s.pushed) (length s.popped) s.ring.buffer p
  producer_at e =
      subst (ProducerKnows cap (length s.pushed) (length s.popped) s.ring.buffer) e c.producer

  pub consumer_at : {p : Consumer A} → s.consumer ≡ p → ConsumerKnows (length s.popped) s.pushed p
  consumer_at e = subst (ConsumerKnows (length s.popped) s.pushed) e c.consumer

  -- steps that only load, or give up
  with_producer :
      (p : Producer A)
      → ProducerKnows cap (length s.pushed) (length s.popped) s.ring.buffer p
      → IsConsistent cap (record s { producer = p })
  with_producer p k = record {
    head_counts = c.head_counts;
    tail_counts = c.tail_counts;
    order = c.order;
    room = c.room;
    cells = c.cells;
    prefix = c.prefix;
    producer = k;
    consumer = c.consumer;
  }

  with_consumer :
      (p : Consumer A)
      → ConsumerKnows (length s.popped) s.pushed p
      → IsConsistent cap (record s { consumer = p })
  with_consumer p k = record {
    head_counts = c.head_counts;
    tail_counts = c.tail_counts;
    order = c.order;
    room = c.room;
    cells = c.cells;
    prefix = c.prefix;
    producer = c.producer;
    consumer = k;
  }

  -- A test of `push` that finds room, on an old copy of `tail`, is right.
  pub has_room :
      (item : A) (head tail : ℕ)
      → s.producer ≡ Producer.has_both item head tail
      → full_by cap head tail ≡ false
      → length s.pushed < length s.popped + cap
  has_room item head tail at free =
      let (h, old, t, lo, hi) = producer_at at in
      let diff : word_sub (wrap (length s.pushed)) (wrap old) ≡ length s.pushed - old =
        word_sub-wrap (length s.pushed) old (omega (arith, c.order)) (omega arith) in
      omega (arith, ap₂ word_sub h t, leb→lt cap (word_sub head tail) free)

  -- A test of `pop` that finds an item, on an old copy of `head`, is right.
  pub has_waiting :
      (tail head : ℕ)
      → s.consumer ≡ Consumer.has_both tail head
      → tail ≢ head
      → length s.popped < length s.pushed
  has_waiting tail head at ne =
      let (t, seen, h, lo, hi) = consumer_at at in
      elim (ℕ_discrete (length s.popped) seen) [
        | yes e ↦ absurd (ne (t ∙ ap wrap e ∙ sym h))
        | no n ↦ omega arith
      ]

  -- The cell that the producer writes is none of those that hold an item.
  write_cell-IsConsistent :
      (item : A) (head tail : ℕ)
      → s.producer ≡ Producer.has_both item head tail
      → full_by cap head tail ≡ false
      → IsConsistent cap (record s {
        ring = record (s.ring) { buffer = update s.ring.buffer (head % cap) item };
        producer = Producer.has_written item head;
      })
  write_cell-IsConsistent item head tail at free =
      let h = (producer_at at).0 in
      let room' = has_room item head tail at free in
      let cell : head % cap ≡ length s.pushed % cap =
        ap (λ n. n % cap) h ∙ wrap-cell (length s.pushed) in
      record {
        head_counts = c.head_counts;
        tail_counts = c.tail_counts;
        order = c.order;
        room = c.room;
        cells = λ k a b.
            let ne : k % cap ≢ head % cap =
              λ e. cell-ne cap k (length s.pushed) b (omega arith) (sym cell ∙ sym e) in
            rw (==_ne (k % cap) (head % cap) ne) (c.cells k a b);
        prefix = c.prefix;
        producer = (h, room', rw ((==_iff (length s.pushed % cap) (head % cap)).1 (sym cell)));
        consumer = c.consumer;
      }

  store_head-IsConsistent :
      (item : A) (head : ℕ)
      → s.producer ≡ Producer.has_written item head
      → IsConsistent cap (record s {
        ring = record (s.ring) { head = word_add head 1 };
        producer = Producer.idle;
        pushed = s.pushed ++ item ∷ [];
      })
  store_head-IsConsistent item head at =
      let (h, lt, w) = producer_at at in
      let len = length-snoc s.pushed item in
      record {
        head_counts =
            ap (λ n. word_add n 1) h ∙ word_add-wrap (length s.pushed) ∙ ap wrap (sym len);
        tail_counts = c.tail_counts;
        order = omega (arith, c.order, len);
        room = omega (arith, len);
        cells = λ k a b. elim (dec_lt k (length s.pushed)) [
          | yes p ↦ get_elem?-append_left s.pushed (item ∷ []) k p ∙ c.cells k a p
          | no p ↦
              let e : k ≡ length s.pushed = omega (arith, len) in
              ap (get_elem? (s.pushed ++ item ∷ [])) e
              ∙ get_elem?-append_last s.pushed item
              ∙ ap some (sym w ∙ ap (λ n. s.ring.buffer (n % cap)) (sym e))
        ];
        prefix = λ k lt'.
            c.prefix k lt'
            ∙ sym (get_elem?-append_left s.pushed (item ∷ []) k (omega (arith, c.order)));
        producer = tt;
        consumer = ConsumerKnows-push (length s.popped) s.pushed item s.consumer c.consumer;
      }

  store_tail-IsConsistent :
      (tail : ℕ) (item : A)
      → s.consumer ≡ Consumer.has_item tail item
      → IsConsistent cap (record s {
        ring = record (s.ring) { tail = word_add tail 1 };
        consumer = Consumer.idle;
        popped = s.popped ++ item ∷ [];
      })
  store_tail-IsConsistent tail item at =
      let (t, lt, got) = consumer_at at in
      let len = length-snoc s.popped item in
      record {
        head_counts = c.head_counts;
        tail_counts =
            ap (λ n. word_add n 1) t ∙ word_add-wrap (length s.popped) ∙ ap wrap (sym len);
        order = omega (arith, len);
        room = omega (arith, len, c.room);
        cells = λ k a b. c.cells k (omega (arith, len)) b;
        prefix = λ k lt'. elim (dec_lt k (length s.popped)) [
          | yes p ↦ get_elem?-append_left s.popped (item ∷ []) k p ∙ c.prefix k p
          | no p ↦
              let e : k ≡ length s.popped = omega (arith, len) in
              ap (get_elem? (s.popped ++ item ∷ [])) e
              ∙ get_elem?-append_last s.popped item
              ∙ sym got
              ∙ ap (get_elem? s.pushed) (sym e)
        ];
        producer =
            subst (λ n. ProducerKnows cap (length s.pushed) n s.ring.buffer s.producer) (sym len)
              (ProducerKnows-pop cap (length s.pushed) (length s.popped) s.ring.buffer s.producer
                c.producer);
        consumer = tt;
      }

module _ {A : Type 0} (cap : ℕ) (divides : cap ∣ 2 ^ 64) (small : cap < 2 ^ 64) where
  -- Every step of either core keeps the two cores consistent.
  pub Step-IsConsistent : {s t : System A} → IsConsistent cap s → Step cap s t → IsConsistent cap t
  Step-IsConsistent c (Step.load_own_head s item at) =
      with_producer cap divides small s c (Producer.has_head item s.ring.head) c.head_counts
  Step-IsConsistent c (Step.load_tail s item head at) =
      with_producer cap divides small s c (Producer.has_both item head s.ring.tail)
        (producer_at cap divides small s c at, length s.popped, c.tail_counts, omega arith, c.room)
  Step-IsConsistent c (Step.reject s item head tail at full) =
      with_producer cap divides small s c Producer.idle tt
  Step-IsConsistent c (Step.write_cell s item head tail at free) =
      write_cell-IsConsistent cap divides small s c item head tail at free
  Step-IsConsistent c (Step.store_head s item head at) =
      store_head-IsConsistent cap divides small s c item head at
  Step-IsConsistent c (Step.load_own_tail s at) =
      with_consumer cap divides small s c (Consumer.has_tail s.ring.tail) c.tail_counts
  Step-IsConsistent c (Step.load_head s tail at) =
      with_consumer cap divides small s c (Consumer.has_both tail s.ring.head)
        (consumer_at cap divides small s c at, length s.pushed, c.head_counts, c.order, omega arith)
  Step-IsConsistent c (Step.find_empty s tail head at e) =
      with_consumer cap divides small s c Consumer.idle tt
  Step-IsConsistent c (Step.read_cell s tail head at ne) =
      let t = (consumer_at cap divides small s c at).0 in
      let lt = has_waiting cap divides small s c tail head at ne in
      let cell : tail % cap ≡ length s.popped % cap =
        ap (λ n. n % cap) t ∙ wrap-cell cap divides small s c (length s.popped) in
      with_consumer cap divides small s c (Consumer.has_item tail (s.ring.buffer (tail % cap))) (
        t,
        lt,
        c.cells (length s.popped) (omega arith) lt ∙ ap (λ n. some (s.ring.buffer n)) (sym cell),
      )
  Step-IsConsistent c (Step.store_tail s tail item at) =
      store_tail-IsConsistent cap divides small s c tail item at
