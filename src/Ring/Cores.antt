-- ===== src/Ring/Cores.antt =====
-- The two cores on one `SpscRingBuffer` (kernel/src/ring_buffer.rs), as interleaved steps. Each
-- load and store of `head`, `tail` or a cell is one step; the acquire and release orderings of the
-- source make the steps of each core take effect in this order. The items are of a
-- small type, as the frame handles of the kernel are.
pub mod Invariant
pub mod Fifo
use latency_os.Prelude.{ℕ, ◌%◌, ◌≡◌, ◌≢◌, true, false, List, [], ◌∷◌, ◌++◌, update}
use latency_os.Prelude.Word.{word_add}
use latency_os.Ring.{Ring, new, full_by}

-- Where the producer stands in `push`: `item` is being pushed, `head` and `tail` have been read.
pub data Producer (A : Type 0) : Type 0 where
  idle : Producer A
  has_head : (item : A) (head : ℕ) → Producer A
  has_both : (item : A) (head tail : ℕ) → Producer A
  has_written : (item : A) (head : ℕ) → Producer A

-- Where the consumer stands in `pop`.
pub data Consumer (A : Type 0) : Type 0 where
  idle : Consumer A
  has_tail : (tail : ℕ) → Consumer A
  has_both : (tail head : ℕ) → Consumer A
  has_item : (tail : ℕ) (item : A) → Consumer A

-- `pushed` and `popped` are the items that `push` accepted and `pop` returned so far, in order.
pub record System (A : Type 0) : Type 0 where
  pub ring : Ring A
  pub producer : Producer A
  pub consumer : Consumer A
  pub pushed : List A
  pub popped : List A

module _ {A : Type 0} (cap : ℕ) where
  pub data Step : System A → System A → Type 0 where
    load_own_head :
        (s : System A) (item : A)
        → s.producer ≡ Producer.idle
        → Step s (record s { producer = Producer.has_head item s.ring.head })
    load_tail :
        (s : System A) (item : A) (head : ℕ)
        → s.producer ≡ Producer.has_head item head
        → Step s (record s { producer = Producer.has_both item head s.ring.tail })
    reject :
        (s : System A) (item : A) (head tail : ℕ)
        → s.producer ≡ Producer.has_both item head tail
        → full_by cap head tail ≡ true
        → Step s (record s { producer = Producer.idle })
    write_cell :
        (s : System A) (item : A) (head tail : ℕ)
        → s.producer ≡ Producer.has_both item head tail
        → full_by cap head tail ≡ false
        → Step s (record s {
          ring = record (s.ring) { buffer = update s.ring.buffer (head % cap) item };
          producer = Producer.has_written item head;
        })
    store_head :
        (s : System A) (item : A) (head : ℕ)
        → s.producer ≡ Producer.has_written item head
        → Step s (record s {
          ring = record (s.ring) { head = word_add head 1 };
          producer = Producer.idle;
          pushed = s.pushed ++ item ∷ [];
        })
    load_own_tail :
        (s : System A)
        → s.consumer ≡ Consumer.idle
        → Step s (record s { consumer = Consumer.has_tail s.ring.tail })
    load_head :
        (s : System A) (tail : ℕ)
        → s.consumer ≡ Consumer.has_tail tail
        → Step s (record s { consumer = Consumer.has_both tail s.ring.head })
    find_empty :
        (s : System A) (tail head : ℕ)
        → s.consumer ≡ Consumer.has_both tail head
        → tail ≡ head
        → Step s (record s { consumer = Consumer.idle })
    read_cell :
        (s : System A) (tail head : ℕ)
        → s.consumer ≡ Consumer.has_both tail head
        → tail ≢ head
        → Step s (record s { consumer = Consumer.has_item tail (s.ring.buffer (tail % cap)) })
    store_tail :
        (s : System A) (tail : ℕ) (item : A)
        → s.consumer ≡ Consumer.has_item tail item
        → Step s (record s {
          ring = record (s.ring) { tail = word_add tail 1 };
          consumer = Consumer.idle;
          popped = s.popped ++ item ∷ [];
        })

  pub data Reach (s : System A) : System A → Type 0 where
    here : Reach s s
    next : {t u : System A} → Reach s t → Step t u → Reach s u

abbrev pub start : {A : Type 0} → A → System A
start default_val = record {
  ring = new default_val;
  producer = Producer.idle;
  consumer = Consumer.idle;
  pushed = [];
  popped = [];
}
