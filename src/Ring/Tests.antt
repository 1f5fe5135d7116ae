-- ===== src/Ring/Tests.antt =====
-- Runs of the ring of kernel/src/ring_buffer.rs, with sixteen cells as in the kernel.
use Prim.Native.Nat.{◌∣◌}
use native.Mathlib.Nat.{dvd_of_mod-eq-zero}
use latency_os.Prelude.{
  ℕ, ◌+◌, ◌-◌, ◌%◌, ◌^◌, ◌≤◌, ◌≡◌, refl, ◌≢◌, ◌⊎◌, arith, List, [], ◌∷◌, ◌++◌, none, some, length,
  update,
}
use latency_os.Ring.{Ring, new, push, pop}
use latency_os.Ring.Queue.{IsValid, occupancy, contents, push_refines, pop_refines}
use latency_os.Ring.Cores.{Producer, Consumer, System, Step, Reach, here, next, start}
use latency_os.Ring.Cores.Fifo.{pushed-eq-popped-append, write-ne-read}

sixteen : 16 ∣ 2 ^ 64
sixteen = dvd_of_mod-eq-zero 16 refl

-- one item before the end of `usize`, and one behind it
abbrev wrapped : Ring ℕ
wrapped = record { buffer = λ i. i + 100; head = 1; tail = 2 ^ 64 - 1 }

wrapped-IsValid : IsValid 16 wrapped
wrapped-IsValid = record { head_word = omega arith; tail_word = omega arith; fits = omega arith }

contents-wrapped : contents 16 wrapped ≡ 115 ∷ 100 ∷ []
contents-wrapped = refl

push_refines_example :
    ((push 16 wrapped 7 ≡ none) × (occupancy wrapped ≡ 16))
    ⊎ ((r' : Ring ℕ) × (push 16 wrapped 7 ≡ some r')
        × IsValid 16 r'
        × (contents 16 r' ≡ contents 16 wrapped ++ 7 ∷ []))
push_refines_example = push_refines 16 sixteen (omega arith) wrapped 7 wrapped-IsValid

pop_refines_example :
    ((pop 16 wrapped ≡ none) × (contents 16 wrapped ≡ []))
    ⊎ ((x : ℕ) × (r' : Ring ℕ) × (pop 16 wrapped ≡ some (x, r'))
        × IsValid 16 r'
        × (contents 16 wrapped ≡ x ∷ contents 16 r'))
pop_refines_example = pop_refines 16 sixteen (omega arith) wrapped wrapped-IsValid

-- The producer pushes 5 while the consumer, which saw the ring empty, gives up.
abbrev pushing : System ℕ
pushing = record {
  ring = record { buffer = λ _. 0; head = 0; tail = 0 };
  producer = Producer.has_both 5 0 0;
  consumer = Consumer.idle;
  pushed = [];
  popped = [];
}

Reach-pushing : Reach 16 (start 0) pushing
unfolding new
Reach-pushing = next (next here (Step.load_own_head (start 0) 5 refl)) (Step.load_tail _ 5 0 refl)

abbrev filled : System ℕ
filled = record {
  ring = record { buffer = update (λ _. 0) 0 5; head = 1; tail = 0 };
  producer = Producer.idle;
  consumer = Consumer.idle;
  pushed = 5 ∷ [];
  popped = [];
}

Reach-filled : Reach 16 (start 0) filled
Reach-filled =
    next (next Reach-pushing (Step.write_cell pushing 5 0 0 refl refl)) (Step.store_head _ 5 0 refl)

pushed-eq-popped-append_example :
    (waiting : List ℕ) × (filled.pushed ≡ filled.popped ++ waiting) × (length waiting ≤ 16)
pushed-eq-popped-append_example = pushed-eq-popped-append 16 sixteen (omega arith) 0 Reach-filled

-- The producer is about to write 6, and the consumer to read 5.
abbrev both : System ℕ
both = record filled { producer = Producer.has_both 6 1 0; consumer = Consumer.has_both 0 1 }

Reach-both : Reach 16 (start 0) both
Reach-both =
    next
      (next
        (next (next Reach-filled (Step.load_own_head filled 6 refl)) (Step.load_tail _ 6 1 refl))
        (Step.load_own_tail _ refl))
      (Step.load_head _ 0 refl)

zero-ne-one : ◌≢◌ {A = ℕ} 0 1
zero-ne-one = omega arith

write-ne-read_example : ◌≢◌ {A = ℕ} (1 % 16) (0 % 16)
write-ne-read_example =
    write-ne-read 16 sixteen (omega arith) 0 {s = both} {item = 6} {tail = 0} {head' = 1} Reach-both
      refl refl refl zero-ne-one
