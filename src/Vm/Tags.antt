-- ===== src/Vm/Tags.antt =====
-- The tagged values of pulselang-core/src/vm.rs: results, strings and arguments.
use latency_os.Prelude.{ℕ, ◌+◌, ◌*◌, ◌/◌, ◌%◌, ◌^◌, ◌≡◌, arith}
use latency_os.Prelude.Word.{IsWord}
use latency_os.Prelude.Bits.{and-bit, and-clear, or-bit}
use latency_os.Isa.Limits.{err_tag}
use latency_os.Vm.State.{Vm, unwrap_failed}
use latency_os.Vm.Calls.{tag_ok, tag_err, unwrap, gives, fails}

-- the value of the bit with number `k`
abbrev bit : ℕ → ℕ → ℕ
bit v k = v / 2 ^ k % 2

tag_ok-clears : (v : ℕ) → IsWord v → tag_ok v + bit v 60 * err_tag ≡ v
unfolding tag_ok
tag_ok-clears v w = omega (arith, and-clear 64 60 v (omega arith) w, and-bit 60 v)

bit-tag_ok : (v : ℕ) → IsWord v → bit (tag_ok v) 60 ≡ 0
bit-tag_ok v w = omega (arith, tag_ok-clears v w)

tag_err-adds : (v : ℕ) → IsWord v → tag_err v ≡ err_tag + tag_ok v
unfolding tag_err tag_ok
tag_err-adds v w = or-bit 60 (tag_ok v) (bit-tag_ok v w)

-- For a word `v`: `@unwrap` takes out what `@ok` put in, and is an error on what `@err` put in;
-- marking a value again replaces the mark; and `v` is what comes out with its own bit 60, the mark,
-- put back, so that a value without that bit comes back as it was.
pub unwrap-tag :
    (v : ℕ) (vm : Vm)
    → IsWord v
    → (unwrap (tag_ok v) vm ≡ gives (tag_ok v) vm)
      × (unwrap (tag_err v) vm ≡ fails unwrap_failed)
      × (tag_ok (tag_err v) ≡ tag_ok v)
      × (tag_err (tag_ok v) ≡ tag_err v)
      × (tag_err v ≡ tag_ok v + err_tag)
      × (tag_ok v + bit v 60 * err_tag ≡ v)
unfolding unwrap
unwrap-tag v vm w =
    let low = bit-tag_ok v w in
    let split = tag_ok-clears v w in
    let high = tag_err-adds v w in
    let ok_word : IsWord (tag_ok v) = omega arith in
    let err_word : IsWord (tag_err v) = omega arith in
    (
      ground (arith, and-bit 60 (tag_ok v)),
      ground (arith, and-bit 60 (tag_err v)),
      omega (arith, tag_ok-clears (tag_err v) err_word),
      omega (arith, tag_ok-clears (tag_ok v) ok_word, tag_err-adds (tag_ok v) ok_word),
      omega arith,
      split,
    )
