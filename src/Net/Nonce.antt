-- ===== src/Net/Nonce.antt =====
-- The nonces of kernel/src/net.rs: when `stream_send_frame` uses one again.
use latency_os.Prelude.{
  ℕ, zero, suc, ◌+◌, ◌/◌, ◌%◌, ◌^◌, ◌<◌, ◌≡◌, ap, arith, bit_xor, ◌↔◌, List, get_or,
}
use latency_os.Prelude.Bits.{xor_step}
use native.Mathlib.Nat.{pow-suc}
use latency_os.Net.{packet_iv, next_seq, seq_after}

seq_after_lem : (n seq : ℕ) → seq < 2 ^ 16 → seq_after n seq ≡ (seq + n) % 2 ^ 16
unfolding seq_after next_seq
seq_after_lem zero seq lt = omega arith
seq_after_lem (suc n) seq lt = omega (arith, seq_after_lem n seq lt)

xor-cancel : (k a b c : ℕ) → b < 2 ^ k → c < 2 ^ k → bit_xor a b ≡ bit_xor a c → b ≡ c
xor-cancel zero a b c hb hc e = omega arith
xor-cancel (suc k) a b c hb hc e =
    let halves : bit_xor (a / 2) (b / 2) ≡ bit_xor (a / 2) (c / 2) =
      omega (arith, xor_step a b, xor_step a c) in
    omega (
      arith,
      xor_step a b,
      xor_step a c,
      xor-cancel k (a / 2) (b / 2) (c / 2) (omega (arith, pow-suc 2 k)) (omega (arith, pow-suc 2 k))
          halves,
    )

-- equal nonces of two packet numbers below 2 ^ 16
packet_iv-cancel : (s t : ℕ) → s < 2 ^ 16 → t < 2 ^ 16 → packet_iv s ≡ packet_iv t → s ≡ t
unfolding packet_iv
packet_iv-cancel s t hs ht e =
    let high : s / 256 % 256 ≡ t / 256 % 256 =
      xor-cancel 8 0xa5 (s / 256 % 256) (t / 256 % 256) (omega arith) (omega arith)
        (ap (λ (iv : List ℕ). get_or iv 10 0) e) in
    let low : s % 256 ≡ t % 256 =
      xor-cancel 8 0x5a (s % 256) (t % 256) (omega arith) (omega arith)
        (ap (λ (iv : List ℕ). get_or iv 11 0) e) in
    omega (arith, high, low)

seq_after-lt : (n seq : ℕ) → seq < 2 ^ 16 → seq_after n seq < 2 ^ 16
seq_after-lt n seq lt = omega (arith, seq_after_lem n seq lt)

-- The packet that is sent `n` packets after another has the same nonce exactly if `n` is a multiple
-- of 2 ^ 16. The key is fixed, so nonces are used again from the 65537th packet on, and not before.
pub packet_iv-seq_after :
    (n seq : ℕ) → seq < 2 ^ 16 → (packet_iv (seq_after n seq) ≡ packet_iv seq) ↔ (n % 2 ^ 16 ≡ 0)
packet_iv-seq_after n seq lt = (
  λ e.
      let same : seq_after n seq ≡ seq =
        packet_iv-cancel (seq_after n seq) seq (seq_after-lt n seq lt) lt e in
      omega (arith, seq_after_lem n seq lt),
  λ e. ap packet_iv (omega (arith, seq_after_lem n seq lt)),
)
