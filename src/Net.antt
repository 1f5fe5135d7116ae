-- ===== src/Net.antt =====
-- kernel/src/net.rs: the congestion control, the header checksum and the nonces of the packets.
pub mod Congestion
pub mod Checksum
pub mod Nonce
mod Tests
use Prim.Native.Nat.{min, max}
use latency_os.Prelude.{
  ℕ, zero, suc, ◌+◌, ◌-◌, ◌*◌, ◌/◌, ◌%◌, ◌^◌, Bool, true, false, ◌||◌, Option, none, some, List, [],
  ◌∷◌, bit_xor, length, take, drop, ltb, leb, ◌==◌, if◌then◌else◌,
}
use latency_os.Prelude.Word.{word_add}
use latency_os.Image.{from_be_bytes}

-- `tsc_to_ns` of kernel/src/tsc.rs; the product of two words fits its 128 bits
unfoldable pub tsc_to_ns : ℕ → ℕ → ℕ
tsc_to_ns tsc_cycles freq_hz =
    if freq_hz == 0 then 0 else tsc_cycles * 1_000_000_000 / freq_hz % 2 ^ 64

-- The counters of the congestion control. One core changes them.
pub record Control : Type 0 where
  pub min_rtt_ns : ℕ
  pub last_rtt_ns : ℕ
  pub delta_delay_ns : ℕ
  pub rate_pct : ℕ
  pub good_frames : ℕ
  pub acks_received : ℕ

unfoldable pub initial_control : Control
initial_control = record {
  min_rtt_ns = 50_000;
  last_rtt_ns = 50_000;
  delta_delay_ns = 0;
  rate_pct = 100;
  good_frames = 0;
  acks_received = 0;
}

abbrev pub congestion_threshold_ns : ℕ
congestion_threshold_ns = 200_000

-- the first part of `on_ack_received`: what a round trip of `rtt_ns` tells
unfoldable pub measure : ℕ → Control → Control
measure rtt_ns c =
    let min_rtt = if ltb rtt_ns c.min_rtt_ns || c.min_rtt_ns == 0 then rtt_ns else c.min_rtt_ns in
    record c {
      last_rtt_ns = rtt_ns;
      acks_received = word_add c.acks_received 1;
      min_rtt_ns = min_rtt;
      delta_delay_ns = rtt_ns - min_rtt;
    }

-- the second part: what the rate becomes
unfoldable pub adjust : Control → Control
adjust c =
    let good = c.good_frames + 1 in
    if ltb congestion_threshold_ns c.delta_delay_ns
    then record c { rate_pct = max 20 (c.rate_pct * 80 / 100 % 2 ^ 8); good_frames = 0 }
    else if leb 4 good
    then record c { rate_pct = min 100 (min 255 (c.rate_pct + 5)); good_frames = 0 }
    else record c { good_frames = good }

-- `now_tsc` is what the time stamp counter reads.
unfoldable pub on_ack_received : ℕ → ℕ → ℕ → Control → Control
unfolding tsc_to_ns measure adjust
on_ack_received now_tsc t_pkt_tx freq_hz c =
    if ltb now_tsc t_pkt_tx then c else adjust (measure (tsc_to_ns (now_tsc - t_pkt_tx) freq_hz) c)

-- "ACK1"
abbrev pub ack_magic : ℕ
ack_magic = 0x41434b31

-- What the card received, if anything, is the argument.
unfoldable pub poll_rx_ack : ℕ → ℕ → Option (List ℕ) → Control → Bool × Control
unfolding on_ack_received from_be_bytes
poll_rx_ack now_tsc freq_hz none c = (false, c)
poll_rx_ack now_tsc freq_hz (some packet) c =
    let payload = drop 42 packet in
    let t_tx = from_be_bytes 0 (take 8 (drop 8 payload)) in
    if leb 66 (length packet)
    then (if from_be_bytes 0 (take 4 payload) == ack_magic
        then (true, on_ack_received now_tsc t_tx freq_hz c)
        else (false, c))
    else (false, c)

-- the sum of the words of two bytes; an odd number of bytes is an index out of range
unfoldable pub sum_words : ℕ → List ℕ → Option ℕ
sum_words sum [] = some sum
sum_words sum (a ∷ []) = none
sum_words sum (a ∷ b ∷ rest) = sum_words ((sum + (a * 256 + b)) % 2 ^ 32) rest

-- `while (sum >> 16) != 0`; a sum of 32 bits needs two rounds
unfoldable pub fold_carry : ℕ → ℕ → ℕ
fold_carry zero sum = sum
fold_carry (suc n) sum =
    let rest = fold_carry n (sum % 2 ^ 16 + sum / 2 ^ 16) in if sum / 2 ^ 16 == 0 then sum else rest

unfoldable pub compute_ip_checksum : List ℕ → Option ℕ
unfolding sum_words fold_carry
compute_ip_checksum header = elim (sum_words 0 header) [
  | none ↦ none
  | some sum ↦ some (2 ^ 16 - 1 - fold_carry 2 sum % 2 ^ 16)
]

-- the nonce that `stream_send_frame` makes for a packet: the salt, with the bytes of the stream's
-- number and of the packet's number
unfoldable pub packet_iv : ℕ → List ℕ
packet_iv seq =
    0xa5
    ∷ 0x5a
    ∷ 0xa5
    ∷ 0x5a
    ∷ bit_xor 0xa5 0x12
    ∷ bit_xor 0x5a 0x34
    ∷ bit_xor 0xa5 0x56
    ∷ bit_xor 0x5a 0x78
    ∷ 0xa5
    ∷ 0x5a
    ∷ bit_xor 0xa5 (seq / 256 % 256)
    ∷ bit_xor 0x5a (seq % 256)
    ∷ []

-- `packet_seq.wrapping_add(1)`
unfoldable pub next_seq : ℕ → ℕ
next_seq seq = (seq + 1) % 2 ^ 16

-- the number of the packet that is sent `n` packets later
unfoldable pub seq_after : ℕ → ℕ → ℕ
unfolding next_seq
seq_after zero seq = seq
seq_after (suc n) seq = next_seq (seq_after n seq)
