-- ===== src/Crypto/Stream.antt =====
-- What `aes_128_gcm_encrypt` of kernel/src/crypto.rs does to the payload.
use latency_os.Prelude.{
  ℕ, zero, suc, ◌+◌, ◌-◌, ◌/◌, ◌%◌, ◌^◌, ◌≤◌, ◌<◌, ◌≡◌, refl, ap, ap₂, ◌∙◌, sym, arith, List, [],
  ◌∷◌, ◌++◌, bit_xor, get_or, length, take, drop, length-append, ltb, Bool-cases, inl, inr,
}
use latency_os.Prelude.Bits.{xor-xor_self, xor-zero}
use latency_os.Crypto.{Aes128Key, encrypt_block}
use latency_os.Crypto.Gcm.{xor_bytes, ctr_from, counter_block, gcm_payload}

xor_bytes-xor_bytes : (as' bs : List ℕ) → xor_bytes (xor_bytes as' bs) bs ≡ as'
unfolding xor_bytes
xor_bytes-xor_bytes [] bs = refl
xor_bytes-xor_bytes (a ∷ as') [] = refl
xor_bytes-xor_bytes (a ∷ as') (b ∷ bs) = ap₂ ◌∷◌ (xor-xor_self a b) (xor_bytes-xor_bytes as' bs)

length-xor_bytes : (as' bs : List ℕ) → length (xor_bytes as' bs) ≡ length as'
unfolding xor_bytes
length-xor_bytes [] bs = refl
length-xor_bytes (a ∷ as') [] = refl
length-xor_bytes (a ∷ as') (b ∷ bs) = ap suc (length-xor_bytes as' bs)

-- `take` and `drop` of a list that is put together from a block and what follows it
module _ where
  -- a block of `k` bytes, or the last one, with nothing behind it
  take-block :
      (k : ℕ) (text block rest : List ℕ)
      → length block ≡ length (take k text)
      → length rest ≡ length (drop k text)
      → take k (block ++ rest) ≡ block
  take-block zero text [] rest e f = refl
  take-block zero text (x ∷ block) rest e f = absurd (omega arith)
  take-block (suc k) [] [] [] e f = refl
  take-block (suc k) [] [] (y ∷ rest) e f = absurd (omega arith)
  take-block (suc k) [] (x ∷ block) rest e f = absurd (omega arith)
  take-block (suc k) (t ∷ text) [] rest e f = absurd (omega arith)
  take-block (suc k) (t ∷ text) (x ∷ block) rest e f =
      ap (λ (l : List ℕ). x ∷ l) (take-block k text block rest (omega arith) f)

  drop-block :
      (k : ℕ) (text block rest : List ℕ)
      → length block ≡ length (take k text)
      → length rest ≡ length (drop k text)
      → drop k (block ++ rest) ≡ rest
  drop-block zero text [] rest e f = refl
  drop-block zero text (x ∷ block) rest e f = absurd (omega arith)
  drop-block (suc k) [] [] [] e f = refl
  drop-block (suc k) [] [] (y ∷ rest) e f = absurd (omega arith)
  drop-block (suc k) [] (x ∷ block) rest e f = absurd (omega arith)
  drop-block (suc k) (t ∷ text) [] rest e f = absurd (omega arith)
  drop-block (suc k) (t ∷ text) (x ∷ block) rest e f = drop-block k text block rest (omega arith) f

  append-take-drop : (k : ℕ) (text : List ℕ) → take k text ++ drop k text ≡ text
  append-take-drop zero text = refl
  append-take-drop (suc k) [] = refl
  append-take-drop (suc k) (t ∷ text) = ap (λ (l : List ℕ). t ∷ l) (append-take-drop k text)

length-ctr_from :
    (n : ℕ) (keys iv : List ℕ) (ctr : ℕ) (payload : List ℕ)
    → length (ctr_from n keys iv ctr payload) ≡ length payload
unfolding ctr_from
length-ctr_from zero keys iv ctr payload = refl
length-ctr_from (suc n) keys iv ctr payload =
    let ks : List ℕ = encrypt_block keys (counter_block iv ((ctr + 1) % 2 ^ 32)) in
    omega (
      arith,
      length-append (xor_bytes (take 16 payload) ks)
          (ctr_from n keys iv ((ctr + 1) % 2 ^ 32) (drop 16 payload)),
      length-xor_bytes (take 16 payload) ks,
      length-ctr_from n keys iv ((ctr + 1) % 2 ^ 32) (drop 16 payload),
      length-append (take 16 payload) (drop 16 payload),
      ap (λ (l : List ℕ). length l) (append-take-drop 16 payload),
    )

ctr_from-ctr_from :
    (n : ℕ) (keys iv : List ℕ) (ctr : ℕ) (payload : List ℕ)
    → ctr_from n keys iv ctr (ctr_from n keys iv ctr payload) ≡ payload
unfolding ctr_from
ctr_from-ctr_from zero keys iv ctr payload = refl
ctr_from-ctr_from (suc n) keys iv ctr payload =
    let ctr' : ℕ = (ctr + 1) % 2 ^ 32 in
    let ks : List ℕ = encrypt_block keys (counter_block iv ctr') in
    let block : List ℕ = xor_bytes (take 16 payload) ks in
    let rest : List ℕ = ctr_from n keys iv ctr' (drop 16 payload) in
    let e : length block ≡ length (take 16 payload) = length-xor_bytes (take 16 payload) ks in
    let f : length rest ≡ length (drop 16 payload) =
      length-ctr_from n keys iv ctr' (drop 16 payload) in
    ap₂ (λ (l r : List ℕ). xor_bytes l ks ++ ctr_from n keys iv ctr' r)
      (take-block 16 payload block rest e f) (drop-block 16 payload block rest e f)
    ∙ ap₂ ◌++◌ (xor_bytes-xor_bytes (take 16 payload) ks)
        (ctr_from-ctr_from n keys iv ctr' (drop 16 payload))
    ∙ append-take-drop 16 payload

-- Encrypting a payload twice with one key and one nonce gives it back: this is how it is decrypted.
pub gcm_payload-gcm_payload :
    (key : Aes128Key) (iv payload : List ℕ)
    → gcm_payload key iv (gcm_payload key iv payload) ≡ payload
unfolding gcm_payload
gcm_payload-gcm_payload key iv payload =
    let keys : List ℕ = key.round_keys in
    ap (λ (n : ℕ). ctr_from n keys iv 1 (ctr_from (length payload) keys iv 1 payload))
      (length-ctr_from (length payload) keys iv 1 payload)
    ∙ ctr_from-ctr_from (length payload) keys iv 1 payload

get_or-xor_bytes :
    (as' bs : List ℕ) (i : ℕ)
    → i < length as'
    → get_or (xor_bytes as' bs) i 0 ≡ bit_xor (get_or as' i 0) (get_or bs i 0)
unfolding xor_bytes
get_or-xor_bytes [] bs i h = absurd (omega arith)
get_or-xor_bytes (a ∷ as') [] i h = sym (xor-zero (get_or (a ∷ as') i 0))
get_or-xor_bytes (a ∷ as') (b ∷ bs) zero h = refl
get_or-xor_bytes (a ∷ as') (b ∷ bs) (suc i) h = get_or-xor_bytes as' bs i (omega arith)

get_or-append_left :
    (xs ys : List ℕ) (i : ℕ) → i < length xs → get_or (xs ++ ys) i 0 ≡ get_or xs i 0
get_or-append_left [] ys i h = absurd (omega arith)
get_or-append_left (x ∷ xs) ys zero h = refl
get_or-append_left (x ∷ xs) ys (suc i) h = get_or-append_left xs ys i (omega arith)

get_or-append_right : (xs ys : List ℕ) (i : ℕ) → get_or (xs ++ ys) (length xs + i) 0 ≡ get_or ys i 0
get_or-append_right [] ys i = ap (λ (k : ℕ). get_or ys k 0) (omega arith)
get_or-append_right (x ∷ xs) ys i =
    let e : suc (length xs) + i ≡ suc (length xs + i) = omega arith in
    ap (λ (k : ℕ). get_or (x ∷ (xs ++ ys)) k 0) e ∙ get_or-append_right xs ys i

length-take : (k : ℕ) (text : List ℕ) → k ≤ length text → length (take k text) ≡ k
length-take zero text h = refl
length-take (suc k) [] h = absurd (omega arith)
length-take (suc k) (t ∷ text) h = ap suc (length-take k text (omega arith))

-- byte `i` of the keystream behind the counter `ctr`
abbrev keystream : List ℕ → List ℕ → ℕ → ℕ → ℕ
keystream keys iv ctr i =
    get_or (encrypt_block keys (counter_block iv ((ctr + 1 + i / 16) % 2 ^ 32))) (i % 16) 0

get_or-take : (k : ℕ) (text : List ℕ) (i : ℕ) → i < k → get_or (take k text) i 0 ≡ get_or text i 0
get_or-take zero text i h = absurd (omega arith)
get_or-take (suc k) [] i h = refl
get_or-take (suc k) (t ∷ text) zero h = refl
get_or-take (suc k) (t ∷ text) (suc i) h = get_or-take k text i (omega arith)

length-take-lt :
    (k : ℕ) (text : List ℕ) (i : ℕ) → i < k → i < length text → i < length (take k text)
length-take-lt zero text i h l = absurd (omega arith)
length-take-lt (suc k) [] i h l = absurd (omega arith)
length-take-lt (suc k) (t ∷ text) zero h l = omega arith
length-take-lt (suc k) (t ∷ text) (suc i) h l =
    omega (arith, length-take-lt k text i (omega arith) (omega arith))

get_or-ctr_from :
    (n : ℕ) (keys iv : List ℕ) (ctr : ℕ) (payload : List ℕ) (i : ℕ)
    → length payload ≤ n
    → i < length payload
    → get_or (ctr_from n keys iv ctr payload) i 0
      ≡ bit_xor (get_or payload i 0) (keystream keys iv ctr i)
unfolding ctr_from
get_or-ctr_from zero keys iv ctr payload i le lt = absurd (omega arith)
get_or-ctr_from (suc n) keys iv ctr payload i le lt =
    let ctr' : ℕ = (ctr + 1) % 2 ^ 32 in
    let ks : List ℕ = encrypt_block keys (counter_block iv ctr') in
    let block : List ℕ = xor_bytes (take 16 payload) ks in
    let rest : List ℕ = ctr_from n keys iv ctr' (drop 16 payload) in
    let size : length block ≡ length (take 16 payload) = length-xor_bytes (take 16 payload) ks in
    elim (Bool-cases (ltb i 16)) [
      | inl near ↦
          let small : i < 16 = ground arith in
          let here : i < length (take 16 payload) = length-take-lt 16 payload i small lt in
          get_or-append_left block rest i (omega (arith, size))
          ∙ get_or-xor_bytes (take 16 payload) ks i here
          ∙ ap₂ (λ (a c : ℕ). bit_xor a c) (get_or-take 16 payload i small)
              (ap₂ (λ (c k : ℕ). get_or (encrypt_block keys (counter_block iv c)) k 0) (omega arith)
                (omega arith))
      | inr far ↦
          let large : 16 ≤ i = ground arith in
          let full : length (take 16 payload) ≡ 16 = length-take 16 payload (omega arith) in
          let halves : length (take 16 payload ++ drop 16 payload) ≡ length payload =
            ap (λ (l : List ℕ). length l) (append-take-drop 16 payload) in
          let total = length-append (take 16 payload) (drop 16 payload) in
          let place : i ≡ length block + (i - 16) = omega (arith, size, full) in
          let place' : i ≡ length (take 16 payload) + (i - 16) = omega (arith, full) in
          ap (λ (k : ℕ). get_or (block ++ rest) k 0) place
          ∙ get_or-append_right block rest (i - 16)
          ∙ get_or-ctr_from n keys iv ctr' (drop 16 payload) (i - 16)
              (omega (arith, halves, total, full)) (omega (arith, halves, total, full))
          ∙ ap₂ (λ (a c : ℕ). bit_xor a c)
              (sym (get_or-append_right (take 16 payload) (drop 16 payload) (i - 16))
                ∙ ap (λ (k : ℕ). get_or (take 16 payload ++ drop 16 payload) k 0) (sym place')
                ∙ ap (λ (l : List ℕ). get_or l i 0) (append-take-drop 16 payload))
              (ap₂ (λ (c k : ℕ). get_or (encrypt_block keys (counter_block iv c)) k 0) (omega arith)
                (omega arith))
    ]

-- Each byte of the encrypted payload is the byte of the payload with the byte of the keystream
-- added bit by bit: byte `i mod 16` of the encrypted counter block number `2 + i / 16`.
pub get_or-gcm_payload :
    (key : Aes128Key) (iv payload : List ℕ) (i : ℕ)
    → i < length payload
    → get_or (gcm_payload key iv payload) i 0
      ≡ bit_xor (get_or payload i 0) (
          get_or
            (encrypt_block key.round_keys (counter_block iv ((2 + i / 16) % 2 ^ 32)))
            (i % 16)
            0)
unfolding gcm_payload
get_or-gcm_payload key iv payload i lt =
    get_or-ctr_from (length payload) key.round_keys iv 1 payload i (omega arith) lt
