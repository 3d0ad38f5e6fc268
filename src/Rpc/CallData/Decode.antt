-- ===== src/Rpc/CallData/Decode.antt =====
-- rpc/evm.go: what the data of GetERC20TransferData says to a contract.
use mathlib.Core.List.{foldl, foldl-append, append_assoc}
use native.Mathlib.Nat.{pow-suc}
use utils_go.Base.{
  ℕ, zero, suc, ◌+◌, ◌-◌, ◌*◌, ◌/◌, ◌%◌, ◌^◌, ◌≤◌, ◌<◌, ◌≡◌, refl, sym, ap, ◌∙◌, inl, inr, ◌⊎◌,
  Option, none, some, List, [], ◌∷◌, ◌++◌, arith, nat_beq, ltb, ltb→lt, length, take, drop,
  length-append, take-append, drop-append, length-take, Bool-cases, if◌then◌else◌,
}
use utils_go.Base.Int.{ℤ}
use utils_go.Base.Text.{Text, text}
use utils_go.Rpc.CallData.{abs, bytes_go, big_bytes, Eth, get_erc20_transfer_data}

unfoldable pub replicate : ℕ → ℕ → List ℕ
replicate zero b = []
replicate (suc n) b = b ∷ replicate n b

-- What the documents of the parameters say: the lengths of a hash and an address, and that LeftPadBytes
-- puts zeros in front of a slice that is too short.
pub record IsDocumented (eth : Eth) : Type 0 where
  pub hash_length : (s : Text) → length (eth.keccak256 s) ≡ 32
  pub address_length : (s : Text) → length (eth.address_bytes s) ≡ 20
  pub pads :
      (s : List ℕ) (l : ℕ) → length s ≤ l → eth.left_pad_bytes s l ≡ replicate (l - length s) 0 ++ s
  pub keeps : (s : List ℕ) (l : ℕ) → l ≤ length s → eth.left_pad_bytes s l ≡ s

-- The number that bytes stand for, the highest first.
unfoldable pub from_bytes : List ℕ → ℕ
from_bytes = foldl (λ n b. n * 256 + b) 0

from_bytes-snoc : (s : List ℕ) (b : ℕ) → from_bytes (s ++ b ∷ []) ≡ from_bytes s * 256 + b
unfolding from_bytes
from_bytes-snoc s b = foldl-append (λ n b. n * 256 + b) 0 s (b ∷ [])

bytes_go-pos : (f n : ℕ) → 0 < n → bytes_go (suc f) n ≡ bytes_go f (n / 256) ++ (n % 256) ∷ []
unfolding bytes_go
bytes_go-pos f n h = ground arith

bytes_go-zero : (f : ℕ) → bytes_go f 0 ≡ []
unfolding bytes_go
bytes_go-zero zero = refl
bytes_go-zero (suc f) = refl

zero_or_pos : (n : ℕ) → (n ≡ 0) ⊎ (0 < n)
zero_or_pos n = omega arith

from_bytes-bytes_go : (f n : ℕ) → n ≤ f → from_bytes (bytes_go f n) ≡ n
from_bytes-bytes_go zero n h = unfold from_bytes bytes_go in omega arith
from_bytes-bytes_go (suc f) n h = elim (zero_or_pos n) [
  | inl z ↦ rw (z, bytes_go-zero (suc f)) (unfold from_bytes in refl)
  | inr p ↦
      let ih = from_bytes-bytes_go f (n / 256) (omega arith) in
      rw (bytes_go-pos f n p, from_bytes-snoc, ih) (omega arith)
]

-- k bytes are enough below 256 ^ k.
length-bytes_go : (f n k : ℕ) → n < 256 ^ k → length (bytes_go f n) ≤ k
length-bytes_go zero n k h = unfold bytes_go in omega arith
length-bytes_go (suc f) n k h = elim (zero_or_pos n) [
  | inl z ↦ rw (z, bytes_go-zero (suc f)) (omega arith)
  | inr p ↦ pos_case f n k h p (length-bytes_go f (n / 256))
]
  where
    pos_case :
        (f n k : ℕ)
        → n < 256 ^ k
        → 0 < n
        → ((k : ℕ) → n / 256 < 256 ^ k → length (bytes_go f (n / 256)) ≤ k)
        → length (bytes_go (suc f) n) ≤ k
    pos_case f n zero h p ih = absurd (omega arith)
    pos_case f n (suc k) h p ih = rw (bytes_go-pos f n p) (
        omega (
          arith,
          length-append {0} (bytes_go f (n / 256)) (n % 256 ∷ []),
          ih k (omega (arith, pow-suc 256 k, h)),
        ))

pow_pos : (k : ℕ) → 0 < 256 ^ k
pow_pos zero = omega arith
pow_pos (suc k) = omega (arith, pow-suc 256 k, pow_pos k)

-- More than k bytes are needed from 256 ^ k on.
lt-length-bytes_go : (f n k : ℕ) → n ≤ f → 256 ^ k ≤ n → k < length (bytes_go f n)
lt-length-bytes_go zero n k le h = absurd (omega (arith, le, h, pow_pos k))
lt-length-bytes_go (suc f) n k le h =
    more_case f n k h (omega (arith, h, pow_pos k))
      (λ j. lt-length-bytes_go f (n / 256) j (omega arith))
  where
    more_case :
        (f n k : ℕ)
        → 256 ^ k ≤ n
        → 0 < n
        → ((j : ℕ) → 256 ^ j ≤ n / 256 → j < length (bytes_go f (n / 256)))
        → k < length (bytes_go (suc f) n)
    more_case f n zero h p ih =
        rw (bytes_go-pos f n p)
          (omega (arith, length-append {0} (bytes_go f (n / 256)) (n % 256 ∷ [])))
    more_case f n (suc k) h p ih = rw (bytes_go-pos f n p) (
        omega (
          arith,
          length-append {0} (bytes_go f (n / 256)) (n % 256 ∷ []),
          ih k (omega (arith, pow-suc 256 k, h)),
        ))

from_bytes-zeros : (n : ℕ) (s : List ℕ) → from_bytes (replicate n 0 ++ s) ≡ from_bytes s
unfolding from_bytes replicate
from_bytes-zeros zero s = refl
from_bytes-zeros (suc n) s = from_bytes-zeros n s

length-replicate : (n b : ℕ) → length (replicate n b) ≡ n
unfolding replicate
length-replicate zero b = refl
length-replicate (suc n) b = omega (arith, length-replicate n b)

-- A reader of calls: the selector, the address in the last 20 bytes of the first word, and the number
-- in the second word, from exactly 68 bytes.
unfoldable pub decode_transfer : List ℕ → Option (List ℕ × List ℕ × ℕ)
unfolding from_bytes
decode_transfer bytes =
    if nat_beq (length bytes) 68
    then some (take 4 bytes, take 20 (drop 16 bytes), from_bytes (drop 36 bytes))
    else none

take-front : (n : ℕ) (xs ys : List ℕ) → length xs ≡ n → take n (xs ++ ys) ≡ xs
take-front n xs ys e = rw (← e) (take-append xs ys)

drop-front : (n : ℕ) (xs ys : List ℕ) → length xs ≡ n → drop n (xs ++ ys) ≡ ys
drop-front n xs ys e = rw (← e) (drop-append xs ys)

length-parts :
    (m z a w : List ℕ) → length (m ++ ((z ++ a) ++ w)) ≡ length m + (length z + length a + length w)
length-parts m z a w = omega (
  arith,
  length-append {0} m ((z ++ a) ++ w),
  length-append {0} (z ++ a) w,
  length-append {0} z a,
)

decode_transfer-parts :
    (m z a w : List ℕ)
    → length m ≡ 4
    → length z ≡ 12
    → length a ≡ 20
    → length w ≡ 32
    → decode_transfer (m ++ ((z ++ a) ++ w)) ≡ some (m, a, from_bytes w)
unfolding decode_transfer
decode_transfer-parts m z a w lm lz la lw =
    let regroup : m ++ ((z ++ a) ++ w) ≡ (m ++ z) ++ (a ++ w) = simp append_assoc in
    let whole : length (m ++ ((z ++ a) ++ w)) ≡ 68 =
      omega (arith, length-parts m z a w, lm, lz, la, lw) in
    let address : take 20 (drop 16 (m ++ ((z ++ a) ++ w))) ≡ a =
      rw (regroup, drop-front 16 (m ++ z) (a ++ w) (omega (arith, length-append {0} m z, lm, lz)))
        (take-front 20 a w la) in
    let word : drop 36 (m ++ ((z ++ a) ++ w)) ≡ w =
      ap (drop 36) (sym (append_assoc m (z ++ a) w))
      ∙ drop-front 36 (m ++ (z ++ a)) w
          (omega (arith, length-append {0} m (z ++ a), length-append {0} z a, lm, lz, la)) in
    rw (whole, take-front 4 m ((z ++ a) ++ w) lm, address, word) refl

decode_transfer-long :
    (m z a w : List ℕ)
    → length m ≡ 4
    → length z ≡ 12
    → length a ≡ 20
    → 32 < length w
    → decode_transfer (m ++ ((z ++ a) ++ w)) ≡ none
unfolding decode_transfer
decode_transfer-long m z a w lm lz la lw = ground (arith, length-parts m z a w)

module _ (eth : Eth) (doc : IsDocumented eth) where
  padded : (s : List ℕ) → length s ≤ 32 → eth.left_pad_bytes s 32 ≡ replicate (32 - length s) 0 ++ s
  padded s h = doc.pads s 32 h

  abbrev selector : List ℕ
  selector = take 4 (eth.keccak256 (text "transfer(address,uint256)"))

  selector-length : length selector ≡ 4
  selector-length =
      length-take 4 (eth.keccak256 (text "transfer(address,uint256)"))
        (omega (arith, doc.hash_length (text "transfer(address,uint256)")))

  word : ℤ → List ℕ
  word value = eth.left_pad_bytes (big_bytes value) 32

  -- The data with its parts apart.
  transfer_data-eq :
      (recipient : Text) (value : ℤ)
      → get_erc20_transfer_data eth recipient value
        ≡ selector ++ ((replicate 12 0 ++ eth.address_bytes recipient) ++ word value)
  unfolding word
  transfer_data-eq recipient value =
      let address : eth.left_pad_bytes (eth.address_bytes recipient) 32
          ≡ replicate 12 0 ++ eth.address_bytes recipient =
        padded (eth.address_bytes recipient) (omega (arith, doc.address_length recipient))
        ∙ rw (doc.address_length recipient) refl in
      unfold get_erc20_transfer_data in rw address refl

  word_small :
      (value : ℤ)
      → abs value < 2 ^ 256
      → (length (word value) ≡ 32) × (from_bytes (word value) ≡ abs value)
  unfolding word big_bytes
  word_small value h =
      let bytes = bytes_go (abs value) (abs value) in
      let short : length bytes ≤ 32 = length-bytes_go (abs value) (abs value) 32 h in
      rw (padded bytes short) (
        omega (
          arith,
          length-append {0} (replicate (32 - length bytes) 0) bytes,
          length-replicate (32 - length bytes) 0,
          short,
        ),
        from_bytes-zeros (32 - length bytes) bytes
            ∙ from_bytes-bytes_go (abs value) (abs value) (omega arith),
      )

  word_large : (value : ℤ) → 2 ^ 256 ≤ abs value → 32 < length (word value)
  unfolding word big_bytes
  word_large value h =
      let long = lt-length-bytes_go (abs value) (abs value) 32 (omega arith) h in
      rw (doc.keeps (bytes_go (abs value) (abs value)) 32 (omega (arith, long))) long

  -- A reader of calls finds in the data of GetERC20TransferData the selector of transfer, the bytes of the
  -- recipient and the absolute value of the amount where that is below 2 ^ 256, and refuses the data, which
  -- has another length, where it is not.
  pub decode-get_erc20_transfer_data :
      (recipient : Text) (value : ℤ)
      → decode_transfer (get_erc20_transfer_data eth recipient value) ≡ (
          if ltb (abs value) (2 ^ 256)
          then some (selector, eth.address_bytes recipient, abs value)
          else none)
  decode-get_erc20_transfer_data recipient value = elim (Bool-cases (ltb (abs value) (2 ^ 256))) [
    | inl small ↦
        let (size, number) = word_small value (ltb→lt _ _ small) in
        rw (small, transfer_data-eq recipient value)
          (decode_transfer-parts selector (replicate 12 0) (eth.address_bytes recipient)
              (word value) selector-length (length-replicate 12 0) (doc.address_length recipient)
              size
            ∙ rw number refl)
    | inr large ↦
        rw (large, transfer_data-eq recipient value)
          (decode_transfer-long selector (replicate 12 0) (eth.address_bytes recipient) (word value)
            selector-length (length-replicate 12 0) (doc.address_length recipient)
            (word_large value (ground arith)))
  ]
