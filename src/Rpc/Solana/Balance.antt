-- ===== src/Rpc/Solana/Balance.antt =====
-- rpc/solana.go: the balance of a token, and the conversion of amounts to int64.
use utils_go.Base.{ℕ, ◌^◌, ◌<◌, ◌≤◌, ◌≡◌, ap, ◌↔◌, arith, Bool-cases, inl, inr, if◌then◌else◌}
use utils_go.Base.Int.{ℤ, pos, ◌<ℤ◌}
use utils_go.Base.Text.{Text, trim_space}
use utils_go.Rpc.Solana.{
  SolanaNode, Reply, reply, not_found, is_sol, failed, get_str_account_info, get_spl_account,
  zero_if_missing, get_balance,
}
use utils_go.Rpc.TokenCache.{int64_of}

-- The amount in a reply.
abbrev amount_in : {A : Type 0} → (A → ℕ) → Reply A → Reply ℕ
amount_in of (reply a) = reply (of a)
amount_in of not_found = not_found
amount_in of (failed msg) = failed msg

-- What the chain says that an owner holds: the lamports of the account, or the amount in the first token
-- account that can be decoded.
unfoldable pub held : SolanaNode → Text → Text → Reply ℕ
unfolding is_sol get_str_account_info get_spl_account trim_space
held node owner_addr token_addr =
    if is_sol (trim_space token_addr)
    then amount_in (λ info. info.lamports) (get_str_account_info node (trim_space owner_addr))
    else amount_in (λ account. account.amount)
        (get_spl_account node (trim_space owner_addr) (trim_space token_addr))

zero_if_missing-amount_in :
    {A : Type 0} (of : A → ℕ) (r : Reply A) (n : ℕ)
    → amount_in of r ≡ reply n
    → zero_if_missing of r ≡ reply (int64_of n)
unfolding zero_if_missing
zero_if_missing-amount_in of (reply a) n h = ap (λ m. reply (int64_of m)) (eq_of_reply (of a) n h)
  where
    eq_of_reply : (m n : ℕ) → reply m ≡ reply n → m ≡ n
    eq_of_reply m n e = cc
zero_if_missing-amount_in of not_found n h = cc
zero_if_missing-amount_in of (failed msg) n h = cc

get_balance-held :
    (node : SolanaNode) (owner_addr token_addr : Text) (n : ℕ)
    → held node owner_addr token_addr ≡ reply n
    → get_balance node owner_addr token_addr ≡ reply (int64_of n)
unfolding get_balance held
get_balance-held node owner_addr token_addr n h =
    elim (Bool-cases (is_sol (trim_space token_addr))) [
      | inl sol ↦ rw sol (
          zero_if_missing-amount_in _ (get_str_account_info node (trim_space owner_addr)) n
            (rw sol at h))
      | inr spl ↦ rw spl (
          zero_if_missing-amount_in _
            (get_spl_account node (trim_space owner_addr) (trim_space token_addr)) n (rw spl at h))
    ]

int64_of_exact : (n : ℕ) → n < 2 ^ 64 → (int64_of n ≡ pos n) ↔ (n < 2 ^ 63)
unfolding int64_of
int64_of_exact n h = ground arith

int64_of_negative : (n : ℕ) → n < 2 ^ 64 → (int64_of n <ℤ pos 0) ↔ (2 ^ 63 ≤ n)
unfolding int64_of
int64_of_negative n h = ground arith

-- Where the chain says that the owner holds n, which fits a uint64, GetBalance returns a number with no error,
-- which is n exactly where n is below 2 ^ 63, and is negative exactly where it is not.
pub get_balance_exact :
    (node : SolanaNode) (owner_addr token_addr : Text) (n : ℕ)
    → held node owner_addr token_addr ≡ reply n
    → n < 2 ^ 64
    → (v : ℤ) × (get_balance node owner_addr token_addr ≡ reply v)
      × ((v ≡ pos n) ↔ (n < 2 ^ 63))
      × ((v <ℤ pos 0) ↔ (2 ^ 63 ≤ n))
get_balance_exact node owner_addr token_addr n h bound = (
  int64_of n,
  get_balance-held node owner_addr token_addr n h,
  int64_of_exact n bound,
  int64_of_negative n bound,
)
