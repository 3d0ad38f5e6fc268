-- ===== src/Txn/Tests.antt =====
-- txn/: a body of concrete instructions.
use utils_go.Base.{ℕ, ◌≡◌, refl, nat_beq, none, some, true, false, [], ◌∷◌}
use utils_go.Base.Int.{pos_part}
use utils_go.Base.Text.{text}
use utils_go.Util.Token.{answer, refused}
use utils_go.Txn.Solana.{SolanaAccount, Instruction, Sdk, to_solana_body}

abbrev pub signer : ℕ → SolanaAccount ℕ
signer pk = record { public_key = pk; is_writable = true; is_signer = true }

abbrev pub transfer_of : ℕ → ℕ → ℕ → Instruction ℕ
transfer_of amount source destination = record {
  program_id = 7;
  accounts = signer source ∷ signer destination ∷ [];
  instruction_data = answer (3 ∷ amount ∷ []);
}

-- A stand-in for solana-go with numbers for keys.
abbrev pub numbers : Sdk
numbers = record {
  Pk = ℕ;
  equals = nat_beq;
  bytes_of = λ pk. pk ∷ [];
  public_key_from_base58 = λ s. refused (text "invalid");
  find_associated_token_address = λ pk mint. answer pk;
  find_program_address = λ seeds program. answer program;
  spl_associated_token_account_program_id = 5;
  token_program_id = 7;
  token_2022_program_id = 8;
  system_transfer = transfer_of;
  approve_checked =
      λ amount decimals source mint delegate owner. transfer_of amount source delegate;
  transfer_checked =
      λ amount decimals source mint destination owner. transfer_of amount source destination;
  token_transfer = λ amount source destination owner. transfer_of amount source destination;
  create_ata = λ payer wallet mint. transfer_of 0 payer wallet;
  associated_key = λ pk mint. pk;
  zero_key = 0;
  uint64 = pos_part;
  marshal = λ body. answer (text "body");
  replace_all = λ s old new. s;
}

-- Two transfers; the second program has its own id.
two_transfers_body :
    to_solana_body numbers
      (transfer_of 9 1 2 ∷ record (transfer_of 4 2 1) { program_id = 6 } ∷ [])
      none
      (some ((1, 2 ∷ []) ∷ []))
    ≡ answer (record {
      instructions =
          record {
            program_id = 7;
            accounts = signer 1 ∷ signer 2 ∷ [];
            instruction_data = 3 ∷ 9 ∷ [];
          }
          ∷ record {
            program_id = 6;
            accounts = signer 2 ∷ signer 1 ∷ [];
            instruction_data = 3 ∷ 4 ∷ [];
          }
          ∷ [];
      keypairs = none;
      lookup_tables = some ((1, 2 ∷ []) ∷ []);
      mev = false;
    })
unfolding to_solana_body
two_transfers_body = refl
