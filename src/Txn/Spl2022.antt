-- ===== src/Txn/Spl2022.antt =====
-- txn/solana/spl2022.go and util/svm_instruction.go: instructions that wrap another one. The accounts are
-- those of the first call of Accounts: that it changes the accounts of the inner instruction in
-- place is left out.
use utils_go.Base.{ℕ, List, map, if◌then◌else◌}
use utils_go.Util.Token.{Answer, answer, refused}
use utils_go.Txn.Solana.{SolanaAccount, Instruction, Sdk, get_2022_ata_from_pk}

module _ (sdk : Sdk) where
  pub record Spl2022CreateAtaInstruction : Type 0 where
    pub token : sdk.Pk
    pub recipient : sdk.Pk
    pub spl_create_ata_instruction : Instruction sdk.Pk

  unfoldable pub new_spl2022_create_ata_instruction :
      sdk.Pk → sdk.Pk → sdk.Pk → Spl2022CreateAtaInstruction
  new_spl2022_create_ata_instruction payer wallet mint = record {
    token = mint;
    recipient = wallet;
    spl_create_ata_instruction = sdk.create_ata payer wallet mint;
  }

  -- The key of an answer, or solana.PublicKey{} beside an error that is not looked at.
  unfoldable pub key_or_zero : Answer sdk.Pk → sdk.Pk
  key_or_zero (answer pk) = pk
  key_or_zero (refused msg) = sdk.zero_key

  unfoldable pub replaced_key : Spl2022CreateAtaInstruction → sdk.Pk → sdk.Pk
  unfolding key_or_zero get_2022_ata_from_pk
  replaced_key spl2022 pk =
      if sdk.equals pk sdk.token_program_id
      then sdk.token_2022_program_id
      else if sdk.equals pk (sdk.associated_key spl2022.recipient spl2022.token)
      then key_or_zero (get_2022_ata_from_pk sdk spl2022.recipient spl2022.token)
      else pk

  unfoldable pub replaced_account :
      Spl2022CreateAtaInstruction → SolanaAccount sdk.Pk → SolanaAccount sdk.Pk
  unfolding replaced_key
  replaced_account spl2022 account = record account {
    public_key = replaced_key spl2022 account.public_key;
  }

  unfoldable pub create_ata_accounts : Spl2022CreateAtaInstruction → List (SolanaAccount sdk.Pk)
  unfolding replaced_account
  create_ata_accounts spl2022 =
      map (replaced_account spl2022) spl2022.spl_create_ata_instruction.accounts

  -- ProgramID, Accounts and Data of a Spl2022CreateAtaInstruction
  unfoldable pub create_ata_instruction : Spl2022CreateAtaInstruction → Instruction sdk.Pk
  unfolding create_ata_accounts
  create_ata_instruction spl2022 = record {
    program_id = spl2022.spl_create_ata_instruction.program_id;
    accounts = create_ata_accounts spl2022;
    instruction_data = spl2022.spl_create_ata_instruction.instruction_data;
  }

  pub record Spl2022TransferInstruction : Type 0 where
    pub spl_transfer_instruction : Instruction sdk.Pk

  unfoldable pub new_spl2022_transfer_instruction :
      ℕ → sdk.Pk → sdk.Pk → sdk.Pk → Spl2022TransferInstruction
  new_spl2022_transfer_instruction amount source destination owner = record {
    spl_transfer_instruction = sdk.token_transfer amount source destination owner;
  }

  -- ProgramID, Accounts and Data of a Spl2022TransferInstruction
  unfoldable pub transfer_2022_instruction : Spl2022TransferInstruction → Instruction sdk.Pk
  transfer_2022_instruction spl2022 = record {
    program_id = sdk.token_2022_program_id;
    accounts = spl2022.spl_transfer_instruction.accounts;
    instruction_data = spl2022.spl_transfer_instruction.instruction_data;
  }

  pub record WrappedInstruction : Type 0 where
    pub program : sdk.Pk
    pub inner : Instruction sdk.Pk

  unfoldable pub new_wrapped_instruction : sdk.Pk → Instruction sdk.Pk → WrappedInstruction
  new_wrapped_instruction program instruction = record { program = program; inner = instruction }

  -- ProgramID, Accounts and Data of a WrappedInstruction
  unfoldable pub wrapped_instruction : WrappedInstruction → Instruction sdk.Pk
  wrapped_instruction w = record {
    program_id = w.program;
    accounts = w.inner.accounts;
    instruction_data = w.inner.instruction_data;
  }
