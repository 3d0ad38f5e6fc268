-- ===== src/Txn/Solana.antt =====
-- txn/solana/common.go and spl.go: instructions and the bodies that hold them. solana-go,
-- encoding/json, bytes.ReplaceAll and big.Int's Uint64 are parameters.
pub mod Body
use utils_go.Base.{ℕ, Option, none, Bool, false, List, [], ◌∷◌, ◌++◌, if◌then◌else◌}
use utils_go.Base.Int.{ℤ, pos, pos_part, mod_ℤ, leb_ℤ}
use utils_go.Base.Text.{Text, text, trim_space}
use utils_go.Util.Token.{Answer, answer, ◌>>=◌}

-- solana.AccountMeta, and SolanaAccount
pub record SolanaAccount (Pk : Type 0) : Type 0 where
  pub public_key : Pk
  pub is_writable : Bool
  pub is_signer : Bool

-- What the methods of a solana.Instruction return.
pub record Instruction (Pk : Type 0) : Type 0 where
  pub program_id : Pk
  pub accounts : List (SolanaAccount Pk)
  pub instruction_data : Answer (List ℕ)

pub record SolanaInstruction (Pk : Type 0) : Type 0 where
  pub program_id : Pk
  pub accounts : List (SolanaAccount Pk)
  pub instruction_data : List ℕ

pub record SolanaKeypair (Pk : Type 0) : Type 0 where
  pub public_key : Pk
  pub private_key : List ℕ

-- A nil slice or map is `none`; it is null in the JSON text.
pub record SolanaBody (Pk : Type 0) : Type 0 where
  pub instructions : List (SolanaInstruction Pk)
  pub keypairs : Option (List (SolanaKeypair Pk))
  pub lookup_tables : Option (List (Pk × List Pk))
  pub mev : Bool

pub record Sdk : Type 1 where
  pub Pk : Type 0
  pub equals : Pk → Pk → Bool
  pub bytes_of : Pk → List ℕ
  pub public_key_from_base58 : Text → Answer Pk
  pub find_associated_token_address : Pk → Pk → Answer Pk
  pub find_program_address : List (List ℕ) → Pk → Answer Pk
  pub spl_associated_token_account_program_id : Pk
  pub token_program_id : Pk
  -- the key of the text TokenzQdBNbLqP5VEhdkAS6EPFLC1PHnBqCXEpPxuEb
  pub token_2022_program_id : Pk
  -- amount, sender, receiver
  pub system_transfer : ℕ → Pk → Pk → Instruction Pk
  -- amount, decimals, source, mint, delegate or destination, owner
  pub approve_checked : ℕ → ℕ → Pk → Pk → Pk → Pk → Instruction Pk
  pub transfer_checked : ℕ → ℕ → Pk → Pk → Pk → Pk → Instruction Pk
  -- amount, source, destination, owner
  pub token_transfer : ℕ → Pk → Pk → Pk → Instruction Pk
  -- payer, wallet, mint
  pub create_ata : Pk → Pk → Pk → Instruction Pk
  -- the key that FindAssociatedTokenAddress returns when its error is not looked at
  pub associated_key : Pk → Pk → Pk
  -- solana.PublicKey{}
  pub zero_key : Pk
  pub uint64 : ℤ → ℕ
  pub marshal : SolanaBody Pk → Answer Text
  -- bytes.ReplaceAll: the text, what is replaced, and by what
  pub replace_all : Text → Text → Text → Text

module _ (sdk : Sdk) where
  unfoldable pub as_solana_instruction : Instruction sdk.Pk → List ℕ → SolanaInstruction sdk.Pk
  as_solana_instruction inst encoded = record {
    program_id = inst.program_id;
    accounts = inst.accounts;
    instruction_data = encoded;
  }

  -- The loop returns at the first instruction whose Data fails; ToSolanaBody, its only caller
  -- here, then drops the body.
  unfoldable pub add_instructions :
      List (Instruction sdk.Pk) → SolanaBody sdk.Pk → Answer (SolanaBody sdk.Pk)
  unfolding as_solana_instruction
  add_instructions [] body = answer body
  add_instructions (inst ∷ insts) body = do
    encoded ← inst.instruction_data
    add_instructions insts (record body {
      instructions = body.instructions ++ as_solana_instruction inst encoded ∷ [];
    })

  unfoldable pub to_solana_body :
      List (Instruction sdk.Pk)
      → Option (List (SolanaKeypair sdk.Pk))
      → Option (List (sdk.Pk × List sdk.Pk))
      → Answer (SolanaBody sdk.Pk)
  unfolding add_instructions
  to_solana_body insts keypairs lookup_tables = add_instructions insts (record {
    instructions = [];
    keypairs = keypairs;
    lookup_tables = lookup_tables;
    mev = false;
  })

  unfoldable pub to_body :
      List (Instruction sdk.Pk) → Option (List (SolanaKeypair sdk.Pk)) → Answer Text
  unfolding to_solana_body
  to_body insts keypairs = do body ← to_solana_body insts keypairs none; sdk.marshal body

  unfoldable pub get_ata_from_pk : sdk.Pk → sdk.Pk → Answer sdk.Pk
  get_ata_from_pk pk mintpk = sdk.find_associated_token_address pk mintpk

  unfoldable pub get_ata : Text → Text → Answer sdk.Pk
  get_ata addr mint = do
    pk ← sdk.public_key_from_base58 addr
    mintpk ← sdk.public_key_from_base58 mint
    sdk.find_associated_token_address pk mintpk

  unfoldable pub get_2022_ata_from_pk : sdk.Pk → sdk.Pk → Answer sdk.Pk
  get_2022_ata_from_pk pk mintpk =
      sdk.find_program_address
        (sdk.bytes_of pk ∷ sdk.bytes_of sdk.token_2022_program_id ∷ sdk.bytes_of mintpk ∷ [])
        sdk.spl_associated_token_account_program_id

  unfoldable pub transfer_body : Text → Text → ℤ → Answer Text
  unfolding trim_space to_body
  transfer_body sender_addr receiver_addr amount = do
    senderpk ← sdk.public_key_from_base58 (trim_space sender_addr)
    receiverpk ← sdk.public_key_from_base58 (trim_space receiver_addr)
    to_body (sdk.system_transfer (sdk.uint64 amount) senderpk receiverpk ∷ []) none

  -- uint8(decimals)
  unfoldable pub uint8 : ℤ → ℕ
  unfolding mod_ℤ
  uint8 decimals = pos_part (mod_ℤ decimals 256)

  -- The keys that the four token bodies begin with: sender, mint, and the token accounts of the sender
  -- and of the other party, which the function finds.
  pub record TokenKeys : Type 0 where
    pub senderpk : sdk.Pk
    pub mintpk : sdk.Pk
    pub sender_ata : sdk.Pk
    pub other_ata : sdk.Pk

  unfoldable pub token_keys :
      (sdk.Pk → sdk.Pk → Answer sdk.Pk) → Text → Text → Text → Answer TokenKeys
  unfolding trim_space
  token_keys find_ata sender_addr token_addr other_addr = do
    sender ← sdk.public_key_from_base58 (trim_space sender_addr)
    mint ← sdk.public_key_from_base58 (trim_space token_addr)
    party ← sdk.public_key_from_base58 (trim_space other_addr)
    sender_account ← find_ata sender mint
    other_account ← find_ata party mint
    answer (record {
      senderpk = sender;
      mintpk = mint;
      sender_ata = sender_account;
      other_ata = other_account;
    })

  unfoldable pub approve_instruction : ℤ → ℤ → TokenKeys → Instruction sdk.Pk
  unfolding uint8
  approve_instruction amount decimals k =
      sdk.approve_checked (sdk.uint64 amount) (uint8 decimals) k.sender_ata k.mintpk k.other_ata
        k.senderpk

  -- if decimals >= 0
  unfoldable pub transfer_instruction : ℤ → ℤ → TokenKeys → Instruction sdk.Pk
  unfolding uint8
  transfer_instruction amount decimals k =
      if leb_ℤ (pos 0) decimals
      then sdk.transfer_checked (sdk.uint64 amount) (uint8 decimals) k.sender_ata k.mintpk
          k.other_ata k.senderpk
      else sdk.token_transfer (sdk.uint64 amount) k.sender_ata k.other_ata k.senderpk

  -- The id of the token program in the JSON text, replaced by that of the program of 2022.
  unfoldable pub as_2022 : Text → Text
  as_2022 json_data =
      sdk.replace_all json_data (text "TokenkegQfeZyiNwAJbNbGKPFXCWuBvf9Ss623VQ5DA")
        (text "TokenzQdBNbLqP5VEhdkAS6EPFLC1PHnBqCXEpPxuEb")

  unfoldable pub spl_approve_body : Text → Text → Text → ℤ → ℤ → Answer Text
  unfolding token_keys approve_instruction get_ata_from_pk to_body
  spl_approve_body sender_addr token_addr spender_addr amount decimals = do
    k ← token_keys get_ata_from_pk sender_addr token_addr spender_addr
    to_body (approve_instruction amount decimals k ∷ []) none

  unfoldable pub spl2022_approve_body : Text → Text → Text → ℤ → ℤ → Answer Text
  unfolding token_keys approve_instruction get_2022_ata_from_pk to_body as_2022
  spl2022_approve_body sender_addr token_addr spender_addr amount decimals = do
    k ← token_keys get_2022_ata_from_pk sender_addr token_addr spender_addr
    json_data ← to_body (approve_instruction amount decimals k ∷ []) none
    answer (as_2022 json_data)

  unfoldable pub sql_transfer_body : Text → Text → Text → ℤ → ℤ → Answer Text
  unfolding token_keys transfer_instruction get_ata_from_pk to_body
  sql_transfer_body sender_addr token_addr receiver_addr amount decimals = do
    k ← token_keys get_ata_from_pk sender_addr token_addr receiver_addr
    to_body (transfer_instruction amount decimals k ∷ []) none

  unfoldable pub sql2022_transfer_body : Text → Text → Text → ℤ → ℤ → Answer Text
  unfolding token_keys transfer_instruction get_2022_ata_from_pk to_body as_2022
  sql2022_transfer_body sender_addr token_addr receiver_addr amount decimals = do
    k ← token_keys get_2022_ata_from_pk sender_addr token_addr receiver_addr
    json_data ← to_body (transfer_instruction amount decimals k ∷ []) none
    answer (as_2022 json_data)
