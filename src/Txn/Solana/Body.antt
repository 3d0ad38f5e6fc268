-- ===== src/Txn/Solana/Body.antt =====
-- txn/solana/common.go: what ToSolanaBody makes of its instructions.
use mathlib.Core.List.{append-nil, append_assoc}
use utils_go.Base.{ℕ, false, ◌≡◌, refl, sym, ap, ◌∙◌, Option, List, [], ◌∷◌, ◌++◌}
use utils_go.Util.Token.{Answer, answer, refused, ◌>>=◌}
use utils_go.Txn.Solana.{
  Instruction, SolanaInstruction, SolanaKeypair, SolanaBody, Sdk, as_solana_instruction,
  add_instructions, to_solana_body,
}

module _ (sdk : Sdk) where
  -- The instructions with their data, or the first error of a Data.
  unfoldable pub encode_all : List (Instruction sdk.Pk) → Answer (List (SolanaInstruction sdk.Pk))
  unfolding as_solana_instruction
  encode_all [] = answer []
  encode_all (inst ∷ insts) = do
    encoded ← inst.instruction_data
    others ← encode_all insts
    answer (as_solana_instruction sdk inst encoded ∷ others)

  abbrev with_more :
      SolanaBody sdk.Pk → List (SolanaInstruction sdk.Pk) → Answer (SolanaBody sdk.Pk)
  with_more body more = answer (record body { instructions = body.instructions ++ more })

  -- Adding one instruction and then those of an answer is adding all of them.
  with_more-cons :
      (body : SolanaBody sdk.Pk) (s : SolanaInstruction sdk.Pk)
      (others : Answer (List (SolanaInstruction sdk.Pk)))
      → (others >>= with_more (record body { instructions = body.instructions ++ s ∷ [] }))
        ≡ ((others >>= (λ more. answer (s ∷ more))) >>= with_more body)
  with_more-cons body s (answer more) =
      ap (λ all. answer (record body { instructions = all }))
        (append_assoc body.instructions (s ∷ []) more)
  with_more-cons body s (refused msg) = refl

  pub add_instructions_lem :
      (insts : List (Instruction sdk.Pk)) (body : SolanaBody sdk.Pk)
      → add_instructions sdk insts body ≡ (encode_all insts >>= with_more body)
  unfolding add_instructions encode_all
  add_instructions_lem [] body =
      sym (ap (λ all. answer (record body { instructions = all })) (append-nil body.instructions))
  add_instructions_lem (inst ∷ insts) body =
      after_data (add_instructions_lem insts) inst.instruction_data
    where
      after_data :
          ((b : SolanaBody sdk.Pk)
            → add_instructions sdk insts b ≡ (encode_all insts >>= with_more b))
          → (d : Answer (List ℕ))
          → (d >>= λ encoded. add_instructions sdk insts (record body {
            instructions = body.instructions ++ as_solana_instruction sdk inst encoded ∷ [];
          }))
            ≡ ((d >>= λ encoded. encode_all insts >>= λ others.
                  answer (as_solana_instruction sdk inst encoded ∷ others))
                >>= with_more body)
      after_data rest (answer encoded) =
          rest _ ∙ with_more-cons body (as_solana_instruction sdk inst encoded) (encode_all insts)
      after_data rest (refused msg) = refl

  -- ToSolanaBody fails with the first error of a Data, and otherwise returns a body with an instruction
  -- for each of the given ones, in their order, and the given keypairs and lookup tables.
  pub to_solana_body_lem :
      (insts : List (Instruction sdk.Pk)) (keypairs : Option (List (SolanaKeypair sdk.Pk)))
      (lookup_tables : Option (List (sdk.Pk × List sdk.Pk)))
      → to_solana_body sdk insts keypairs lookup_tables ≡ (
          encode_all insts >>= λ all. answer (record {
            instructions = all;
            keypairs = keypairs;
            lookup_tables = lookup_tables;
            mev = false;
          }))
  unfolding to_solana_body
  to_solana_body_lem insts keypairs lookup_tables = add_instructions_lem insts _
