-- ===== src/Client.antt =====
-- api/src/sdk.rs and the addresses of api/src/state/mod.rs: what a client sends for each instruction.
pub mod Miners
pub mod Rounds
pub mod Admins
pub mod Stakes
pub mod Desk
pub mod Vault
pub mod Onchain
pub mod Checked
use godl_program.Base.{ℕ, ◌-◌, ◌^◌, Bool, true, false, List, [], ◌∷◌, map, suc, u64_mod}
use godl_program.Base.Int.{ℤ, pos, negsuc}
use godl_program.Consts.{mint_address, sol_mint, xaut_mint}
use godl_program.Runtime.{Seeds}
use godl_program.Instruction.{GodlInstruction, Call}

-- the Solana library's account of a transaction
pub record AccountMeta : Type 0 where
  pub pubkey : ℕ
  pub is_signer : Bool
  pub is_writable : Bool

-- its `AccountMeta::new` and `AccountMeta::new_readonly`
abbrev pub writable : ℕ → Bool → AccountMeta
writable key signs = record { pubkey = key; is_signer = signs; is_writable = true }

abbrev pub readonly : ℕ → Bool → AccountMeta
readonly key signs = record { pubkey = key; is_signer = signs; is_writable = false }

-- an instruction to the program
pub record Instruction : Type 0 where
  pub accounts : List AccountMeta
  pub call : Call

-- What the libraries give: the address derived from the program's seeds, that of an owner's token
-- account at a mint, and those of the other programs.
pub record Addresses : Type 0 where
  pub pda : Seeds → ℕ
  pub token_address : ℕ → ℕ → ℕ
  pub var_pda : ℕ → ℕ → ℕ
  pub mint_authority : ℕ
  pub program_id : ℕ
  pub system_program : ℕ
  pub token_program : ℕ
  pub associated_token_program : ℕ
  pub entropy_program : ℕ
  pub mint_program : ℕ
  pub slot_hashes : ℕ

abbrev pub call_of : GodlInstruction → List ℕ → List ℕ → Call
call_of kind fields rest = record { kind = kind; fields = fields; rest = rest }

abbrev pub instruction : GodlInstruction → List AccountMeta → List ℕ → List ℕ → Instruction
instruction kind accounts fields rest = record {
  accounts = accounts;
  call = call_of kind fields rest;
}

-- an `i64` as the `u64` of the same bits
unfoldable pub i64_bits : ℤ → ℕ
i64_bits (pos n) = n
i64_bits (negsuc n) = u64_mod - suc n

-- a swap's accounts do not sign
unfoldable pub unsigned : List AccountMeta → List AccountMeta
unsigned [] = []
unsigned (a ∷ accounts) = record a { is_signer = false } ∷ unsigned accounts

abbrev pub otc_treasury_tokens : Addresses → ℕ
otc_treasury_tokens a = a.token_address (a.pda Seeds.otc_treasury) mint_address

abbrev pub gold_vault_sol : Addresses → ℕ
gold_vault_sol a = a.token_address (a.pda Seeds.gold_vault) sol_mint

abbrev pub gold_vault_xaut : Addresses → ℕ
gold_vault_xaut a = a.token_address (a.pda Seeds.gold_vault) xaut_mint
