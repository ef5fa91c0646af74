-- ===== src/Tests/ProgramRuns.antt =====
-- Runs of the program as a whole, from an environment with the two variables that must be set.
use block_rock.Base.{
  set_insert, ℕ, ◌≡◌, refl, true, none, some, Option, Str, [], ◌∷◌, codes, ok, ◌==◌, if◌then◌else◌,
  err, Bytes-discrete, member, to_le_bytes,
}
use block_rock.Crypto.{SigningKey}
use block_rock.Text.{trim, trim_start, trim_end, split, parts_from, is_whitespace}
use block_rock.Block
use block_rock.Ledger.{replay_from, verify_block, apply_transactions}
use block_rock.Blockchain
use block_rock.Blockchain.{
  rebuild_transaction_index, index_blocks, index_transactions, Blockchain, current_state,
  register_authority, validate_chain,
}
use block_rock.Blockchain.Keeping.{Keeps}
use block_rock.Config.{
  Config, load, parse_authorities, parse_pairs, parse_port, parse_webhook, not_set,
}
use block_rock.Node.{NodeIdentity}
use block_rock.Node.Identity.{not_found, never, load_or_create_key, create_key}
use block_rock.Propagation.{RequestId}
use block_rock.Rest.{RegisterAccount, register_account}
use block_rock.Runtime.{
  absent, Running, started, start_node, register_if_authority, load_or_create, save_at_start,
}
use block_rock.Runtime.Life.{begins, goes_on, registered}
use block_rock.Runtime.Program.{
  Files, Startup, Begun, begin, begin_as, begin_with, saved, store_chain, no_more, and_then_runs,
  crashes, bad_config,
}
use block_rock.Runtime.Program.Restarts.{begin-Sessions}
use block_rock.Tests.Sample.{toy}

abbrev counted : ℕ → RequestId
counted n = n ∷ []

abbrev env : Str → Option Str
env name =
    if name == codes "TRONGRIDAPIKEY"
    then some (codes "key")
    else if name == codes "TRON_ADDRESS"
    then some (codes "T")
    else none

abbrev fresh : Files
fresh = record { keys = λ p. not_found; chains = λ p. absent }

abbrev startup : SigningKey → Startup
startup key = record { generated = key; key_failure = never; disk = none; set_up = true }

-- The keys that are generated at the first and at later starts.
abbrev first_key : SigningKey
first_key = codes "0123456789abcdef0123456789abcdef"

abbrev other_key : SigningKey
other_key = codes "fedcba9876543210fedcba9876543210"

abbrev config : Config
config = record {
  trongrid_api_key = codes "key";
  tron_address = codes "T";
  chain_path = codes "data/chain.json";
  authority_name = codes "blockrock";
  authority_key_path = codes "data/authority.key";
  initial_authorities = [];
  metabolic_webhook = none;
  grpc_port = 50051;
}

abbrev identity : NodeIdentity
identity = record { name = codes "blockrock"; signing_key = first_key }

unfoldable first_chain : Blockchain
unfolding register_if_authority
first_chain = register_if_authority identity (Blockchain.new (codes "blockrock") [])

abbrev begun : Blockchain → Begun
begun chain = record {
  config = config;
  identity = identity;
  is_authority = true;
  node = record { chain = chain; stored = some chain; announced = [] };
}

first_start : (begin env (startup first_key) fresh).1 ≡ ok (begun first_chain)
unfolding begin begin_with begin_as load parse_authorities parse_pairs parse_port parse_webhook trim
    trim_start trim_end split parts_from is_whitespace load_or_create_key create_key start_node
    load_or_create first_chain validate_chain save_at_start register_authority replay_from member
    Blockchain.new Bytes-discrete verify_block Block.with_timestamp Block.is_hash_valid
    Block.calculate_hash Block.hashed_bytes to_le_bytes apply_transactions
first_start = refl

-- An environment in which nothing is set.
unset :
    (begin (λ name. none) (startup first_key) fresh).1
    ≡ err (bad_config (not_set (codes "TRONGRIDAPIKEY")))
unfolding begin load
unset = refl

abbrev home : Files
home = (begin env (startup first_key) fresh).0

unfoldable second_chain : Blockchain
unfolding register_if_authority first_chain
second_chain = register_if_authority identity first_chain

-- The key is read at the second start, and not the one that would be generated.
second_start : (begin env (startup other_key) home).1 ≡ ok (begun second_chain)
unfolding begin begin_with begin_as load parse_authorities parse_pairs parse_port parse_webhook trim
    trim_start trim_end split parts_from is_whitespace load_or_create_key create_key start_node
    load_or_create first_chain second_chain validate_chain save_at_start register_authority
    replay_from member Blockchain.new Bytes-discrete verify_block Block.with_timestamp
    Block.is_hash_valid Block.calculate_hash Block.hashed_bytes to_le_bytes apply_transactions
    set_insert rebuild_transaction_index index_blocks index_transactions
second_start = refl

-- An account is registered, and then the program crashes.
abbrev registration : RegisterAccount
registration = record { name = codes "Alice"; public_key = other_key }

abbrev crashed : Running
crashed = record (started (begun second_chain).node 0) {
  node = (register_account none (begun second_chain).node registration).0;
}

abbrev left : Files
left = store_chain config crashed.node.stored (begin env (startup other_key) home).0

begin-Sessions_example :
    (b : Begun) × (c : Blockchain) × ((begin env (startup other_key) left).1 ≡ ok b)
    × (b.config ≡ config)
    × (b.identity ≡ identity)
    × (b.is_authority ≡ true)
    × (left.chains config.chain_path ≡ saved c)
    × (b.node.chain.blocks ≡ c.blocks)
    × (current_state b.node.chain ≡ current_state c)
    × Keeps first_chain b.node.chain
unfolding started
begin-Sessions_example =
    begin-Sessions counted env (startup first_key) fresh (begun first_chain) refl (λ c e. cc)
      first_start refl
      (and_then_runs no_more (
        crashes (startup other_key) 0 second_start
          (goes_on begins (registered none registration refl)) refl))
      other_key never
