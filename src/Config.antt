-- ===== src/Config.antt =====
-- zion-core/src/config.rs: the configuration from the environment. `env::var` is an argument, `none` for
-- a variable that is not set or not Unicode. Hex and the decoding of keys are those of the crates hex and
-- ed25519-dalek, and are parameters. Paths are their texts; the texts are ASCII.
pub mod Authorities
use block_rock.Base.{
  ℕ, ◌^◌, Bool, true, false, Option, none, some, List, [], ◌∷◌, Bytes, Str, codes, nat_eq,
  if◌then◌else◌, Result, ok, err, ◌>>=◌, ◌>>◌, guard, ok_or, ok_of, Map, insert, length,
}
use block_rock.Crypto.{VerifyingKey, Crypto}
use block_rock.Ledger.{Keys}
use block_rock.Text.{trim, split, split_once, parse_below}

-- What is wrong, and with which variable or name.
pub data ConfigError : Type 0 where
  not_set not_a_port not_a_pair not_hex not_32_bytes not_a_key : Str → ConfigError

pub record Config : Type 0 where
  pub trongrid_api_key : Str
  pub tron_address : Str
  pub chain_path : Str
  pub authority_name : Str
  pub authority_key_path : Str
  pub initial_authorities : Keys
  pub metabolic_webhook : Option Str
  pub grpc_port : ℕ

abbrev pub default_authority_name : Str
default_authority_name = codes "blockrock"

abbrev pub default_chain_path : Str
default_chain_path = codes "data/chain.json"

abbrev pub default_authority_key_path : Str
default_authority_key_path = codes "data/authority.key"

abbrev pub default_grpc_port : ℕ
default_grpc_port = 50051

abbrev colon : ℕ
colon = 58

abbrev comma : ℕ
comma = 44

module _ ⦃crypto : Crypto⦄ where
  -- The name and the key of a pair "name:pubkey_hex".
  unfoldable pub parse_pair : Str → Result ConfigError (Str × VerifyingKey)
  unfolding split_once trim
  parse_pair pair = do
    (name, key_hex) ← ok_or (split_once colon pair) (not_a_pair pair)
    bytes ← ok_or (ok_of (crypto.hex_decode (trim key_hex))) (not_hex name)
    guard (nat_eq (length bytes) 32) (not_32_bytes name)
    key ← ok_or (ok_of (crypto.from_bytes bytes)) (not_a_key name)
    ok (name, key)

  abbrev is_empty : Str → Bool
  is_empty [] = true
  is_empty (c ∷ cs) = false

  -- The loop over the pairs.
  unfoldable pub parse_pairs : List Str → Keys → Result ConfigError Keys
  unfolding parse_pair
  parse_pairs [] keys = ok keys
  parse_pairs (raw ∷ raws) keys = elim (is_empty (trim raw)) [
    | true ↦ parse_pairs raws keys
    | false ↦ parse_pair (trim raw) >>= λ entry. parse_pairs raws (insert entry.0 entry.1 keys)
  ]

  unfoldable pub parse_authorities : Str → Result ConfigError Keys
  unfolding parse_pairs split
  parse_authorities raw = parse_pairs (split comma raw) []

  abbrev or_default : Option Str → Str → Str
  or_default none default = default
  or_default (some text) default = text

  unfoldable pub parse_port : Option Str → Result ConfigError ℕ
  unfolding trim parse_below
  parse_port none = ok default_grpc_port
  parse_port (some raw) = ok_or (parse_below (2 ^ 16) (trim raw)) (not_a_port raw)

  unfoldable pub parse_webhook : Option Str → Option Str
  unfolding trim
  parse_webhook none = none
  parse_webhook (some url) = if is_empty (trim url) then none else some (trim url)

  unfoldable pub load : (Str → Option Str) → Result ConfigError Config
  unfolding parse_authorities parse_port parse_webhook
  load env = do
    trongrid_api_key ← ok_or (env (codes "TRONGRIDAPIKEY")) (not_set (codes "TRONGRIDAPIKEY"))
    tron_address ← ok_or (env (codes "TRON_ADDRESS")) (not_set (codes "TRON_ADDRESS"))
    initial_authorities ← parse_authorities (or_default (env (codes "INITIAL_AUTHORITIES")) [])
    grpc_port ← parse_port (env (codes "GRPC_PORT"))
    ok (record {
      trongrid_api_key = trongrid_api_key;
      tron_address = tron_address;
      chain_path = or_default (env (codes "CHAIN_PATH")) default_chain_path;
      authority_name = or_default (env (codes "AUTHORITY_NAME")) default_authority_name;
      authority_key_path = or_default (env (codes "AUTHORITY_KEY_PATH")) default_authority_key_path;
      initial_authorities = initial_authorities;
      metabolic_webhook = parse_webhook (env (codes "METABOLIC_WEBHOOK"));
      grpc_port = grpc_port;
    })
