-- ===== src/Message.antt =====
-- What the node of zion-core tells a client of whom it refuses a request: the messages of its ledger.rs
-- and of its api/rest.rs and api/grpc.rs, as what they are formatted from, and their texts.
use block_rock.Base.{◌++◌, Str, codes}
use block_rock.ChainError.{ChainError}
use block_rock.ChainError.Display.{quoted, error_text}
use block_rock.Ledger.{mint_account}

pub data Message : Type 0 where
  -- of ledger.rs; an error of the store by its text
  mints_value : Message
  chain_error : ChainError → Message
  not_persisted : Str → Message
  -- of the interfaces; an error of the crates hex and ed25519-dalek by its text
  signature_not_hex public_key_not_hex invalid_public_key : Str → Message
  signature_length public_key_length : Message
  reserved_name transaction_not_found : Message
  bound_elsewhere unknown_account : Str → Message
  registration_not_persisted : Str → Message

unfoldable pub message_text : Message → Str
unfolding error_text
message_text mints_value =
    quoted mint_account ++ codes " mints value and cannot be used from the API"
message_text (chain_error e) = error_text e
message_text (not_persisted error) = codes "block sealed but not persisted: " ++ error
message_text (signature_not_hex error) = codes "signature is not valid hex: " ++ error
message_text (public_key_not_hex error) = codes "public key is not valid hex: " ++ error
message_text (invalid_public_key error) = codes "invalid ed25519 public key: " ++ error
message_text signature_length = codes "signature must be 64 bytes"
message_text public_key_length = codes "public key must be 32 bytes"
message_text reserved_name = quoted mint_account ++ codes " is reserved by the node"
message_text transaction_not_found = codes "Transaction not found"
message_text (bound_elsewhere name) = quoted name ++ codes " is already bound to another key"
message_text (unknown_account name) = codes "unknown account " ++ quoted name
message_text (registration_not_persisted error) =
    codes "account registered but not persisted: " ++ error
