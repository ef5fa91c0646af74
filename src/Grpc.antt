-- ===== src/Grpc.antt =====
-- zion-core/src/api/grpc.rs: the node behind its gRPC interface. The messages are the ones of
-- proto/blockrock.proto. Tonic serves the methods and is not modelled.
pub mod Agreement
use block_rock.Base.{
  ℕ, Bool, not, ◌&&◌, Option, none, some, List, map, Str, if◌then◌else◌, is_some, and_then, Result,
  ok, err, Map, contains_key, nat_eq, ◌>>=◌, ◌>>◌, guard, map_err, length,
}
use block_rock.Crypto.{Crypto, Signature}
use block_rock.Transaction
use block_rock.Transaction.{Transaction}
use block_rock.Block.{Block}
use block_rock.Blockchain.{Blockchain, public_key, balance_of, next_nonce, get_transaction}
use block_rock.Message.{
  Message, signature_not_hex, signature_length, transaction_not_found, unknown_account,
}
use block_rock.Node.{Node, NodeIdentity, Queued, SubmitError, rejected, busy, internal, submit}

pub data Code : Type 0 where
  not_found invalid_argument resource_exhausted internal_error : Code

-- `tonic::Status`
pub record Status : Type 0 where
  pub code : Code
  pub message : Message

abbrev pub status : Code → Message → Status
status code message = record { code = code; message = message }

-- `TransactionResponse` of the messages
pub record TransactionMessage : Type 0 where
  pub id : Str
  pub sender : Str
  pub recipient : Str
  pub amount : ℕ
  pub nonce : ℕ
  pub payload : Option Str

pub record BlockSummary : Type 0 where
  pub index : ℕ
  pub timestamp : ℕ
  pub previous_hash : Str
  pub hash : Str
  pub authority : Str
  pub transactions : List TransactionMessage

pub record SubmitTransactionRequest : Type 0 where
  pub sender : Str
  pub receiver : Str
  pub amount : ℕ
  pub nonce : ℕ
  pub payload : Option Str
  pub signature : Str

pub record AccountResponse : Type 0 where
  pub name : Str
  pub balance : ℕ
  pub next_nonce : ℕ
  pub public_key : Option Str

unfoldable pub transaction_message : Transaction → TransactionMessage
transaction_message t = record {
  id = t.id;
  sender = t.sender;
  recipient = t.receiver;
  amount = t.amount;
  nonce = t.nonce;
  payload = t.payload;
}

unfoldable pub block_message : Block → BlockSummary
unfolding transaction_message
block_message b = record {
  index = b.index;
  timestamp = b.timestamp;
  previous_hash = b.previous_hash;
  hash = b.hash;
  authority = b.authority;
  transactions = map transaction_message b.transactions;
}

-- The method `get_transaction`.
unfoldable pub transaction_of : Blockchain → Str → Result Status TransactionMessage
unfolding transaction_message
transaction_of chain id = elim (get_transaction chain id) [
  | none ↦ err (status not_found transaction_not_found)
  | some t ↦ ok (transaction_message t)
]

-- `map_err` of the submission
abbrev pub status_of : SubmitError → Status
status_of (rejected m) = status invalid_argument m
status_of (busy m) = status resource_exhausted m
status_of (internal m) = status internal_error m

unfoldable pub get_balances : Blockchain → Map ℕ
get_balances chain = chain.balances

unfoldable pub get_blocks : Blockchain → List BlockSummary
unfolding block_message
get_blocks chain = map block_message chain.blocks

module _ ⦃crypto : Crypto⦄ where
  -- The reason is a message that the caller makes a status of.
  unfoldable pub decode_signature : Str → Result Message Signature
  decode_signature signature = do
    bytes ← map_err signature_not_hex (crypto.hex_decode signature)
    guard (nat_eq (length bytes) 64) signature_length
    ok bytes

  -- The part of `submit_transaction` behind the decoding.
  unfoldable pub submit_signed :
      ℕ
      → Option Str
      → NodeIdentity
      → Node
      → SubmitTransactionRequest
      → Result Message Signature
      → Node × Result Status Queued
  submit_signed now disk identity node s (err reason) = (node, err (status invalid_argument reason))
  submit_signed now disk identity node s (ok signature) =
      let t =
        Transaction.signed_with_payload s.sender s.receiver s.amount s.nonce s.payload signature in
      let (node', result) = submit now disk identity node t in
      elim result [ ok queued ↦ (node', ok queued) | err e ↦ (node', err (status_of e)) ]

  unfoldable pub submit_transaction :
      ℕ → Option Str → NodeIdentity → Node → SubmitTransactionRequest → Node × Result Status Queued
  unfolding submit_signed decode_signature
  submit_transaction now disk identity node s =
      submit_signed now disk identity node s (decode_signature s.signature)

  unfoldable pub get_account : Blockchain → Str → Result Status AccountResponse
  get_account chain name =
      if not (is_some (public_key chain name)) && not (contains_key name chain.balances)
      then err (status not_found (unknown_account name))
      else ok (record {
        name = name;
        balance = balance_of chain name;
        next_nonce = next_nonce chain name;
        public_key = and_then (public_key chain name) λ key. some (crypto.hex_encode key);
      })
