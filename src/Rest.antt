-- ===== src/Rest.antt =====
-- The accounts and transactions of zion-core/src/api/rest.rs. What it refuses it answers with the
-- failures of Decoding.
pub mod Answers
pub mod Accounts
pub mod Readings
pub mod Views
pub mod Decoding
use block_rock.Base.{
  ℕ, Bool, true, false, ◌&&◌, not, Option, none, some, Str, Bytes, ◌==◌, if◌then◌else◌, is_some,
  and_then, Result, ok, err, contains_key,
}
use block_rock.Crypto.{Crypto, VerifyingKey, Signature}
use block_rock.Transaction
use block_rock.Transaction.{Transaction}
use block_rock.Ledger.{mint_account}
use block_rock.Blockchain.{Blockchain, public_key, balance_of, next_nonce, add_public_key}
use block_rock.Message.{
  Message, reserved_name, bound_elsewhere, unknown_account, registration_not_persisted,
}
use block_rock.Rest.Decoding.{
  not_found, conflict, internal_server_error, ApiFailure, failure, refused, full, decode_signature,
  decode_public_key,
}
use block_rock.Node.{Node, NodeIdentity, Queued, SubmitError, rejected, busy, internal, submit}

pub record SubmitTransaction : Type 0 where
  pub sender : Str
  pub receiver : Str
  pub amount : ℕ
  pub nonce : ℕ
  pub signature : Str

pub record RegisterAccount : Type 0 where
  pub name : Str
  pub public_key : Str

pub record AccountState : Type 0 where
  pub name : Str
  pub balance : ℕ
  pub next_nonce : ℕ
  pub public_key : Option Str

abbrev pub api_failure : SubmitError → ApiFailure
api_failure (rejected m) = refused m
api_failure (busy m) = full m
api_failure (internal m) = failure internal_server_error m

module _ ⦃crypto : Crypto⦄ where
  unfoldable pub account_state : Blockchain → Str → AccountState
  account_state chain name = record {
    name = name;
    balance = balance_of chain name;
    next_nonce = next_nonce chain name;
    public_key = and_then (public_key chain name) λ key. some (crypto.hex_encode key);
  }

  unfoldable pub get_account : Blockchain → Str → Result ApiFailure AccountState
  unfolding account_state
  get_account chain name =
      if not (is_some (public_key chain name)) && not (contains_key name chain.balances)
      then err (failure not_found (unknown_account name))
      else ok (account_state chain name)

  -- `existing != &public_key`
  abbrev bound_to_other : Option VerifyingKey → VerifyingKey → Bool
  bound_to_other none key = false
  bound_to_other (some existing) key = not (existing == key)

  -- The part of `register_account` that writes. `disk` is the error of the store, if there is one.
  unfoldable pub bind_account :
      Option Str → Node → Str → VerifyingKey → Node × Result ApiFailure AccountState
  unfolding account_state
  bind_account (some error) node name key = (
    record node { chain = add_public_key node.chain name key },
    err (failure internal_server_error (registration_not_persisted error)),
  )
  bind_account none node name key =
      let c = add_public_key node.chain name key in
      (record node { chain = c; stored = some c }, ok (account_state c name))

  unfoldable pub register_key :
      Option Str
      → Node
      → Str
      → Result ApiFailure VerifyingKey
      → Node × Result ApiFailure AccountState
  unfolding bind_account
  register_key disk node name (err e) = (node, err e)
  register_key disk node name (ok key) =
      if bound_to_other (public_key node.chain name) key
      then (node, err (failure conflict (bound_elsewhere name)))
      else bind_account disk node name key

  unfoldable pub register_account :
      Option Str → Node → RegisterAccount → Node × Result ApiFailure AccountState
  unfolding register_key decode_public_key
  register_account disk node registration =
      if registration.name == mint_account
      then (node, err (refused reserved_name))
      else register_key disk node registration.name (decode_public_key registration.public_key)

  unfoldable pub queue_and_maybe_seal :
      ℕ → Option Str → NodeIdentity → Node → Transaction → Node × Result ApiFailure ℕ
  queue_and_maybe_seal now disk identity node t =
      let (node', result) = submit now disk identity node t in
      elim result [ ok queued ↦ (node', ok queued.pending) | err e ↦ (node', err (api_failure e)) ]

  -- The part of `submit_transaction` behind the decoding.
  unfoldable pub submit_signed :
      ℕ
      → Option Str
      → NodeIdentity
      → Node
      → SubmitTransaction
      → Result ApiFailure Signature
      → Node × Result ApiFailure Queued
  unfolding queue_and_maybe_seal
  submit_signed now disk identity node s (err e) = (node, err e)
  submit_signed now disk identity node s (ok signature) =
      let t = Transaction.signed s.sender s.receiver s.amount s.nonce signature in
      let (node', result) = queue_and_maybe_seal now disk identity node t in
      elim result [
        | ok pending ↦ (node', ok (record { id = t.id; pending = pending }))
        | err e ↦ (node', err e)
      ]

  unfoldable pub submit_transaction :
      ℕ → Option Str → NodeIdentity → Node → SubmitTransaction → Node × Result ApiFailure Queued
  unfolding submit_signed decode_signature
  submit_transaction now disk identity node s =
      submit_signed now disk identity node s (decode_signature s.signature)
