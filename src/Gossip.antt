-- ===== src/Gossip.antt =====
-- zion-core/src/network/transactions.rs: a pending transaction that a peer sends, and how it is admitted.
pub mod Admission
use block_rock.Base.{
  ℕ, Bool, true, false, ◌&&◌, not, Option, none, some, Str, Bytes, ◌==◌, if◌then◌else◌, is_some,
  Result, ok, err, remove, member,
}
use block_rock.Crypto.{Crypto, VerifyingKey}
use block_rock.Transaction.{Transaction}
use block_rock.ChainError.{
  ChainError, genesis_mismatch, unknown_sender, invalid_signature, duplicate_transaction,
}
use block_rock.Blockchain.{
  Blockchain, public_key, genesis_hash, add_public_key, get_transaction, queue_transaction,
}

pub record TransactionAnnouncement : Type 0 where
  pub genesis_hash : Str
  pub transaction : Transaction
  pub sender_key : VerifyingKey

pub data TransactionResponse : Type 0 where
  accepted known confirmed busy rejected : TransactionResponse

abbrev is_hash : Option Str → Str → Bool
is_hash none hash = false
is_hash (some ours) hash = ours == hash

-- `known_key.is_some_and(|key| key != announcement.sender_key)`
abbrev differs : Option VerifyingKey → VerifyingKey → Bool
differs none key = false
differs (some ours) key = not (ours == key)

abbrev learn_sender : Option VerifyingKey → Blockchain → Str → VerifyingKey → Blockchain
learn_sender none chain sender key = add_public_key chain sender key
learn_sender (some ours) chain sender key = chain

-- Takes back what `learn_sender` added.
abbrev forget_sender : Option VerifyingKey → Blockchain → Str → Blockchain
forget_sender none chain sender = record chain { public_keys = remove sender chain.public_keys }
forget_sender (some ours) chain sender = chain

-- The answer to an error of `queue_transaction`.
abbrev answer : Bool → ChainError → Result ChainError TransactionResponse
answer committed (duplicate_transaction id) = ok (if committed then confirmed else known)
answer committed e = err e

module _ ⦃crypto : Crypto⦄ where
  -- The part behind the checks.
  unfoldable pub admit :
      Blockchain
      → Transaction
      → VerifyingKey
      → Option VerifyingKey
      → Blockchain × Result ChainError TransactionResponse
  admit chain t key known_key =
      let learned = learn_sender known_key chain t.sender key in
      let committed = is_some (get_transaction learned t.id) in
      elim (queue_transaction learned t) [
        | ok r ↦ (r.0, ok accepted)
        | err e ↦ (forget_sender known_key learned t.sender, answer committed e)
      ]

  unfoldable pub apply_transaction :
      Blockchain → TransactionAnnouncement → Blockchain × Result ChainError TransactionResponse
  unfolding admit
  apply_transaction chain a =
      let t = a.transaction in
      let known_key = public_key chain t.sender in
      if not (is_hash (genesis_hash chain) a.genesis_hash)
      then (chain, err genesis_mismatch)
      else (if not (is_some known_key) && member t.sender chain.authorities
          then (chain, err (unknown_sender t.sender))
          else (if differs known_key a.sender_key
              then (chain, err (invalid_signature t.id))
              else admit chain t a.sender_key known_key))
