-- ===== src/Node.antt =====
-- zion-core/src/ledger.rs: how a transaction enters the chain of a node, for both of its interfaces,
-- and how the pool is sealed.
pub mod Submission
pub mod Identity
use block_rock.Base.{
  ℕ, Bool, true, false, ◌&&◌, Option, none, some, List, [], ◌∷◌, Str, ◌==◌, if◌then◌else◌, Result,
  ok, err, member, last?,
}
use block_rock.Crypto.{Crypto, SigningKey}
use block_rock.Transaction.{Transaction}
use block_rock.Block.{Block}
use block_rock.ChainError.{ChainError, mempool_full}
use block_rock.Ledger.{mint_account}
use block_rock.Message.{Message, mints_value, chain_error, not_persisted}
use block_rock.Blockchain.{
  Blockchain, public_key, pending_count, is_worth_sealing, queue_transaction, seal_mempool,
}
use block_rock.Sync.{BlockAnnouncement, announcement_of}

-- `NodeIdentity` of zion-core/src/identity.rs
pub record NodeIdentity : Type 0 where
  pub name : Str
  pub signing_key : SigningKey

-- The chain behind the lock, the chain that the store wrote last, and the announcements that were
-- handed to the announcer, the latest first.
pub record Node : Type 0 where
  pub chain : Blockchain
  pub stored : Option Blockchain
  pub announced : List BlockAnnouncement

pub record Queued : Type 0 where
  pub id : Str
  pub pending : ℕ

pub data SubmitError : Type 0 where
  rejected busy internal : Message → SubmitError

-- `map_err` of the queueing
abbrev pub submit_error : ChainError → SubmitError
submit_error (mempool_full queued max) = busy (chain_error (mempool_full queued max))
submit_error e = rejected (chain_error e)

-- `chain.public_key(..) == Some(..)`
abbrev is_key : Option Str → Str → Bool
is_key none key = false
is_key (some k) key = k == key

unfoldable pub announce_last : Node → Option Block → Node
announce_last node none = node
announce_last node (some b) = record node {
  announced = announcement_of node.chain b ∷ node.announced;
}

-- `store.save`, with the error of the disk as an argument, and the announcement behind it.
unfoldable pub persist : Option Str → Node → ℕ → Node × Result SubmitError (Option ℕ)
unfolding announce_last
persist (some error) node index = (node, err (internal (not_persisted error)))
persist none node index = (
  announce_last (record node { stored = some node.chain }) (last? node.chain.blocks),
  ok (some index),
)

module _ ⦃crypto : Crypto⦄ where
  unfoldable pub seal_pending :
      ℕ → Option Str → NodeIdentity → Node → Node × Result SubmitError (Option ℕ)
  unfolding persist
  seal_pending now disk identity node =
      let (chain, sealed) = seal_mempool now node.chain identity.name identity.signing_key in
      let node' : Node = record node { chain = chain } in
      elim sealed [
        | err e ↦ (node', err (internal (chain_error e)))
        | ok none ↦ (node', ok none)
        | ok (some index) ↦ persist disk node' index
      ]

  -- Whether this node may and should seal at once.
  unfoldable pub worth_sealing : NodeIdentity → Blockchain → Bool
  worth_sealing identity chain =
      is_worth_sealing chain
      && (member identity.name chain.authorities
          && is_key (public_key chain identity.name) (crypto.verifying_key identity.signing_key))

  -- The end of `submit`, behind the queueing.
  unfoldable pub seal_if_worth :
      ℕ → Option Str → NodeIdentity → Node → Queued → Node × Result SubmitError Queued
  unfolding worth_sealing seal_pending
  seal_if_worth now disk identity node queued =
      if worth_sealing identity node.chain
      then (let (node', sealed) = seal_pending now disk identity node in
          elim sealed [ ok index ↦ (node', ok queued) | err e ↦ (node', err e) ])
      else (node, ok queued)

  -- No other task takes the lock between the queueing and the sealing.
  unfoldable pub submit :
      ℕ → Option Str → NodeIdentity → Node → Transaction → Node × Result SubmitError Queued
  unfolding seal_if_worth
  submit now disk identity node t =
      if t.sender == mint_account
      then (node, err (rejected mints_value))
      else elim (queue_transaction node.chain t) [
        | err e ↦ (node, err (submit_error e))
        | ok r ↦
            seal_if_worth now disk identity (record node { chain = r.0 })
              (record { id = t.id; pending = pending_count r.0 })
      ]
