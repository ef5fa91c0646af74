-- ===== src/Service.antt =====
-- zion-core/src/network/service.rs: what a node does when a peer talks to it. The swarm of libp2p is
-- not modelled: its connected peers are an argument, and what it is told to send is returned. The
-- result `none` stands for the panic of `unwrap`.
pub mod Handling
use block_rock.Base.{
  Bool, true, false, Option, none, some, List, [], ◌∷◌, Bytes, Str, ◌==◌, if◌then◌else◌, and_then,
  Result, ok, err, last?,
}
use block_rock.Crypto.{Crypto}
use block_rock.Block.{Block}
use block_rock.ChainError.{ChainError}
use block_rock.Blockchain.{Blockchain}
use block_rock.Sync.{
  BlockAnnouncement, ChainSnapshot, SyncRequest, get_chain, new_block, SyncResponse, chain, ack,
  BlockOutcome, appended, known, out_of_order, snapshot_of, announcement_of, apply_announcement,
  apply_snapshot,
}

-- `PeerId` by its bytes
abbrev pub PeerId : Type 0
PeerId = Bytes

pub data SyncEvent : Type 0 where
  request : PeerId → SyncRequest → SyncEvent
  response : PeerId → SyncResponse → SyncEvent
  outbound_failure inbound_failure : PeerId → SyncEvent
  response_sent : SyncEvent

-- `send_response` on the channel of the request, and `send_request`
pub data Outgoing : Type 0 where
  send_response : SyncResponse → Outgoing
  send_request : PeerId → SyncRequest → Outgoing

pub record SyncNode : Type 0 where
  pub chain : Blockchain
  pub stored : Option Blockchain

-- The store of a node, if it has one, and whether writing to it fails.
pub data Store : Type 0 where
  in_memory working failing : Store

unfoldable pub persist : Store → SyncNode → SyncNode
persist in_memory node = node
persist working node = record node { stored = some node.chain }
persist failing node = node

-- The requests to all peers but the one that the block came from.
unfoldable pub relay : List PeerId → PeerId → BlockAnnouncement → List Outgoing → List Outgoing
relay [] peer announcement sent = sent
relay (target ∷ peers) peer announcement sent =
    let rest = relay peers peer announcement sent in
    if target == peer then rest else send_request target (new_block announcement) ∷ rest

-- Saves a chain that has a new tip, and relays that.
unfoldable pub accept :
    List PeerId → Store → SyncNode → PeerId → List Outgoing → Option (SyncNode × List Outgoing)
unfolding persist relay
accept peers store node peer sent =
    and_then (last? node.chain.blocks)
      λ tip. some (persist store node, relay peers peer (announcement_of node.chain tip) sent)

module _ ⦃crypto : Crypto⦄ where
  unfoldable pub handle_announcement :
      List PeerId
      → Store
      → SyncNode
      → PeerId
      → BlockAnnouncement
      → Option (SyncNode × List Outgoing)
  unfolding accept
  handle_announcement peers store node peer a =
      let (c, outcome) = apply_announcement node.chain a in
      let node' : SyncNode = record node { chain = c } in
      elim outcome [
        | ok appended ↦ accept peers store node' peer (send_response ack ∷ [])
        | ok known ↦ some (node', send_response ack ∷ [])
        | ok out_of_order ↦ some (node', send_response ack ∷ send_request peer get_chain ∷ [])
        | err e ↦ some (node', send_response ack ∷ [])
      ]

  unfoldable pub handle_snapshot :
      List PeerId → Store → SyncNode → PeerId → ChainSnapshot → Option (SyncNode × List Outgoing)
  unfolding accept
  handle_snapshot peers store node peer s =
      let (c, outcome) = apply_snapshot node.chain s in
      let node' : SyncNode = record node { chain = c } in
      elim outcome [
        | ok true ↦ accept peers store node' peer []
        | ok false ↦ some (node', [])
        | err e ↦ some (node', [])
      ]

  unfoldable pub handle_sync_event :
      List PeerId → Store → SyncNode → SyncEvent → Option (SyncNode × List Outgoing)
  unfolding handle_announcement handle_snapshot
  handle_sync_event peers store node (request peer get_chain) =
      some (node, send_response (chain (snapshot_of node.chain)) ∷ [])
  handle_sync_event peers store node (request peer (new_block a)) =
      handle_announcement peers store node peer a
  handle_sync_event peers store node (response peer (chain s)) =
      handle_snapshot peers store node peer s
  handle_sync_event peers store node (response peer ack) = some (node, [])
  handle_sync_event peers store node (outbound_failure peer) = some (node, [])
  handle_sync_event peers store node (inbound_failure peer) = some (node, [])
  handle_sync_event peers store node response_sent = some (node, [])
