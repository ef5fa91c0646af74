-- ===== src/Tests/NetworkRuns.antt =====
-- Runs of the synchronisation.
use block_rock.Base.{
  Str, List, ◌≡◌, ◌≢◌, ◌<◌, ◌⊎◌, refl, ok, none, some, [], ◌∷◌, ◌++◌, codes, get, length, insert,
  true, false, member, first?, Bytes-discrete, set_insert,
}
use block_rock.Block
use block_rock.Block.{Block}
use block_rock.Blockchain
use block_rock.Blockchain.{Blockchain, add_public_key}
use block_rock.Blockchain.Consistent.{Consistent}
use block_rock.Ledger.Trust.{Extends, Includes}
use block_rock.Sync.{BlockAnnouncement, ChainSnapshot, appended, apply_announcement, apply_snapshot}
use block_rock.Sync.{SyncResponse}
use block_rock.Service.{SyncNode, SyncEvent, Outgoing, Store, handle_sync_event}
use block_rock.Service.Handling.{handle_sync_event-Consistent}
use block_rock.Sync.Keys.{IsSender}
use block_rock.Sync.Announcement.{apply_announcement_lem}
use block_rock.Sync.Snapshot.{apply_snapshot_lem}
use block_rock.Sync.Promotion.{promotion, apply_snapshot-promotion}
use block_rock.Tests.Sample.{
  toy, toy-SignsVerifiably, alice, node, bob, start, genesis, payment, first_block,
}
use block_rock.Tests.ChainRuns.{start-Consistent}

-- A block of Alice's payment that `Node1` announces, with Bob's key beside it.
abbrev announced : BlockAnnouncement
announced = record {
  block = Block.sealed 7 1 (payment ∷ []) (codes "previous") node (codes "n");
  accounts = (bob, codes "b") ∷ [];
}

abbrev longer : ChainSnapshot
longer = record {
  blocks = start.blocks ++ first_block ∷ [];
  accounts = (bob, codes "b") ∷ [];
  authorities = bob ∷ [];
}

apply_announcement_lem_example :
    (((apply_announcement start announced).0 ≡ start)
      × ((apply_announcement start announced).1 ≢ ok appended))
    ⊎ (((apply_announcement start announced).1 ≡ ok appended)
        × ((apply_announcement start announced).0.blocks ≡ start.blocks ++ announced.block ∷ [])
        × ((apply_announcement start announced).0.authorities ≡ start.authorities)
        × ((name : Str)
            → (get name (apply_announcement start announced).0.public_keys
                ≡ get name start.public_keys)
              ⊎ IsSender name announced.block.transactions
                × (get name start.public_keys ≡ none)
                × (get name (apply_announcement start announced).0.public_keys
                    ≡ get name announced.accounts)))
apply_announcement_lem_example = apply_announcement_lem start announced

apply_snapshot_lem_example :
    (((apply_snapshot start longer).0 ≡ start) × ((apply_snapshot start longer).1 ≢ ok true))
    ⊎ (((apply_snapshot start longer).1 ≡ ok true)
        × (length start.blocks < length (apply_snapshot start longer).0.blocks)
        × ((apply_snapshot start longer).0.blocks ≡ longer.blocks)
        × Extends start.public_keys (apply_snapshot start longer).0.public_keys
        × Includes start.authorities (apply_snapshot start longer).0.authorities)
apply_snapshot_lem_example = apply_snapshot_lem start longer

pub genesis_first : first? start.blocks ≡ some (Block.with_timestamp 0 [] (codes "0") node 0)
unfolding start genesis add_public_key Blockchain.new
genesis_first = refl

pub bob_unknown : get bob start.public_keys ≡ none
unfolding start genesis add_public_key Blockchain.new insert get Block.with_timestamp Bytes-discrete
bob_unknown = refl

pub bob_unlisted : member bob start.authorities ≡ false
unfolding start genesis add_public_key Blockchain.new insert member set_insert Block.with_timestamp
    Bytes-discrete
bob_unlisted = refl

apply_snapshot-promotion_example :
    ((apply_snapshot start (promotion 7 start bob (codes "b"))).1 ≡ ok true)
    × (member bob (apply_snapshot start (promotion 7 start bob (codes "b"))).0.authorities ≡ true)
    × (get bob (apply_snapshot start (promotion 7 start bob (codes "b"))).0.public_keys
        ≡ some (toy.verifying_key (codes "b")))
apply_snapshot-promotion_example =
    apply_snapshot-promotion 7 start bob (codes "b") (Block.with_timestamp 0 [] (codes "0") node 0)
      toy-SignsVerifiably start-Consistent genesis_first bob_unknown bob_unlisted

-- A node with a working store, which has two peers.
abbrev sync_node : SyncNode
sync_node = record { chain = start; stored = none }

handle_sync_event-Consistent_example :
    (after : SyncNode) × (sent : List Outgoing) × (handle_sync_event
        (alice ∷ bob ∷ [])
        Store.working
        sync_node
        (SyncEvent.response alice (SyncResponse.chain (promotion 7 start bob (codes "b"))))
      ≡ some (after, sent))
    × Consistent after.chain
    × ((after.chain ≡ sync_node.chain)
        ⊎ (Store.working ≢ Store.working)
        ⊎ (after.stored ≡ some after.chain))
handle_sync_event-Consistent_example =
    handle_sync_event-Consistent (alice ∷ bob ∷ []) Store.working sync_node
      (SyncEvent.response alice (SyncResponse.chain (promotion 7 start bob (codes "b"))))
      start-Consistent
