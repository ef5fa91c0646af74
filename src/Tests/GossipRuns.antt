-- ===== src/Tests/GossipRuns.antt =====
-- Runs of a node's offers of its pending transactions to its peers.
use mathlib.Core.Option.{some-injective}
use block_rock.Propagation.Serving.{Unique, AllSettled}
use block_rock.Propagation.Serving.Reach.{drive-serves}
use block_rock.Blockchain.{genesis_hash}
use block_rock.Base.{
  Option, none, some, ap, ◌⊎◌, arith, member, true, Bytes-discrete, ℕ, [], ◌∷◌, ◌≤◌, refl, length,
  codes, List, All, values, ◌++◌, ◌≡◌,
}
use block_rock.Ledger.Distinct.{Distinct}
use block_rock.Propagation.{
  RequestId, TransactionGossip, Swarm, idle, drive, requests_to, senders_of,
}
use block_rock.Propagation.Bounds.{GossipReach, driven, GossipReach-Seats}
use block_rock.Mempool.{sort}
use block_rock.Propagation.{Sent}
use block_rock.Propagation.InOrder.{InOrder, drive-InOrder}
use block_rock.Tests.Sample.{toy, queued}
use block_rock.Tests.Sample
use block_rock.Tests.ChainRuns.{queued-frame}
use block_rock.Tests.NetworkRuns.{genesis_first}
use block_rock.Block

abbrev counted : ℕ → RequestId
counted n = n ∷ []

-- A node with one pending transaction and one peer.
unfoldable after_drive : TransactionGossip × Swarm
unfolding drive
after_drive = drive counted 0 queued (codes "p" ∷ []) (idle, record { requests = 0; sent = [] })

GossipReach-Seats_example :
    (length (requests_to (codes "p") after_drive.0.in_flight) ≤ 16)
    × Distinct (senders_of (requests_to (codes "p") after_drive.0.in_flight))
unfolding after_drive
GossipReach-Seats_example =
    GossipReach-Seats ⦃crypto = toy⦄ counted 0 [] (codes "p")
      (GossipReach.next GossipReach.here (driven 0 queued (codes "p" ∷ []) refl))

drive-InOrder_example :
    (new : List Sent) × (after_drive.1.sent ≡ new ++ [])
    × All (InOrder (sort (values queued.mempool.pending)) after_drive.0.known) new
unfolding after_drive
drive-InOrder_example =
    drive-InOrder counted 0 queued (codes "p" ∷ []) (idle, record { requests = 0; sent = [] })

counted-Unique : Unique counted
counted-Unique m n e = omega (arith, some-injective _ _ (ap first_count e))
  where
    first_count : List ℕ → Option ℕ
    first_count [] = none
    first_count (c ∷ cs) = some c

queued_genesis :
    genesis_hash queued ≡ some (Block.with_timestamp 0 [] (codes "0") Sample.node 0).hash
unfolding genesis_hash
queued_genesis = rw queued-frame (rw genesis_first refl)

peer_connected : member (codes "p") (codes "p" ∷ []) ≡ true
unfolding member Bytes-discrete
peer_connected = refl

drive-serves_example :
    (length (requests_to (codes "p") after_drive.0.in_flight) ≡ 16)
    ⊎ AllSettled 0 queued (codes "p") after_drive.0 [] (sort (values queued.mempool.pending))
unfolding after_drive
drive-serves_example =
    drive-serves ⦃crypto = toy⦄ counted counted-Unique 0 [] 0 queued (codes "p" ∷ []) (codes "p")
      GossipReach.here queued_genesis peer_connected
