-- ===== src/Runtime/Advancing.antt =====
-- The turns of the loop of zion-core/src/bin/node.rs and what interleaves with them keep what a node
-- trusts and has stored.
use mathlib.Core.Option.{some-injective}
use block_rock.Base.{
  ◌∙◌, subst, ℕ, zero, suc, ◌≡◌, inl, inr, refl, sym, ap, Option, some, Option-cases, List, [], ◌∷◌,
  arith,
}
use block_rock.Crypto.{Crypto}
use block_rock.Blockchain.{Blockchain}
use block_rock.Blockchain.Keeping.{Keeps, Keeps-refl, Keeps-same}
use block_rock.Sync.{
  BlockAnnouncement, ChainSnapshot, get_chain, new_block, chain, ack, apply_announcement,
  apply_snapshot,
}
use block_rock.Service.{
  PeerId, SyncEvent, request, response, outbound_failure, inbound_failure, response_sent, Outgoing,
  SyncNode, Store, persist, accept, handle_announcement, handle_snapshot, handle_sync_event,
}
use block_rock.Node.{Node, NodeIdentity}
use block_rock.Propagation
use block_rock.Propagation.{RequestId, TransactionGossip, Swarm, TransactionEvent}
use block_rock.Propagation.Handling.{handle_event}
use block_rock.Runtime.{
  Running, SwarmEvent, discovered, expired, sync, transaction, connection_established,
  connection_closed, other, Wake, gossip_tick, shutdown, swarm_event, announcement, ended, Outside,
  store_of, sync_node, handle_swarm_event, handle_wake, after_wake, turn, rocket, grpc, release,
}
use block_rock.Runtime.Keeping.{
  Stores, Advances, Advances-refl, apply_announcement-Keeps, apply_snapshot-Keeps,
  apply_transaction-Keeps, seal_pending-Advances, submit-Advances, register_account-Advances,
}
use block_rock.Runtime.Life.{LifeStep, turned, submitted, registered, ticked}
use block_rock.Runtime.Turns.{turn_lem, greet-Calm, connect-Calm, after_wake-chain}

accept-Stores :
    (peers : List PeerId) (store : Store) (node : SyncNode) (peer : PeerId) (sent : List Outgoing)
    {r : SyncNode × List Outgoing}
    → accept peers store node peer sent ≡ some r
    → (r.0.chain ≡ node.chain) × Stores node.stored r.0.chain r.0.stored
unfolding accept persist
accept-Stores peers store node peer sent h = ground arith

module _ ⦃crypto : Crypto⦄ (peers : List PeerId) (store : Store) (node : SyncNode) where
  handle_announcement-Stores :
      (peer : PeerId) (a : BlockAnnouncement) {r : SyncNode × List Outgoing}
      → handle_announcement peers store node peer a ≡ some r
      → (r.0.chain ≡ (apply_announcement node.chain a).0) × Stores node.stored r.0.chain r.0.stored
  unfolding handle_announcement
  handle_announcement-Stores peer a {r} h =
      let node' : SyncNode = record node { chain = (apply_announcement node.chain a).0 } in
      ground (arith, accept-Stores peers store node' peer (Outgoing.send_response ack ∷ []) {r = r})

  handle_snapshot-Stores :
      (peer : PeerId) (s : ChainSnapshot) {r : SyncNode × List Outgoing}
      → handle_snapshot peers store node peer s ≡ some r
      → (r.0.chain ≡ (apply_snapshot node.chain s).0) × Stores node.stored r.0.chain r.0.stored
  unfolding handle_snapshot
  handle_snapshot-Stores peer s {r} h =
      let node' : SyncNode = record node { chain = (apply_snapshot node.chain s).0 } in
      ground (arith, accept-Stores peers store node' peer [] {r = r})

  unmoved :
      (sent : List Outgoing) {r : SyncNode × List Outgoing}
      → ◌≡◌ {A = Option (SyncNode × List Outgoing)} (some (node, sent)) (some r)
      → Keeps node.chain r.0.chain × Stores node.stored r.0.chain r.0.stored
  unmoved sent {r} h =
      let e : node ≡ r.0 = ground arith in
      (
        Keeps-same (ap (λ (n : SyncNode). n.chain) (sym e)),
        inl (ap (λ (n : SyncNode). n.stored) (sym e)),
      )

  handle_sync_event-Advances :
      (event : SyncEvent) {r : SyncNode × List Outgoing}
      → handle_sync_event peers store node event ≡ some r
      → Keeps node.chain r.0.chain × Stores node.stored r.0.chain r.0.stored
  unfolding handle_sync_event
  handle_sync_event-Advances (request peer get_chain) {r} h = unmoved _ {r = r} h
  handle_sync_event-Advances (request peer (new_block a)) {r} h =
      let (e, stores) = handle_announcement-Stores peer a {r = r} h in
      (rw e (apply_announcement-Keeps node.chain a), stores)
  handle_sync_event-Advances (response peer (chain s)) {r} h =
      let (e, stores) = handle_snapshot-Stores peer s {r = r} h in
      (rw e (apply_snapshot-Keeps node.chain s), stores)
  handle_sync_event-Advances (response peer ack) {r} h = unmoved _ {r = r} h
  handle_sync_event-Advances (outbound_failure peer) {r} h = unmoved _ {r = r} h
  handle_sync_event-Advances (inbound_failure peer) {r} h = unmoved _ {r = r} h
  handle_sync_event-Advances response_sent {r} h = unmoved _ {r = r} h

moves :
    (node : Node) {t s' : Running}
    → Advances node t.node
    → ◌≡◌ {A = Option Running} (some t) (some s')
    → Advances node s'.node
moves node a e = subst (λ (x : Running). Advances node x.node) (some-injective _ _ e) a

rests : {node node' : Node} → node' ≡ node → Advances node node'
rests {node} e = rw e (Advances-refl node)

module _ ⦃crypto : Crypto⦄ where
  sync-Advances :
      (o : Outside) (event : SyncEvent) (s : Running) {s' : Running}
      → handle_swarm_event o (sync event) s ≡ some s'
      → Advances s.node s'.node
  unfolding handle_swarm_event
  sync-Advances o event s {s'} h =
      elim (Option-cases (handle_sync_event o.peers (store_of o.disk) (sync_node s.node) event)) [
        | inl e ↦ ground (arith, e, h)
        | inr (r, e) ↦
            let (keeps, stores) =
              handle_sync_event-Advances o.peers (store_of o.disk) (sync_node s.node) event {r = r}
                e in
            moves s.node (record { keeps = keeps; stores = stores })
              (rw (e, handle_swarm_event) at h)
      ]

  handle_event-Keeps :
      (now : ℕ) (event : TransactionEvent) (c : Blockchain) (state : TransactionGossip × Swarm)
      → Keeps c (handle_event now event c state).0
  unfolding handle_event
  handle_event-Keeps now (Propagation.request p a) c state = apply_transaction-Keeps c a
  handle_event-Keeps now (Propagation.response p i r) c state = Keeps-refl c
  handle_event-Keeps now (Propagation.outbound_failure p i) c state = Keeps-refl c
  handle_event-Keeps now (Propagation.inbound_failure p) c state = Keeps-refl c
  handle_event-Keeps now Propagation.response_sent c state = Keeps-refl c

  handle_swarm_event-Advances :
      (o : Outside) (e : SwarmEvent) (s : Running) {s' : Running}
      → handle_swarm_event o e s ≡ some s'
      → Advances s.node s'.node
  unfolding handle_swarm_event
  handle_swarm_event-Advances o (discovered peers) s h =
      moves s.node (rests (greet-Calm peers s).node_same) h
  handle_swarm_event-Advances o (expired peers) s h = moves s.node (Advances-refl s.node) h
  handle_swarm_event-Advances o (sync event) s {s'} h = sync-Advances o event s {s' = s'} h
  handle_swarm_event-Advances o (transaction event) s h =
      moves s.node
        (record { keeps = handle_event-Keeps o.now event s.node.chain s.gossip; stores = inl refl })
        h
  handle_swarm_event-Advances o (connection_established peer) s h =
      moves s.node (rests (connect-Calm peer s).node_same) h
  handle_swarm_event-Advances o (connection_closed peer zero) s h =
      moves s.node (Advances-refl s.node) h
  handle_swarm_event-Advances o (connection_closed peer (suc n)) s h =
      moves s.node (Advances-refl s.node) h
  handle_swarm_event-Advances o other s h = moves s.node (Advances-refl s.node) h

  handle_wake-Advances :
      (o : Outside) (w : Wake) (s : Running) {s' : Running}
      → handle_wake o w s ≡ some s'
      → Advances s.node s'.node
  unfolding handle_wake release
  handle_wake-Advances o gossip_tick s h = moves s.node (Advances-refl s.node) h
  handle_wake-Advances o shutdown s h = moves s.node (Advances-refl s.node) h
  handle_wake-Advances o (swarm_event e) s {s'} h = handle_swarm_event-Advances o e s {s' = s'} h
  handle_wake-Advances o (announcement a) s h = moves s.node (Advances-refl s.node) h
  handle_wake-Advances o (ended rocket e) s h = moves s.node (Advances-refl s.node) h
  handle_wake-Advances o (ended grpc e) s h = moves s.node (Advances-refl s.node) h

  module _ (request_id : ℕ → RequestId) (identity : NodeIdentity) where
    turn-Advances :
        (o : Outside) (w : Wake) (s : Running) {s' : Running}
        → turn request_id o w s ≡ some s'
        → Advances s.node s'.node
    turn-Advances o w s {s'} h = elim (Option-cases (handle_wake o w s)) [
      | inl e ↦ ground (arith, e, h, turn_lem request_id o w s)
      | inr (t, e) ↦
          let a = handle_wake-Advances o w s {s' = t} e in
          let (same, _, _) = after_wake-chain request_id o t in
          moves s.node {t = after_wake request_id o t} (rw same a)
            (rw e at (sym (turn_lem request_id o w s) ∙ h))
    ]

    pub LifeStep-Advances :
        {s s' : Running} → LifeStep request_id identity s s' → Advances s.node s'.node
    LifeStep-Advances {s} {s'} (turned o w taken e) = turn-Advances o w s {s' = s'} e
    LifeStep-Advances {s} (submitted now disk t e) =
        rw e (submit-Advances now disk identity s.node t)
    LifeStep-Advances {s} (registered disk r e) = rw e (register_account-Advances disk s.node r)
    LifeStep-Advances {s} (ticked now disk e) =
        rw e (seal_pending-Advances now disk identity s.node)
