-- ===== src/Runtime/Turns.antt =====
-- What a turn of the loop of zion-core/src/bin/node.rs does to the chain and to the servers.
use block_rock.Base.{
  ℕ, zero, suc, ◌≡◌, inl, inr, refl, ◌∙◌, Bool, true, false, not, ◌&&◌, Bool-cases, Option, some,
  and_then, List, [], ◌∷◌, member, set_insert, arith,
}
use block_rock.Crypto.{Crypto}
use block_rock.Blockchain.{Blockchain}
use block_rock.Blockchain.Consistent.{Consistent}
use block_rock.Gossip.Admission.{apply_transaction-Consistent}
use block_rock.Service.{PeerId, send_request}
use block_rock.Service.Handling.{handle_sync_event-Consistent}
use block_rock.Sync.{get_chain}
use block_rock.Propagation
use block_rock.Propagation.{RequestId, TransactionGossip, Swarm, TransactionEvent}
use block_rock.Propagation.Handling.{handle_event}
use block_rock.Runtime.{
  Server, rocket, grpc, Running, SwarmEvent, discovered, expired, sync, transaction,
  connection_established, connection_closed, other, Wake, gossip_tick, shutdown, swarm_event,
  announcement, ended, Outside, greet, connect, release, store_of, sync_node, take_sync,
  handle_swarm_event, handle_wake, after_wake, turn, poll,
}

-- A step that concerns neither the chain nor the servers.
pub record Calm (s s' : Running) : Type 0 where
  pub node_same : s'.node ≡ s.node
  pub rocket_same : s'.rocket_held ≡ s.rocket_held
  pub grpc_same : s'.grpc_held ≡ s.grpc_held
  pub stopping_same : s'.stopping ≡ s.stopping
  pub failure_same : s'.failure ≡ s.failure

Calm-refl : (s : Running) → Calm s s
Calm-refl s = record {
  node_same = refl;
  rocket_same = refl;
  grpc_same = refl;
  stopping_same = refl;
  failure_same = refl;
}

Calm-trans : {s t u : Running} → Calm s t → Calm t u → Calm s u
Calm-trans a b = record {
  node_same = b.node_same ∙ a.node_same;
  rocket_same = b.rocket_same ∙ a.rocket_same;
  grpc_same = b.grpc_same ∙ a.grpc_same;
  stopping_same = b.stopping_same ∙ a.stopping_same;
  failure_same = b.failure_same ∙ a.failure_same;
}

pub greet-Calm : (peers : List PeerId) (s : Running) → Calm s (greet peers s)
unfolding greet
greet-Calm [] s = Calm-refl s
greet-Calm (p ∷ ps) s = elim (Bool-cases (member p s.greeted)) [
  | inl known ↦ rw (known, greet) (greet-Calm ps s)
  | inr fresh ↦
      let s' : Running = record s {
        greeted = set_insert p s.greeted;
        sent = send_request p get_chain ∷ s.sent;
      } in
      let first : Calm s s' = record {
        node_same = refl;
        rocket_same = refl;
        grpc_same = refl;
        stopping_same = refl;
        failure_same = refl;
      } in
      rw (fresh, greet) (Calm-trans first (greet-Calm ps s'))
]

pub connect-Calm : (peer : PeerId) (s : Running) → Calm s (connect peer s)
unfolding connect
connect-Calm peer s = elim (Bool-cases (member peer s.connected)) [
  | inl known ↦ rw (known, connect) (Calm-refl s)
  | inr fresh ↦
      rw (fresh, connect)
        (record {
          node_same = refl;
          rocket_same = refl;
          grpc_same = refl;
          stopping_same = refl;
          failure_same = refl;
        })
]

module _ ⦃crypto : Crypto⦄ where
  handle_event-Consistent :
      (now : ℕ) (event : TransactionEvent) (chain : Blockchain) (state : TransactionGossip × Swarm)
      → Consistent chain
      → Consistent (handle_event now event chain state).0
  unfolding handle_event
  handle_event-Consistent now (Propagation.request p a) chain state v =
      apply_transaction-Consistent chain a v
  handle_event-Consistent now (Propagation.response p i r) chain state v = v
  handle_event-Consistent now (Propagation.outbound_failure p i) chain state v = v
  handle_event-Consistent now (Propagation.inbound_failure p) chain state v = v
  handle_event-Consistent now Propagation.response_sent chain state v = v

-- Whether the end of a server is what wakes the loop.
unfoldable pub ends : Server → Wake → Bool
ends server gossip_tick = false
ends server shutdown = false
ends server (swarm_event e) = false
ends server (announcement a) = false
ends rocket (ended rocket e) = true
ends rocket (ended grpc e) = false
ends grpc (ended rocket e) = false
ends grpc (ended grpc e) = true

-- What is left of the servers: a turn that is about neither leaves both.
pub record Quiet ⦃crypto : Crypto⦄ (s : Running) (o : Option Running) : Type 0 where
  pub after : Running
  pub done : o ≡ some after
  pub consistent : Consistent after.node.chain
  pub rocket_same : after.rocket_held ≡ s.rocket_held
  pub grpc_same : after.grpc_held ≡ s.grpc_held
  pub stopping_same : after.stopping ≡ s.stopping
  pub failure_same : after.failure ≡ s.failure

-- The outcome of a turn.
pub record Turned ⦃crypto : Crypto⦄ (s : Running) (w : Wake) (o : Option Running) : Type 0 where
  pub after : Running
  pub done : o ≡ some after
  pub consistent : Consistent after.node.chain
  pub rocket_after : after.rocket_held ≡ s.rocket_held && not (ends rocket w)
  pub grpc_after : after.grpc_held ≡ s.grpc_held && not (ends grpc w)

and_true : (b : Bool) → b ≡ b && true
and_true true = refl
and_true false = refl

and_false : (b : Bool) → false ≡ b && false
and_false true = refl
and_false false = refl

module _ ⦃crypto : Crypto⦄ where
  Calm-Quiet : {s s' : Running} → Consistent s.node.chain → Calm s s' → Quiet s (some s')
  Calm-Quiet {s} {s'} v q = record {
    after = s';
    done = refl;
    consistent = rw q.node_same v;
    rocket_same = q.rocket_same;
    grpc_same = q.grpc_same;
    stopping_same = q.stopping_same;
    failure_same = q.failure_same;
  }

  pub handle_swarm_event-Quiet :
      (o : Outside) (e : SwarmEvent) (s : Running)
      → Consistent s.node.chain
      → Quiet s (handle_swarm_event o e s)
  unfolding handle_swarm_event
  handle_swarm_event-Quiet o (discovered peers) s v = Calm-Quiet v (greet-Calm peers s)
  handle_swarm_event-Quiet o (expired peers) s v = record {
    after = _;
    done = refl;
    consistent = v;
    rocket_same = refl;
    grpc_same = refl;
    stopping_same = refl;
    failure_same = refl;
  }
  handle_swarm_event-Quiet o (sync event) s v =
      let (after, sent, e, c, w) =
        handle_sync_event-Consistent o.peers (store_of o.disk) (sync_node s.node) event v in
      record {
        after = take_sync s (after, sent);
        done = rw e refl;
        consistent = c;
        rocket_same = refl;
        grpc_same = refl;
        stopping_same = refl;
        failure_same = refl;
      }
  handle_swarm_event-Quiet o (transaction event) s v = record {
    after = _;
    done = refl;
    consistent = handle_event-Consistent o.now event s.node.chain s.gossip v;
    rocket_same = refl;
    grpc_same = refl;
    stopping_same = refl;
    failure_same = refl;
  }
  handle_swarm_event-Quiet o (connection_established peer) s v = Calm-Quiet v (connect-Calm peer s)
  handle_swarm_event-Quiet o (connection_closed peer zero) s v = record {
    after = _;
    done = refl;
    consistent = v;
    rocket_same = refl;
    grpc_same = refl;
    stopping_same = refl;
    failure_same = refl;
  }
  handle_swarm_event-Quiet o (connection_closed peer (suc n)) s v = Calm-Quiet v (Calm-refl s)
  handle_swarm_event-Quiet o other s v = Calm-Quiet v (Calm-refl s)

  handle_wake-Turned :
      (o : Outside) (w : Wake) (s : Running)
      → Consistent s.node.chain
      → Turned s w (handle_wake o w s)
  unfolding handle_wake ends release
  handle_wake-Turned o gossip_tick s v = record {
    after = s;
    done = refl;
    consistent = v;
    rocket_after = and_true s.rocket_held;
    grpc_after = and_true s.grpc_held;
  }
  handle_wake-Turned o shutdown s v = record {
    after = _;
    done = refl;
    consistent = v;
    rocket_after = and_true s.rocket_held;
    grpc_after = and_true s.grpc_held;
  }
  handle_wake-Turned o (swarm_event e) s v =
      let q = handle_swarm_event-Quiet o e s v in
      record {
        after = q.after;
        done = q.done;
        consistent = q.consistent;
        rocket_after = q.rocket_same ∙ and_true s.rocket_held;
        grpc_after = q.grpc_same ∙ and_true s.grpc_held;
      }
  handle_wake-Turned o (announcement a) s v = record {
    after = _;
    done = refl;
    consistent = v;
    rocket_after = and_true s.rocket_held;
    grpc_after = and_true s.grpc_held;
  }
  handle_wake-Turned o (ended rocket e) s v = record {
    after = _;
    done = refl;
    consistent = v;
    rocket_after = and_false s.rocket_held;
    grpc_after = and_true s.grpc_held;
  }
  handle_wake-Turned o (ended grpc e) s v = record {
    after = _;
    done = refl;
    consistent = v;
    rocket_after = and_true s.rocket_held;
    grpc_after = and_false s.grpc_held;
  }

  module _ (request_id : ℕ → RequestId) where
    pub after_wake-chain :
        (o : Outside) (s : Running)
        → ((after_wake request_id o s).node ≡ s.node)
          × ((after_wake request_id o s).rocket_held ≡ s.rocket_held)
          × ((after_wake request_id o s).grpc_held ≡ s.grpc_held)
    unfolding after_wake
    after_wake-chain o s = ground arith

    pub poll-some : (server : Server) (s : Running) → poll server s ≡ some tt
    unfolding poll
    poll-some rocket s = ground arith
    poll-some grpc s = ground arith

    pub turn_lem :
        (o : Outside) (w : Wake) (s : Running)
        → turn request_id o w s
          ≡ and_then (handle_wake o w s) (λ s'. some (after_wake request_id o s'))
    unfolding turn
    turn_lem o w s = rw (poll-some rocket s, turn) (rw (poll-some grpc s, turn) refl)

    pub turn-Turned :
        (o : Outside) (w : Wake) (s : Running)
        → Consistent s.node.chain
        → Turned s w (turn request_id o w s)
    unfolding turn
    turn-Turned o w s v =
        let t = handle_wake-Turned o w s v in
        let (n, r, g) = after_wake-chain o t.after in
        record {
          after = after_wake request_id o t.after;
          done = turn_lem o w s ∙ rw t.done refl;
          consistent = rw n t.consistent;
          rocket_after = r ∙ t.rocket_after;
          grpc_after = g ∙ t.grpc_after;
        }
