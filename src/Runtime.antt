-- ===== src/Runtime.antt =====
-- zion-core/src/bin/node.rs: the start of a node, the loop that serves its peers until both of its
-- servers have ended, and its shutdown. What happens outside comes in as the branch of `select!` that
-- is taken; the interfaces and the tick work on the same chain between two turns of the loop.
pub mod Turns
pub mod Ends
pub mod Life
pub mod Boot
pub mod Halt
pub mod Keeping
pub mod Advancing
pub mod Recovery
pub mod Lockout
pub mod Program
use block_rock.Base.{
  ℕ, zero, suc, Bool, true, false, not, ◌&&◌, Option, none, some, List, [], ◌∷◌, Str, ◌==◌,
  if◌then◌else◌, and_then, ◌++◌, member, set_insert,
}
use block_rock.Crypto.{Crypto}
use block_rock.Ledger.{Keys}
use block_rock.Blockchain
use block_rock.Blockchain.{Blockchain, register_authority, validate_chain}
use block_rock.Node.{NodeIdentity, Node, seal_pending}
use block_rock.Sync.{BlockAnnouncement, get_chain, new_block}
use block_rock.Service.{
  PeerId, SyncEvent, SyncNode, Outgoing, send_request, Store, working, failing, handle_sync_event,
}
use block_rock.Propagation.{RequestId, TransactionGossip, idle, Swarm, TransactionEvent, drive}
use block_rock.Propagation.Handling.{handle_event}

-- `load_or_create` of zion-core/src/storage.rs: what the file of the chain holds.
pub data Loaded : Type 0 where
  absent unreadable : Loaded
  present : Blockchain → Loaded

pub data Server : Type 0 where
  rocket grpc : Server

-- How the task of a server ends: as it should, with an error of the server, or by a panic.
pub data Ending : Type 0 where
  finished : Ending
  server_error task_error : Str → Ending

-- The messages that `record_failure` keeps.
pub data Trouble : Type 0 where
  of_server of_task : Server → Str → Trouble

pub record Running : Type 0 where
  pub node : Node
  pub connected : List PeerId
  pub greeted : List PeerId
  pub gossip : TransactionGossip × Swarm
  -- What was sent on the protocol of the blocks, the latest first.
  pub sent : List Outgoing
  -- Whether the handle of a server is still held, and whether it was told to stop.
  pub rocket_held : Bool
  pub grpc_held : Bool
  pub rocket_told : Bool
  pub grpc_told : Bool
  pub stopping : Bool
  pub failure : Option Trouble

pub data SwarmEvent : Type 0 where
  discovered expired : List PeerId → SwarmEvent
  sync : SyncEvent → SwarmEvent
  transaction : TransactionEvent → SwarmEvent
  connection_established : PeerId → SwarmEvent
  connection_closed : PeerId → ℕ → SwarmEvent
  other : SwarmEvent

-- The branches of `select!`.
pub data Wake : Type 0 where
  gossip_tick shutdown : Wake
  swarm_event : SwarmEvent → Wake
  announcement : BlockAnnouncement → Wake
  ended : Server → Ending → Wake

-- The clock in milliseconds, the error of the disk, if it has one, and the peers of the swarm.
pub record Outside : Type 0 where
  pub now : ℕ
  pub disk : Option Str
  pub peers : List PeerId

-- The state before the loop.
unfoldable pub started : Node → ℕ → Running
started node requests = record {
  node = node;
  connected = [];
  greeted = [];
  gossip = (idle, record { requests = requests; sent = [] });
  sent = [];
  rocket_held = true;
  grpc_held = true;
  rocket_told = false;
  grpc_told = false;
  stopping = false;
  failure = none;
}

-- `HashSet::remove`
unfoldable pub set_remove : PeerId → List PeerId → List PeerId
set_remove peer [] = []
set_remove peer (p ∷ ps) = let rest = set_remove peer ps in if p == peer then rest else p ∷ rest

unfoldable pub greet : List PeerId → Running → Running
greet [] s = s
greet (peer ∷ peers) s =
    if member peer s.greeted
    then greet peers s
    else greet peers (record s {
      greeted = set_insert peer s.greeted;
      sent = send_request peer get_chain ∷ s.sent;
    })

unfoldable pub forget_all : List PeerId → List PeerId → List PeerId
unfolding set_remove
forget_all [] greeted = greeted
forget_all (peer ∷ peers) greeted = forget_all peers (set_remove peer greeted)

unfoldable pub connect : PeerId → Running → Running
connect peer s = if member peer s.connected then s else record s {
  connected = set_insert peer s.connected;
  sent = send_request peer get_chain ∷ s.sent;
}

unfoldable pub announce_to : List PeerId → BlockAnnouncement → List Outgoing → List Outgoing
announce_to [] a sent = sent
announce_to (peer ∷ peers) a sent = announce_to peers a (send_request peer (new_block a) ∷ sent)

-- `slot.get_or_insert(message)`
unfoldable pub record_failure : Option Trouble → Trouble → Option Trouble
record_failure none message = some message
record_failure (some first) message = some first

unfoldable pub note_ending : Server → Ending → Option Trouble → Option Trouble
unfolding record_failure
note_ending server finished slot = slot
note_ending server (server_error e) slot = record_failure slot (of_server server e)
note_ending server (task_error e) slot = record_failure slot (of_task server e)

unfoldable pub release : Server → Running → Running
release rocket s = record s { rocket_held = false }
release grpc s = record s { grpc_held = false }

-- Whether the handle of a server is there: `is_some()` of it.
abbrev pub is_held : Server → Running → Bool
is_held rocket s = s.rocket_held
is_held grpc s = s.grpc_held

-- The precondition of the branch that waits for a server.
unfoldable pub waits_for : Server → Running → Bool
waits_for rocket s = is_held rocket s
waits_for grpc s = is_held grpc s

-- `as_mut().unwrap()` of the handle of a server: `none` where it panics.
unfoldable pub unwrap_handle : Server → Running → Option {0} Unit
unwrap_handle server s = if is_held server s then some tt else none

-- `select!` polls the branch of a server if its precondition holds: `none` where that panics.
unfoldable pub poll : Server → Running → Option {0} Unit
unfolding waits_for unwrap_handle
poll server s = if waits_for server s then unwrap_handle server s else some tt

-- The preconditions of the branches.
unfoldable pub enabled : Wake → Running → Bool
unfolding waits_for
enabled gossip_tick s = not s.stopping
enabled shutdown s = not s.stopping
enabled (swarm_event e) s = true
enabled (announcement a) s = true
enabled (ended server e) s = waits_for server s

-- `if rocket_handle.is_none() && grpc_handle.is_none()`
abbrev pub is_over : Running → Bool
is_over s = not s.rocket_held && not s.grpc_held

abbrev store_of : Option Str → Store
store_of none = working
store_of (some error) = failing

abbrev pub sync_node : Node → SyncNode
sync_node node = record { chain = node.chain; stored = node.stored }

-- What `handle_sync_event` leaves behind.
abbrev pub take_sync : Running → SyncNode × List Outgoing → Running
take_sync s r = record s {
  node = record (s.node) { chain = r.0.chain; stored = r.0.stored };
  sent = r.1 ++ s.sent;
}

module _ ⦃crypto : Crypto⦄ where
  unfoldable pub handle_swarm_event : Outside → SwarmEvent → Running → Option Running
  unfolding greet forget_all connect
  handle_swarm_event o (discovered peers) s = some (greet peers s)
  handle_swarm_event o (expired peers) s = some (record s { greeted = forget_all peers s.greeted })
  handle_swarm_event o (sync event) s =
      and_then (handle_sync_event o.peers (store_of o.disk) (sync_node s.node) event)
        λ r. some (take_sync s r)
  handle_swarm_event o (transaction event) s =
      let (chain, gossip) = handle_event o.now event s.node.chain s.gossip in
      some (record s { node = record (s.node) { chain = chain }; gossip = gossip })
  handle_swarm_event o (connection_established peer) s = some (connect peer s)
  handle_swarm_event o (connection_closed peer zero) s =
      some (record s { connected = set_remove peer s.connected })
  handle_swarm_event o (connection_closed peer (suc n)) s = some s
  handle_swarm_event o other s = some s

  unfoldable pub handle_wake : Outside → Wake → Running → Option Running
  unfolding handle_swarm_event announce_to note_ending release
  handle_wake o gossip_tick s = some s
  handle_wake o shutdown s = some (record s { stopping = true })
  handle_wake o (swarm_event e) s = handle_swarm_event o e s
  handle_wake o (announcement a) s = some (record s { sent = announce_to s.connected a s.sent })
  handle_wake o (ended server e) s =
      some (record (release server s) { failure = note_ending server e s.failure; stopping = true })

  module _ (request_id : ℕ → RequestId) where
    -- The rest of a turn: the offers to the peers, or the end of the servers.
    unfoldable pub after_wake : Outside → Running → Running
    after_wake o s =
        if s.stopping
        then record s { rocket_told = true; grpc_told = true }
        else record s { gossip = drive request_id o.now s.node.chain s.connected s.gossip }

    -- A turn, on the branch that is taken. `select!` has polled the branches of both servers before it:
    -- it may poll them in any order, and polls all while none is ready.
    unfoldable pub turn : Outside → Wake → Running → Option Running
    unfolding poll handle_wake after_wake
    turn o w s =
        and_then (poll rocket s)
          λ _. and_then (poll grpc s) λ _. and_then (handle_wake o w s) λ s'. some (after_wake o s')

    -- The loop, on what wakes it. A branch that is disabled is not taken.
    unfoldable pub run : List (Outside × Wake) → Running → Option Running
    unfolding turn enabled
    run [] s = some s
    run ((o, w) ∷ wakes) s = elim (is_over s) [
      | true ↦ some s
      | false ↦ elim (enabled w s) [
        | true ↦ and_then (turn o w s) (λ s'. run wakes s')
        | false ↦ run wakes s
      ]
    ]

  -- From the start to the lock on the chain: `none` where the program ends with an error.
  unfoldable pub load_or_create : NodeIdentity → Keys → Loaded → Option Blockchain
  load_or_create identity initial_authorities absent =
      some (Blockchain.new identity.name initial_authorities)
  load_or_create identity initial_authorities unreadable = none
  load_or_create identity initial_authorities (present chain) = some chain

  unfoldable pub register_if_authority : NodeIdentity → Blockchain → Blockchain
  register_if_authority identity chain =
      if member identity.name chain.authorities
      then register_authority chain identity.name (crypto.verifying_key identity.signing_key)
      else chain

  unfoldable pub save_at_start : Option Str → Blockchain → Option Node
  save_at_start (some error) chain = none
  save_at_start none chain = some (record { chain = chain; stored = some chain; announced = [] })

  unfoldable pub start_node : Option Str → NodeIdentity → Keys → Loaded → Option Node
  unfolding load_or_create register_if_authority save_at_start
  start_node disk identity initial_authorities loaded =
      and_then (load_or_create identity initial_authorities loaded) λ chain.
        let c = register_if_authority identity chain in
        if validate_chain c then save_at_start disk c else none

  -- Behind the loop: the last seal, and the failure that the program returns.
  unfoldable pub stop_node : ℕ → Option Str → NodeIdentity → Bool → Running → Node × Option Trouble
  stop_node now disk identity is_authority s =
      if is_authority
      then ((seal_pending now disk identity s.node).0, s.failure)
      else (s.node, s.failure)
