-- ===== src/Tests/RuntimeRuns.antt =====
-- Runs of a node as a whole: its start, its loop, the interfaces beside it, and its end.
use mathlib.Core.Option.{some-injective}
use block_rock.Base.{
  subst, set_insert, ap, Option, ◌<◌, false, ok, Str, length, u32_mod, ==-eq-false, ◌≡◌, ◌&&◌, refl,
  ℕ, true, none, some, List, [], ◌∷◌, codes, Bytes-discrete, member, to_le_bytes, arith,
}
use block_rock.Block
use block_rock.Ledger.{replay_from, verify_block, apply_transactions}
use block_rock.Ledger.Valid.{settled_chain, settled_all}
use block_rock.Blockchain
use block_rock.Blockchain.{
  Blockchain, add_public_key, public_key, current_state, register_authority, validate_chain,
}
use block_rock.Blockchain.Consistent.{Consistent}
use block_rock.Blockchain.Sealing.{Sealed}
use block_rock.Node.{Node, NodeIdentity, submit}
use block_rock.Propagation.{RequestId}
use block_rock.Runtime.{
  rocket, grpc, finished, server_error, Running, Wake, gossip_tick, shutdown, ended, Outside,
  unreadable, Loaded, started, is_over, run, absent, present, start_node, stop_node,
  register_if_authority, load_or_create, save_at_start,
}
use block_rock.Runtime.Ends.{ended_in, run-ends}
use block_rock.Runtime.Life.{begins, goes_on, submitted, Orderly, Life-Sound}
use block_rock.Runtime.Boot.{OwnsName, Recorded, start_node-Consistent}
use block_rock.Runtime.Halt.{stop_node_seals}
use block_rock.Tests.Sample.{toy, toy-SignsVerifiably, node, bob, payment, queued, start, genesis}
use block_rock.Tests.NetworkRuns.{genesis_first, bob_unknown, bob_unlisted}
use block_rock.Runtime.Lockout.{apply_snapshot-locks_out}
use block_rock.Sync.{apply_snapshot}
use block_rock.Sync.Promotion.{promotion}
use block_rock.Mempool
use block_rock.Tests.ChainRuns.{
  start-Consistent, queued_in_order, queued_pending, queued_nonces, queued_total, queued-CanSeal,
}
use block_rock.Tests.NodeRuns.{fresh_node, identity}

abbrev counted : ℕ → RequestId
counted n = n ∷ []

abbrev quiet : Outside
quiet = record { now = 0; disk = none; peers = [] }

-- A signal, behind which both servers end, one of them with an error.
abbrev wakes : List (Outside × Wake)
wakes =
    (quiet, gossip_tick)
    ∷ (quiet, shutdown)
    ∷ (quiet, ended grpc (server_error (codes "busy")))
    ∷ (quiet, ended rocket finished)
    ∷ []

run-ends_example :
    (s : Running) × (run counted wakes (started fresh_node 0) ≡ some s)
    × Consistent s.node.chain
    × (is_over s ≡ ended_in rocket wakes && ended_in grpc wakes)
run-ends_example = run-ends counted fresh_node 0 wakes start-Consistent

both_ended : ended_in rocket wakes && ended_in grpc wakes ≡ true
unfolding ended_in
both_ended = refl

abbrev after_submission : Running
after_submission = record (started fresh_node 0) {
  node = (submit 7 none identity fresh_node payment).0;
}

Life-Sound_example : Consistent after_submission.node.chain × Orderly after_submission
unfolding started
Life-Sound_example =
    Life-Sound counted identity fresh_node 0 start-Consistent
      (goes_on begins (submitted 7 none payment refl))

abbrev stopped : Running
stopped = started (record { chain = queued; stored = none; announced = [] }) 0

stop_node_seals_example :
    let (node, failure) = stop_node 7 none identity true stopped in
    (node.stored ≡ some node.chain)
    × Sealed 7 queued identity.name identity.signing_key node.chain
    × (failure ≡ none)
unfolding started
stop_node_seals_example =
    stop_node_seals 7 identity stopped toy-SignsVerifiably queued-CanSeal queued_in_order.0
      (λ s. rw (queued_nonces s, queued_pending) (omega arith)) queued_total
      (λ e. ground (arith, queued_pending))

unfoldable first_chain : Blockchain
unfolding register_if_authority
first_chain = register_if_authority identity (Blockchain.new node [])

-- The second start of the node, from the chain that the first one stored.
unfoldable second_chain : Blockchain
unfolding register_if_authority first_chain
second_chain = register_if_authority identity first_chain

unfoldable second_node : Node
second_node = record { chain = second_chain; stored = some second_chain; announced = [] }

second_start : start_node none identity [] (present first_chain) ≡ some second_node
unfolding start_node load_or_create second_node second_chain first_chain validate_chain
    save_at_start register_authority replay_from member Blockchain.new Bytes-discrete verify_block
    Block.with_timestamp Block.is_hash_valid Block.calculate_hash Block.hashed_bytes to_le_bytes
    apply_transactions set_insert
second_start = refl

held : Loaded → Blockchain
held absent = first_chain
held unreadable = first_chain
held (present c) = c

first_chain-Recorded : Recorded first_chain
unfolding first_chain register_authority Blockchain.new member Bytes-discrete set_insert
    settled_chain current_state settled_all Block.with_timestamp
first_chain-Recorded = record { state = refl; indexed = refl }

start_node-Consistent_example :
    Consistent second_node.chain
    × (second_node.stored ≡ some second_node.chain)
    × OwnsName identity second_node.chain
unfolding held
start_node-Consistent_example =
    start_node-Consistent none identity [] (present first_chain) second_node
      (λ c e. subst Recorded (ap held e) first_chain-Recorded) second_start

-- A follower by the name of Bob, and a stranger with another key.
abbrev follower : NodeIdentity
follower = record { name = bob; signing_key = codes "c" }

abbrev first_byte : Str → Option ℕ
first_byte [] = none
first_byte (c ∷ cs) = some c

strangers_signature :
    (message : Str)
    → toy.verify (toy.verifying_key follower.signing_key) message (toy.sign (codes "b") message)
      ≡ false
strangers_signature message =
    ==-eq-false _ _ (λ e. omega (arith, some-injective _ _ (ap first_byte e)))

start-length : length start.blocks < u32_mod
unfolding start genesis add_public_key Blockchain.new
start-length = omega arith

apply_snapshot-locks_out_example :
    let after = apply_snapshot start (promotion 7 start bob (codes "b")) in
    (after.1 ≡ ok true)
    × (start_node none follower [] (present (record (after.0) { mempool = Mempool.empty })) ≡ none)
apply_snapshot-locks_out_example =
    apply_snapshot-locks_out 7 follower [] start (codes "b")
      (Block.with_timestamp 0 [] (codes "0") node 0) none toy-SignsVerifiably strangers_signature
      start-Consistent genesis_first start-length bob_unknown bob_unlisted
