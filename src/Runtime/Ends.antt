-- ===== src/Runtime/Ends.antt =====
-- When the loop of zion-core/src/bin/node.rs ends, and that it does not panic before.
use block_rock.Base.{
  ℕ, ◌≡◌, inl, inr, refl, ◌∙◌, ap, Bool, true, false, not, ◌&&◌, ◌||◌, Bool-cases, Option, some,
  List, [], ◌∷◌, arith,
}
use block_rock.Crypto.{Crypto}
use block_rock.Blockchain.Consistent.{Consistent}
use block_rock.Propagation.{RequestId}
use block_rock.Node.{Node}
use block_rock.Runtime.{
  started, Server, rocket, grpc, Running, Wake, gossip_tick, shutdown, swarm_event, announcement,
  ended, Outside, enabled, is_over, run,
}
use block_rock.Runtime.Turns.{ends, turn-Turned}

-- Whether the end of a server is among what wakes the loop.
unfoldable pub ended_in : Server → List (Outside × Wake) → Bool
unfolding ends
ended_in server [] = false
ended_in server ((o, w) ∷ wakes) = ends server w || ended_in server wakes

-- What is left of a server that may have been held.
abbrev left : Bool → Server → List (Outside × Wake) → Bool
left held server wakes = held && not (ended_in server wakes)

left-none : (held : Bool) (server : Server) → held ≡ left held server []
unfolding ended_in
left-none true server = refl
left-none false server = refl

join : (b e r : Bool) → (b && not e) && not r ≡ b && not (e || r)
join true true r = refl
join true false r = refl
join false e r = refl

left-turn :
    (before after : Bool) (server : Server) (o : Outside) (w : Wake) (wakes : List (Outside × Wake))
    → after ≡ before && not (ends server w)
    → left after server wakes ≡ left before server ((o, w) ∷ wakes)
unfolding ended_in
left-turn before after server o w wakes e =
    ap (λ x. left x server wakes) e ∙ join before (ends server w) (ended_in server wakes)

-- A branch is disabled only by what has happened already.
left-skip :
    (s : Running) (o : Outside) (w : Wake) (wakes : List (Outside × Wake))
    → enabled w s ≡ false
    → (left s.rocket_held rocket wakes ≡ left s.rocket_held rocket ((o, w) ∷ wakes))
      × (left s.grpc_held grpc wakes ≡ left s.grpc_held grpc ((o, w) ∷ wakes))
unfolding ended_in ends enabled
left-skip s o gossip_tick wakes e = (refl, refl)
left-skip s o shutdown wakes e = (refl, refl)
left-skip s o (swarm_event x) wakes e = (refl, refl)
left-skip s o (announcement a) wakes e = (refl, refl)
left-skip s o (ended rocket x) wakes e = (rw e refl, refl)
left-skip s o (ended grpc x) wakes e = (refl, rw e refl)

is_over-held : (s : Running) → is_over s ≡ true → (s.rocket_held ≡ false) × (s.grpc_held ≡ false)
is_over-held s e = ground arith

neither_held : (a b : Bool) → not (not a) && not (not b) ≡ a && b
neither_held true true = refl
neither_held true false = refl
neither_held false b = refl

-- The outcome of the loop.
pub record Ran ⦃crypto : Crypto⦄ (s : Running) (wakes : List (Outside × Wake)) (o : Option Running)
    : Type 0 where
  pub after : Running
  pub done : o ≡ some after
  pub consistent : Consistent after.node.chain
  pub rocket_after : after.rocket_held ≡ left s.rocket_held rocket wakes
  pub grpc_after : after.grpc_held ≡ left s.grpc_held grpc wakes

module _ ⦃crypto : Crypto⦄ where
  stop-Ran :
      (s : Running) (wakes : List (Outside × Wake))
      → Consistent s.node.chain
      → is_over s ≡ true
      → Ran s wakes (some s)
  stop-Ran s wakes v over =
      let (r, g) = is_over-held s over in
      record {
        after = s;
        done = refl;
        consistent = v;
        rocket_after = rw r refl;
        grpc_after = rw g refl;
      }

module _ ⦃crypto : Crypto⦄ (request_id : ℕ → RequestId) where
  run-Ran :
      (wakes : List (Outside × Wake)) (s : Running)
      → Consistent s.node.chain
      → Ran s wakes (run request_id wakes s)
  unfolding run
  run-Ran [] s v = record {
    after = s;
    done = refl;
    consistent = v;
    rocket_after = left-none s.rocket_held rocket;
    grpc_after = left-none s.grpc_held grpc;
  }
  run-Ran ((o, w) ∷ wakes) s v = elim (Bool-cases (is_over s)) [
    | inl over ↦ rw (over, run) (stop-Ran s ((o, w) ∷ wakes) v over)
    | inr on ↦ elim (Bool-cases (enabled w s)) [
      | inl taken ↦
          let t = turn-Turned request_id o w s v in
          let r = run-Ran wakes t.after t.consistent in
          rw (on, taken, t.done, run)
            (record {
              after = r.after;
              done = r.done;
              consistent = r.consistent;
              rocket_after =
                  r.rocket_after
                  ∙ left-turn s.rocket_held t.after.rocket_held rocket o w wakes t.rocket_after;
              grpc_after =
                  r.grpc_after
                  ∙ left-turn s.grpc_held t.after.grpc_held grpc o w wakes t.grpc_after;
            })
      | inr skipped ↦
          let r = run-Ran wakes s v in
          let q = left-skip s o w wakes skipped in
          rw (on, skipped, run)
            (record {
              after = r.after;
              done = r.done;
              consistent = r.consistent;
              rocket_after = r.rocket_after ∙ q.0;
              grpc_after = r.grpc_after ∙ q.1;
            })
    ]
  ]

  -- The loop of a node with a consistent chain never panics, whatever wakes it, neither where it unwraps
  -- the handle of a server that it waits for nor where it handles an event, and leaves a consistent chain. It has ended exactly when both servers have: as long as one of them has not, it goes on, also
  -- after the signal to stop; and once both have, it is over.
  pub run-ends :
      (node : Node) (requests : ℕ) (wakes : List (Outside × Wake))
      → Consistent node.chain
      → (s : Running) × (run request_id wakes (started node requests) ≡ some s)
        × Consistent s.node.chain
        × (is_over s ≡ ended_in rocket wakes && ended_in grpc wakes)
  unfolding started
  run-ends node requests wakes v =
      let r = run-Ran wakes (started node requests) v in
      (
        r.after,
        r.done,
        r.consistent,
        rw (r.rocket_after, r.grpc_after)
            (neither_held (ended_in rocket wakes) (ended_in grpc wakes)),
      )
