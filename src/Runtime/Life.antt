-- ===== src/Runtime/Life.antt =====
-- The life of a node of zion-core/src/bin/node.rs: the turns of its loop, with the requests of its two
-- interfaces and the periodic tick between them, in any order.
use block_rock.Base.{
  ℕ, ◌≡◌, inl, inr, refl, sym, ◌∙◌, subst, true, false, Bool-cases, Option, some, Str, arith,
}
use block_rock.Crypto.{Crypto}
use block_rock.Transaction.{Transaction}
use block_rock.Blockchain.Consistent.{Consistent}
use block_rock.Node.{Node, NodeIdentity, submit, seal_pending}
use block_rock.Node.Submission.{submit-Consistent, seal_pending-Consistent}
use block_rock.Rest.{RegisterAccount, register_account}
use block_rock.Rest.Accounts.{register_account-first}
use block_rock.Propagation.{RequestId}
use block_rock.Runtime.{
  Trouble, Running, Wake, gossip_tick, shutdown, swarm_event, announcement, ended, Outside, started,
  enabled, handle_wake, after_wake, turn,
}
use block_rock.Runtime.Turns.{turn-Turned, turn_lem, handle_swarm_event-Quiet}

-- A node stops as a whole.
pub record Orderly (s : Running) : Type 0 where
  -- While it stops, both servers have been told to.
  pub told : s.stopping ≡ true → (s.rocket_told ≡ true) × (s.grpc_told ≡ true)
  -- It stops when a server has ended, and when something has failed.
  pub rocket_ended : s.rocket_held ≡ false → s.stopping ≡ true
  pub grpc_ended : s.grpc_held ≡ false → s.stopping ≡ true
  pub failed : (t : Trouble) → s.failure ≡ some t → s.stopping ≡ true

-- The same without what the end of a turn does.
record Aware (s : Running) : Type 0 where
  rocket_ended : s.rocket_held ≡ false → s.stopping ≡ true
  grpc_ended : s.grpc_held ≡ false → s.stopping ≡ true
  failed : (t : Trouble) → s.failure ≡ some t → s.stopping ≡ true

after_wake-Orderly :
    ⦃crypto : Crypto⦄ (request_id : ℕ → RequestId) (o : Outside) (s : Running)
    → Aware s
    → Orderly (after_wake request_id o s)
unfolding after_wake
after_wake-Orderly request_id o s a = elim (Bool-cases s.stopping) [
  | inl stopping ↦
      rw (stopping, after_wake)
        (record {
          told = λ h. (refl, refl);
          rocket_ended = λ h. refl;
          grpc_ended = λ h. refl;
          failed = λ t h. refl;
        })
  | inr on ↦
      rw (on, after_wake)
        (record {
          told = λ h. ground (arith, h);
          rocket_ended = λ h. sym on ∙ a.rocket_ended h;
          grpc_ended = λ h. sym on ∙ a.grpc_ended h;
          failed = λ t h. sym on ∙ a.failed t h;
        })
]

-- What the wake itself does, where it happens.
record Woken (s : Running) (o : Option Running) : Type 0 where
  after : Running
  done : o ≡ some after
  aware : Aware after

module _ ⦃crypto : Crypto⦄ where
  handle_wake-Woken :
      (o : Outside) (w : Wake) (s : Running)
      → Consistent s.node.chain
      → Orderly s
      → Woken s (handle_wake o w s)
  unfolding handle_wake
  handle_wake-Woken o gossip_tick s v q = record {
    after = s;
    done = refl;
    aware = record { rocket_ended = q.rocket_ended; grpc_ended = q.grpc_ended; failed = q.failed };
  }
  handle_wake-Woken o shutdown s v q = record {
    after = _;
    done = refl;
    aware = record { rocket_ended = λ h. refl; grpc_ended = λ h. refl; failed = λ t h. refl };
  }
  handle_wake-Woken o (swarm_event e) s v q =
      let r = handle_swarm_event-Quiet o e s v in
      record {
        after = r.after;
        done = r.done;
        aware = record {
          rocket_ended = λ h. r.stopping_same ∙ q.rocket_ended (sym r.rocket_same ∙ h);
          grpc_ended = λ h. r.stopping_same ∙ q.grpc_ended (sym r.grpc_same ∙ h);
          failed = λ t h. r.stopping_same ∙ q.failed t (sym r.failure_same ∙ h);
        };
      }
  handle_wake-Woken o (announcement a) s v q = record {
    after = _;
    done = refl;
    aware = record { rocket_ended = q.rocket_ended; grpc_ended = q.grpc_ended; failed = q.failed };
  }
  handle_wake-Woken o (ended server e) s v q = record {
    after = _;
    done = refl;
    aware = record { rocket_ended = λ h. refl; grpc_ended = λ h. refl; failed = λ t h. refl };
  }

  module _ (request_id : ℕ → RequestId) (identity : NodeIdentity) where
    abbrev with_node : Running → Node → Running
    with_node s node = record s { node = node }

    -- What happens to a node that runs.
    pub data LifeStep (s : Running) (s' : Running) : Type 0 where
      turned :
          (o : Outside) (w : Wake)
          → enabled w s ≡ true
          → turn request_id o w s ≡ some s'
          → LifeStep s s'
      submitted :
          (now : ℕ) (disk : Option Str) (t : Transaction)
          → s' ≡ with_node s (submit now disk identity s.node t).0
          → LifeStep s s'
      registered :
          (disk : Option Str) (r : RegisterAccount)
          → s' ≡ with_node s (register_account disk s.node r).0
          → LifeStep s s'
      ticked :
          (now : ℕ) (disk : Option Str)
          → s' ≡ with_node s (seal_pending now disk identity s.node).0
          → LifeStep s s'

    pub data Life (s : Running) : Running → Type 0 where
      begins : Life s s
      goes_on : {t u : Running} → Life s t → LifeStep t u → Life s u

    pub record Sound (s : Running) : Type 0 where
      pub consistent : Consistent s.node.chain
      pub orderly : Orderly s

    turn-Sound :
        (o : Outside) (w : Wake) (s : Running) {s' : Running}
        → Sound s
        → turn request_id o w s ≡ some s'
        → Sound s'
    turn-Sound o w s {s'} q e =
        let t = turn-Turned request_id o w s q.consistent in
        let k = handle_wake-Woken o w s q.consistent q.orderly in
        let f : turn request_id o w s ≡ some (after_wake request_id o k.after) =
          turn_lem request_id o w s ∙ rw k.done refl in
        let g : t.after ≡ s' = ground (arith, t.done, e) in
        let h : after_wake request_id o k.after ≡ s' = ground (arith, f, e) in
        record {
          consistent = subst (λ x. Consistent x.node.chain) g t.consistent;
          orderly = subst Orderly h (after_wake-Orderly request_id o k.after k.aware);
        }

    abbrev node_Orderly : {s : Running} (node : Node) → Orderly s → Orderly (with_node s node)
    node_Orderly node q = record {
      told = q.told;
      rocket_ended = q.rocket_ended;
      grpc_ended = q.grpc_ended;
      failed = q.failed;
    }

    LifeStep-Sound : {s s' : Running} → LifeStep s s' → Sound s → Sound s'
    LifeStep-Sound {s} (turned o w taken e) q = turn-Sound o w s q e
    LifeStep-Sound {s} (submitted now disk t e) q = rw e (record {
      consistent = submit-Consistent now disk identity s.node t q.consistent;
      orderly = node_Orderly _ q.orderly;
    })
    LifeStep-Sound {s} (registered disk r e) q = rw e (record {
      consistent = (register_account-first disk s.node r q.consistent).1;
      orderly = node_Orderly _ q.orderly;
    })
    LifeStep-Sound {s} (ticked now disk e) q = rw e (record {
      consistent = seal_pending-Consistent now disk identity s.node q.consistent;
      orderly = node_Orderly _ q.orderly;
    })

    -- In whatever order the loop, the two interfaces and the tick work on a node that starts with a
    -- consistent chain, its chain stays consistent. If it stops, both servers have been told to stop; and
    -- it stops if one of the servers has ended or something has failed.
    pub Life-Sound :
        (node : Node) (requests : ℕ) {s : Running}
        → Consistent node.chain
        → Life (started node requests) s
        → Consistent s.node.chain × Orderly s
    unfolding started
    Life-Sound node requests v r = let q = sound r in (q.consistent, q.orderly)
      where
        sound : {t : Running} → Life (started node requests) t → Sound t
        sound begins = record {
          consistent = v;
          orderly = record {
            told = λ h. ground (arith, h);
            rocket_ended = λ h. ground (arith, h);
            grpc_ended = λ h. ground (arith, h);
            failed = λ t h. ground (arith, h);
          };
        }
        sound (goes_on before step) = LifeStep-Sound step (sound before)
