-- ===== src/Tests/InterfaceRuns.antt =====
-- Requests at the two interfaces, samples of the vitals, and the shown balances.
use block_rock.Base.{
  ℕ, if◌then◌else◌, ◌≡◌, ◌⊎◌, refl, true, none, some, [], ◌∷◌, Str, codes, Option, first?, max, leb,
  ltb, ok, ◌+◌, ◌-◌, ◌*◌, ◌/◌, arith,
}
use block_rock.Text.{trim, trim_start, trim_end, is_whitespace}
use block_rock.Rest
use block_rock.Rest.{SubmitTransaction}
use block_rock.Rest.Readings.{CommitReading, commit_sensor_reading}
use block_rock.Grpc
use block_rock.Grpc.Agreement.{
  as_grpc, as_request, reading_request, streamed, submit_transaction-agree,
  commit_sensor_reading-agree,
}
use block_rock.Monitoring.{
  Floats, SystemVitals, HypothalamusConfig, hypertrophy, default_config, evaluate, is_stressed,
  calculate_system_stress, monitor_round, Monitor, new, initial_status,
}
use block_rock.Monitoring.Cycles.{evaluated, decision, evaluate-action, streak, completes}
use block_rock.Monitoring.Notices.{Alternating, notices, MonitorReach, MonitorReach-notices}
use block_rock.Tests.Sample.{toy, alice, bob}
use block_rock.Tests.NodeRuns.{fresh_node, identity}

-- 64 bytes.
abbrev long_signature : Str
long_signature = codes "ssssssssssssssssssssssssssssssssssssssssssssssssssssssssssssssss"

no_space : trim long_signature ≡ long_signature
unfolding trim trim_start trim_end is_whitespace
no_space = refl

abbrev request : SubmitTransaction
request = record {
  sender = alice;
  receiver = bob;
  amount = 30;
  nonce = 0;
  signature = long_signature;
}

submit_transaction-agree_example :
    Grpc.submit_transaction 7 none identity fresh_node (as_request request) ≡ (
      (Rest.submit_transaction 7 none identity fresh_node request).0,
      as_grpc (λ q. q) (Rest.submit_transaction 7 none identity fresh_node request).1,
    )
submit_transaction-agree_example =
    submit_transaction-agree 7 none identity fresh_node request no_space

abbrev reading : CommitReading
reading = record { sensor_id = alice; value = codes "21"; nonce = 0; signature = long_signature }

-- Only the empty text is no number here.
abbrev toy_parse : Str → Option ℕ
toy_parse [] = none
toy_parse (c ∷ cs) = some c

commit_sensor_reading-agree_example :
    (Grpc.submit_transaction 7 none identity fresh_node (reading_request reading) ≡ (
      (commit_sensor_reading toy_parse 7 none identity fresh_node [] reading).0.0,
      as_grpc (λ q. q) (commit_sensor_reading toy_parse 7 none identity fresh_node [] reading).1,
    ))
    × ((commit_sensor_reading toy_parse 7 none identity fresh_node [] reading).0.1
        ≡ streamed [] reading
            (toy_parse reading.value)
            (commit_sensor_reading toy_parse 7 none identity fresh_node [] reading).1)
commit_sensor_reading-agree_example =
    commit_sensor_reading-agree 7 none identity fresh_node toy_parse [] reading no_space

-- Whole numbers in place of those of f64.
instance abbrev pub toy_floats : Floats ℕ
toy_floats = record {
  literal = λ m k. m;
  of_u64 = λ n. n;
  parse = toy_parse;
  add = λ a b. a + b;
  mul = λ a b. a * b;
  div = λ a b. a / b;
  minus = λ a b. a - b;
  fmin = λ a b. if leb a b then a else b;
  fmax = λ a b. if leb a b then b else a;
  lt = ltb;
  le = leb;
}

abbrev strained : SystemVitals ℕ
strained = record { cpu_usage = 100; memory_usage = 100; latency_ms = 0; error_rate = 0 }

abbrev two_cycles : HypothalamusConfig ℕ
two_cycles = record default_config { sustained_stress_cycles = 2 }

evaluate-action_example :
    (evaluate (evaluated two_cycles (strained ∷ [])) strained).1.action
    ≡ decision two_cycles (strained ∷ strained ∷ [])
evaluate-action_example =
    evaluate-action two_cycles (omega arith) (omega arith) strained (strained ∷ [])

asks_for_more : decision two_cycles (strained ∷ strained ∷ []) ≡ hypertrophy
unfolding decision completes streak is_stressed calculate_system_stress max
asks_for_more = refl

abbrev first_round : Monitor ℕ
first_round = monitor_round true (ok strained) (record {
  hypothalamus = new two_cycles;
  gate = record { last = none };
  status = initial_status;
  notified = [];
})

MonitorReach-notices_example :
    Alternating (notices first_round)
    × ((first? (notices first_round) ≡ some first_round.status.action)
        ⊎ (first_round.status ≡ initial_status))
MonitorReach-notices_example =
    MonitorReach-notices {config = two_cycles}
      (MonitorReach.round (ok strained) MonitorReach.started)
