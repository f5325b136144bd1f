-- ===== src/Executor/Routing/Examples.antt =====
-- Emissions through crates/jaiba-runtime/src/engine/executor/routing.rs: a reader with one sink.
use jaiva.Prelude.{
  ℕ, ◌+◌, ◌≤◌, ◌≡◌, refl, false, none, some, List, [], ◌∷◌, arith, count_if, get, insert,
}
use jaiva.Config.{ConnectionConfig, unordered, auto}
use jaiva.Packet.{DataPacket, records, Sizes, estimated_size}
use jaiva.Limiter.{step, take_now, check_now, waits_for_flow, release}
use jaiva.Executor.{WorkItem}
use jaiva.Executor.Routing.{
  Router, ProcessorEmission, Queues, routed, queue_full, answer, connection_id, on_edge, queued_for,
  routed_work, drop_all, refusal, outgoing, over_capacity, has_no_room, over_flight,
  maximum_in_flight, on_reply, reserve_branches, enqueued, push, on_enqueued, publish, published,
  refreshed, deliver, reserve_and_deliver, route_emission,
}
use jaiva.Executor.Routing.Bounds.{
  route_emission_capacity, route_emission_in_flight, route_emission_blocked,
}
use jaiva.Executor.Routing.Handles.{is_held_at}
use jaiva.Executor.Routing.Reservations.{Accounts, route_emission-Accounts}

abbrev to_sink : ConnectionConfig
to_sink = record { source = "read"; relationship = "success"; target = "sink"; queue_capacity = 2 }

abbrev sizes : Sizes
sizes = record { text = λ s. 8; json_records = λ rs. some 2; json_schema = λ s. some 0; own = 100 }

abbrev router : List ConnectionConfig → Router
router connections = record {
  connections = connections;
  global_capacity = 5;
  definitions =
      (
        "sink",
        record {
          concurrent_tasks = 1;
          maximum_in_flight = some 4;
          timeout_ms = none;
          execution_mode = auto;
          ordering = unordered;
          partition_by = none;
        },
      )
      ∷ [];
  active_per_processor = ("sink", 1) ∷ [];
  repository = none;
  flow_id = "flow";
  sizes = sizes;
  join = λ from relationship to. to;
}

abbrev packet : DataPacket
packet = record { id = "p"; attributes = []; content = records []; schema = none; attempt = 0 }

abbrev emission : ProcessorEmission
emission = record { processor_id = "read"; relationship = "success"; packet = packet }

abbrev queues : ℕ → List WorkItem → Queues
queues free pending = record {
  pending = pending;
  memory = record {
    limiters =
        (
          "flow",
          record {
            available = free;
            shares = false;
            total_units = free;
            budget_bytes = 1000000;
            used = 0;
            backpressure = 0;
          },
        )
        ∷ [];
    shared_available = 0;
    shared_total = 0;
    tickets = [];
  };
  emitted = 0;
}

abbrev queued_item : WorkItem
queued_item = record {
  processor_id = "sink";
  packet = packet;
  connection = some "sink";
  reservation = none;
  queue_id = none;
}

goes_through :
    (route_emission (router (to_sink ∷ [])) emission (queues 9 (queued_item ∷ []))).1
    ≡ answer routed
unfolding route_emission reserve_and_deliver over_capacity outgoing connection_id has_no_room
    over_flight maximum_in_flight get insert step take_now check_now estimated_size on_reply
    reserve_branches enqueued push on_enqueued publish published refreshed deliver waits_for_flow
goes_through = refl

-- A connection that stands twice in the manifest puts one packet too many into its queue.
doubled :
    count_if
      (on_edge "sink")
      (route_emission
        (router (to_sink ∷ to_sink ∷ []))
        emission
        (queues 9 (queued_item ∷ []))).0.pending
    ≡ 3
unfolding route_emission reserve_and_deliver over_capacity outgoing connection_id has_no_room
    over_flight maximum_in_flight get insert step take_now check_now estimated_size on_reply
    reserve_branches enqueued push on_enqueued publish published refreshed deliver waits_for_flow
doubled = refl

waits_for_room :
    (route_emission (router (to_sink ∷ [])) emission (queues 9 (queued_item ∷ queued_item ∷ []))).1
    ≡ answer queue_full
unfolding route_emission over_capacity outgoing connection_id has_no_room
waits_for_room = refl

route_emission_capacity_example :
    let after =
      (route_emission (router (to_sink ∷ [])) emission (queues 9 (queued_item ∷ []))).0.pending in
    (count_if routed_work after ≤ 5) × (count_if (on_edge "sink") after ≤ 2)
unfolding outgoing connection_id
route_emission_capacity_example =
    route_emission_capacity (router (to_sink ∷ [])) emission (queues 9 (queued_item ∷ [])) to_sink 0
      refl refl (omega arith) goes_through

route_emission_in_flight_example :
    count_if
        (queued_for "sink")
        (route_emission (router (to_sink ∷ [])) emission (queues 9 (queued_item ∷ []))).0.pending
      + 1
    ≤ 4
unfolding outgoing maximum_in_flight get
route_emission_in_flight_example =
    route_emission_in_flight (router (to_sink ∷ [])) emission (queues 9 (queued_item ∷ [])) to_sink
      0 4 refl refl (omega arith) goes_through

route_emission_blocked_example :
    let q = queues 9 (queued_item ∷ queued_item ∷ []) in
    ((route_emission (router (to_sink ∷ [])) emission q).0.pending ≡ q.pending)
    × ((route_emission (router (to_sink ∷ [])) emission q).0.emitted ≡ 0)
route_emission_blocked_example =
    route_emission_blocked (router (to_sink ∷ [])) emission
      (queues 9 (queued_item ∷ queued_item ∷ [])) queue_full waits_for_room (λ e. ground (arith, e))

-- The one permit is enough for the first branch only: nothing is queued or left reserved.
half_reserved :
    let after = (route_emission (router (to_sink ∷ to_sink ∷ [])) emission (queues 1 [])).0 in
    (after.pending ≡ []) × (is_held_at after.memory 0 ≡ false)
unfolding route_emission reserve_and_deliver over_capacity outgoing connection_id has_no_room
    over_flight maximum_in_flight get insert step take_now check_now estimated_size on_reply
    reserve_branches deliver waits_for_flow drop_all refusal release
half_reserved = (refl, refl)

route_emission-Accounts_example :
    Accounts
      (queues 1 [])
      (route_emission (router (to_sink ∷ to_sink ∷ [])) emission (queues 1 [])).0
route_emission-Accounts_example =
    route_emission-Accounts (router (to_sink ∷ to_sink ∷ [])) emission (queues 1 [])
