-- ===== src/Beacon/Influx.antt =====
-- sendInfluxDB of ext/beacon/stats.go over a client of InfluxDB.
pub mod Written
use interlock_old.Prelude.{String, List, [], ◌∷◌, ◌++◌, Option, none, some}
use interlock_old.Go.Outcome.{Outcome, ok, err, panic}
use interlock_old.Beacon.Stats.{Stat, Point, first_point, later_points}

-- What the code calls of the client: each call gives its error, if there is one. The answer of a write
-- may depend on the batches written before.
pub record Client (F : Type 0) : Type 0 where
  pub new_client : Option String  -- NewInfluxDBClient
  pub new_batch_points : Option String
  pub new_point : Point F → Option String
  pub write : List (List (Point F)) → List (Point F) → Option String

-- How the call ends, and the batches that it tried to write.
pub record Sent (F : Type 0) : Type 0 where
  pub result : Outcome (Unit {0})
  pub batches : List (List (Point F))

module _ {F : Type 0} (client : Client F) where
  -- The points are made and added to the batch; it goes on keeping those that were written.
  unfoldable pub add_points : List (Point F) → List (Point F) → Outcome (List (Point F))
  add_points [] batch = ok batch
  add_points (p ∷ ps) batch = elim (client.new_point p) [
    | some e ↦ err e
    | none ↦ add_points ps (batch ++ p ∷ [])
  ]

  unfoldable pub write_batch : List (List (Point F)) → List (Point F) → Sent F
  write_batch before batch = elim (client.write before batch) [
    | some e ↦ record { result = err e; batches = before ++ batch ∷ [] }
    | none ↦ record { result = ok tt; batches = before ++ batch ∷ [] }
  ]

  -- What follows the first write.
  unfoldable pub send_rest : Stat F → Sent F → Sent F
  unfolding add_points write_batch later_points
  send_rest stat sent = elim (sent.result) [
    | ok u ↦ elim (add_points (later_points stat) (first_point stat ∷ [])) [
      | ok batch ↦ write_batch sent.batches batch
      | err e ↦ record sent { result = err e }
      | panic ↦ record sent { result = panic }
    ]
    | err e ↦ sent
    | panic ↦ sent
  ]

  unfoldable pub send_influxdb : Stat F → Sent F
  unfolding write_batch send_rest first_point
  send_influxdb stat = elim (client.new_client) [
    | some e ↦ record { result = err e; batches = [] }
    | none ↦ elim (client.new_batch_points) [
      | some e ↦ record { result = err e; batches = [] }
      | none ↦ elim (client.new_point (first_point stat)) [
        | some e ↦ record { result = err e; batches = [] }
        | none ↦ send_rest stat (write_batch [] (first_point stat ∷ []))
      ]
    ]
  ]
