-- ===== src/Beacon/Influx/Written.antt =====
-- The batches that sendInfluxDB writes.
use interlock_old.Prelude.{◌≡◌, refl, ◌⊎◌, String, [], ◌∷◌, none, some, IsIn}
use interlock_old.Go.Outcome.{ok, err}
use interlock_old.Beacon.Stats.{Stat, Point, first_point, later_points}
use interlock_old.Beacon.Influx.{Client, Sent}

-- How a call may end, and why: nothing was written; the first point alone was, and was refused, or a later
-- point could not be made; or the batch of all points was, and was refused or taken.
pub data Writes {F : Type 0} (client : Client F) (stat : Stat F) : Sent F → Type 0 where
  nothing :
      (e : String)
      → (client.new_client ≡ some e)
        ⊎ (client.new_batch_points ≡ some e)
        ⊎ (client.new_point (first_point stat) ≡ some e)
      → Writes client stat (record { result = err e; batches = [] })
  first_refused :
      (e : String)
      → client.write [] (first_point stat ∷ []) ≡ some e
      → Writes client stat (record { result = err e; batches = (first_point stat ∷ []) ∷ [] })
  unmade :
      (e : String) (p : Point F)
      → client.write [] (first_point stat ∷ []) ≡ none
      → IsIn p (later_points stat)
      → client.new_point p ≡ some e
      → Writes client stat (record { result = err e; batches = (first_point stat ∷ []) ∷ [] })
  refused :
      (e : String)
      → client.write [] (first_point stat ∷ []) ≡ none
      → client.write ((first_point stat ∷ []) ∷ []) (first_point stat ∷ later_points stat) ≡ some e
      → Writes client stat (record {
        result = err e;
        batches = (first_point stat ∷ []) ∷ (first_point stat ∷ later_points stat) ∷ [];
      })
  taken :
      client.write [] (first_point stat ∷ []) ≡ none
      → client.write ((first_point stat ∷ []) ∷ []) (first_point stat ∷ later_points stat) ≡ none
      → Writes client stat (record {
        result = ok tt;
        batches = (first_point stat ∷ []) ∷ (first_point stat ∷ later_points stat) ∷ [];
      })

-- A call that succeeds has written the batch of all points.
pub Writes-ok :
    {F : Type 0} {client : Client F} {stat : Stat F} {sent : Sent F}
    → Writes client stat sent
    → sent.result ≡ ok tt
    → sent.batches ≡ (first_point stat ∷ []) ∷ (first_point stat ∷ later_points stat) ∷ []
Writes-ok (nothing e why) h = cc h
Writes-ok (first_refused e why) h = cc h
Writes-ok (unmade e p took member why) h = cc h
Writes-ok (refused e took why) h = cc h
Writes-ok (taken took again) h = refl
