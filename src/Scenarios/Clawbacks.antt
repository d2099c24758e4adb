-- ===== src/Scenarios/Clawbacks.antt =====
-- The trigger of a clawback on the small database.
use comission_mgmt.Prelude.{◌≡◌, refl, ◌⊎◌, none, some, arith}
use comission_mgmt.Store.Tables.{Tables, candidate_departure, clawback}
use comission_mgmt.Store.Monad.{
  Environment, World, Response, returned, reply, refuse, statement, query,
}
use comission_mgmt.Clawback.Handler.{
  TriggerBody, TriggerReply, trigger_object, handle_trigger_clawback,
}
use comission_mgmt.Clawback.Settled.{
  IsSettled, handle_trigger_clawback-IsSettled, handle_trigger_clawback_refused,
}
use comission_mgmt.Guarantee.Statements.{first_period}
use comission_mgmt.Scenarios.Database.{sound, admin, tables, world}

-- A day before the end of the guarantee.
abbrev in_time : Environment
in_time = record sound { today = 35 }

abbrev alone : Tables → Tables
alone t = t

abbrev departure : TriggerBody
departure = trigger_object (some candidate_departure) (some clawback) none none

handle_trigger_clawback-IsSettled_example :
    (answer : Response TriggerReply) × (w' : World) × (handle_trigger_clawback in_time alone admin
        30 departure world
      ≡ (returned answer, w'))
    × IsSettled in_time alone admin 30 departure answer tables w'.tables
handle_trigger_clawback-IsSettled_example =
    handle_trigger_clawback-IsSettled in_time alone admin 30 departure world

-- The placement 31 is not there.
unfoldable missing :
    (w' : World) × (handle_trigger_clawback in_time alone admin 31 departure world
      ≡ (returned (refuse 404 "Placement not found"), w'))
unfolding handle_trigger_clawback query statement
missing = (_, refl)

handle_trigger_clawback_refused_example : (missing.0.tables ≡ tables) ⊎ (missing.0.tables ≡ tables)
handle_trigger_clawback_refused_example =
    handle_trigger_clawback_refused in_time alone admin 31 departure world missing.0
      (refuse 404 "Placement not found") missing.1 tt (ground arith)

-- The departure is answered with status 201.
departure_posted :
    (b : TriggerReply) × ((handle_trigger_clawback in_time alone admin 30 departure world).0
      ≡ returned (reply 201 b))
    × (b.adjustments_posted ≡ 2)
    × (b.commission_records_affected ≡ 2)
unfolding handle_trigger_clawback first_period
departure_posted = (_, refl, refl, refl)
