-- ===== src/Examples/Channels.antt =====
-- A hub with two clients of one user.
use jd_shop_server.Common.{◌≡◌, none, arith, List, [], ◌∷◌}
use jd_shop_server.Hub.{ControlHub, ControlEvent, access_changed, new_control_hub, subscribe}
use jd_shop_server.Hub.Laws.{channel, Reach, start, subscribes, subscribe_fresh}
use jd_shop_server.Hub.Refinement
use jd_shop_server.Hub.Refinement.{
  HubOperation, operate_all, promised_all, table_of, table_of-operate_all,
}

abbrev hub : ControlHub
hub = (subscribe (subscribe new_control_hub 7).0 7).0

abbrev event : ControlEvent
event = record { type = access_changed; issued_at = none; announcement_id = 0; revision = 0 }

hub-Reach : Reach hub
unfolding subscribe new_control_hub
hub-Reach = subscribes 7 (omega arith) (subscribes 7 (omega arith) start)

subscribe_fresh_example : channel hub 7 (subscribe hub 7).1 ≡ none
unfolding subscribe new_control_hub
subscribe_fresh_example = subscribe_fresh hub 7 hub-Reach (omega arith) 7

abbrev operations : List HubOperation
operations =
    Refinement.subscribes 8
    ∷ Refinement.publishes 7 event 5
    ∷ Refinement.receives 7 2
    ∷ Refinement.broadcasts event 6
    ∷ Refinement.unsubscribes 7 1
    ∷ []

table_of-operate_all_example :
    table_of (operate_all operations hub) ≡ promised_all operations (table_of hub)
table_of-operate_all_example = table_of-operate_all operations hub
