-- ===== src/Mpmc/Tests/Runs.antt =====
-- Runs of the driver's counts, at small sizes.
use principal_katas.Prelude.{◌≡◌, List, [], ◌∷◌, arith, ◌%◌, ◌^◌, ◌↔◌}
use principal_katas.Mpmc.Api.{Push}
use principal_katas.Mpmc.Event.{make_event, tally}
use principal_katas.Mpmc.Driver.{Delivery, new_consumer, take_all}
use principal_katas.Mpmc.Driver.Order.{Increasing}
use principal_katas.Mpmc.Driver.Consumers.{good_events, n_bad, take_all_judges}
use principal_katas.Mpmc.Driver.Checks.{Part}

-- one producer that offers two events and is refused the second, and one consumer
abbrev one_part : List Part
one_part =
    record {
      id = 1;
      quota = 2;
      answers = record { result = Push.ok; now = 5 } ∷ record { result = Push.full; now = 6 } ∷ [];
    }
    ∷ []

abbrev one_delivery : List Delivery
one_delivery = record { event = make_event 1 0 5; time = 9 } ∷ []

take_all_judges_example :
    ((take_all one_delivery new_consumer).torn ≡ n_bad one_delivery % 2 ^ 64)
    × ((take_all one_delivery new_consumer).consumed ≡ tally (good_events one_delivery))
    × (((take_all one_delivery new_consumer).disorder ≡ 0) ↔ Increasing (good_events one_delivery))
take_all_judges_example = take_all_judges one_delivery (omega arith)
