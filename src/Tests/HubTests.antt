-- ===== src/Tests/HubTests.antt =====
-- A client that connects at event 2 while the run goes on.
use kapi_final.Base.{ℕ, ◌≡◌, List, [], ◌∷◌, arith}
use kapi_final.ControlPlane.EventHub.{
  HubStep, commits, ingests, fetches, delivers, connected, hub_run, span,
}
use kapi_final.ControlPlane.EventHub.Ingest.{delivered_once}

abbrev handover : List HubStep
handover = fetches ∷ commits ∷ ingests 5 ∷ ingests 6 ∷ delivers ∷ commits ∷ ingests 7 ∷ []

delivered_once_example :
    (j : ℕ) × (((hub_run handover (connected 2 5 4 [])).client).received ≡ span 2 j)
delivered_once_example = let d = delivered_once 2 5 4 [] handover (omega arith) in (d.0, d.1)
