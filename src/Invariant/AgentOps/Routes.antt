-- ===== src/Invariant/AgentOps/Routes.antt =====
-- Every request to the agent API keeps what each statement keeps.
use kapi_final.Base.{ℕ, Bool, true, false}
use kapi_final.Db.Tables.{Db}
use kapi_final.ControlPlane.AgentTx.{Claims}
use kapi_final.ControlPlane.AgentApi.Serving.{
  AgentRequest, claims_job, starts_job, beats, posts, spawns, cancels_child, reports, route,
  admitted, serve,
}
use kapi_final.Invariant.Guard.{Guard}
use kapi_final.Invariant.AgentOps.{
  agent_claim-Serves, agent_start-Serves, agent_heartbeat-Serves, agent_events-Serves,
  agent_spawn-Serves, agent_cancel_child-Serves, agent_complete-Serves,
}

module _ {P : Db → Type 0} (g : Guard P) (c : Claims) (seconds now : ℕ) where
  route-Guard : (q : AgentRequest) (db : Db) → P db → P (route c seconds now q db)
  unfolding route
  route-Guard (claims_job l) db p = (agent_claim-Serves g c l seconds now).apply db p
  route-Guard starts_job db p = (agent_start-Serves g c).apply db p
  route-Guard beats db p = (agent_heartbeat-Serves g c seconds now).apply db p
  route-Guard (posts es) db p = (agent_events-Serves g c es).apply db p
  route-Guard (spawns o f r ws) db p = (agent_spawn-Serves g o f c now r ws).apply db p
  route-Guard (cancels_child id why) db p = (agent_cancel_child-Serves g c id why now).apply db p
  route-Guard (reports r) db p = (agent_complete-Serves g c now r).apply db p

  admitted-Guard :
      (q : AgentRequest) (b : Bool) (db : Db) → P db → P (admitted c seconds now q b db)
  unfolding admitted
  admitted-Guard q true db p = route-Guard q db p
  admitted-Guard q false db p = p

  pub serve-Guard : (q : AgentRequest) (db : Db) → P db → P (serve c seconds now q db)
  unfolding serve
  serve-Guard q db p = admitted-Guard q _ db p
