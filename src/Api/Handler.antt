-- ===== src/Api/Handler.antt =====
-- server/src/http/app.ts: `buildApp`, the routes together. Two of them are open, and every other one
-- takes the owner from the bearer token.
use hyper_solid.Prelude.{String, Option, none, some}
use hyper_solid.Number.{Number}
use hyper_solid.Api.Types.{App, AppDeps, Draws, Reply, Body, Request}
use hyper_solid.Api.Account
use hyper_solid.Api.Account.{reply, fail, owner_of}
use hyper_solid.Api.Automation

module _ {N : Type 0} ⦃num : Number N⦄ where
  -- A route behind the token.
  unfoldable pub serve : AppDeps N → Draws N → String → Request N → App N → Reply N × App N
  serve deps draws owner Request.agent_provision app = Account.agent_provision deps draws owner app
  serve deps draws owner (Request.agent_confirm body) app =
      Account.agent_confirm deps draws owner body app
  serve deps draws owner Request.get_agent_status app =
      Account.get_agent_status deps draws owner app
  serve deps draws owner Request.agent_revoke app = Account.agent_revoke deps owner app
  serve deps draws owner (Request.push_register body) app =
      Account.push_register deps draws owner body app
  serve deps draws owner (Request.push_unregister body) app =
      Account.push_unregister deps owner body app
  serve deps draws owner Request.get_prefs app = Account.get_prefs deps owner app
  serve deps draws owner (Request.set_prefs body) app = Account.set_prefs deps draws owner body app
  serve deps draws owner Request.get_hours app = Account.get_hours deps owner app
  serve deps draws owner (Request.set_hours body) app = Account.set_hours deps owner body app
  serve deps draws owner Request.list_strategies app = Automation.list_strategies deps owner app
  serve deps draws owner (Request.create_strategy body) app =
      Automation.create_strategy deps draws owner body app
  serve deps draws owner (Request.patch_strategy id status) app =
      Automation.patch_strategy deps owner id status app
  serve deps draws owner (Request.delete_strategy id) app =
      Automation.delete_strategy deps owner id app
  serve deps draws owner (Request.strategy_activity id) app =
      Automation.strategy_activity deps owner id app
  serve deps draws owner (Request.strategy_rungs id) app =
      Automation.strategy_rungs deps owner id app
  serve deps draws owner (Request.recent_activity limit) app =
      Automation.recent_activity deps owner limit app
  serve deps draws owner Request.kill_switch app = Automation.kill_switch deps owner app
  serve deps draws owner _ app = (fail 404 "Not Found", app)

  abbrev pub serve_owner : AppDeps N → Draws N → Option String → Request N → App N → Reply N × App N
  serve_owner deps draws none request app = (fail 401 "unauthorized", app)
  serve_owner deps draws (some owner) request app = serve deps draws owner request app

  -- A request with its `Authorization` header.
  unfoldable pub handle : AppDeps N → Draws N → Option String → Request N → App N → Reply N × App N
  unfolding serve
  handle deps draws authorization Request.get_health app =
      (reply 200 (Body.health deps.version), app)
  handle deps draws authorization (Request.auth_challenge body) app =
      Account.auth_challenge deps draws body app
  handle deps draws authorization (Request.auth_session body) app =
      Account.auth_session deps draws body app
  handle deps draws authorization request app =
      serve_owner deps draws (owner_of deps draws.now authorization) request app
