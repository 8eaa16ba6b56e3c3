-- ===== src/Core/Inbounds.antt =====
-- core/endpoint.go: AddInbound and RemoveInbound. sing-box's inbound manager, and its reading of a config,
-- are parameters.
use hy_panel.Base.{String, Bool, if◌then◌else◌}
use hy_panel.Base.Outcome.{Outcome, err, not_running, core_error}
use hy_panel.Core.{Core}

pub record InboundManager : Type 0 where
  -- whether sing-box reads a config
  pub reads : String → Bool
  -- Create and Remove of the manager; `err invalid` is os.ErrInvalid
  pub create : String → Core → Outcome (Unit {0}) × Core
  pub remove : String → Core → Outcome (Unit {0}) × Core

-- AddInbound
unfoldable pub add_inbound : InboundManager → String → Core → Outcome (Unit {0}) × Core
add_inbound m config c =
    if c.is_running
    then (if m.reads config then m.create config c else (err core_error, c))
    else (err not_running, c)

-- RemoveInbound
unfoldable pub remove_inbound : InboundManager → String → Core → Outcome (Unit {0}) × Core
remove_inbound m tag c = if c.is_running then m.remove tag c else (err not_running, c)
