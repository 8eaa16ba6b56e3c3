-- ===== src/Core.antt =====
-- The part of core/endpoint.go that looks after the users of live Hysteria2 inbounds. sing-box's inbound
-- manager is given by what it holds: the Hysteria2 inbounds by their tags, and the tags of the others.
pub mod Users
pub mod Managed
pub mod Inbounds
use hy_panel.Base.{String, Bool, true, List, Option, none, some, if◌then◌else◌}
use hy_panel.Base.Assoc.{Assoc, lookup, insert, has_string}
use hy_panel.Base.Outcome.{Outcome, ok, err, Error, not_running, no_inbound, wrong_type, panicked}
use hy_panel.Hysteria.{Service, replace_users}

-- Core, with the inbounds of its manager
pub record Core : Type 0 where
  pub is_running : Bool
  pub hysteria2 : Assoc Service
  pub others : List String
  -- what the outbound manager holds: the config of each tag
  pub outbounds : Assoc String

-- hysteria2Inbound
pub hysteria2_inbound : String → Core → Outcome Service
hysteria2_inbound tag c =
    if c.is_running
    then elim (lookup tag c.hysteria2) [
      | some s ↦ ok s
      | none ↦ if has_string tag c.others then err wrong_type else err no_inbound
    ]
    else err not_running

store_service : String → Option Service → Core → Outcome (Unit {0}) × Core
store_service tag none c = (err panicked, c)
store_service tag (some s) c = (ok tt, record c { hysteria2 = insert tag s c.hysteria2 })

update_service :
    String → List String → List String → Outcome Service → Core → Outcome (Unit {0}) × Core
unfolding store_service
update_service tag names passwords (err e) c = (err e, c)
update_service tag names passwords (ok s) c = store_service tag (replace_users names passwords s) c

-- UpdateInboundUsers
unfoldable pub update_inbound_users :
    String → List String → List String → Core → Outcome (Unit {0}) × Core
unfolding hysteria2_inbound update_service
update_inbound_users tag names passwords c =
    update_service tag names passwords (hysteria2_inbound tag c) c
