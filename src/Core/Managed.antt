-- ===== src/Core/Managed.antt =====
-- core/endpoint.go: AddOutbound and RemoveOutbound. sing-box's outbound manager, and its reading of a
-- config, are parameters.
use hy_panel.Base.{String, ◌≡◌, Option, none, some, if◌then◌else◌, str_eq}
use hy_panel.Base.Assoc.{Assoc, lookup}
use hy_panel.Base.Outcome.{Outcome, ok, err, not_running, core_error, invalid}
use hy_panel.Core.{Core}

pub record Manager : Type 0 where
  -- the tag of a config that sing-box can read
  pub read_tag : String → Option String
  -- Create and Remove of the manager; `err invalid` is os.ErrInvalid
  pub create : String → String → Assoc String → Outcome (Unit {0}) × Assoc String
  pub remove : String → Assoc String → Outcome (Unit {0}) × Assoc String
  -- Create puts the new one in the place of one with its tag, and Remove takes one away; a tag that
  -- is not held is invalid.
  pub lookup-create :
      (tag config key : String) (held held' : Assoc String)
      → create tag config held ≡ (ok tt, held')
      → lookup key held' ≡ (if str_eq tag key then some config else lookup key held)
  pub lookup-remove :
      (tag key : String) (held held' : Assoc String)
      → remove tag held ≡ (ok tt, held')
      → lookup key held' ≡ (if str_eq tag key then none else lookup key held)
  pub remove-invalid :
      (tag : String) (held held' : Assoc String)
      → remove tag held ≡ (err invalid, held')
      → (lookup tag held ≡ none) × (held' ≡ held)

unfoldable pub with_outbounds : Outcome (Unit {0}) × Assoc String → Core → Outcome (Unit {0}) × Core
with_outbounds r c = (r.0, record c { outbounds = r.1 })

-- AddOutbound
unfoldable pub add_outbound : Manager → String → Core → Outcome (Unit {0}) × Core
unfolding with_outbounds
add_outbound m config c =
    if c.is_running
    then elim (m.read_tag config) [
      | none ↦ (err core_error, c)
      | some tag ↦ with_outbounds (m.create tag config c.outbounds) c
    ]
    else (err not_running, c)

-- RemoveOutbound
unfoldable pub remove_outbound : Manager → String → Core → Outcome (Unit {0}) × Core
unfolding with_outbounds
remove_outbound m tag c =
    if c.is_running then with_outbounds (m.remove tag c.outbounds) c else (err not_running, c)
