-- ===== src/Stats.antt =====
-- service/stats.go: how the traffic that the core counted reaches the clients' rows, and what the
-- panel shows of it. The panel's list of those who are online is a part of the state.
pub mod Credit
pub mod Buckets
use hy_panel.Base.{
  ℕ, ◌+◌, String, Bool, true, false, List, [], ◌∷◌, ◌++◌, map, str_eq, if◌then◌else◌,
}
use hy_panel.Base.Outcome.{Outcome, ok, err}
use hy_panel.Tracker.Stats.{Stats, StatsTracker, Resource, inbound, outbound, user, get_stats}
use hy_panel.Database.{Client, Tables}
use hy_panel.Database.Tx.{World, Tx, pure, execute, finish}

-- onlines
pub record Onlines : Type 0 where
  pub inbounds : List String
  pub users : List String
  pub outbounds : List String

unfoldable pub no_onlines : Onlines
no_onlines = record { inbounds = []; users = []; outbounds = [] }

-- What SaveStats reads and writes.
pub record Panel : Type 0 where
  pub world : World
  pub tracker : StatsTracker
  pub onlines : Onlines

-- UpdateColumn of `up` or `down`, of one row. SQLite adds without a wrap-around; a sum from 2 ^ 63 on,
-- which it keeps as a floating-point number, is not rounded here.
unfoldable pub count_client : Stats → Client → Client
count_client s c =
    if str_eq c.name s.tag
    then if s.direction
      then record c { up = c.up + s.traffic }
      else record c { down = c.down + s.traffic }
    else c

unfoldable pub count_row : Stats → Tables → Tables
unfolding count_client
count_row s t = record t { clients = map (count_client s) t.clients }

unfoldable pub note_resource : Resource → String → Onlines → Onlines
note_resource inbound tag o = record o { inbounds = o.inbounds ++ tag ∷ [] }
note_resource outbound tag o = record o { outbounds = o.outbounds ++ tag ∷ [] }
note_resource user tag o = record o { users = o.users ++ tag ∷ [] }

unfoldable pub note_online : Stats → Onlines → Onlines
unfolding note_resource
note_online s o = if s.direction then note_resource s.resource s.tag o else o

-- The statement for one row, which is there for users only.
unfoldable pub save_row : Stats → Resource → Tx (Unit {0})
unfolding count_row
save_row s inbound w = (ok tt, w)
save_row s outbound w = (ok tt, w)
save_row s user w = execute (count_row s) w

pub record Saved : Type 0 where
  pub result : Outcome (Unit {0})
  pub onlines : Onlines
  pub world : World

-- The end of SaveStats: Create of the rows.
unfoldable pub create_stats : Bool → List Stats → Tx (Unit {0})
create_stats true rows = execute (λ t. record t { stats = t.stats ++ rows })
create_stats false rows = pure tt

-- The loop of SaveStats. `all` are the rows for Create.
unfoldable pub save_rows : Bool → List Stats → List Stats → Onlines → World → Saved
unfolding save_row note_online create_stats
save_rows traffic all [] o w =
    let (r, w') = create_stats traffic all w in record { result = r; onlines = o; world = w' }
save_rows traffic all (s ∷ rest) o w =
    let (r, w') = save_row s s.resource w in
    elim r [
      | err e ↦ record { result = err e; onlines = o; world = w' }
      | ok u ↦ save_rows traffic all rest (note_online s o) w'
    ]

-- SaveStats behind GetStats. The transaction ends as in ClientService: the error of Commit is not
-- looked at.
unfoldable pub save_reported : Bool → List Stats → Panel → Outcome (Unit {0}) × Panel
unfolding save_rows no_onlines
save_reported traffic [] p = (ok tt, record p { onlines = no_onlines })
save_reported traffic (s ∷ rest) p =
    let d = save_rows traffic (s ∷ rest) (s ∷ rest) no_onlines p.world in
    let (r, w) = finish p.world.tables d.result d.world in
    (r, record p { world = w; onlines = d.onlines })

-- SaveStats at the time dt
unfoldable pub save_stats : Bool → ℕ → Panel → Outcome (Unit {0}) × Panel
unfolding save_reported
save_stats traffic dt p =
    if p.world.core.is_running
    then (let (rows, t) = get_stats dt p.tracker in
        save_reported traffic rows (record p { tracker = t }))
    else (ok tt, p)
