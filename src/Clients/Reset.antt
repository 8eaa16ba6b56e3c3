-- ===== src/Clients/Reset.antt =====
-- ClientService.ResetClients of service/client.go.
pub mod Rowwise
use hy_panel.Base.{
  ℕ, String, ◌≡◌, refl, ◌∙◌, ap, Bool, true, false, not, ◌&&◌, ◌||◌, Option, none, some, List, [],
  ◌∷◌, ◌++◌, map, arith, ltb, if◌then◌else◌, keep_if, has, Bool-cases, inl, inr, All,
}
use Prim.Native.String.{◌++◌ as append_string}
use hy_panel.Base.Int64.{lt_int64, add_int64, mul_int64}
use hy_panel.Base.Outcome.{Outcome, ok, err}
use hy_panel.Arrays.{MapOrder, union_uint_array, has-union_uint_array}
use hy_panel.Database.{Client, Changes, Tables}
use hy_panel.Database.Json.{Json}
use hy_panel.Database.Tx.{
  World, Tx, pure, ◌>>=◌, ◌>>◌, query, execute, set_last_update, unless_empty, >>=-ok, query-ok,
  execute-ok,
}
use hy_panel.Database.Rows.{IsTable, save_clients, clients-save_clients, map_identity}
use hy_panel.Clients.Limits.{sum_gt}

-- json.RawMessage("\"" + name + "\"")
unfoldable pub quoted : String → String
quoted name = append_string "\"" (append_string name "\"")

-- dt + ResetDays days, in seconds
pub days_after : ℕ → ℕ → ℕ
days_after dt days = add_int64 dt (mul_int64 days 86400)

-- The three queries.
unfoldable pub starts_once : Client → Bool
starts_once c = c.enable && (c.delay_start && (not c.auto_reset && sum_gt c.up c.down 0))

unfoldable pub starts_periodic : Client → Bool
starts_periodic c = c.enable && (c.delay_start && (c.auto_reset && sum_gt c.up c.down 0))

unfoldable pub is_due : ℕ → Client → Bool
is_due dt c = not c.delay_start && (c.auto_reset && lt_int64 c.next_reset dt)

-- What the three loops do with a client.
unfoldable pub start_once : ℕ → Client → Client
unfolding days_after
start_once dt c = record c { expiry = days_after dt c.reset_days; delay_start = false }

unfoldable pub start_periodic : ℕ → Client → Client
unfolding days_after
start_periodic dt c = record c { next_reset = days_after dt c.reset_days; delay_start = false }

-- A client that is due: its counters go to the totals, and it is enabled unless it is banned.
unfoldable pub renew : ℕ → Client → Client
unfolding days_after
renew dt c = record c {
  next_reset = days_after dt c.reset_days;
  total_up = add_int64 c.total_up c.up;
  total_down = add_int64 c.total_down c.down;
  up = 0;
  down = 0;
  enable = if not c.enable && not c.banned then true else c.enable;
}

pub reset_change : ℕ → Client → Changes
unfolding quoted
reset_change dt c = record {
  date_time = dt;
  actor = "ResetJob";
  key = "clients";
  action = "reset";
  obj = quoted c.name;
}

unfoldable pub create_changes : List Changes → Tables → Tables
create_changes rows t = record t { changes = t.changes ++ rows }

module _ (json : Json) (order : MapOrder) where
  -- The inbounds of the clients that the third loop enables; an error of Unmarshal is not looked at.
  unfoldable pub enabled_inbounds : List Client → List ℕ → List ℕ
  enabled_inbounds [] ids = ids
  enabled_inbounds (c ∷ cs) ids = enabled_inbounds cs (
      if not c.enable && not c.banned
      then union_uint_array order ids (json.ids c.inbounds).0
      else ids)

  -- The end of ResetClients: Save of all changed clients, and Create of the changes.
  unfoldable pub write_resets : ℕ → List Client → List Client → List Client → Tx (List ℕ)
  unfolding start_once start_periodic renew enabled_inbounds reset_change create_changes
  write_resets dt once periodic due = do
    unless_empty (once ++ periodic ++ due) (
        execute (
          save_clients
            (map (start_once dt) once ++ map (start_periodic dt) periodic ++ map (renew dt) due)))
    unless_empty (once ++ periodic)
        (do execute (create_changes (map (reset_change dt) (once ++ periodic))); set_last_update dt)
    pure (enabled_inbounds due [])

  -- ResetClients
  unfoldable pub reset_clients : ℕ → Tx (List ℕ)
  unfolding write_resets
  reset_clients dt = do
    once ← query (λ t. keep_if starts_once t.clients)
    periodic ← query (λ t. keep_if starts_periodic t.clients)
    due ← query (λ t. keep_if (is_due dt) t.clients)
    write_resets dt once periodic due
