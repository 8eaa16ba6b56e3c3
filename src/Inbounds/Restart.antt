-- ===== src/Inbounds/Restart.antt =====
-- service/inbounds.go: RestartInbounds, UpdateOutJsons and GetAllConfig, over the rows of the inbounds.
pub mod Kept
pub mod Written
use hy_panel.Base.{
  ℕ, String, Bool, true, false, not, ◌||◌, Option, none, some, List, [], ◌∷◌, map, ◌==◌, str_eq,
  if◌then◌else◌, keep_if, any_of, has, first_of?,
}
use hy_panel.Base.Outcome.{Outcome, ok, err}
use hy_panel.Core.{Core}
use hy_panel.Core.Inbounds.{InboundManager, add_inbound, remove_inbound}
use hy_panel.Database.{Inbound, Tables, TlsRow}
use hy_panel.Database.Tx.{Tx, pure, lift, ◌>>=◌, ◌>>◌, query, execute, read_core, call_core}
use hy_panel.Inbounds.Config.{InboundLib, config_of}
use hy_panel.Outbounds.{unless_invalid}
use hy_panel.Util.OutJson.{fill_out_json}

-- The row of `tls` that an inbound points to
unfoldable pub tls_row : ℕ → List TlsRow → Option TlsRow
tls_row id rows = if id == 0 then none else first_of? (λ r. r.id == id) rows

-- Preload of the rows of `tls`: a second query, if any inbound points to one.
unfoldable pub preload : List Inbound → Tx (List TlsRow)
preload inbounds =
    if any_of (λ i. not (i.tls_id == 0)) inbounds then query (λ t. t.tls) else pure []

unfoldable pub find_inbounds : (Inbound → Bool) → Tx (List Inbound × List TlsRow)
find_inbounds p = do
  inbounds ← query (λ t. keep_if p t.inbounds)
  rows ← preload inbounds
  pure (inbounds, rows)

module _ (m : InboundManager) (close_connections : String → Core → Core) (lib : InboundLib) where
  -- One iteration of RestartInbounds. `close_connections` is CloseConnByInbound of the core's tracker.
  unfoldable pub restart_one : List TlsRow → Inbound → Tx (Unit {0})
  restart_one rows i = do
    call_core (λ c. unless_invalid (remove_inbound m i.tag c))
    call_core (λ c. (ok tt, close_connections i.tag c))
    config ← config_of lib i (tls_row i.tls_id rows)
    call_core (add_inbound m config)

  unfoldable pub restart_each : List TlsRow → List Inbound → Tx (Unit {0})
  restart_each rows [] = pure tt
  restart_each rows (i ∷ is) = restart_one rows i >> restart_each rows is

  -- RestartInbounds
  unfoldable pub restart_inbounds : List ℕ → Tx (Unit {0})
  restart_inbounds ids = do
    running ← read_core (λ c. c.is_running)
    if running
        then (do (inbounds, rows) ← find_inbounds (λ i. has i.id ids); restart_each rows inbounds)
        else pure tt

-- The statement that writes one `out_json`
unfoldable pub write_out_json : String → String → Tables → Tables
write_out_json tag out t = record t {
  inbounds = map (λ i. if str_eq i.tag tag then record i { out_json = out } else i) t.inbounds;
}

module _ (random_int : ℕ → ℕ) (lib : InboundLib) (hostname : String) where
  unfoldable pub update_each_out : List TlsRow → List Inbound → Tx (Unit {0})
  update_each_out rows [] = pure tt
  update_each_out rows (i ∷ is) = do
    filled ← lift (fill_out_json random_int lib.go i (tls_row i.tls_id rows) hostname)
    execute (write_out_json filled.tag filled.out_json)
    update_each_out rows is

  -- UpdateOutJsons
  unfoldable pub update_out_jsons : List ℕ → Tx (Unit {0})
  update_out_jsons ids = do
    (inbounds, rows) ← find_inbounds (λ i. has i.id ids)
    update_each_out rows inbounds

module _ (lib : InboundLib) where
  unfoldable pub config_each : List TlsRow → List Inbound → Tx (List String)
  config_each rows [] = pure []
  config_each rows (i ∷ is) = do
    config ← config_of lib i (tls_row i.tls_id rows)
    rest ← config_each rows is
    pure (config ∷ rest)

  -- GetAllConfig
  unfoldable pub get_all_config : Tx (List String)
  get_all_config = do (inbounds, rows) ← find_inbounds (λ i. true); config_each rows inbounds
