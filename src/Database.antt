-- ===== src/Database.antt =====
-- The rows of database/model/model.go that the panel's services keep, and transactions on them. A JSON
-- column is the text that it holds.
pub mod Tx
pub mod Json
pub mod Rows
pub mod Keys
pub mod Results
use hy_panel.Base.{ℕ, String, Bool, Option, List}
use hy_panel.Tracker.Stats.{Stats}

-- model.Client; int64 columns are bit patterns of 64 bits (Base/Int64).
pub record Client : Type 0 where
  pub id : ℕ
  pub enable : Bool
  pub name : String
  pub config : String
  pub inbounds : String
  pub links : String
  pub volume : ℕ
  pub expiry : ℕ
  pub down : ℕ
  pub up : ℕ
  pub desc : String
  pub group : String
  pub banned : Bool
  pub banned_at : ℕ
  pub delay_start : Bool
  pub auto_reset : Bool
  pub reset_days : ℕ
  pub next_reset : ℕ
  pub total_up : ℕ
  pub total_down : ℕ

-- model.Changes, without its id
pub record Changes : Type 0 where
  pub date_time : ℕ
  pub actor : String
  pub key : String
  pub action : String
  pub obj : String

-- model.Tls, without its dns rules
pub record TlsRow : Type 0 where
  pub id : ℕ
  pub name : String
  pub server : String
  pub client : String

-- model.Inbound of database/model/inbounds.go, without the row of `tls` that it points to. Without
-- Options there is `none`.
pub record Inbound : Type 0 where
  pub id : ℕ
  pub type : String
  pub tag : String
  pub tls_id : ℕ
  pub addrs : String
  pub out_json : String
  pub options : Option String

-- model.User
pub record User : Type 0 where
  pub id : ℕ
  pub username : String
  pub password : String
  pub last_logins : String

-- model.Tokens, without the user that it points to
pub record Token : Type 0 where
  pub id : ℕ
  pub desc : String
  pub token : String
  pub expiry : ℕ
  pub user_id : ℕ

-- model.Setting
pub record Setting : Type 0 where
  pub id : ℕ
  pub key : String
  pub value : String

-- model.Outbound. Without Options there is `none`.
pub record Outbound : Type 0 where
  pub id : ℕ
  pub type : String
  pub tag : String
  pub options : Option String

-- The tables. `next_client_id` is SQLite's sequence for the clients.
pub record Tables : Type 0 where
  pub clients : List Client
  pub next_client_id : ℕ
  pub inbounds : List Inbound
  pub changes : List Changes
  pub stats : List Stats
  pub users : List User
  pub next_user_id : ℕ
  pub tokens : List Token
  pub next_token_id : ℕ
  pub settings : List Setting
  pub next_setting_id : ℕ
  pub outbounds : List Outbound
  pub next_outbound_id : ℕ
  pub next_inbound_id : ℕ
  pub tls : List TlsRow
  pub next_tls_id : ℕ
