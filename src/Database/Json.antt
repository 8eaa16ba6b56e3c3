-- ===== src/Database/Json.antt =====
-- What the code uses of encoding/json and of SQLite's JSON functions, which are not part of this
-- repository.
use hy_panel.Base.{ℕ, String, ◌≡◌, Bool, true, Option, List}
use hy_panel.Base.Assoc.{Assoc}
use hy_panel.Database.{Client}

pub record Json : Type 0 where
  -- json.Unmarshal into []uint: the slice that it leaves, and whether the error is nil
  pub ids : String → List ℕ × Bool
  -- json.Marshal of a string
  pub show_string : String → String
  -- json_each(clients.inbounds): the values in the array, and json_extract of the hysteria2 password
  pub json_each : String → List ℕ
  pub hysteria2_password : String → Option String

-- What else saving clients uses of them. The value of a key in the config of a client is its text.
pub record ClientJson : Type 0 where
  pub base : Json
  pub id : String → Option ℕ
  pub client : String → Option Client
  pub clients : String → Option (List Client)
  -- json.MarshalIndent of a []uint
  pub show_ids : List ℕ → String
  -- json.Unmarshal into []map[string]string, with what it leaves, and json.MarshalIndent of it
  pub links : String → List (Assoc String) × Bool
  pub show_links : List (Assoc String) → String
  -- json.Unmarshal into map[string]map[string]interface{}, and json.Marshal of it
  pub configs : String → Option (Assoc (Assoc String))
  pub show_configs : Assoc (Assoc String) → String
  -- what Go writes Go reads, and SQLite reads the ids that Go reads
  pub ids-show_ids : (l : List ℕ) → base.ids (show_ids l) ≡ (l, true)
  pub json_each-ids : (s : String) (l : List ℕ) → base.ids s ≡ (l, true) → base.json_each s ≡ l
