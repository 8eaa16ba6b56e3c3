-- ===== src/Outbounds.antt =====
-- service/outbounds.go and database/model/outbounds.go: the outbounds, their rows and the running core.
pub mod Rows
pub mod Synced
pub mod Saved
pub mod Deleted
use hy_panel.Base.{
  ℕ, suc, String, Bool, true, false, not, ◌&&◌, Option, none, some, List, [], ◌∷◌, ◌++◌, ◌==◌,
  str_eq, if◌then◌else◌, keep_if, any_of, first_of?,
}
use hy_panel.Base.Assoc.{Assoc, remove, overlay}
use hy_panel.Base.Value.{Value, text, text_at, number_at, or_zero}
use hy_panel.Base.Outcome.{Outcome, ok, err, Error, json_error, panicked, unknown_action, invalid}
use hy_panel.Core.{Core}
use hy_panel.Core.Managed.{Manager, add_outbound, remove_outbound}
use hy_panel.Database.{Outbound, Tables}
use hy_panel.Database.Tx.{
  World, Tx, pure, fail, lift, ◌>>=◌, ◌>>◌, query, execute, execute_if, read_core, call_core,
}
use hy_panel.Database.Results.{decoded}

-- json.Unmarshal into a map and into a text, and json.Marshal of a map.
pub record OutboundJson : Type 0 where
  pub read : String → Option (Assoc Value)
  pub show : Assoc Value → String
  pub read_text : String → Option String

-- The fields that go to Options.
unfoldable pub rest_of : Assoc Value → Assoc Value
rest_of m = remove "tag" (remove "type" (remove "id" m))

module _ (j : OutboundJson) where
  unfoldable pub outbound_of : Assoc Value → Outcome Outbound
  unfolding or_zero rest_of
  outbound_of m = elim (text_at "tag" m) [
    | none ↦ err panicked
    | some tag ↦ ok record {
      id = or_zero 0 (number_at "id" m);
      type = or_zero "" (text_at "type" m);
      tag = tag;
      options = some (j.show (rest_of m));
    }
  ]

  -- UnmarshalJSON of an outbound; without a tag that is a text, it panics.
  unfoldable pub unmarshal : String → Outcome Outbound
  unfolding outbound_of
  unmarshal data_text = elim (j.read data_text) [ none ↦ err json_error | some m ↦ outbound_of m ]

  abbrev fixed : Outbound → Assoc Value
  fixed o = ("type", text o.type) ∷ ("tag", text o.tag) ∷ []

  -- MarshalJSON of an outbound
  unfoldable pub marshal : Outbound → Outcome String
  unfolding overlay
  marshal o = elim o.options [
    | none ↦ ok (j.show (fixed o))
    | some s ↦ elim (j.read s) [
      | none ↦ err json_error
      | some rest ↦ ok (j.show (overlay rest (fixed o)))
    ]
  ]

-- Find of the tag of a row, which leaves the empty text if there is none.
unfoldable pub tag_of_row : ℕ → List Outbound → String
tag_of_row id rows = elim (first_of? (λ r. r.id == id) rows) [ none ↦ "" | some r ↦ r.tag ]

-- The unique column `tag`.
unfoldable pub tag_is_free : Outbound → List Outbound → Bool
tag_is_free o rows = not (any_of (λ r. str_eq r.tag o.tag && not (r.id == o.id)) rows)

unfoldable pub upsert : Outbound → List Outbound → List Outbound
upsert o [] = o ∷ []
upsert o (r ∷ rs) = let rest = upsert o rs in if r.id == o.id then o ∷ rs else r ∷ rest

unfoldable pub write_outbound : Outbound → Tables → Tables
unfolding upsert
write_outbound o t =
    if o.id == 0
    then record t {
      outbounds = t.outbounds ++ record o { id = t.next_outbound_id } ∷ [];
      next_outbound_id = suc t.next_outbound_id;
    }
    else record t { outbounds = upsert o t.outbounds }

unfoldable pub save_row : Outbound → Tx (Unit {0})
unfolding tag_is_free write_outbound
save_row o = execute_if (λ t. tag_is_free o t.outbounds) (write_outbound o)

unfoldable pub drop_rows : String → Tables → Tables
drop_rows tag t = record t { outbounds = keep_if (λ r. not (str_eq r.tag tag)) t.outbounds }

-- An error that is os.ErrInvalid is passed over.
unfoldable pub unless_invalid : Outcome (Unit {0}) × Core → Outcome (Unit {0}) × Core
unless_invalid (ok u, c) = (ok u, c)
unless_invalid (err invalid, c) = (ok tt, c)
unless_invalid (err e, c) = (err e, c)

module _ (m : Manager) where
  unfoldable pub take_down : String → Tx (Unit {0})
  unfolding unless_invalid
  take_down tag = call_core (λ c. unless_invalid (remove_outbound m tag c))

  unfoldable pub take_down_old : Bool → ℕ → Tx (Unit {0})
  unfolding take_down tag_of_row
  take_down_old true id = do old_tag ← query (λ t. tag_of_row id t.outbounds); take_down old_tag
  take_down_old false id = pure tt

  unfoldable pub take_down_live : Bool → String → Tx (Unit {0})
  unfolding take_down
  take_down_live true tag = take_down tag
  take_down_live false tag = pure tt

module _ (m : Manager) (j : OutboundJson) where
  -- What Save does with the core before it writes the row.
  unfoldable pub put_live : Bool → Bool → Outbound → Tx (Unit {0})
  unfolding take_down_old marshal
  put_live false edit o = pure tt
  put_live true edit o = do
    config ← lift (marshal j o)
    take_down_old m edit o.id
    call_core (add_outbound m config)

  -- Save, "new" and "edit"
  unfoldable pub put : Bool → String → Tx (Unit {0})
  unfolding unmarshal put_live save_row
  put edit data_text = do
    o ← lift (unmarshal j data_text)
    running ← read_core (λ c. c.is_running)
    put_live running edit o
    save_row o

  -- Save, "del"
  unfoldable pub delete : String → Tx (Unit {0})
  unfolding take_down_live drop_rows
  delete data_text = do
    tag ← lift (decoded (j.read_text data_text))
    running ← read_core (λ c. c.is_running)
    take_down_live m running tag
    execute (drop_rows tag)

  -- Save of OutboundService
  unfoldable pub save : String → String → Tx (Unit {0})
  unfolding put delete
  save act data_text =
      if str_eq act "new"
      then put false data_text
      else if str_eq act "edit"
      then put true data_text
      else if str_eq act "del"
      then delete data_text
      else fail unknown_action

module _ (j : OutboundJson) where
  unfoldable pub marshal_each : List Outbound → Outcome (List String)
  unfolding marshal
  marshal_each [] = ok []
  marshal_each (o ∷ os) =
      let rest = marshal_each os in
      elim (marshal j o) [
        | err e ↦ err e
        | ok c ↦ elim rest [ err e ↦ err e | ok cs ↦ ok (c ∷ cs) ]
      ]

  -- GetAllConfig
  unfoldable pub get_all_config : Tx (List String)
  unfolding marshal_each
  get_all_config = do rows ← query (λ t. t.outbounds); lift (marshal_each rows)
