-- ===== src/Examples/Proxies.antt =====
-- Outbounds that are edited and added.
use hy_panel.Base.{
  String, ◌≡◌, refl, ap, sym, ◌∙◌, Bool, true, false, Option, none, some, [], ◌∷◌, str_eq,
  if◌then◌else◌, arith, Bool-cases, inl, inr,
}
use hy_panel.Base.Value.{number, text, text_at, at, as_text, as_number, or_zero}
use hy_panel.Base.Assoc.{
  Assoc, lookup, insert, remove, overlay, is_some, lookup-insert, lookup-remove,
}
use hy_panel.Base.Outcome.{Outcome, ok, err, invalid}
use hy_panel.Core.Managed.{Manager, add_outbound, remove_outbound}
use hy_panel.Database.{Outbound}
use hy_panel.Database.Tx.{World, ◌>>=◌, query, lift, pure, read_core, call_core, execute_if}
use hy_panel.Outbounds.{OutboundJson, put, marshal, unmarshal, outbound_of}
use hy_panel.Database.Results.{decoded}
use hy_panel.Database.Tx.{execute}
use hy_panel.Outbounds.{delete}
use hy_panel.Outbounds.Deleted.{delete-Agrees}
use hy_panel.Outbounds.Saved.{Agrees, put_edit-Agrees, put_new-Agrees}
use hy_panel.Examples.Panel.{world}

abbrev answer : String → Assoc String → Bool → Outcome (Unit {0}) × Assoc String
answer tag held true = (ok tt, remove tag held)
answer tag held false = (err invalid, held)

abbrev remove_held : String → Assoc String → Outcome (Unit {0}) × Assoc String
remove_held tag held = answer tag held (is_some (lookup tag held))

answer-lookup :
    (tag key : String) (held held' : Assoc String) (b : Bool)
    → answer tag held b ≡ (ok tt, held')
    → lookup key held' ≡ (if str_eq tag key then none else lookup key held)
answer-lookup tag key held held' true e =
    ap (λ (z : Outcome (Unit {0}) × Assoc String). lookup key z.1) (sym e)
    ∙ lookup-remove tag key held
answer-lookup tag key held held' false e = cc (ap (λ z. z.0) e)

answer-invalid :
    (tag : String) (held held' : Assoc String) (o : Option String)
    → lookup tag held ≡ o
    → answer tag held (is_some o) ≡ (err invalid, held')
    → (lookup tag held ≡ none) × (held' ≡ held)
answer-invalid tag held held' none q e = (q, ap (λ z. z.1) (sym e))
answer-invalid tag held held' (some v) q e = cc (ap (λ z. z.0) e)

-- Every text is a config whose tag is the text.
abbrev manager : Manager
manager = record {
  read_tag = some;
  create = λ tag config held. (ok tt, insert tag config held);
  remove = remove_held;
  lookup-create = λ tag config key held held' e.
      ap (λ (z : Outcome (Unit {0}) × Assoc String). lookup key z.1) (sym e)
      ∙ lookup-insert tag key config held;
  lookup-remove =
      λ tag key held held' e. answer-lookup tag key held held' (is_some (lookup tag held)) e;
  remove-invalid = λ tag held held' e. answer-invalid tag held held' (lookup tag held) refl e;
}

-- A config is written as its tag.
abbrev json : OutboundJson
json = record {
  read = λ s.
      if str_eq s "edit"
      then some (("id", number 1) ∷ ("type", text "socks") ∷ ("tag", text "proxy") ∷ [])
      else if str_eq s "new"
      then some (("type", text "direct") ∷ ("tag", text "out") ∷ [])
      else some [];
  show = λ m. elim (text_at "tag" m) [ none ↦ "" | some t ↦ t ];
  read_text = some;
}

abbrev old : Outbound
old = record { id = 1; type = "socks"; tag = "old"; options = some "" }

abbrev panel : World
panel = record world {
  tables = record world.tables { outbounds = old ∷ []; next_outbound_id = 2 };
  core = record world.core { outbounds = ("old", "old") ∷ [] };
}

panel-Agrees : Agrees json panel
unfolding lookup at as_text or_zero as_number marshal overlay
panel-Agrees = record {
  live = λ t. elim (Bool-cases (str_eq "old" t)) [ inl k ↦ rw k refl | inr k ↦ rw k refl ];
}

abbrev proxy : Outbound
proxy = record { id = 1; type = "socks"; tag = "proxy"; options = some "" }

abbrev edited : World
edited = (put manager json true "edit" panel).1

put_edit-Agrees_example : Agrees json edited
unfolding unmarshal outbound_of at as_text or_zero as_number lookup marshal overlay put ◌>>=◌ query
    lift pure read_core call_core execute_if remove remove_outbound add_outbound
put_edit-Agrees_example =
    put_edit-Agrees manager json "edit" proxy old panel edited refl (λ config tag h k. ground arith)
      refl refl refl refl panel-Agrees refl

abbrev fresh : Outbound
fresh = record { id = 0; type = "direct"; tag = "out"; options = some "" }

abbrev added : World
added = (put manager json false "new" panel).1

put_new-Agrees_example : Agrees json added
unfolding unmarshal outbound_of at as_text or_zero as_number lookup marshal overlay put ◌>>=◌ query
    lift pure read_core call_core execute_if remove remove_outbound add_outbound
put_new-Agrees_example =
    put_new-Agrees manager json "new" fresh panel added refl (λ config tag h k. ground arith) refl
      refl refl panel-Agrees refl

abbrev deleted : World
deleted = (delete manager json "old" panel).1

delete-Agrees_example : Agrees json deleted
unfolding unmarshal outbound_of at as_text or_zero as_number lookup delete ◌>>=◌ query lift pure
    read_core call_core execute remove remove_outbound decoded
delete-Agrees_example = delete-Agrees manager json "old" panel deleted refl panel-Agrees refl
