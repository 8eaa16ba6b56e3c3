-- ===== src/Inbounds/Restart/Written.antt =====
-- What UpdateOutJsons of service/inbounds.go writes: `out_json`, of the inbounds with the tags that it is given.
use hy_panel.Base.{
  ℕ, String, ◌≡◌, refl, ap, Bool, not, List, [], ◌∷◌, map, str_eq, any_of, Bool-cases, inl, inr,
  ◌==◌, if◌then◌else◌,
}
use hy_panel.Core.{Core}
use hy_panel.Database.{Inbound, Tables, TlsRow}
use hy_panel.Database.Tx.{World}
use hy_panel.Database.Tx.Views.{
  Shows, Shows-bind, Shows-pure, Shows-lift, Shows-query, Shows-execute,
}
use hy_panel.Inbounds.Config.{InboundLib}
use hy_panel.Inbounds.Restart.{
  preload, find_inbounds, write_out_json, update_each_out, update_out_jsons,
}

abbrev bare : Inbound → Inbound
bare i = record i { out_json = "" }

-- The tables without `out_json`
abbrev pub without_out : Tables → Tables
without_out t = record t { inbounds = map bare t.inbounds }

-- The tables without `out_json`, and the core
abbrev pub all_else : Tables → Core → Tables × Core
all_else t c = (without_out t, c)

write_out_json-bare :
    (tag out : String) (is : List Inbound)
    → map bare (map (λ i. if str_eq i.tag tag then record i { out_json = out } else i) is)
      ≡ map bare is
write_out_json-bare tag out [] = refl
write_out_json-bare tag out (i ∷ is) =
    let rest = write_out_json-bare tag out is in
    elim (Bool-cases (str_eq i.tag tag)) [
      | inl k ↦ rw k (ap (λ l. bare i ∷ l) rest)
      | inr k ↦ rw k (ap (λ l. bare i ∷ l) rest)
    ]

write_out_json-all_else :
    (tag out : String) (t : Tables) (c : Core)
    → all_else (write_out_json tag out t) c ≡ all_else t c
unfolding write_out_json
write_out_json-all_else tag out t c =
    ap (λ (l : List Inbound). (record t { inbounds = l }, c))
      (write_out_json-bare tag out t.inbounds)

preload-Shows : (is : List Inbound) → Shows all_else (preload is)
unfolding preload
preload-Shows is = elim (Bool-cases (any_of (λ i. not (i.tls_id == 0)) is)) [
  | inl k ↦ rw k (Shows-query all_else (λ t. t.tls))
  | inr k ↦ rw k (Shows-pure all_else [])
]

find_inbounds-Shows : (p : Inbound → Bool) → Shows all_else (find_inbounds p)
unfolding find_inbounds
find_inbounds-Shows p =
    Shows-bind all_else _ _ (Shows-query all_else _)
      (λ is. Shows-bind all_else _ _ (preload-Shows is) (λ rows. Shows-pure all_else (is, rows)))

update_each_out-Shows :
    (random_int : ℕ → ℕ) (lib : InboundLib) (hostname : String) (rows : List TlsRow)
    (is : List Inbound)
    → Shows all_else (update_each_out random_int lib hostname rows is)
unfolding update_each_out
update_each_out-Shows random_int lib hostname rows [] = Shows-pure all_else tt
update_each_out-Shows random_int lib hostname rows (i ∷ is) =
    Shows-bind all_else _ _ (Shows-lift all_else _) (λ filled.
      Shows-bind all_else _ _
        (Shows-execute all_else _ (write_out_json-all_else filled.tag filled.out_json))
        (λ u. update_each_out-Shows random_int lib hostname rows is))

-- UpdateOutJsons, also when it fails on the way, changes nothing but `out_json` of inbounds: all
-- else in the tables, and the core, are as before.
pub update_out_jsons-all_else :
    (random_int : ℕ → ℕ) (lib : InboundLib) (hostname : String) (ids : List ℕ) (w : World)
    → (without_out (update_out_jsons random_int lib hostname ids w).1.tables ≡ without_out w.tables)
      × ((update_out_jsons random_int lib hostname ids w).1.core ≡ w.core)
unfolding update_out_jsons
update_out_jsons-all_else random_int lib hostname ids w =
    let shows : Shows all_else (update_out_jsons random_int lib hostname ids) =
      Shows-bind all_else _ _ (find_inbounds-Shows _)
        (λ found. update_each_out-Shows random_int lib hostname found.1 found.0) in
    (ap (λ (z : Tables × Core). z.0) (shows.at w), ap (λ (z : Tables × Core). z.1) (shows.at w))
