-- ===== src/Settings/Stored.antt =====
-- What is read of the settings after one was saved.
use hy_panel.Base.{
  ℕ, String, ◌≡◌, refl, ◌∙◌, ap, true, false, Option, none, some, List, [], ◌∷◌, ◌++◌, map, arith,
  ◌==◌, str_eq, eq_iff, if◌then◌else◌, first_of?, has, distinct,
}
use hy_panel.Base.Outcome.{Outcome, ok}
use hy_panel.Database.{Setting, Tables}
use hy_panel.Database.Tx.{World, query, query->>=-ok, execute-ok, ◌>>=◌, lift}
use hy_panel.Settings.{
  Constants, get_setting, store_setting, create_setting, update_setting, save_setting,
  value_or_default, get_string,
}

abbrev pub setting_ids : List Setting → List ℕ
setting_ids = map λ s. s.id

abbrev pub find_setting : String → List Setting → Option Setting
find_setting key = first_of? (λ s. str_eq s.key key)

-- What getString finds in the tables.
abbrev pub string_of : Constants → String → Tables → Outcome String
string_of c key t = value_or_default c key (find_setting key t.settings)

found_id :
    (key : String) (rows : List Setting) (s : Setting)
    → find_setting key rows ≡ some s
    → (has s.id (setting_ids rows) ≡ true) × (str_eq s.key key ≡ true)
found_id key [] s e = cc
found_id key (r ∷ rs) s e = ground (arith, found_id key rs s)

update_absent :
    (i : ℕ) (s : Setting) (rows : List Setting)
    → has i (setting_ids rows) ≡ false
    → map (λ r. if r.id == i then s else r) rows ≡ rows
update_absent i s [] h = refl
update_absent i s (r ∷ rs) h = ground (arith, update_absent i s rs)

find_setting-update :
    (key k value : String) (rows : List Setting) (s : Setting)
    → distinct (setting_ids rows) ≡ true
    → find_setting key rows ≡ some s
    → find_setting k
        (map (λ r. if r.id == s.id then record s { key = key; value = value } else r) rows)
      ≡ (if str_eq key k then some (record s { key = key; value = value }) else find_setting k rows)
find_setting-update key k value [] s d e = cc
find_setting-update key k value (r ∷ rs) s d e = ground (
  arith,
  find_setting-update key k value rs s,
  found_id key rs s,
  update_absent s.id (record s { key = key; value = value }) rs,
  eq_iff r.key key,
  eq_iff r.key k,
  eq_iff key k,
)

find_setting-append :
    (k : String) (rows : List Setting) (s : Setting)
    → find_setting k (rows ++ s ∷ []) ≡ elim (find_setting k rows) [
      | none ↦ if str_eq s.key k then some s else none
      | some r ↦ some r
    ]
find_setting-append k [] s = ground arith
find_setting-append k (r ∷ rs) s = ground (arith, find_setting-append k rs s)

stored :
    (c : Constants) (key k value : String) (t t' : Tables) (row : Option Setting)
    → distinct (setting_ids t.settings) ≡ true
    → find_setting key t.settings ≡ row
    → t' ≡ elim row [
      | none ↦ create_setting key value t
      | some s ↦ update_setting (record s { key = key; value = value }) t
    ]
    → string_of c k t' ≡ (if str_eq key k then ok value else string_of c k t)
unfolding create_setting update_setting value_or_default
stored c key k value t t' none d e h =
    let new : Setting = record { id = t.next_setting_id; key = key; value = value } in
    rw (h, find_setting-append k t.settings new) (go (find_setting k t.settings) refl)
  where
    go :
        (o : Option Setting)
        → find_setting k t.settings ≡ o
        → value_or_default c k (elim o [
          | none ↦
              if str_eq key k
              then some (record { id = t.next_setting_id; key = key; value = value })
              else none
          | some r ↦ some r
        ])
          ≡ (if str_eq key k then ok value else value_or_default c k o)
    go none q = ground arith
    go (some r) q = ground (arith, eq_iff key k)
stored c key k value t t' (some s) d e h =
    rw (h, find_setting-update key k value t.settings s d e) (ground arith)

-- On settings whose ids are unique, saveSetting that returns nil has set the value of its key, and
-- the value of every other key, default or error included, is what it was.
pub save_setting-string_of :
    (c : Constants) (key k value : String) (w w' : World)
    → distinct (setting_ids w.tables.settings) ≡ true
    → save_setting key value w ≡ (ok tt, w')
    → string_of c k w'.tables ≡ (if str_eq key k then ok value else string_of c k w.tables)
unfolding save_setting get_setting store_setting
save_setting-string_of c key k value w w' d e =
    let (w₁, t₁, r) = query->>=-ok _ _ w w' tt e in
    go (find_setting key w.tables.settings) refl w₁ t₁ r
  where
    go :
        (row : Option Setting)
        → find_setting key w.tables.settings ≡ row
        → (w₁ : World) → w₁.tables ≡ w.tables
        → store_setting key value row w₁ ≡ (ok tt, w')
        → string_of c k w'.tables ≡ (if str_eq key k then ok value else string_of c k w.tables)
    go none q w₁ t₁ r =
        stored c key k value w.tables w'.tables none d q
          (execute-ok (create_setting key value) w₁ w' r ∙ ap (create_setting key value) t₁)
    go (some s) q w₁ t₁ r =
        let f = update_setting (record s { key = key; value = value }) in
        stored c key k value w.tables w'.tables (some s) d q (execute-ok f w₁ w' r ∙ ap f t₁)

-- Where the query does not fail, getString returns what the tables hold.
pub get_string-string_of :
    (c : Constants) (key : String) (w : World)
    → w.faults ≡ []
    → (get_string c key w).0 ≡ string_of c key w.tables
unfolding get_string get_setting ◌>>=◌ query lift
get_string-string_of c key w f = rw f refl
