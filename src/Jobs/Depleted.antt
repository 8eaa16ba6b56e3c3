-- ===== src/Jobs/Depleted.antt =====
-- Who can use a Hysteria2 inbound after the job has run.
use hy_panel.Base.{
  ℕ, String, ◌≡◌, ◌≢◌, refl, sym, ap, ◌∙◌, subst, Bool, true, false, not, ◌&&◌, none, List, [], ◌∷◌,
  map, arith, str_eq, has, any_of, All, Bool-cases, inl, inr,
}
use hy_panel.Base.Assoc.{lookup}
use hy_panel.Base.Outcome.{Outcome, ok}
use hy_panel.Arrays.{MapOrder}
use hy_panel.Core.{Core}
use hy_panel.Database.{Client, Inbound, Tables}
use hy_panel.Database.Json.{Json}
use hy_panel.Database.Rows.{IsTable}
use hy_panel.Database.Tx.{World, Tx, pure, attempt, unless_empty}
use hy_panel.Inbounds.{tag_of, hy2_ids, apply_user_changes}
use hy_panel.Inbounds.Types.{is_hy2, has-hy2_ids, has-keep_if}
use hy_panel.Inbounds.Users.{may_use, has_password, has_string-live_passwords}
use hy_panel.Inbounds.Apply.{
  IsUp, IsApart, RestartKeeps, UniqueTags, AllLive, Applied, live_ids, apply_user_changes-Applied,
}
use hy_panel.Clients.Limits.{is_depleted}
use hy_panel.Clients.Reset.Rowwise.{reset_row}
use hy_panel.Clients.Deplete.{deplete_clients, disable_row}
use hy_panel.Clients.Deplete.Rowwise.{deplete_row, touched}
use hy_panel.Clients.Deplete.Coverage.{touched_covers}
use hy_panel.Clients.Deplete.Outcomes.{deplete_clients-returns}
use hy_panel.Clients.Deplete.Beside.{deplete_clients-Beside}
use hy_panel.Clients.Ban.Evicted.{Admits}
use hy_panel.Jobs.{bring_up_to_date, deplete_job}

-- The Hysteria2 inbounds among some ids are updated live.
has-live_ids :
    (id : ℕ) (ids : List ℕ) (rows : List Inbound)
    → is_hy2 id rows ≡ true
    → has id (live_ids ids rows) ≡ has id ids
has-live_ids id ids rows h =
    ground (arith, has-keep_if (λ n. has n (hy2_ids ids rows)) id ids, has-hy2_ids id ids rows)

guarded-Applied :
    (json : Json) (restart : List ℕ → Tx (Unit {0})) (ids : List ℕ) (w : World)
    → RestartKeeps restart
    → IsUp w
    → UniqueTags w.tables.inbounds
    → AllLive w (live_ids ids w.tables.inbounds)
    → IsApart w
    → Applied json ids w (unless_empty ids (apply_user_changes json restart (ok true) ids) w)
unfolding unless_empty
guarded-Applied json restart [] w k u q l apart = record {
  succeeds = unfold pure in λ e. refl;
  tables = unfold pure in refl;
  serves = λ id h. cc;
  others = unfold pure in λ tag h. refl;
}
guarded-Applied json restart (i ∷ is) w k u q l apart =
    apply_user_changes-Applied json restart (i ∷ is) w k u q l apart

deplete_row-columns :
    (dt : ℕ) (c : Client)
    → ((deplete_row dt c).inbounds ≡ c.inbounds)
      × ((deplete_row dt c).config ≡ c.config)
      × ((deplete_row dt c).banned ≡ c.banned)
unfolding deplete_row disable_row reset_row
deplete_row-columns dt c = ground arith

either_way : (a b : Bool) → (a ≢ b → true ≡ false) → a ≡ b
either_way true true h = refl
either_way false false h = refl
either_way true false h = h (λ e. cc e)
either_way false true h = sym (h (λ e. cc e))

has_password-deplete_row :
    (json : Json) (dt : ℕ) (pw : String) (c : Client)
    → has_password json pw (deplete_row dt c) ≡ has_password json pw c
unfolding has_password
has_password-deplete_row json dt pw c =
    let (a, config, b) = deplete_row-columns dt c in rw config refl

-- A client of whom no inbound is touched is let in as before.
may_use-deplete_row :
    (json : Json) (dt id : ℕ) (pw : String) (c : Client)
    → has id (json.json_each c.inbounds) ≡ has id (json.ids c.inbounds).0
    → ((deplete_row dt c).enable ≢ c.enable → has id (json.ids c.inbounds).0 ≡ true → true ≡ false)
    → may_use json id pw (deplete_row dt c) ≡ may_use json id pw c
unfolding may_use
may_use-deplete_row json dt id pw c reads covers =
    let (inbounds, config, banned) = deplete_row-columns dt c in
    let each : has id (json.json_each (deplete_row dt c).inbounds)
        ≡ has id (json.json_each c.inbounds) =
      ap (λ s. has id (json.json_each s)) inbounds in
    let password = has_password-deplete_row json dt pw c in
    elim (Bool-cases (has id (json.ids c.inbounds).0)) [
      | inl k ↦
          let enable : (deplete_row dt c).enable ≡ c.enable = either_way _ _ (λ n. covers n k) in
          cc (enable, banned, each, password)
      | inr k ↦ ground (arith, each, reads)
    ]

may_use-deplete_rows :
    (json : Json) (dt id : ℕ) (pw : String) (ids : List ℕ) (rows : List Client)
    → has id ids ≡ false
    → All (λ c. has id (json.json_each c.inbounds) ≡ has id (json.ids c.inbounds).0) rows
    → All
        (λ c.
          (deplete_row dt c).enable ≢ c.enable
          → has id (json.ids c.inbounds).0 ≡ true
          → has id ids ≡ true)
        rows
    → any_of (may_use json id pw) (map (deplete_row dt) rows) ≡ any_of (may_use json id pw) rows
may_use-deplete_rows json dt id pw ids [] h reads covers = refl
may_use-deplete_rows json dt id pw ids (c ∷ cs) h reads covers =
    let row = may_use-deplete_row json dt id pw c reads.0 (λ n k. sym (covers.0 n k) ∙ h) in
    let rest = may_use-deplete_rows json dt id pw ids cs h reads.1 covers.1 in cc (row, rest)

-- An inbound that was not among the ids is let alone.
untouched :
    (json : Json) (ids : List ℕ) (id : ℕ) (w : World) (clients : List Client)
    → UniqueTags w.tables.inbounds
    → str_eq (tag_of id w.tables.inbounds) "" ≡ false
    → is_hy2 id w.tables.inbounds ≡ true
    → has id ids ≡ false
    → ((pw : String)
        → any_of (may_use json id pw) w.tables.clients ≡ any_of (may_use json id pw) clients)
    → (r : Outcome (Unit {0}) × World) → Applied json ids w r
    → Admits json w id (tag_of id w.tables.inbounds) clients
    → Admits json r.1 id (tag_of id w.tables.inbounds) w.tables.clients
untouched json ids id w clients q t hy2 out same r a (s, there, safe, known) =
    let apart : (i : ℕ)
        → has i (live_ids ids w.tables.inbounds) ≡ true
        → tag_of i w.tables.inbounds ≢ tag_of id w.tables.inbounds =
      λ i m e.
        let one : id ≡ i = q id i (sym e) t in
        let absent = has-live_ids id ids w.tables.inbounds hy2 ∙ out in
        cc (ap (λ (n : ℕ). has n (live_ids ids w.tables.inbounds)) one, m, absent) in
    (
      s,
      a.others (tag_of id w.tables.inbounds) apart ∙ there,
      safe,
      λ pw. known pw ∙ ap (λ b. not (str_eq pw "") && b) (sym (same pw)),
    )

-- An inbound that was among the ids was brought up to date.
brought :
    (json : Json) (ids : List ℕ) (id : ℕ) (w : World)
    → is_hy2 id w.tables.inbounds ≡ true
    → has id ids ≡ true
    → (r : Outcome (Unit {0}) × World) → Applied json ids w r
    → Admits json r.1 id (tag_of id w.tables.inbounds) w.tables.clients
brought json ids id w hy2 inside r a =
    let (s, there, safe, known) =
      a.serves id (has-live_ids id ids w.tables.inbounds hy2 ∙ inside) in
    (s, there, safe, λ pw. known pw ∙ has_string-live_passwords json id pw w.tables.clients)

reads_each :
    (json : Json) (id : ℕ) (rows : List Client)
    → All (λ c. json.json_each c.inbounds ≡ (json.ids c.inbounds).0) rows
    → All (λ c. has id (json.json_each c.inbounds) ≡ has id (json.ids c.inbounds).0) rows
reads_each json id [] h = tt
reads_each json id (c ∷ cs) h = (ap (has id) h.0, reads_each json id cs h.1)

AllLive-moved :
    (w v : World) (ids : List ℕ)
    → v.core ≡ w.core
    → v.tables.inbounds ≡ w.tables.inbounds
    → AllLive w ids
    → AllLive v ids
AllLive-moved w v ids c t l id h =
    let a = l id h in
    record {
      has_tag = ap (λ z. str_eq (tag_of id z) "") t ∙ a.has_tag;
      service = a.service;
      runs =
          ap (λ z. lookup (tag_of id z) v.core.hysteria2) t
          ∙ ap (λ (z : Core). lookup (tag_of id w.tables.inbounds) z.hysteria2) c
          ∙ a.runs;
    }

IsApart-moved :
    (w v : World) → v.core ≡ w.core → v.tables.inbounds ≡ w.tables.inbounds → IsApart w → IsApart v
IsApart-moved w v c t h =
    let free : Core → List Inbound → Type 0 = λ z rows.
      All (λ i. str_eq i.type "hysteria2" ≡ false → lookup i.tag z.hysteria2 ≡ none) rows in
    subst (free v.core) (sym t) (subst (λ z. free z w.tables.inbounds) (sym c) h)

-- The job, once DepleteClients has returned.
settled :
    (json : Json) (restart : List ℕ → Tx (Unit {0})) (dt id : ℕ) (w : World) (ids : List ℕ)
    (rows : List Client)
    → RestartKeeps restart
    → IsUp w
    → UniqueTags w.tables.inbounds
    → AllLive w (live_ids ids w.tables.inbounds)
    → IsApart w
    → w.tables.clients ≡ map (deplete_row dt) rows
    → All (λ c. json.json_each c.inbounds ≡ (json.ids c.inbounds).0) rows
    → All
        (λ c.
          (deplete_row dt c).enable ≢ c.enable
          → has id (json.ids c.inbounds).0 ≡ true
          → has id ids ≡ true)
        rows
    → is_hy2 id w.tables.inbounds ≡ true
    → str_eq (tag_of id w.tables.inbounds) "" ≡ false
    → Admits json w id (tag_of id w.tables.inbounds) rows
    → let r = unless_empty ids (apply_user_changes json restart (ok true) ids) w in
      (r.1.tables ≡ w.tables) × Admits json r.1 id (tag_of id w.tables.inbounds) w.tables.clients
settled json restart dt id w ids rows k u q l apart clients reads covers hy2 tag before =
    let a = guarded-Applied json restart ids w k u q l apart in
    (
      a.tables,
      elim (Bool-cases (has id ids)) [
        | inl h ↦ brought json ids id w hy2 h _ a
        | inr h ↦
            untouched json ids id w rows q tag hy2 h
              (λ pw.
                ap (any_of (may_use json id pw)) clients
                ∙ may_use-deplete_rows json dt id pw ids rows h (reads_each json id rows reads)
                    covers)
              _ a before
      ],
    )

-- The live users of a Hysteria2 inbound follow the clients through a run of DepleteJob: if the
-- inbound lets in exactly the passwords of the clients of the table that may use it, so it does
-- after the run, for the clients as the run leaves them, each reset and disabled by itself and none
-- enabled over its quota or expired; and no live session of anyone else is left there. Conditions:
-- no statement fails, the core runs, live updates are on, tags of inbounds are unique, ids of
-- clients are unique and not 0, SQLite and Go read the same ids from the lists of inbounds, the
-- Hysteria2 inbounds that DepleteClients names run in the core, none runs there under the tag of a
-- row of another type, and the inbound is a Hysteria2 one with a tag; and RestartInbounds of
-- inbounds of other types, whether it returns nil or an error, leaves the tables and the live
-- Hysteria2 inbounds as they are, where none of these runs under such a tag.
pub deplete_job-Admits :
    (json : Json) (restart : List ℕ → Tx (Unit {0})) (order : MapOrder) (dt id : ℕ) (w : World)
    → RestartKeeps restart
    → IsUp w
    → UniqueTags w.tables.inbounds
    → IsTable w.tables.clients
    → All (λ c. json.json_each c.inbounds ≡ (json.ids c.inbounds).0) w.tables.clients
    → AllLive w (live_ids (touched json order dt w.tables.clients) w.tables.inbounds)
    → IsApart w
    → is_hy2 id w.tables.inbounds ≡ true
    → str_eq (tag_of id w.tables.inbounds) "" ≡ false
    → Admits json w id (tag_of id w.tables.inbounds) w.tables.clients
    → let w' = (deplete_job json restart (ok true) order dt w).1 in
      (w'.tables.clients ≡ map (deplete_row dt) w.tables.clients)
      × All (λ c. is_depleted dt c ≡ false) w'.tables.clients
      × Admits json w' id (tag_of id w.tables.inbounds) w'.tables.clients
unfolding deplete_job bring_up_to_date attempt
deplete_job-Admits json restart order dt id w k u q v reads l apart hy2 tag before =
    let rows = w.tables.clients in
    let ids = touched json order dt rows in
    let w₁ = (deplete_clients json order dt w).1 in
    let (res, clients, changes, done) = deplete_clients-returns json order dt w v u.faultless in
    let b = (deplete_clients-Beside json order dt).at w in
    let inbounds = b.inbounds in
    let (s, there, safe, known) = before in
    let start : Admits json w₁ id (tag_of id w.tables.inbounds) rows = (
      s,
      ap (λ (z : Core). lookup (tag_of id w.tables.inbounds) z.hysteria2) b.core ∙ there,
      safe,
      known,
    ) in
    let (t, after) =
      settled json restart dt id w₁ ids rows k
        (record {
          faultless = b.faultless u.faultless;
          running = ap (λ (z : Core). z.is_running) b.core ∙ u.running;
        })
        (rw inbounds q)
        (AllLive-moved w w₁ (live_ids ids w₁.tables.inbounds) b.core inbounds (rw inbounds l))
        (IsApart-moved w w₁ b.core inbounds apart) clients reads
        (touched_covers json order dt id rows) (rw inbounds hy2) (rw inbounds tag)
        (rw inbounds start) in
    let final : World = (unless_empty ids (apply_user_changes json restart (ok true) ids) w₁).1 in
    let job : (deplete_job json restart (ok true) order dt w).1 ≡ final =
      ap (λ r. (bring_up_to_date json restart (ok true) r w₁).1) res in
    let same : final.tables.clients ≡ w₁.tables.clients = ap (λ (z : Tables). z.clients) t in
    let own =
      subst (λ n. Admits json final id n w₁.tables.clients) (ap (tag_of id) inbounds) after in
    subst
      (λ (z : World).
        (z.tables.clients ≡ map (deplete_row dt) rows)
        × All (λ c. is_depleted dt c ≡ false) z.tables.clients
        × Admits json z id (tag_of id w.tables.inbounds) z.tables.clients)
      (sym job)
      (
        same ∙ clients,
        subst (All (λ c. is_depleted dt c ≡ false)) (sym same) done,
        subst (Admits json final id (tag_of id w.tables.inbounds)) (sym same) own,
      )
