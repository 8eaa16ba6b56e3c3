-- ===== src/Inbounds/Apply.antt =====
-- What ApplyUserChanges does to the live Hysteria2 inbounds where no statement fails.
use hy_panel.Base.{
  ℕ, String, ◌≡◌, ◌≢◌, refl, sym, ap, ◌∙◌, subst, true, false, not, none, some, List, [], ◌∷◌,
  arith, str_eq, eq_iff, if◌then◌else◌, keep_if, has, Bool-cases, inl, inr, All,
}
use hy_panel.Base.Assoc.{lookup}
use hy_panel.Base.Outcome.{Outcome, ok}
use hy_panel.Core.{Core, update_inbound_users}
use hy_panel.Core.Users.{Serves, update_inbound_users-Serves}
use hy_panel.Hysteria.{Service}
use hy_panel.Database.{Inbound, Tables}
use hy_panel.Database.Json.{Json}
use hy_panel.Database.Tx.{World, Tx, pure, ◌>>=◌, query, read_core, call_core, unless_empty}
use hy_panel.Inbounds.{
  tag_of, hy2_ids, update_users_of, update_each, apply_running, apply_user_changes,
}
use hy_panel.Inbounds.Users.{live_names, live_passwords, length-live_names}

-- An inbound that has a row with a tag, and runs under it in the core.
pub record IsLive (w : World) (id : ℕ) : Type 0 where
  pub has_tag : str_eq (tag_of id w.tables.inbounds) "" ≡ false
  pub service : Service
  pub runs : lookup (tag_of id w.tables.inbounds) w.core.hysteria2 ≡ some service

-- Nothing fails, and the core runs.
pub record IsUp (w : World) : Type 0 where
  pub faultless : w.faults ≡ []
  pub running : w.core.is_running ≡ true

-- What one run of UpdateInboundUsers does.
record Updated (json : Json) (id : ℕ) (w w' : World) : Type 0 where
  run : update_users_of json id w ≡ (ok tt, w')
  tables : w'.tables ≡ w.tables
  up : IsUp w'
  serves : Serves w'.core (tag_of id w.tables.inbounds) (live_passwords json id w.tables.clients)
  others :
      (tag : String)
      → tag_of id w.tables.inbounds ≢ tag
      → lookup tag w'.core.hysteria2 ≡ lookup tag w.core.hysteria2

update_users_of-Updated :
    (json : Json) (id : ℕ) (w : World) → IsUp w → IsLive w id → (w' : World) × Updated json id w w'
unfolding update_users_of ◌>>=◌ read_core query call_core pure
update_users_of-Updated json id w u l =
    let tag = tag_of id w.tables.inbounds in
    let names = live_names json id w.tables.clients in
    let passwords = live_passwords json id w.tables.clients in
    let (r, s, o, k, _, _) =
      update_inbound_users-Serves tag names passwords w.core l.service u.running l.runs
        (length-live_names json id w.tables.clients) in
    let w' : World = record w {
      faults = [];
      core = (update_inbound_users tag names passwords w.core).1;
    } in
    (
      w',
      record {
        run = ground (arith, u.faultless, u.running, l.has_tag, r);
        tables = refl;
        up = record { faultless = refl; running = k };
        serves = s;
        others = o;
      },
    )

-- The column `tag` is unique: two ids with the same tag are one, unless they have none.
abbrev pub UniqueTags : List Inbound → Type 0
UniqueTags rows =
    (i j : ℕ) → tag_of i rows ≡ tag_of j rows → str_eq (tag_of i rows) "" ≡ false → i ≡ j

abbrev pub AllLive : World → List ℕ → Type 0
AllLive w ids = (id : ℕ) → has id ids ≡ true → IsLive w id

-- What the loop does.
pub record EachUpdated (json : Json) (ids : List ℕ) (w w' : World) : Type 0 where
  pub run : update_each json ids w ≡ (ok tt, w')
  pub tables : w'.tables ≡ w.tables
  pub up : IsUp w'
  pub serves :
      (id : ℕ)
      → has id ids ≡ true
      → Serves w'.core (tag_of id w.tables.inbounds) (live_passwords json id w.tables.clients)
  pub others :
      (tag : String)
      → ((id : ℕ) → has id ids ≡ true → tag_of id w.tables.inbounds ≢ tag)
      → lookup tag w'.core.hysteria2 ≡ lookup tag w.core.hysteria2

-- An inbound that was live still is, after another one or itself was updated.
Updated-IsLive :
    (json : Json) (id j : ℕ) (w w' : World) → Updated json id w w' → IsLive w j → IsLive w' j
Updated-IsLive json id j w w' d l =
    let rows : w'.tables.inbounds ≡ w.tables.inbounds = ap (λ (t : Tables). t.inbounds) d.tables in
    elim (Bool-cases (str_eq (tag_of id w.tables.inbounds) (tag_of j w.tables.inbounds))) [
      | inl e ↦
          let same = (eq_iff (tag_of id w.tables.inbounds) (tag_of j w.tables.inbounds)).0 e in
          let (s, there, _, _) = d.serves in
          record { has_tag = rw rows l.has_tag; service = s; runs = rw rows (rw same at there) }
      | inr n ↦ record {
        has_tag = rw rows l.has_tag;
        service = l.service;
        runs = rw rows (
            d.others (tag_of j w.tables.inbounds) (λ e.
              ground
                (arith, (eq_iff (tag_of id w.tables.inbounds) (tag_of j w.tables.inbounds)).1 e))
            ∙ l.runs);
      }
    ]

Serves-cong :
    (c c' : Core) (tag : String) (passwords : List String)
    → lookup tag c'.hysteria2 ≡ lookup tag c.hysteria2
    → Serves c tag passwords
    → Serves c' tag passwords
Serves-cong c c' tag passwords e (s, there, a, k) = (s, e ∙ there, a, k)

each_cons :
    (json : Json) (id : ℕ) (ids : List ℕ) (w w₁ w' : World)
    → UniqueTags w.tables.inbounds
    → IsLive w id
    → Updated json id w w₁
    → EachUpdated json ids w₁ w'
    → EachUpdated json (id ∷ ids) w w'
unfolding update_each ◌>>=◌
each_cons json id ids w w₁ w' q live d r =
    let rows : w₁.tables.inbounds ≡ w.tables.inbounds = ap (λ (t : Tables). t.inbounds) d.tables in
    let clients : w₁.tables.clients ≡ w.tables.clients = ap (λ (t : Tables). t.clients) d.tables in
    let tags : (j : ℕ) → tag_of j w₁.tables.inbounds ≡ tag_of j w.tables.inbounds = λ j. rw rows in
    let later : (j : ℕ)
        → has j ids ≡ true
        → Serves w'.core (tag_of j w.tables.inbounds) (live_passwords json j w.tables.clients) =
      λ j h. rw (rows, clients) at (r.serves j h) in
    record {
      run = rw d.run r.run;
      tables = r.tables ∙ d.tables;
      up = r.up;
      serves = λ j h. elim (Bool-cases (has j ids)) [
        | inl k ↦ later j k
        | inr k ↦
            let same : id ≡ j = ground arith in
            let apart : (i : ℕ)
                → has i ids ≡ true
                → tag_of i w₁.tables.inbounds ≢ tag_of id w.tables.inbounds =
              λ i m e.
                let one : id ≡ i = q id i (sym e ∙ tags i) live.has_tag in
                cc (ap (λ (n : ℕ). has n ids) (sym same ∙ one)) in
            subst
              (λ i.
                Serves w'.core (tag_of i w.tables.inbounds)
                  (live_passwords json i w.tables.clients))
              same
              (Serves-cong w₁.core w'.core (tag_of id w.tables.inbounds)
                (live_passwords json id w.tables.clients)
                (r.others (tag_of id w.tables.inbounds) apart) d.serves)
      ];
      others = λ tag h.
          r.others tag (λ j m e. h j (ground arith) (sym (tags j) ∙ e))
          ∙ d.others tag (h id (ground arith));
    }

pub update_each-EachUpdated :
    (json : Json) (ids : List ℕ) (w : World)
    → IsUp w
    → UniqueTags w.tables.inbounds
    → AllLive w ids
    → (w' : World) × EachUpdated json ids w w'
unfolding update_each
update_each-EachUpdated json [] w u q l = (
  w,
  record {
    run = unfold pure in refl;
    tables = refl;
    up = u;
    serves = λ id h. cc;
    others = λ tag h. refl;
  },
)
update_each-EachUpdated json (id ∷ ids) w u q l =
    let (w₁, d) = update_users_of-Updated json id w u (l id (ground arith)) in
    let rows : w₁.tables.inbounds ≡ w.tables.inbounds = ap (λ (t : Tables). t.inbounds) d.tables in
    let (w', r) =
      update_each-EachUpdated json ids w₁ d.up (rw rows q)
        (λ j h. Updated-IsLive json id j w w₁ d (l j (ground arith))) in
    (w', each_cons json id ids w w₁ w' q (l id (ground arith)) d r)

-- The ids that ApplyUserChanges updates live, and those that it restarts.
abbrev pub live_ids : List ℕ → List Inbound → List ℕ
live_ids ids rows = keep_if (λ id. has id (hy2_ids ids rows)) ids

abbrev pub other_ids : List ℕ → List Inbound → List ℕ
other_ids ids rows = keep_if (λ id. not (has id (hy2_ids ids rows))) ids

-- No Hysteria2 inbound runs in the core under the tag of a row of another type.
abbrev pub IsApart : World → Type 0
IsApart w =
    All (λ i. str_eq i.type "hysteria2" ≡ false → lookup i.tag w.core.hysteria2 ≡ none)
      w.tables.inbounds

-- RestartInbounds of inbounds that are not Hysteria2 ones, whether it returns nil or an error, leaves
-- the tables and the live Hysteria2 inbounds as they are.
pub record RestartKeeps (restart : List ℕ → Tx (Unit {0})) : Type 0 where
  pub keeps :
      (ids : List ℕ) (w : World)
      → IsUp w
      → IsApart w
      → let w' = (restart (other_ids ids w.tables.inbounds) w).1 in
        (w'.tables ≡ w.tables) × (w'.core.hysteria2 ≡ w.core.hysteria2)

-- Updates of live inbounds leave the other tags free of Hysteria2 inbounds.
EachUpdated-IsApart :
    (json : Json) (ids : List ℕ) (w w' : World)
    → AllLive w ids
    → EachUpdated json ids w w'
    → (rows : List Inbound)
    → All (λ i. str_eq i.type "hysteria2" ≡ false → lookup i.tag w.core.hysteria2 ≡ none) rows
    → All (λ i. str_eq i.type "hysteria2" ≡ false → lookup i.tag w'.core.hysteria2 ≡ none) rows
EachUpdated-IsApart json ids w w' l r [] h = tt
EachUpdated-IsApart json ids w w' l r (i ∷ is) h = (
  λ k.
      r.others i.tag (λ id m e. cc ((l id m).runs, ap (λ t. lookup t w.core.hysteria2) e, h.0 k))
      ∙ h.0 k,
  EachUpdated-IsApart json ids w w' l r is h.1,
)

-- What ApplyUserChanges promises for the inbounds that it updates live. Where it restarts none, it
-- returns nil.
pub record Applied (json : Json) (ids : List ℕ) (w : World) (r : Outcome (Unit {0}) × World)
    : Type 0 where
  pub succeeds : other_ids ids w.tables.inbounds ≡ [] → r.0 ≡ ok tt
  pub tables : r.1.tables ≡ w.tables
  pub serves :
      (id : ℕ)
      → has id (live_ids ids w.tables.inbounds) ≡ true
      → Serves r.1.core (tag_of id w.tables.inbounds) (live_passwords json id w.tables.clients)
  pub others :
      (tag : String)
      → ((id : ℕ)
          → has id (live_ids ids w.tables.inbounds) ≡ true
          → tag_of id w.tables.inbounds ≢ tag)
      → lookup tag r.1.core.hysteria2 ≡ lookup tag w.core.hysteria2

unless_empty-Kept :
    (restart : List ℕ → Tx (Unit {0})) (xs : List ℕ) (w : World)
    → ((restart xs w).1.tables ≡ w.tables) × ((restart xs w).1.core.hysteria2 ≡ w.core.hysteria2)
    → let r = unless_empty xs (restart xs) w in
      (xs ≡ [] → r.0 ≡ ok tt) × (r.1.tables ≡ w.tables) × (r.1.core.hysteria2 ≡ w.core.hysteria2)
unfolding unless_empty pure
unless_empty-Kept restart [] w k = ((λ e. refl), refl, refl)
unless_empty-Kept restart (x ∷ xs) w k = ((λ e. cc e), k.0, k.1)

apply_running-Applied :
    (json : Json) (restart : List ℕ → Tx (Unit {0})) (ids : List ℕ) (w : World)
    → RestartKeeps restart
    → IsUp w
    → UniqueTags w.tables.inbounds
    → AllLive w (live_ids ids w.tables.inbounds)
    → IsApart w
    → Applied json ids w (apply_running json restart (ok true) ids w)
unfolding apply_running ◌>>=◌ query
apply_running-Applied json restart ids w k u q l apart =
    let rows = w.tables.inbounds in
    let w₀ : World = record w { faults = [] } in
    let (w₁, r) =
      update_each-EachUpdated json (live_ids ids rows) w₀
        (record { faultless = refl; running = u.running }) q
        (λ id h.
          let a = l id h in record { has_tag = a.has_tag; service = a.service; runs = a.runs }) in
    let same : w₁.tables.inbounds ≡ rows = ap (λ (t : Tables). t.inbounds) r.tables in
    let still : IsApart w₁ = rw same (
      EachUpdated-IsApart json (live_ids ids rows) w₀ w₁
        (λ id h.
          let a = l id h in record { has_tag = a.has_tag; service = a.service; runs = a.runs })
        r rows apart) in
    let w₂ = (unless_empty (other_ids ids rows) (restart (other_ids ids rows)) w₁).1 in
    let (e, t, c) =
      unless_empty-Kept restart (other_ids ids rows) w₁ (rw same at (k.keeps ids w₁ r.up still)) in
    rw (u.faultless, r.run)
      (record {
        succeeds = e;
        tables = t ∙ r.tables;
        serves = λ id h.
            Serves-cong w₁.core w₂.core (tag_of id rows) (live_passwords json id w.tables.clients)
              (ap (lookup (tag_of id rows)) c) (r.serves id h);
        others = λ tag h. ap (lookup tag) c ∙ r.others tag h;
      })

-- ApplyUserChanges leaves the tables as they are, each Hysteria2 inbound among the ids then serves
-- exactly the passwords of its enabled clients that are not banned, with the sessions of all others
-- closed, and the Hysteria2 inbounds under other tags are what they were; and it returns nil if all
-- ids are those of Hysteria2 inbounds. Conditions: no statement fails, the core runs, live updates
-- are on, tags are unique, the Hysteria2 inbounds among the ids run in the core and none runs there
-- under the tag of a row of another type; and RestartInbounds of inbounds of other types, whether
-- it returns nil or an error, leaves the tables and the live Hysteria2 inbounds as they are, where
-- none of these runs under such a tag.
pub apply_user_changes-Applied :
    (json : Json) (restart : List ℕ → Tx (Unit {0})) (ids : List ℕ) (w : World)
    → RestartKeeps restart
    → IsUp w
    → UniqueTags w.tables.inbounds
    → AllLive w (live_ids ids w.tables.inbounds)
    → IsApart w
    → Applied json ids w (apply_user_changes json restart (ok true) ids w)
unfolding apply_user_changes ◌>>=◌ read_core unless_empty
apply_user_changes-Applied json restart [] w k u q l apart = rw u.running (record {
  succeeds = unfold pure in λ e. refl;
  tables = unfold pure in refl;
  serves = λ id h. cc;
  others = unfold pure in λ tag h. refl;
})
apply_user_changes-Applied json restart (i ∷ is) w k u q l apart =
    subst
      (λ b.
        Applied json (i ∷ is) w
          ((if b then apply_running json restart (ok true) (i ∷ is) else pure tt) w))
      (sym u.running) (apply_running-Applied json restart (i ∷ is) w k u q l apart)
