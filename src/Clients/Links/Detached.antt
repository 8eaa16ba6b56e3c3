-- ===== src/Clients/Links/Detached.antt =====
-- What UpdateClientsOnInboundDelete of service/client.go leaves of an inbound in the clients.
use hy_panel.Base.{
  ℕ, String, ◌≡◌, refl, ◌∙◌, sym, ap, subst, Bool, true, false, not, List, [], ◌∷◌, map, arith,
  ◌==◌, if◌then◌else◌, keep_if, has, distinct, All, Bool-cases, inl, inr,
}
use hy_panel.Base.Outcome.{ok}
use hy_panel.Database.{Client}
use hy_panel.Database.Json.{ClientJson}
use hy_panel.Database.Tx.{World, pure-ok, >>=-ok, query->>=-ok, execute-ok}
use hy_panel.Database.Rows.{
  IsTable, ids_of, save_client, save_clients, map_identity, clients-save_clients,
}
use hy_panel.Clients.Links.{
  attached_ids, detach, detach_found, save_each, update_clients_on_inbound_delete,
}

-- The saves of a loop, one after the other, are the saves of a slice.
pub save_each-ok :
    (cs : List Client) (w w' : World)
    → save_each cs w ≡ (ok tt, w')
    → w'.tables ≡ save_clients cs w.tables
unfolding save_each save_clients
save_each-ok [] w w' e = (pure-ok tt tt w w' e).1
save_each-ok (c ∷ cs) w w' e =
    let (u, w₁, f₁, e₁) = >>=-ok _ _ w w' tt e in
    save_each-ok cs w₁ w' e₁ ∙ ap (save_clients cs) (execute-ok (save_client c) w w₁ f₁)

module _ (q : Client → Bool) where
  ids_hit_later :
      (n : ℕ) (ids : List ℕ) (rows : List Client)
      → has n (ids_of rows) ≡ false
      → All (λ r. has r.id ids ≡ q r) rows
      → All (λ r. has r.id (n ∷ ids) ≡ q r) rows
  ids_hit_later n ids [] h k = tt
  ids_hit_later n ids (r ∷ rs) h k =
      (ground (arith, k.0), ids_hit_later n ids rs (ground arith) k.1)

  ids_miss :
      (n : ℕ) (rows : List Client)
      → has n (ids_of rows) ≡ false
      → has n (ids_of (keep_if q rows)) ≡ false
  ids_miss n [] h = refl
  ids_miss n (r ∷ rs) h = ground (arith, ids_miss n rs)

  ids_hit :
      (rows : List Client)
      → distinct (ids_of rows) ≡ true
      → All (λ r. has r.id (ids_of (keep_if q rows)) ≡ q r) rows
  ids_hit [] u = tt
  ids_hit (r ∷ rs) u =
      let absent : has r.id (ids_of rs) ≡ false = ground arith in
      let rest = ids_hit rs (ground arith) in
      elim (Bool-cases (q r)) [
        | inl h ↦
            let kept : ids_of (keep_if q (r ∷ rs)) ≡ r.id ∷ ids_of (keep_if q rs) = rw h refl in
            subst (λ ids. All (λ s. has s.id ids ≡ q s) (r ∷ rs)) (sym kept)
              (ground arith, ids_hit_later r.id (ids_of (keep_if q rs)) rs absent rest)
        | inr h ↦
            let kept : ids_of (keep_if q (r ∷ rs)) ≡ ids_of (keep_if q rs) = rw h refl in
            subst (λ ids. All (λ s. has s.id ids ≡ q s) (r ∷ rs)) (sym kept)
              (ground (arith, ids_miss r.id rs absent), rest)
      ]

  keep_same :
      (p : Client → Bool) (rows : List Client)
      → All (λ r. p r ≡ q r) rows
      → keep_if p rows ≡ keep_if q rows
  keep_same p [] h = refl
  keep_same p (r ∷ rs) h = ground (arith, h.0, keep_same p rs h.1)

  -- Rows are found again by the ids of those that pass a test.
  pub keep_if-ids :
      (rows : List Client)
      → distinct (ids_of rows) ≡ true
      → keep_if (λ r. has r.id (ids_of (keep_if q rows))) rows ≡ keep_if q rows
  keep_if-ids rows u = keep_same (λ r. has r.id (ids_of (keep_if q rows))) rows (ids_hit rows u)

keep_if_none : (rows : List Client) → keep_if (λ c. has c.id []) rows ≡ []
keep_if_none [] = refl
keep_if_none (r ∷ rs) = keep_if_none rs

module _ (j : ClientJson) where
  abbrev attached : ℕ → Client → Bool
  attached id c = has id (j.base.json_each c.inbounds)

  abbrev pub without : ℕ → String → Client → Client
  without id tag c = if attached id c then detach j id tag c else c

  detach_found-ok :
      (id : ℕ) (tag : String) (ids : List ℕ) (w w' : World)
      → detach_found j id tag ids w ≡ (ok tt, w')
      → w'.tables
        ≡ save_clients
            (map (detach j id tag) (keep_if (λ c. has c.id ids) w.tables.clients))
            w.tables
  unfolding detach_found save_clients
  detach_found-ok id tag [] w w' e =
      (pure-ok tt tt w w' e).1
      ∙ ap (λ l. save_clients (map (detach j id tag) l) w.tables)
          (sym (keep_if_none w.tables.clients))
  detach_found-ok id tag (n ∷ ns) w w' e =
      let (w₁, t₁, e₁) = query->>=-ok _ _ w w' tt e in
      save_each-ok _ w₁ w' e₁
      ∙ ap
          (save_clients (map (detach j id tag) (keep_if (λ c. has c.id (n ∷ ns)) w.tables.clients)))
          t₁

  pub deleted-tables :
      (id : ℕ) (tag : String) (w w' : World)
      → update_clients_on_inbound_delete j id tag w ≡ (ok tt, w')
      → w'.tables
        ≡ save_clients
            (map
              (detach j id tag)
              (keep_if (λ c. has c.id (attached_ids j id w.tables.clients)) w.tables.clients))
            w.tables
  unfolding update_clients_on_inbound_delete
  deleted-tables id tag w w' e =
      let (w₁, t₁, e₁) = query->>=-ok _ _ w w' tt e in
      detach_found-ok id tag (attached_ids j id w.tables.clients) w₁ w' e₁
      ∙ ap
          (λ t.
            save_clients
              (map (detach j id tag)
                (keep_if (λ c. has c.id (attached_ids j id w.tables.clients)) t.clients))
              t)
          t₁

  keep_if_all : (id : ℕ) (l : List ℕ) → has id l ≡ false → keep_if (λ n. not (n == id)) l ≡ l
  keep_if_all id [] h = refl
  keep_if_all id (x ∷ xs) h = ground (arith, keep_if_all id xs)

  json_each-without :
      (id : ℕ) (tag : String) (c : Client)
      → (j.base.ids c.inbounds).1 ≡ true
      → j.base.json_each (without id tag c).inbounds
        ≡ keep_if (λ n. not (n == id)) (j.base.json_each c.inbounds)
  unfolding detach
  json_each-without id tag c reads = elim (Bool-cases (attached id c)) [
    | inl h ↦
        let kept = keep_if (λ n. not (n == id)) (j.base.ids c.inbounds).0 in
        rw h (
          j.json_each-ids (j.show_ids kept) kept (j.ids-show_ids kept)
          ∙ ap (keep_if (λ n. not (n == id))) (
              sym (
                j.json_each-ids c.inbounds (j.base.ids c.inbounds).0
                  (ap (λ b. ((j.base.ids c.inbounds).0, b)) reads))))
    | inr h ↦ rw h (sym (keep_if_all id (j.base.json_each c.inbounds) h))
  ]

  json_each-without_rows :
      (id : ℕ) (tag : String) (rows : List Client)
      → All (λ c. (j.base.ids c.inbounds).1 ≡ true) rows
      → map (λ c. j.base.json_each c.inbounds) (map (without id tag) rows)
        ≡ map (λ c. keep_if (λ n. not (n == id)) (j.base.json_each c.inbounds)) rows
  json_each-without_rows id tag [] h = refl
  json_each-without_rows id tag (c ∷ cs) h =
      cc (json_each-without id tag c h.0, json_each-without_rows id tag cs h.1)

  -- On a table whose ids are unique and not 0, and whose lists of inbounds can all be read,
  -- UpdateClientsOnInboundDelete that returns nil has detached exactly the clients that were
  -- attached to the inbound: each client has the inbounds of before without the deleted one, and
  -- clients that were not attached are unchanged.
  pub update_clients_on_inbound_delete-without :
      (id : ℕ) (tag : String) (w w' : World)
      → IsTable w.tables.clients
      → All (λ c. (j.base.ids c.inbounds).1 ≡ true) w.tables.clients
      → update_clients_on_inbound_delete j id tag w ≡ (ok tt, w')
      → (w'.tables.clients ≡ map (without id tag) w.tables.clients)
        × (map (λ c. j.base.json_each c.inbounds) w'.tables.clients
            ≡ map
                (λ c. keep_if (λ n. not (n == id)) (j.base.json_each c.inbounds))
                w.tables.clients)
  unfolding attached_ids
  update_clients_on_inbound_delete-without id tag w w' v reads e =
      let rows = w.tables.clients in
      let found = keep_if-ids (attached id) rows v.unique in
      let saved =
        clients-save_clients (detach j id tag) (λ c. c) (attached id) (unfold detach in λ c. refl)
          (λ c. refl) rows w.tables v (sym (map_identity rows)) in
      let after : w'.tables.clients ≡ map (without id tag) rows =
        ap (λ t. t.clients) (deleted-tables id tag w w' e)
        ∙ ap (λ l. (save_clients (map (detach j id tag) l) w.tables).clients) found
        ∙ saved in
      (
        after,
        ap (map (λ c. j.base.json_each c.inbounds)) after
            ∙ json_each-without_rows id tag rows reads,
      )
