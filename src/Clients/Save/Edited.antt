-- ===== src/Clients/Save/Edited.antt =====
-- What an edit of a client means for those who use the inbounds.
use hy_panel.Base.{
  ℕ, String, ◌≡◌, ◌∙◌, sym, ap, subst, Bool, true, false, Option, none, some, List, [], ◌∷◌, arith,
  ◌==◌, ==_iff, eq_iff, any_of, has, first_of?, All, inl, inr, Bool-cases, Option-cases,
}
use hy_panel.Base.Outcome.{Outcome, ok}
use hy_panel.Arrays.{MapOrder, has-union_uint_array, has-diff_uint_array}
use hy_panel.Database.{Client, Inbound, Tables}
use hy_panel.Database.Json.{ClientJson}
use hy_panel.Database.Tx.{World, pure-ok, lift, >>=-ok, query->>=-ok, query-ok, execute-ok}
use hy_panel.Database.Rows.{IsTable, save_client, clients-save_there}
use hy_panel.Database.Keys.{found_row, any_of-replace}
use hy_panel.Database.Results.{found, found-ok, parsed-ok, decoded-ok}
use hy_panel.Inbounds.Users.{may_use, has_password}
use hy_panel.Clients.Links.{
  Generator, update_links, read_inbounds, linked_inbounds, relink, relink_all,
}
use hy_panel.Clients.Save.{
  set_config_identity, fill_omitted, differs, changed_inbounds, find_inbounds_changes, link_one,
  save_edit,
}

-- What the steps before findInboundsChanges leave of a client.
record Keeps (c c' : Client) : Type 0 where
  id : c'.id ≡ c.id
  banned : c'.banned ≡ c.banned

lift-ok :
    {A : Type 0} (r : Outcome A) (w w' : World) (a : A)
    → lift r w ≡ (ok a, w')
    → (r ≡ ok a) × (w'.tables ≡ w.tables)
unfolding lift
lift-ok r w w' a e = ground arith

set_config_identity-Keeps :
    (j : ClientJson) (c c' : Client) → set_config_identity j c ≡ ok c' → Keeps c c'
unfolding set_config_identity
set_config_identity-Keeps j c c' e = elim (Option-cases (j.configs c.config)) [
  | inl q ↦ record { id = ground arith; banned = ground arith }
  | inr (l, q) ↦ record { id = ground arith; banned = ground arith }
]

linked_inbounds-ok :
    (j : ClientJson) (ids : List ℕ) (w w' : World) (l : List Inbound)
    → linked_inbounds j ids w ≡ (ok l, w')
    → w'.tables ≡ w.tables
unfolding linked_inbounds
linked_inbounds-ok j [] w w' l e = (pure-ok _ l w w' e).1
linked_inbounds-ok j (x ∷ xs) w w' l e = (query-ok _ w w' l e).1

relink_one :
    (j : ClientJson) (generate : Generator) (host : String) (inbounds : List Inbound)
    (c c' : Client) (pairs : List (Client × List ℕ)) (cs : List Client)
    → read_inbounds j (c ∷ []) ≡ ok pairs
    → relink_all j generate host inbounds pairs ≡ ok cs
    → found (first_of? (λ x. true) cs) ≡ ok c'
    → Keeps c c'
unfolding read_inbounds relink_all relink found
relink_one j generate host inbounds c c' pairs cs e f g = record {
  id = ground arith;
  banned = ground arith;
}

link_one-Keeps :
    (j : ClientJson) (order : MapOrder) (generate : Generator) (host : String) (c c' : Client)
    (w w' : World)
    → link_one j order generate host c w ≡ (ok c', w')
    → Keeps c c' × (w'.tables ≡ w.tables)
unfolding link_one update_links
link_one-Keeps j order generate host c c' w w' e =
    let (cs, w₁, e₁, f₁) = >>=-ok _ _ w w' c' e in
    let (q₁, t₁) = lift-ok _ w₁ w' c' f₁ in
    let (pairs, w₂, e₂, f₂) = >>=-ok _ _ w w₁ cs e₁ in
    let (q₂, t₂) = lift-ok _ w w₂ pairs e₂ in
    let (inbounds, w₃, e₃, f₃) = >>=-ok _ _ w₂ w₁ cs f₂ in
    let t₃ = linked_inbounds-ok j _ w₂ w₃ inbounds e₃ in
    let (q₄, t₄) = lift-ok _ w₃ w₁ cs f₃ in
    (relink_one j generate host inbounds c c' pairs cs q₂ q₄ q₁, t₁ ∙ t₄ ∙ t₃ ∙ t₂)

-- What findInboundsChanges has found.
pub record Found (j : ClientJson) (order : MapOrder) (c : Client) (rows : List Client)
    (ids : List ℕ) : Type 0 where
  pub old : Client
  pub old_ids : List ℕ
  pub new_ids : List ℕ
  pub there : first_of? (λ r. r.id == c.id) rows ≡ some old
  pub reads_old : j.base.ids old.inbounds ≡ (old_ids, true)
  pub reads_new : j.base.ids c.inbounds ≡ (new_ids, true)
  pub result : ids ≡ changed_inbounds order old c old_ids new_ids

pub find_inbounds_changes-Found :
    (j : ClientJson) (order : MapOrder) (c : Client) (r : Client × List ℕ) (w w' : World)
    → find_inbounds_changes j order false c w ≡ (ok r, w')
    → (r.0 ≡ c) × Found j order c w.tables.clients r.1 × (w'.tables ≡ w.tables)
unfolding find_inbounds_changes fill_omitted
find_inbounds_changes-Found j order c r w w' e =
    let (w₁, t₁, e₁) = query->>=-ok _ _ w w' r e in
    let (old, w₂, f₂, e₂) = >>=-ok _ _ w₁ w' r e₁ in
    let (there, t₂) = found-ok _ w₁ w₂ old f₂ in
    let (old_ids, w₃, f₃, e₃) = >>=-ok _ _ w₂ w' r e₂ in
    let (reads_old, t₃) = parsed-ok _ w₂ w₃ old_ids f₃ in
    let (new_ids, w₄, f₄, e₄) = >>=-ok _ _ w₃ w' r e₃ in
    let (reads_new, t₄) = parsed-ok _ w₃ w₄ new_ids f₄ in
    let (q, t₅) = pure-ok _ r w₄ w' e₄ in
    (
      ap (λ x. x.0) q,
      record {
        old = old;
        old_ids = old_ids;
        new_ids = new_ids;
        there = there;
        reads_old = reads_old;
        reads_new = reads_new;
        result = ap (λ x. x.1) q;
      },
      t₅ ∙ t₄ ∙ t₃ ∙ t₂ ∙ t₁,
    )

-- The test of findInboundsChanges: what is kept where it finds no other change.
same_test :
    (old c : Client) → differs old c ≡ false → (old.config ≡ c.config) × (old.enable ≡ c.enable)
unfolding differs
same_test old c h = (ground (arith, eq_iff old.config c.config), ground arith)

-- An inbound that is not among the ids sees no difference between the old client and the new one.
pub Found-may_use :
    (j : ClientJson) (order : MapOrder) (c : Client) (rows : List Client) (ids : List ℕ) (x : ℕ)
    (pw : String) (f : Found j order c rows ids)
    → c.banned ≡ f.old.banned
    → has x ids ≡ false
    → may_use j.base x pw f.old ≡ may_use j.base x pw c
unfolding may_use has_password changed_inbounds
Found-may_use j order c rows ids x pw f b h =
    let e₁ = j.json_each-ids f.old.inbounds f.old_ids f.reads_old in
    let e₂ = j.json_each-ids c.inbounds f.new_ids f.reads_new in
    let u = has-union_uint_array order x f.old_ids f.new_ids in
    let d = has-diff_uint_array x f.old_ids f.new_ids in
    let result = f.result in
    elim (Bool-cases (differs f.old c)) [
      | inl q ↦ rw (e₁, e₂) (ground (arith, u))
      | inr q ↦
          let (config, enable) = same_test f.old c q in
          rw (e₁, e₂, config, enable, b) (ground (arith, d))
    ]

all_of_first :
    (P : Client → Type 0) (p : Client → Bool) (rows : List Client) (r : Client)
    → first_of? p rows ≡ some r
    → All P rows
    → P r
all_of_first P p [] r e a = cc
all_of_first P p (c ∷ cs) r e a = elim (Bool-cases (p c)) [
  | inl h ↦ let same : c ≡ r = ground arith in subst P same a.0
  | inr h ↦ all_of_first P p cs r (ground arith) a.1
]

one_read : (o : Option Client) (a b : Client) → o ≡ some a → o ≡ some b → a ≡ b
one_read none a b e f = cc
one_read (some c) a b e f = ground arith

one_test :
    (p : Client → Bool) (id : ℕ) (old c : Client) (rows : List Client)
    → p old ≡ p c
    → All (λ r. (r.id == id) ≡ true → r ≡ old) rows
    → All (λ r. (r.id == id) ≡ true → p r ≡ p c) rows
one_test p id old c [] e a = tt
one_test p id old c (r ∷ rs) e a = ((λ h. ap p (a.0 h) ∙ e), one_test p id old c rs e a.1)

-- The row that an edit writes, seen from an inbound that is not among the ids.
saved_edit :
    (j : ClientJson) (order : MapOrder) (c read : Client) (t : Tables) (ids : List ℕ) (x : ℕ)
    (pw : String)
    → IsTable t.clients
    → Keeps read c
    → All (λ r. (r.id == read.id) ≡ true → r.banned ≡ read.banned) t.clients
    → Found j order c t.clients ids
    → has x ids ≡ false
    → any_of (may_use j.base x pw) (save_client c t).clients
      ≡ any_of (may_use j.base x pw) t.clients
saved_edit j order c read t ids x pw v k bans f h =
    let (own, nonzero, there, only) = found_row c.id t.clients f.old v f.there in
    let ban : c.banned ≡ f.old.banned =
      k.banned
      ∙ sym (
          all_of_first (λ b. (b.id == read.id) ≡ true → b.banned ≡ read.banned) (λ r. r.id == c.id)
            t.clients f.old f.there bans ((==_iff f.old.id read.id).1 (own ∙ k.id))) in
    let same = Found-may_use j order c t.clients ids x pw f ban h in
    ap (any_of (may_use j.base x pw)) (clients-save_there c t v.unique nonzero there)
    ∙ any_of-replace (may_use j.base x pw) c.id c t.clients
        (one_test (may_use j.base x pw) c.id f.old c t.clients same only)

-- Whatever the environment and the JSON are: on a table whose ids are unique and not 0, an edit of
-- a client that returns ids, whose form agrees with the row of that id on `banned`, leaves every
-- inbound that is not among the ids with the same passwords of clients that may use it. So
-- ApplyUserChanges, which is given the ids, misses no inbound.
pub save_edit-may_use :
    (j : ClientJson) (order : MapOrder) (generate : Generator) (host text : String) (read : Client)
    (w w' : World) (ids : List ℕ) (x : ℕ) (pw : String)
    → IsTable w.tables.clients
    → j.client text ≡ some read
    → All (λ r. (r.id == read.id) ≡ true → r.banned ≡ read.banned) w.tables.clients
    → save_edit j order generate host text w ≡ (ok ids, w')
    → has x ids ≡ false
    → any_of (may_use j.base x pw) w'.tables.clients ≡ any_of (may_use j.base x pw) w.tables.clients
unfolding save_edit
save_edit-may_use j order generate host text read w w' ids x pw v reads bans e h =
    let (c₁, w₁, f₁, e₁) = >>=-ok _ _ w w' ids e in
    let (q₁, t₁) = decoded-ok _ w w₁ c₁ f₁ in
    let (c₂, w₂, f₂, e₂) = >>=-ok _ _ w₁ w' ids e₁ in
    let (q₂, t₂) = lift-ok _ w₁ w₂ c₂ f₂ in
    let k₂ = set_config_identity-Keeps j c₁ c₂ q₂ in
    let (c₃, w₃, f₃, e₃) = >>=-ok _ _ w₂ w' ids e₂ in
    let (k₃, t₃) = link_one-Keeps j order generate host c₂ c₃ w₂ w₃ f₃ in
    let (r, w₄, f₄, e₄) = >>=-ok _ _ w₃ w' ids e₃ in
    let (q₄, found, t₄) = find_inbounds_changes-Found j order c₃ r w₃ w₄ f₄ in
    let (u, w₅, f₅, e₅) = >>=-ok _ _ w₄ w' ids e₄ in
    let t₅ = execute-ok _ w₄ w₅ f₅ in
    let (q₆, t₆) = pure-ok _ ids w₅ w' e₅ in
    let before : w₃.tables ≡ w.tables = t₃ ∙ t₂ ∙ t₁ in
    let first : c₁ ≡ read = one_read (j.client text) c₁ read q₁ reads in
    let keeps : Keeps read c₃ = record {
      id = k₃.id ∙ k₂.id ∙ ap (λ (z : Client). z.id) first;
      banned = k₃.banned ∙ k₂.banned ∙ ap (λ (z : Client). z.banned) first;
    } in
    let clean : IsTable w₃.tables.clients = subst (λ t. IsTable t.clients) (sym before) v in
    let same =
      saved_edit j order c₃ read w₃.tables r.1 x pw clean keeps
        (subst (λ t. All (λ b. (b.id == read.id) ≡ true → b.banned ≡ read.banned) t.clients)
          (sym before) bans)
        found (rw (sym q₆) h) in
    let after : w'.tables ≡ save_client c₃ w₃.tables =
      t₆ ∙ t₅ ∙ ap (λ z. save_client z w₄.tables) q₄ ∙ ap (save_client c₃) t₄ in
    ap (λ t. any_of (may_use j.base x pw) t.clients) after
    ∙ same
    ∙ ap (λ t. any_of (may_use j.base x pw) t.clients) before
