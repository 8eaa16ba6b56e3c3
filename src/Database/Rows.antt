-- ===== src/Database/Rows.antt =====
-- Writing rows by their ids: gorm's Save.
use hy_panel.Base.{
  ℕ, suc, ◌≡◌, refl, ◌∙◌, Bool, true, false, List, [], ◌∷◌, ◌++◌, map, arith, ◌==◌, ltb,
  if◌then◌else◌, keep_if, has, distinct, All, ◌&&◌, ap, sym, Bool-cases, inl, inr,
}
use hy_panel.Database.{Client, Tables}

abbrev pub ids_of : List Client → List ℕ
ids_of = map λ c. c.id

-- INSERT … ON CONFLICT (id) DO UPDATE of one row.
pub upsert : Client → List Client → List Client
upsert c [] = c ∷ []
upsert c (r ∷ rs) = if r.id == c.id then c ∷ rs else r ∷ upsert c rs

-- Save of one client: one without an id is given the next one.
pub save_client : Client → Tables → Tables
unfolding upsert
save_client c t =
    if c.id == 0
    then record t {
      clients = t.clients ++ record c { id = t.next_client_id } ∷ [];
      next_client_id = suc t.next_client_id;
    }
    else record t {
      clients = upsert c t.clients;
      next_client_id = if ltb c.id t.next_client_id then t.next_client_id else suc c.id;
    }

-- Save of a slice.
unfoldable pub save_clients : List Client → Tables → Tables
unfolding save_client
save_clients [] t = t
save_clients (c ∷ cs) t = save_clients cs (save_client c t)

-- The ids of a table: each once, and none is 0.
pub record IsTable (rows : List Client) : Type 0 where
  pub unique : distinct (ids_of rows) ≡ true
  pub positive : All (λ r. (r.id == 0) ≡ false) rows

pub map_identity : (rows : List Client) → map (λ r. r) rows ≡ rows
map_identity [] = refl
map_identity (r ∷ rs) = ap (◌∷◌ r) (map_identity rs)

replace_none :
    (c : Client) (rows : List Client)
    → has c.id (ids_of rows) ≡ false
    → map (λ r. if r.id == c.id then c else r) rows ≡ rows
replace_none c [] h = refl
replace_none c (r ∷ rs) h = ground (arith, replace_none c rs)

upsert_there :
    (c : Client) (rows : List Client)
    → distinct (ids_of rows) ≡ true
    → has c.id (ids_of rows) ≡ true
    → upsert c rows ≡ map (λ r. if r.id == c.id then c else r) rows
unfolding upsert
upsert_there c [] u h = cc
upsert_there c (r ∷ rs) u h = ground (arith, upsert_there c rs, replace_none c rs)

map_fuse :
    (f g h : Client → Client) (rows : List Client)
    → All (λ r. f (g r) ≡ h r) rows
    → map f (map g rows) ≡ map h rows
map_fuse f g h [] k = refl
map_fuse f g h (r ∷ rs) k = cc (k.0, map_fuse f g h rs k.1)

has_each :
    (rows all : List Client)
    → ((n : ℕ) → has n (ids_of rows) ≡ true → has n (ids_of all) ≡ true)
    → All (λ r. has r.id (ids_of all) ≡ true) rows
has_each [] all h = tt
has_each (r ∷ rs) all h = (h r.id (ground arith), has_each rs all (λ n k. h n (ground arith)))

module _ (f : Client → Client) (p : Client → Bool) where
  -- What the saves make of one row.
  saved : List Client → Client → Client
  saved [] r = r
  saved (x ∷ xs) r = saved xs (if p x && r.id == x.id then f x else r)

module _ (f : Client → Client) (p : Client → Bool) (own : (x : Client) → (f x).id ≡ x.id) where
  abbrev replace_row : Client → Client → Client
  replace_row x r = if r.id == x.id then f x else r

  ids_of-replace :
      (x : Client) (rows : List Client) → ids_of (map (replace_row x) rows) ≡ ids_of rows
  ids_of-replace x [] = refl
  ids_of-replace x (r ∷ rs) = ground (arith, own x, ids_of-replace x rs)

  clients-save_client :
      (x : Client) (t : Tables)
      → distinct (ids_of t.clients) ≡ true
      → (x.id == 0) ≡ false
      → has x.id (ids_of t.clients) ≡ true
      → (save_client (f x) t).clients ≡ map (replace_row x) t.clients
  unfolding save_client
  clients-save_client x t u z h =
      let there = upsert_there (f x) t.clients u (rw (own x) h) in
      let same : (save_client (f x) t).clients ≡ upsert (f x) t.clients = ground (arith, own x) in
      same ∙ there ∙ ap (λ (n : ℕ). map (λ r. if r.id == n then f x else r) t.clients) (own x)

  saved-hit :
      (x : Client) (xs rows : List Client)
      → p x ≡ true
      → map (saved f p xs) (map (replace_row x) rows) ≡ map (saved f p (x ∷ xs)) rows
  unfolding saved
  saved-hit x xs [] h = refl
  saved-hit x xs (r ∷ rs) h = rw (h, saved-hit x xs rs h)

  saved-miss :
      (x : Client) (xs rows : List Client)
      → p x ≡ false
      → map (saved f p xs) rows ≡ map (saved f p (x ∷ xs)) rows
  unfolding saved
  saved-miss x xs [] h = refl
  saved-miss x xs (r ∷ rs) h = rw (h, saved-miss x xs rs h)

  save_clients-saved :
      (rows : List Client) (t : Tables)
      → distinct (ids_of t.clients) ≡ true
      → All (λ r. (r.id == 0) ≡ false) rows
      → All (λ r. has r.id (ids_of t.clients) ≡ true) rows
      → (save_clients (map f (keep_if p rows)) t).clients ≡ map (saved f p rows) t.clients
  unfolding save_clients
  save_clients-saved [] t u z h = unfold saved in sym (map_identity t.clients)
  save_clients-saved (x ∷ xs) t u z h = elim (Bool-cases (p x)) [
    | inl hit ↦
        let step = clients-save_client x t u z.0 h.0 in
        let ids : ids_of (save_client (f x) t).clients ≡ ids_of t.clients =
          ap ids_of step ∙ ids_of-replace x t.clients in
        rw hit (
          save_clients-saved xs (save_client (f x) t) (rw ids u) z.1 (rw ids h.1)
          ∙ ap (map (saved f p xs)) step
          ∙ saved-hit x xs t.clients hit)
    | inr miss ↦ rw miss (save_clients-saved xs t u z.1 h.1 ∙ saved-miss x xs t.clients miss)
  ]

  saved_other : (xs : List Client) (r : Client) → has r.id (ids_of xs) ≡ false → saved f p xs r ≡ r
  unfolding saved
  saved_other [] r h = refl
  saved_other (x ∷ xs) r h = ground (arith, saved_other xs r)

module _ (f g : Client → Client) (p : Client → Bool) (own : (x : Client) → (f x).id ≡ x.id)
    (own' : (x : Client) → (g x).id ≡ x.id) where
  abbrev either_row : Client → Client
  either_row x = if p x then f x else g x

  saved_later :
      (x : Client) (xs ys : List Client)
      → has x.id (ids_of ys) ≡ false
      → All (λ y. saved f p xs (g y) ≡ either_row y) ys
      → All (λ y. saved f p (x ∷ xs) (g y) ≡ either_row y) ys
  unfolding saved
  saved_later x xs [] h k = tt
  saved_later x xs (y ∷ ys) h k =
      (ground (arith, own' y, k.0), saved_later x xs ys (ground arith) k.1)

  saved_each :
      (rows : List Client)
      → distinct (ids_of rows) ≡ true
      → All (λ y. saved f p rows (g y) ≡ either_row y) rows
  saved_each [] u = tt
  saved_each (x ∷ xs) u = (
    unfold saved in
        ground (arith, own x, own' x, saved_other f p own xs (f x), saved_other f p own xs (g x)),
    saved_later x xs xs (ground arith) (saved_each xs (ground arith)),
  )

  ids_of-map : (rows : List Client) → ids_of (map g rows) ≡ ids_of rows
  ids_of-map [] = refl
  ids_of-map (r ∷ rs) = ground (arith, own' r, ids_of-map rs)

  -- Saving the rows that pass a test, changed by `f`, into a table whose rows were changed by `g`
  -- changes exactly these rows.
  pub clients-save_clients :
      (rows : List Client) (t : Tables)
      → IsTable rows
      → t.clients ≡ map g rows
      → (save_clients (map f (keep_if p rows)) t).clients ≡ map (λ x. if p x then f x else g x) rows
  clients-save_clients rows t v e =
      let ids : ids_of t.clients ≡ ids_of rows = ap ids_of e ∙ ids_of-map rows in
      save_clients-saved f p own rows t (rw ids v.unique) v.positive
        (rw ids (has_each rows rows (λ n k. k)))
      ∙ ap (map (saved f p rows)) e
      ∙ map_fuse (saved f p rows) g (λ x. if p x then f x else g x) rows (saved_each rows v.unique)

-- Saving one client whose id is in the table replaces its row.
pub clients-save_there :
    (c : Client) (t : Tables)
    → distinct (ids_of t.clients) ≡ true
    → (c.id == 0) ≡ false
    → has c.id (ids_of t.clients) ≡ true
    → (save_client c t).clients ≡ map (λ r. if r.id == c.id then c else r) t.clients
clients-save_there c t u z h = clients-save_client (λ x. x) (λ x. true) (λ x. refl) c t u z h

-- Saving a client writes no inbound.
inbounds-save_client : (c : Client) (t : Tables) → (save_client c t).inbounds ≡ t.inbounds
unfolding save_client
inbounds-save_client c t = elim (Bool-cases (c.id == 0)) [ inl k ↦ rw k refl | inr k ↦ rw k refl ]

pub inbounds-save_clients :
    (cs : List Client) (t : Tables) → (save_clients cs t).inbounds ≡ t.inbounds
unfolding save_clients
inbounds-save_clients [] t = refl
inbounds-save_clients (c ∷ cs) t =
    inbounds-save_clients cs (save_client c t) ∙ inbounds-save_client c t
