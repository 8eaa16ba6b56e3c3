-- ===== src/Stats/Credit.antt =====
-- What SaveStats adds to the clients, and what it loses.
use hy_panel.Base.{
  ℕ, ◌+◌, ◌<◌, String, ◌≡◌, refl, sym, ◌∙◌, ap, Bool, true, false, List, [], ◌∷◌, ◌++◌, map, arith,
  eq_iff, All,
}
use hy_panel.Base.Int64.{sign_bit}
use hy_panel.Base.Outcome.{ok, err, Error}
use hy_panel.Tracker.Stats.{Stats, StatsTracker, Resource, inbound, outbound, user, get_stats}
use hy_panel.Tracker.Stats.Separation.{Inv}
use hy_panel.Tracker.Stats.Drain.{reported, pending, counters_of, get_stats_exact}
use hy_panel.Database.{Client}
use hy_panel.Database.Tx.{World, pure, execute, finish}
use hy_panel.Stats.{
  Panel, Onlines, count_client, count_row, save_row, create_stats, save_rows, save_reported,
  save_stats, no_onlines, note_online,
}

-- A client with the traffic of some rows.
abbrev pub credit : List Stats → Client → Client
credit rows c = record c {
  up = c.up + reported user c.name true rows;
  down = c.down + reported user c.name false rows;
}

-- What the statement for one row makes of one client.
unfoldable pub counted : Stats → Resource → Client → Client
counted s inbound c = c
counted s outbound c = c
counted s user c = count_client s c

credit-counted :
    (dt : ℕ) (r : Resource) (tag : String) (up : Bool) (n : ℕ) (rest : List Stats) (c : Client)
    → let s : Stats = record {
      date_time = dt;
      resource = r;
      tag = tag;
      direction = up;
      traffic = n;
    } in
      credit rest (counted s r c) ≡ credit (s ∷ rest) c
unfolding counted reported count_client
credit-counted dt inbound tag up n rest c = ground arith
credit-counted dt outbound tag up n rest c = ground arith
credit-counted dt user tag up n rest c = ground (arith, eq_iff c.name tag, eq_iff tag c.name)

credit-map :
    (s : Stats) (rest : List Stats) (cs : List Client)
    → map (credit rest) (map (counted s s.resource) cs) ≡ map (credit (s ∷ rest)) cs
credit-map s rest [] = refl
credit-map s rest (c ∷ cs) =
    cc (
      credit-counted s.date_time s.resource s.tag s.direction s.traffic rest c,
      credit-map s rest cs,
    )

credit-none : (cs : List Client) → map (credit []) cs ≡ cs
unfolding reported
credit-none [] = refl
credit-none (c ∷ cs) = let same : credit [] c ≡ c = ground arith in cc (same, credit-none cs)

map_same : (cs : List Client) → map (λ c. c) cs ≡ cs
map_same [] = refl
map_same (c ∷ cs) = ap (◌∷◌ c) (map_same cs)

save_row-runs :
    (s : Stats) (r : Resource) (w : World)
    → w.faults ≡ []
    → (w' : World) × (save_row s r w ≡ (ok tt, w'))
      × (w'.tables.clients ≡ map (counted s r) w.tables.clients)
      × (w'.faults ≡ [])
unfolding save_row execute count_row counted
save_row-runs s inbound w f = (w, refl, sym (map_same w.tables.clients), f)
save_row-runs s outbound w f = (w, refl, sym (map_same w.tables.clients), f)
save_row-runs s user w f = (
  record w {
    tables = record w.tables { clients = map (count_client s) w.tables.clients };
    faults = [];
  },
  rw f refl,
  refl,
  refl,
)

create_stats-runs :
    (traffic : Bool) (rows : List Stats) (w : World)
    → w.faults ≡ []
    → (w' : World) × (create_stats traffic rows w ≡ (ok tt, w'))
      × (w'.tables.clients ≡ w.tables.clients)
      × (w'.faults ≡ [])
unfolding create_stats execute pure
create_stats-runs false rows w f = (w, refl, refl, f)
create_stats-runs true rows w f = (
  record w { tables = record w.tables { stats = w.tables.stats ++ rows }; faults = [] },
  rw f refl,
  refl,
  refl,
)

save_rows-runs :
    (traffic : Bool) (all rows : List Stats) (o : Onlines) (w : World)
    → w.faults ≡ []
    → let d = save_rows traffic all rows o w in
      (d.result ≡ ok tt)
      × (d.world.tables.clients ≡ map (credit rows) w.tables.clients)
      × (d.world.faults ≡ [])
unfolding save_rows
save_rows-runs traffic all [] o w f =
    let (w', e, c, f') = create_stats-runs traffic all w f in
    rw e (refl, c ∙ sym (credit-none w.tables.clients), f')
save_rows-runs traffic all (s ∷ rest) o w f =
    let (w', e, c, f') = save_row-runs s s.resource w f in
    let (r, c', g) = save_rows-runs traffic all rest (note_online s o) w' f' in
    rw (save_rows, ap (λ x. x.0) e, ap (λ x. x.1) e)
      (r, c' ∙ ap (map (credit rest)) c ∙ credit-map s rest w.tables.clients, g)

save_reported-runs :
    (traffic : Bool) (rows : List Stats) (p : Panel)
    → p.world.faults ≡ []
    → let (r, q) = save_reported traffic rows p in
      (r ≡ ok tt)
      × (q.world.tables.clients ≡ map (credit rows) p.world.tables.clients)
      × (q.tracker ≡ p.tracker)
unfolding save_reported finish
save_reported-runs traffic [] p f = (refl, sym (credit-none p.world.tables.clients), refl)
save_reported-runs traffic (s ∷ rest) p f =
    let (r, c, g) = save_rows-runs traffic (s ∷ rest) (s ∷ rest) no_onlines p.world f in
    rw (r, g) (refl, c, refl)

-- A client with the traffic that is pending for its name.
abbrev pub settle : StatsTracker → Client → Client
settle t c = record c {
  up = c.up + pending t.users t.heap.cell c.name true;
  down = c.down + pending t.users t.heap.cell c.name false;
}

-- With the traffic that is pending for its name, the numbers of a client stay below 2 ^ 63.
abbrev pub Fits : StatsTracker → Client → Type 0
Fits t c = ((settle t c).up < sign_bit) × ((settle t c).down < sign_bit)

-- Nothing is pending.
abbrev pub IsSettled : StatsTracker → Type 0
IsSettled t =
    (r : Resource) (tag : String) (up : Bool) → pending (counters_of r t) t.heap.cell tag up ≡ 0

-- What is known of a tracker: no counter is shared, and none has reached 2 ^ 63.
pub record IsSound (t : StatsTracker) : Type 0 where
  pub inv : Inv t
  pub small : (a : ℕ) → t.heap.cell a < sign_bit

credit-settle :
    (dt : ℕ) (t : StatsTracker) (cs : List Client)
    → IsSound t
    → map (credit (get_stats dt t).0) cs ≡ map (settle t) cs
unfolding counters_of
credit-settle dt t [] v = refl
credit-settle dt t (c ∷ cs) v =
    let (u, _) = get_stats_exact dt t v.inv v.small user c.name true in
    let (d, _) = get_stats_exact dt t v.inv v.small user c.name false in
    rw (u, d, credit-settle dt t cs v)

get_stats-IsSettled : (dt : ℕ) (t : StatsTracker) → IsSound t → IsSettled (get_stats dt t).1
get_stats-IsSettled dt t v r tag up = (get_stats_exact dt t v.inv v.small r tag up).1

save_stats-running :
    (traffic : Bool) (dt : ℕ) (p : Panel)
    → p.world.core.is_running ≡ true
    → save_stats traffic dt p
      ≡ save_reported traffic
          (get_stats dt p.tracker).0
          (record p { tracker = (get_stats dt p.tracker).1 })
unfolding save_stats
save_stats-running traffic dt p up = rw up refl

-- Where the core runs and no statement fails, while no counter is shared or has reached 2 ^ 63 and
-- the new sums stay below 2 ^ 63, so that SQLite keeps them as integers: SaveStats adds to each
-- client exactly the traffic that was pending for its name, up and down, and afterwards nothing is
-- pending.
pub save_stats-settle :
    (traffic : Bool) (dt : ℕ) (p : Panel)
    → p.world.core.is_running ≡ true
    → p.world.faults ≡ []
    → All (Fits p.tracker) p.world.tables.clients
    → IsSound p.tracker
    → let (r, q) = save_stats traffic dt p in
      (r ≡ ok tt)
      × (q.world.tables.clients ≡ map (settle p.tracker) p.world.tables.clients)
      × IsSettled q.tracker
save_stats-settle traffic dt p up f h v =
    let (rows, t) = get_stats dt p.tracker in
    let (r, c, g) = save_reported-runs traffic rows (record p { tracker = t }) f in
    rw (save_stats-running traffic dt p up, g)
      (
        r,
        c ∙ credit-settle dt p.tracker p.world.tables.clients v,
        get_stats-IsSettled dt p.tracker v,
      )

save_reported-err :
    (traffic : Bool) (rows : List Stats) (p q : Panel) (e : Error)
    → save_reported traffic rows p ≡ (err e, q)
    → (q.world.tables ≡ p.world.tables) × (q.tracker ≡ p.tracker)
unfolding save_reported finish
save_reported-err traffic [] p q e h = cc
save_reported-err traffic (s ∷ rest) p q e h = ground arith

-- Where the core runs, while no counter is shared or has reached 2 ^ 63, and SaveStats returns an
-- error: the tables are what they were, and yet nothing is pending any more.
pub save_stats-err :
    (traffic : Bool) (dt : ℕ) (p q : Panel) (e : Error)
    → p.world.core.is_running ≡ true
    → IsSound p.tracker
    → save_stats traffic dt p ≡ (err e, q)
    → (q.world.tables ≡ p.world.tables) × IsSettled q.tracker
save_stats-err traffic dt p q e up v h =
    let (rows, t) = get_stats dt p.tracker in
    let (same, g) =
      save_reported-err traffic rows (record p { tracker = t }) q e
        (sym (save_stats-running traffic dt p up) ∙ h) in
    (same, rw g (get_stats-IsSettled dt p.tracker v))
