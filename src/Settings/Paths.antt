-- ===== src/Settings/Paths.antt =====
-- Paths that start and end with a slash.
use hy_panel.Base.{
  String, ◌<>◌, ◌≡◌, refl, ◌∙◌, ap, Bool, true, ◌&&◌, arith, starts_slash, ends_slash,
  ends_slash-append, starts_slash-append, slash-starts_slash,
}
use hy_panel.Base.{eq_iff, [], distinct}
use hy_panel.Base.Outcome.{ok}
use hy_panel.Database.Tx.{World, pure, ◌>>=◌}
use hy_panel.Settings.{Constants, correct_path, set_path, get_path, get_string}
use hy_panel.Settings.Stored.{setting_ids, string_of, save_setting-string_of, get_string-string_of}

-- A path that needs no correction.
unfoldable pub is_rooted : String → Bool
is_rooted path = starts_slash path && ends_slash path

pub correct_path-is_rooted : (path : String) → is_rooted (correct_path path) ≡ true
unfolding correct_path is_rooted
correct_path-is_rooted path = ground (
  arith,
  slash-starts_slash path,
  ends_slash-append path,
  ends_slash-append ("/" <> path),
  starts_slash-append path "/",
  starts_slash-append ("/" <> path) "/",
)

pub is_rooted-correct_path : (path : String) → is_rooted path ≡ true → correct_path path ≡ path
unfolding correct_path is_rooted
is_rooted-correct_path path h = ground arith

-- On settings whose ids are unique, where SetWebPath or SetSubPath has returned nil and no
-- statement fails later, the path that is read is the given one with a slash added at either end
-- that has none, and it starts and ends with a slash.
pub get_path-set_path :
    (c : Constants) (key path : String) (w w' u : World)
    → distinct (setting_ids w.tables.settings) ≡ true
    → set_path key path w ≡ (ok tt, w')
    → u.tables ≡ w'.tables
    → u.faults ≡ []
    → ((get_path c key u).0 ≡ ok (correct_path path)) × (is_rooted (correct_path path) ≡ true)
unfolding get_path set_path ◌>>=◌ pure
get_path-set_path c key path w w' u d e same f =
    let kept = save_setting-string_of c key key (correct_path path) w w' d e in
    let own : string_of c key w'.tables ≡ ok (correct_path path) =
      ground (arith, kept, eq_iff key key) in
    let read : (get_string c key u).0 ≡ ok (correct_path path) =
      get_string-string_of c key u f ∙ ap (string_of c key) same ∙ own in
    (
      rw (read, is_rooted-correct_path (correct_path path) (correct_path-is_rooted path)) refl,
      correct_path-is_rooted path,
    )
