-- ===== src/Examples/Options.antt =====
-- A panel whose settings are changed.
use hy_panel.Base.{◌≡◌, refl, [], ◌∷◌}
use hy_panel.Base.Outcome.{ok}
use hy_panel.Database.{Setting}
use hy_panel.Database.Tx.{World, ◌>>=◌, query, execute}
use hy_panel.Settings.{Constants, save_setting}
use hy_panel.Settings.Stored.{string_of, save_setting-string_of}
use hy_panel.Examples.Panel.{world}

abbrev constants : Constants
constants = record { secret = "s"; config = "{}"; version = "1.0" }

abbrev web_path : Setting
web_path = record { id = 1; key = "webPath"; value = "/app/" }

abbrev panel : World
panel = record world {
  tables = record world.tables { settings = web_path ∷ []; next_setting_id = 2 };
}

abbrev moved : World
moved = record panel {
  tables = record panel.tables { settings = record web_path { value = "/x/" } ∷ [] };
}

save_setting-string_of_example : string_of constants "webPath" moved.tables ≡ ok "/x/"
unfolding ◌>>=◌ query execute
save_setting-string_of_example =
    save_setting-string_of constants "webPath" "webPath" "/x/" panel moved refl
      (unfold save_setting in refl)
