-- ===== src/Examples/Subscribing.antt =====
-- A client that has used up its volume to the byte, and may still connect.
use hy_panel.Base.{◌≡◌, refl, none, [], ◌∷◌, arith}
use hy_panel.Database.{Client}
use hy_panel.Clients.Limits.{is_depleted}
use hy_panel.Sub.{Formats, get_client_info}
use hy_panel.Sub.Unlimited.{get_client_info-is_depleted}
use hy_panel.Examples.Panel.{anna}

abbrev formats : Formats
formats = record {
  split = λ s sep. s ∷ [];
  decode = λ s. none;
  encode = λ s. s;
  read = λ s. none;
  show = λ m. "";
  links = λ s. none;
  fetch = λ s. "";
  traffic = λ n divisor name. name;
  days = λ n. "";
}

abbrev used_up : Client
used_up = record anna { volume = 120 }

get_client_info-is_depleted_example : get_client_info formats 10 used_up ≡ " ♾"
unfolding is_depleted
get_client_info-is_depleted_example =
    get_client_info-is_depleted formats 10 used_up refl (ground arith) (ground arith) refl refl refl
