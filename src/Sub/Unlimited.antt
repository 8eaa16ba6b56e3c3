-- ===== src/Sub/Unlimited.antt =====
-- Which clients are told that their subscription has no limit.
use hy_panel.Base.{ℕ, ◌+◌, ◌<◌, ◌≡◌, true, false, ◌==◌, ◌-◌, ◌<>◌, if◌then◌else◌, arith}
use hy_panel.Base.Int64.{sign_bit}
use hy_panel.Database.{Client}
use hy_panel.Clients.Limits.{is_depleted}
use hy_panel.Sub.{Formats, info_parts, sub_int64, get_client_info, format_traffic, join}

-- For an enabled client with a volume and without an expiry, whose volume and traffic are below 2 ^
-- 63 bytes and whom DepleteClients would not disable, getClientInfo tells it that it has no limit
-- exactly if its traffic is its volume to the byte; otherwise it tells what is left of the volume.
pub get_client_info-is_depleted :
    (f : Formats) (now : ℕ) (c : Client)
    → c.enable ≡ true
    → c.volume < sign_bit
    → c.up + c.down < sign_bit
    → (c.volume == 0) ≡ false
    → c.expiry ≡ 0
    → is_depleted now c ≡ false
    → get_client_info f now c ≡ (
        if c.up + c.down == c.volume
        then " ♾"
        else " " <> (format_traffic f (c.volume - (c.up + c.down)) <> "📊"))
unfolding info_parts sub_int64 is_depleted get_client_info join
get_client_info-is_depleted f now c on v t some_volume none depleted = ground arith
