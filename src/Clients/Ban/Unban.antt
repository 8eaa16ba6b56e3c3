-- ===== src/Clients/Ban/Unban.antt =====
-- The end of a ban.
use hy_panel.Base.{ℕ, ◌+◌, ◌<◌, ◌≡◌, false, arith}
use hy_panel.Base.Int64.{word, sign_bit}
use hy_panel.Database.{Client}
use hy_panel.Clients.Limits.{is_depleted, over_quota, expired}
use hy_panel.Clients.Ban.{ban_updates}

-- A client whose traffic adds up to less than 2 ^ 63 bytes, and whose volume fits into 64 bits, is
-- not one that DepleteClients would disable at the time when its ban ends: the end of the ban
-- enables it only within its limits.
pub ban_updates-is_depleted :
    (now : ℕ) (c : Client)
    → c.up + c.down < sign_bit
    → c.volume < word
    → is_depleted now (ban_updates now false c c) ≡ false
unfolding ban_updates is_depleted over_quota expired
ban_updates-is_depleted now c small fits = ground arith
