-- ===== src/Clients/Limits.antt =====
-- The conditions on a client's quota and expiry, as SQLite evaluates them and as BanClient does.
use hy_panel.Base.{ℕ, ◌+◌, ◌<◌, ◌≡◌, Bool, true, ◌&&◌, ◌||◌, ltb, arith}
use hy_panel.Base.Int64.{word, sign_bit, offset, lt_int64, add_int64}
use hy_panel.Database.{Client}

-- a + b > c in SQL, where a sum beyond 64 bits does not wrap around
pub sum_gt : ℕ → ℕ → ℕ → Bool
sum_gt a b c = ltb (offset c + sign_bit) (offset a + offset b)

-- enable = true AND ((volume >0 AND up+down > volume) OR (expiry > 0 AND expiry < dt))
unfoldable pub is_depleted : ℕ → Client → Bool
unfolding sum_gt
is_depleted dt c =
    c.enable
    && ((lt_int64 0 c.volume && sum_gt c.up c.down c.volume)
        || (lt_int64 0 c.expiry && lt_int64 c.expiry dt))

-- overQuota and expired of BanClient
unfoldable pub over_quota : Client → Bool
over_quota c = lt_int64 0 c.volume && lt_int64 c.volume (add_int64 c.up c.down)

unfoldable pub expired : ℕ → Client → Bool
expired now c = lt_int64 0 c.expiry && lt_int64 c.expiry now

-- For an enabled client whose traffic adds up to less than 2 ^ 63 bytes, and whose volume fits into
-- 64 bits, the condition of DepleteClients and that of BanClient agree.
pub over_quota-is_depleted :
    (now : ℕ) (c : Client)
    → c.enable ≡ true
    → c.up + c.down < sign_bit
    → c.volume < word
    → is_depleted now c ≡ (over_quota c || expired now c)
unfolding is_depleted over_quota expired
over_quota-is_depleted now c on small fits = ground arith
