-- ===== src/Inbounds/Types.antt =====
-- The ids that ApplyUserChanges of service/inbounds.go takes for those of Hysteria2 inbounds.
use hy_panel.Base.{
  ℕ, ◌≡◌, refl, Bool, ◌&&◌, List, [], ◌∷◌, arith, ◌==◌, ==_iff, str_eq, keep_if, has, any_of,
}
use hy_panel.Database.{Inbound}
use hy_panel.Inbounds.{hy2_ids}

-- A row says that an id is that of a Hysteria2 inbound.
abbrev pub is_hy2 : ℕ → List Inbound → Bool
is_hy2 id rows = any_of (λ r. r.id == id && str_eq r.type "hysteria2") rows

pub has-hy2_ids :
    (id : ℕ) (ids : List ℕ) (rows : List Inbound)
    → has id (hy2_ids ids rows) ≡ (has id ids && is_hy2 id rows)
unfolding hy2_ids
has-hy2_ids id ids [] = ground arith
has-hy2_ids id ids (r ∷ rs) = ground (arith, has-hy2_ids id ids rs, ==_iff r.id id, ==_iff id r.id)

pub has-keep_if : (p : ℕ → Bool) (x : ℕ) (l : List ℕ) → has x (keep_if p l) ≡ (has x l && p x)
has-keep_if p x [] = refl
has-keep_if p x (y ∷ ys) = ground (arith, has-keep_if p x ys, ==_iff x y)
