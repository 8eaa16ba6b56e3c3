-- ===== src/Util/OutJson/Refill.antt =====
-- FillOutJson on what FillOutJson has written.
use hy_panel.Base.{
  String, ℕ, ◌≡◌, refl, sym, ap, ◌∙◌, Bool, true, false, Option, none, some, if◌then◌else◌, inl,
  inr, ltb, subst, ◌⊎◌,
}
use hy_panel.Base.Assoc.{Assoc, lookup, insert, remove}
use hy_panel.Base.Outcome.{Outcome, ok, err, Error, panicked, ◌>>=◌}
use hy_panel.Base.Value.{Value, text, null, object, must}
use hy_panel.Database.{Inbound, TlsRow}
use hy_panel.Util.{GoLib, marshal_full, value_at, read_object, read_map}
use hy_panel.Util.OutJson.Kinds.{out_of_type-IsWrite}
use hy_panel.Util.OutJson.Writes.{
  IsWrite, IsWrite-id, IsWrite-compose, IsWrite-insert, IsWrite-remove, IsWrite-twice,
}
use hy_panel.Util.OutJson.{tls_config, add_tls, put_tls, out_of_type, filled}

ok-injective : (a b : Assoc Value) → ◌≡◌ {A = Outcome (Assoc Value)} (ok a) (ok b) → a ≡ b
ok-injective a b e = ap (λ o. elim o [ ok x ↦ x | err x ↦ a ]) e

-- What comes behind the TLS
abbrev named : Inbound → String → Assoc Value → Assoc Value → Assoc Value
named i hostname inbound m = out_of_type i.type inbound (
    insert "server_port" (value_at "listen_port" inbound)
      (insert "server" (text hostname) (insert "tag" (text i.tag) (insert "type" (text i.type) m))))

-- A step that writes, or ends with an error, whatever the map is
abbrev Acts : (Assoc Value → Outcome (Assoc Value)) → Type 0
Acts step =
    ((f : Assoc Value → Assoc Value) × IsWrite f × ((m : Assoc Value) → step m ≡ ok (f m)))
    ⊎ ((e : Error) × ((m : Assoc Value) → step m ≡ err e))

module _ (random_int : ℕ → ℕ) (lib : GoLib) where
  add_tls-Acts : (row : TlsRow) → Acts (add_tls random_int lib row)
  unfolding add_tls read_object
  add_tls-Acts row = server (read_object lib row.server)
    where
      config :
          (made : Outcome (Option (Assoc Value)))
          → Acts
              (λ m. made >>= λ c. ok (insert "tls" (elim c [ none ↦ null | some x ↦ object x ]) m))
      config (ok c) = inl (
        insert "tls" (elim c [ none ↦ null | some x ↦ object x ]),
        IsWrite-insert "tls" _,
        λ m. refl,
      )
      config (err e) = inr (e, λ m. refl)

      client :
          (tls : Assoc Value) (read : Option (Option (Assoc Value)))
          → Acts (λ m. elim read [
            | none ↦ ok m
            | some c ↦ tls_config random_int tls c >>= λ made.
                ok (insert "tls" (elim made [ none ↦ null | some x ↦ object x ]) m)
          ])
      client tls none = inl (λ m. m, IsWrite-id, λ m. refl)
      client tls (some c) = config (tls_config random_int tls c)

      server :
          (read : Option (Assoc Value))
          → Acts (λ m. elim read [
            | none ↦ ok m
            | some tls ↦ elim (read_map lib row.client) [
              | none ↦ ok m
              | some c ↦ tls_config random_int tls c >>= λ made.
                  ok (insert "tls" (elim made [ none ↦ null | some x ↦ object x ]) m)
            ]
          ])
      server none = inl (λ m. m, IsWrite-id, λ m. refl)
      server (some tls) = client tls (read_map lib row.client)

  put_tls-Acts : (i : Inbound) (row : Option TlsRow) → Acts (put_tls random_int lib i row)
  unfolding put_tls must
  put_tls-Acts i row = go (ltb 0 i.tls_id) row
    where
      go :
          (b : Bool) (r : Option TlsRow)
          → Acts
              (λ m. if b then (must r >>= λ x. add_tls random_int lib x m) else ok (remove "tls" m))
      go true none = inr (panicked, λ m. refl)
      go true (some x) = add_tls-Acts x
      go false r = inl (remove "tls", IsWrite-remove "tls", λ m. refl)

  filled-Acts :
      (i : Inbound) (row : Option TlsRow) (hostname : String)
      → Acts (filled random_int lib i row hostname)
  unfolding filled
  filled-Acts i row hostname = go (put_tls-Acts i row) (marshal_full lib i)
    where
      go :
          Acts (put_tls random_int lib i row)
          → (full : Outcome (Assoc Value))
          → Acts (λ m. put_tls random_int lib i row m >>= λ with_tls.
              full >>= λ inbound. ok (named i hostname inbound with_tls))
      go (inr (e, h)) full = inr (e, λ m. rw (h m) refl)
      go (inl (f, w, h)) (err e) = inr (e, λ m. rw (h m) refl)
      go (inl (f, w, h)) (ok inbound) = inl (
        λ m. named i hostname inbound (f m),
        IsWrite-compose (out_of_type i.type inbound) _ (out_of_type-IsWrite i.type inbound) (
            IsWrite-compose (insert "server_port" _) _ (IsWrite-insert "server_port" _) (
              IsWrite-compose (insert "server" _) _ (IsWrite-insert "server" _) (
                IsWrite-compose (insert "tag" _) _ (IsWrite-insert "tag" _)
                  (IsWrite-compose (insert "type" _) f (IsWrite-insert "type" _) w)))),
        λ m. rw (h m) refl,
      )

  -- Where RandomInt picks the same, FillOutJson on a map that it has filled before, for the same
  -- inbound, TLS row and host, succeeds and leaves every key as it was, for every type of inbound.
  pub filled-again :
      (i : Inbound) (row : Option TlsRow) (hostname : String) (out made : Assoc Value)
      → filled random_int lib i row hostname out ≡ ok made
      → (again : Assoc Value) × (filled random_int lib i row hostname made ≡ ok again)
        × ((k : String) → lookup k again ≡ lookup k made)
  filled-again i row hostname out made e = go (filled-Acts i row hostname)
    where
      go :
          Acts (filled random_int lib i row hostname)
          → (again : Assoc Value) × (filled random_int lib i row hostname made ≡ ok again)
            × ((k : String) → lookup k again ≡ lookup k made)
      go (inr (x, h)) = cc (e, h out)
      go (inl (f, w, h)) = (
        f made,
        h made,
        λ k.
            subst (λ m. lookup k (f m) ≡ lookup k m) (ok-injective (f out) made (sym (h out) ∙ e))
              (IsWrite-twice f w k out),
      )
