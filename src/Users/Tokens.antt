-- ===== src/Users/Tokens.antt =====
-- What LoadTokens makes of a token that AddToken made.
use hy_panel.Base.{
  ℕ, String, ◌≡◌, refl, ap, ◌∙◌, Bool, true, false, ◌||◌, none, Option-cases, List, [], ◌∷◌, ◌++◌,
  arith, ◌==◌, str_eq, first_of?, keep_if, inl, inr, All,
}
use hy_panel.Base.Int64.{lt_int64}
use hy_panel.Base.Outcome.{ok, err, panicked}
use hy_panel.Database.{User, Token}
use hy_panel.Database.Tx.{World, pure, lift, ◌>>=◌, query, execute}
use hy_panel.Users.{
  user_id_of, token_expiry, create_token, add_token, is_valid, load_rows, load_tokens,
}

-- The ids of the users are not 0.
abbrev pub ArePositive : List User → Type 0
ArePositive = All (λ u. (u.id == 0) ≡ false)

no_user : (users : List User) → ArePositive users → first_of? (λ u. u.id == 0) users ≡ none
no_user [] h = refl
no_user (u ∷ us) h = ground (arith, no_user us h.1)

-- One token without a user among them stops LoadTokens.
load_rows-panic :
    (users : List User) (ts : List Token) (t : Token)
    → first_of? (λ u. u.id == t.user_id) users ≡ none
    → load_rows users (ts ++ t ∷ []) ≡ err panicked
unfolding load_rows
load_rows-panic users [] t e = rw (load_rows, e) refl
load_rows-panic users (s ∷ ss) t e =
    elim (Option-cases (first_of? (λ u. u.id == s.user_id) users)) [
      | inl q ↦ rw (load_rows, q) refl
      | inr (u, q) ↦ rw (load_rows, q, load_rows-panic users ss t e) refl
    ]

keep_if-last :
    (p : Token → Bool) (ts : List Token) (t : Token)
    → p t ≡ true
    → keep_if p (ts ++ t ∷ []) ≡ keep_if p ts ++ t ∷ []
keep_if-last p [] t h = rw h refl
keep_if-last p (s ∷ ss) t h = ground (arith, keep_if-last p ss t h)

-- Where no statement fails and ids of users are not 0: AddToken makes a token for a name that no
-- user has, and from then on, at each time when this token is valid, LoadTokens panics.
pub load_tokens-add_token :
    (username : String) (expiry : ℕ) (desc random : String) (now time : ℕ) (w : World)
    → w.faults ≡ []
    → ArePositive w.tables.users
    → first_of? (λ u. str_eq u.username username) w.tables.users ≡ none
    → ((token_expiry expiry now == 0) || lt_int64 time (token_expiry expiry now)) ≡ true
    → let (r, w') = add_token username expiry desc random now w in
      (r ≡ ok random) × ((load_tokens time w').0 ≡ err panicked)
unfolding add_token load_tokens user_id_of create_token is_valid ◌>>=◌ query execute lift pure
load_tokens-add_token username expiry desc random now time w f pos absent valid =
    let t : Token = record {
      id = w.tables.next_token_id;
      desc = desc;
      token = random;
      expiry = token_expiry expiry now;
      user_id = 0;
    } in
    let kept = keep_if-last (is_valid time) w.tables.tokens t valid in
    let stopped =
      load_rows-panic w.tables.users (keep_if (is_valid time) w.tables.tokens) t
        (no_user w.tables.users pos) in
    rw (f, user_id_of, absent) (refl, ap (λ ts. load_rows w.tables.users ts) kept ∙ stopped)
