-- ===== src/Access/Callers.antt =====
-- Whom core/dependecies.py lets in.
use backend_template.Prelude.{
  ℕ, ◌+◌, ◌≤◌, String, ◌≡◌, refl, ap, true, false, ◌&&◌, not, none, some, str_eq, arith,
  Option-cases, inl, inr,
}
use backend_template.Security.{Libs, Lawful, Settings, verify_token}
use backend_template.Security.Tokens.{Kind, access_check, mint, expects, lifetime, checked-mint}
use backend_template.Server.{World, http, ok, err}
use backend_template.Users.Unique.{Distinct, find, IsKey-id, query_by_key}
use backend_template.Access.{
  public_user_id, Caller, row_of, get_current_user, get_current_active_user, get_current_superuser,
  get_current_user_token, get_current_user_or_public,
}

module _ {S : Type 0} (l : Libs) (cfg : Settings) (w : World S) (d : Distinct w.users) where
  row_lem : (id : String) → row_of l cfg id w ≡ (ok (find (λ u. str_eq u.id id) w.users), w)
  unfolding row_of
  row_lem id = ap (λ r. (r, w)) (query_by_key (λ u. str_eq u.id id) (IsKey-id id) w.users d)

  -- Over distinct rows, a caller with credentials is let in only as the active user whose id a
  -- valid access token has, who is a superuser where the access mode asks for one, and never
  -- marked as the anonymous public user; nothing is written.
  pub credentials_sound :
      (token : String) (c : Caller) (w' : World S)
      → get_current_user_or_public l cfg (some token) w ≡ (ok c, w')
      → (user_id : String) × (id : String) × (verify_token l cfg w.now token ≡ some user_id)
        × (l.uuid user_id ≡ some id)
        × (find (λ u. str_eq u.id id) w.users ≡ some c.user)
        × (c.user.is_active ≡ true)
        × ((str_eq cfg.llm_api_access_mode "superuser" && not c.user.is_superuser) ≡ false)
        × (c.is_public_anonymous ≡ false)
        × (w' ≡ w)
  unfolding get_current_user_or_public
  credentials_sound token c w' e = elim (Option-cases (verify_token l cfg w.now token)) [
    | inl f ↦ absurd (ground arith)
    | inr (user_id, f) ↦ elim (Option-cases (l.uuid user_id)) [
      | inl g ↦ absurd (ground arith)
      | inr (id, g) ↦
          let row = row_lem id in
          (user_id, id, f, g, ground arith, ground arith, ground arith, ground arith, ground arith)
    ]
  ]

  -- Over distinct rows, a caller without credentials is let in only in the public mode, as the row
  -- of the public user, which is active; nothing is written.
  anonymous_sound :
      (c : Caller) (w' : World S)
      → get_current_user_or_public l cfg none w ≡ (ok c, w')
      → (str_eq cfg.llm_api_access_mode "public" ≡ true)
        × (find (λ u. str_eq u.id public_user_id) w.users ≡ some c.user)
        × (c.user.is_active ≡ true)
        × (c.is_public_anonymous ≡ true)
        × (w' ≡ w)
  unfolding get_current_user_or_public
  anonymous_sound c w' e = ground (arith, row_lem public_user_id)

  -- A token of another kind than access is refused with 401 for as long as it lives, by each of
  -- three dependencies: the one for any caller in every access mode, the one for active users, and
  -- the one for superusers.
  other_kinds_refused :
      (law : Lawful l) (k : Kind) (made n : ℕ) (subject : String)
      → expects access_check k ≡ false
      → made ≤ w.now
      → w.now ≤ made + lifetime cfg k
      → (get_current_user_or_public l cfg (some (mint l cfg k made n subject)) w
          ≡ (err (http 401 "Invalid or expired token"), w))
        × (get_current_active_user l cfg (mint l cfg k made n subject) w
            ≡ (err (http 401 "Could not validate credentials"), w))
        × (get_current_superuser l cfg (mint l cfg k made n subject) w
            ≡ (err (http 401 "Could not validate credentials"), w))
  unfolding get_current_user_or_public get_current_active_user get_current_superuser
      get_current_user get_current_user_token
  other_kinds_refused law k made n subject other before soon =
      let check = checked-mint l cfg law access_check k made n subject w.now before soon in
      let refused : verify_token l cfg w.now (mint l cfg k made n subject) ≡ none = ground arith in
      rw refused (refl, refl, refl)
