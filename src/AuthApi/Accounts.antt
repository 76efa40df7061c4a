-- ===== src/AuthApi/Accounts.antt =====
-- Registration, the change of a password and the request of a reset, in api/v1/routes/auth.py.
use backend_template.Prelude.{
  ℕ, suc, String, ◌≡◌, ap, refl, ◌∙◌, Bool, true, false, none, some, List, [], ◌∷◌, ◌++◌, str_eq,
  arith, Bool-cases, ◌⊎◌, inl, inr, if◌then◌else◌,
}
use backend_template.Security.{Libs, Lawful, Settings, verify_password, get_password_hash}
use backend_template.Server.{User, World, http, ok, err}
use backend_template.Users.{
  insert_user, replace, authenticate_user, create_user, get_user_by_email, get_user_by_username,
  get_user_by_id, request_password_reset, update_user_password, send_verification_email,
}
use backend_template.Security.Passwords.{verify_password-get_password_hash}
use backend_template.Users.Passwords.{save_same_keys, login_changed}
use backend_template.Users.Unique.{
  Distinct, find, find-In, In, IsKey-email, IsKey-username, query_by_key, get_user_by_id_found,
}
use backend_template.AuthApi.{RegisterRequest, register, change_password, forgot_password}

module _ {S : Type 0} (l : Libs) (cfg : Settings) where
  request_password_reset_lem :
      (email : String) (w : World S)
      → Distinct w.users
      → ((request_password_reset l cfg email w).0 ≡ ok true)
        × ((request_password_reset l cfg email w).1.users ≡ w.users)
  unfolding request_password_reset get_user_by_email
  request_password_reset_lem email w d =
      ground (arith, query_by_key (λ u. str_eq u.email email) (IsKey-email email) w.users d)

  -- Over distinct rows, the answer to a forgotten password does not tell whether an account has
  -- the email: for any two emails it is the same, whether mail can be sent or not, and no row is
  -- changed.
  pub forgot_password_same :
      (email other : String) (w : World S)
      → Distinct w.users
      → ((forgot_password l cfg email w).0 ≡ (forgot_password l cfg other w).0)
        × ((forgot_password l cfg email w).1.users ≡ w.users)
  unfolding forgot_password
  forgot_password_same email other w d =
      ground (arith, request_password_reset_lem email w d, request_password_reset_lem other w d)

  -- Over distinct rows, a registration that succeeds was allowed by the settings, under an email
  -- and a username that no row had. It appends one row, with that email, that username and a hash
  -- of the password, which is no superuser, is not verified, and is active as the settings say.
  pub register_sound :
      (q : RegisterRequest) (w w' : World S) (u : User)
      → Distinct w.users
      → register l cfg q w ≡ (ok u, w')
      → (cfg.auth_register_endpoint_enabled ≡ true)
        × (find (λ v. str_eq v.email q.email) w.users ≡ none)
        × (find (λ v. str_eq v.username q.username) w.users ≡ none)
        × (w'.users ≡ w.users ++ u ∷ [])
        × (u.email ≡ q.email)
        × (u.username ≡ q.username)
        × (get_password_hash l w.drawn q.password ≡ some u.hashed_password)
        × (u.is_superuser ≡ false)
        × (u.is_verified ≡ false)
        × (u.is_active ≡ cfg.auth_register_default_active)
  unfolding register create_user insert_user send_verification_email get_user_by_email
      get_user_by_username
  register_sound q w w' u d e = ground (
    arith,
    query_by_key (λ v. str_eq v.email q.email) (IsKey-email q.email) w.users d,
    query_by_key (λ v. str_eq v.username q.username) (IsKey-username q.username) w.users d,
  )

  module _ (user_id id h : String) (current new_password : List ℕ) (w : World S) (u : User)
      (d : Distinct w.users) (uuid : l.uuid user_id ≡ some id)
      (found : find (λ v. str_eq v.id id) w.users ≡ some u)
      (hashed : get_password_hash l w.drawn new_password ≡ some h) where
    change_password_branches : change_password l cfg user_id current new_password w ≡ (
        if verify_password l current u.hashed_password
        then (
          ok true,
          record w {
            drawn = suc w.drawn;
            users = replace (record u { hashed_password = h }) w.users;
          },
        )
        else (err (http 400 "Incorrect current password"), w))
    unfolding change_password update_user_password
    change_password_branches =
        let key : User → Bool = λ v. str_eq v.id id in
        let i : In u w.users = (find-In key w.users u found).0 in
        let w₁ : World S = record w { drawn = suc w.drawn } in
        let lookup : get_user_by_id l user_id w ≡ (ok (some u), w) =
          get_user_by_id_found l user_id id w uuid d ∙ ap (λ x. (ok x, w)) found in
        rw (lookup) (elim (Bool-cases (verify_password l current u.hashed_password)) [
          | inl e ↦
              rw (e, lookup, hashed)
                (rw (save_same_keys l u (record u { hashed_password = h }) w₁ d i refl refl refl)
                  refl)
          | inr e ↦ rw e refl
        ])

    -- Over distinct rows a user who gives the current password gets the new one, if it can be hashed:
    -- the username then logs in with it, and with another exactly when that verifies against the new
    -- hash. With a wrong current password the answer is 400, and nothing is written.
    pub change_password_lem :
        (law : Lawful l) (q : List ℕ)
        → let (r, w') = change_password l cfg user_id current new_password w in
          let changed : User = record u { hashed_password = h } in
          ((verify_password l current u.hashed_password ≡ true)
            × (r ≡ ok true)
            × (authenticate_user l u.username new_password w' ≡ (ok (some changed), w'))
            × (authenticate_user l u.username q w'
                ≡ (ok (if verify_password l q h then some changed else none), w')))
          ⊎ ((verify_password l current u.hashed_password ≡ false)
              × (r ≡ err (http 400 "Incorrect current password"))
              × (w' ≡ w))
    change_password_lem law q =
        let changed : User = record u { hashed_password = h } in
        let w' : World S = record w { drawn = suc w.drawn; users = replace changed w.users } in
        let i : In u w.users = (find-In (λ v. str_eq v.id id) w.users u found).0 in
        let login = login_changed l u changed w w' d i refl refl refl refl in
        let same = verify_password-get_password_hash l law w.drawn new_password h hashed in
        rw change_password_branches
          (elim (Bool-cases (verify_password l current u.hashed_password)) [
            | inl e ↦ rw e (inl (refl, refl, login new_password ∙ ground (arith, same), login q))
            | inr e ↦ rw e (inr (refl, refl, refl))
          ])
