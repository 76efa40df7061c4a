-- ===== src/Users/Resets.antt =====
-- The reset of a password by a mailed token (auth_service.py).
use backend_template.Prelude.{
  ℕ, suc, ◌+◌, ◌≤◌, String, ◌≡◌, ◌≢◌, refl, ◌∙◌, Bool, true, false, none, some, List, str_eq,
  eq_iff, arith, if◌then◌else◌,
}
use backend_template.Security.{
  Libs, Lawful, Settings, verify_password, get_password_hash, generate_password_reset_token,
  verify_password_reset_token,
}
use backend_template.Security.Tokens.{
  Kind, reset, mint, lifetime, checked-mint, reset_check, expects,
}
use backend_template.Security.Passwords.{verify_password-get_password_hash}
use backend_template.Server.{User, World, ok}
use backend_template.Users.{replace, get_user_by_email, authenticate_user, reset_password}
use backend_template.Users.Unique.{Distinct, find, In, IsKey-email, query_by_key, find-In}
use backend_template.Users.Passwords.{named, save_same_keys, login_changed, login_other}

module _ {S : Type 0} (l : Libs) where
  module _ (cfg : Settings) where
    -- `reset_password` with a token that passes the check
    reset_password_found :
        (token email h : String) (pw : List ℕ) (w : World S) (u : User)
        → Distinct w.users
        → verify_password_reset_token l cfg w.now token ≡ some (some email)
        → email ≢ ""
        → find (λ v. str_eq v.email email) w.users ≡ some u
        → get_password_hash l w.drawn pw ≡ some h
        → reset_password l cfg token pw w ≡ (
          ok true,
          record w {
            drawn = suc w.drawn;
            users = replace (record u { hashed_password = h }) w.users;
          },
        )
    unfolding reset_password get_user_by_email
    reset_password_found token email h pw w u d check filled found hashed =
        let u' : User = record u { hashed_password = h } in
        let w₁ : World S = record w { drawn = suc w.drawn } in
        let p : User → Bool = λ v. str_eq v.email email in
        let ne : str_eq email "" ≡ false = ground (arith, eq_iff email "") in
        let i : In u w.users = (find-In p w.users u found).0 in
        rw (check, ne)
          (ground (
            arith,
            query_by_key p (IsKey-email email) w.users d,
            found,
            hashed,
            save_same_keys l u u' w₁ d i refl refl refl,
          ))

    -- the world after the reset
    after_reset :
        (law : Lawful l) (email h : String) (pw : List ℕ) (asked : ℕ) (w : World S) (u : User)
        → Distinct w.users
        → email ≢ ""
        → find (λ v. str_eq v.email email) w.users ≡ some u
        → asked ≤ w.now
        → w.now ≤ asked + 3600
        → get_password_hash l w.drawn pw ≡ some h
        → reset_password l cfg (generate_password_reset_token l cfg asked email) pw w ≡ (
          ok true,
          record w {
            drawn = suc w.drawn;
            users = replace (record u { hashed_password = h }) w.users;
          },
        )
    after_reset law email h pw asked w u d filled found before soon hashed =
        let token = generate_password_reset_token l cfg asked email in
        reset_password_found token email h pw w u d
          (checked-mint l cfg law reset_check reset asked 0 email w.now before soon) filled found
          hashed

    -- Over distinct rows, within the hour, the token that was made for an account's email sets that
    -- account's password, if the new one can be hashed: afterwards its username logs in with the new
    -- password, and with another exactly when that verifies against the new hash.
    pub reset_password_lem :
        (law : Lawful l) (email h : String) (pw q : List ℕ) (asked : ℕ) (w : World S) (u : User)
        → Distinct w.users
        → email ≢ ""
        → find (λ v. str_eq v.email email) w.users ≡ some u
        → asked ≤ w.now
        → w.now ≤ asked + 3600
        → get_password_hash l w.drawn pw ≡ some h
        → let (r, w') =
            reset_password l cfg (generate_password_reset_token l cfg asked email) pw w in
          (r ≡ ok true)
          × (authenticate_user l u.username pw w'
              ≡ (ok (some (record u { hashed_password = h })), w'))
          × (authenticate_user l u.username q w' ≡ (
            ok (if verify_password l q h then some (record u { hashed_password = h }) else none),
            w',
          ))
    reset_password_lem law email h pw q asked w u d filled found before soon hashed =
        let e = after_reset law email h pw asked w u d filled found before soon hashed in
        let u' : User = record u { hashed_password = h } in
        let w' : World S = record w { drawn = suc w.drawn; users = replace u' w.users } in
        let i : In u w.users = (find-In (λ v. str_eq v.email email) w.users u found).0 in
        let same = verify_password-get_password_hash l law w.drawn pw h hashed in
        let login = login_changed l u u' w w' d i refl refl refl refl in
        rw e (refl, login pw ∙ ground (arith, same), login q)

    -- The same reset leaves the login of every other account as it was, for every password.
    reset_password_others :
        (law : Lawful l) (email h : String) (pw q : List ℕ) (asked : ℕ) (w : World S) (u v : User)
        (name : String)
        → Distinct w.users
        → email ≢ ""
        → find (λ v. str_eq v.email email) w.users ≡ some u
        → asked ≤ w.now
        → w.now ≤ asked + 3600
        → get_password_hash l w.drawn pw ≡ some h
        → named name w.users ≡ some v
        → v.id ≢ u.id
        → let w' =
            (reset_password l cfg (generate_password_reset_token l cfg asked email) pw w).1 in
          (authenticate_user l name q w').0 ≡ (authenticate_user l name q w).0
    reset_password_others law email h pw q asked w u v name d filled found before soon hashed is
          other =
        let e = after_reset law email h pw asked w u d filled found before soon hashed in
        let u' : User = record u { hashed_password = h } in
        let w' : World S = record w { drawn = suc w.drawn; users = replace u' w.users } in
        let i : In u w.users = (find-In (λ v. str_eq v.email email) w.users u found).0 in
        rw e (login_other l u u' w w' d i refl refl refl refl name v q is other)

    -- A token of another kind, though it is signed and has not expired, resets nothing.
    reset_password-other_kinds :
        (law : Lawful l) (k : Kind) (subject : String) (made n : ℕ) (pw : List ℕ) (w : World S)
        → expects reset_check k ≡ false
        → made ≤ w.now
        → w.now ≤ made + lifetime cfg k
        → reset_password l cfg (mint l cfg k made n subject) pw w ≡ (ok false, w)
    unfolding reset_password
    reset_password-other_kinds law k subject made n pw w other before soon =
        let check = checked-mint l cfg law reset_check k made n subject w.now before soon in
        rw (check, other)
