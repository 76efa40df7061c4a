-- ===== src/Users/Passwords.antt =====
-- Logins in auth_service.py: the row they find, after a registration and after a change of password.
use backend_template.Prelude.{
  ℕ, String, ◌≡◌, ◌≢◌, refl, ◌∙◌, ap, Bool, true, false, inl, inr, Option, none, some, List, [],
  ◌∷◌, ◌++◌, str_eq, eq_iff, arith, Bool-cases, if◌then◌else◌,
}
use backend_template.Security.{Libs, Lawful, verify_password, get_password_hash}
use backend_template.Security.Passwords.{verify_password-get_password_hash}
use backend_template.Server.{User, World, ok}
use backend_template.Users.{
  clashes, replace, get_user_by_email, get_user_by_username, matching, save_user, insert_user,
  authenticate_user, create_user,
}
use backend_template.Users.Unique.{
  Distinct, find, In, replaced, IsKey-email, IsKey-username, query_by_key, find-replace,
  find-append, find-none_of_clash, Distinct-append, Distinct-replace, clashes-others_keys,
  find_of_In,
}

-- the row that a login name stands for: by username, or else by email
abbrev pub named : String → List User → Option User
named name us = elim (find (λ u. str_eq u.username name) us) [
  | none ↦ find (λ u. str_eq u.email name) us
  | some u ↦ some u
]

-- the row that a login name stands for after a row is replaced by one with its keys
named-replace :
    (name : String) (u u' : User) (us : List User)
    → Distinct us
    → In u us
    → u'.id ≡ u.id
    → u'.email ≡ u.email
    → u'.username ≡ u.username
    → named name (replace u' us) ≡ replaced u' (named name us)
named-replace name u u' us d i a b c = ground (
  arith,
  find-replace (λ v. str_eq v.username name) u u' us d i a (ap (λ x. str_eq x name) c),
  find-replace (λ v. str_eq v.email name) u u' us d i a (ap (λ x. str_eq x name) b),
)

module _ {S : Type 0} (l : Libs) where
  -- Over distinct rows a login returns the row whose username, or else whose email, is the given
  -- name, exactly when the password verifies against its hash; it never raises and writes nothing.
  pub authenticate_user_lem :
      (name : String) (pw : List ℕ) (w : World S)
      → Distinct w.users
      → authenticate_user l name pw w ≡ (ok (matching l pw (named name w.users)), w)
  unfolding authenticate_user get_user_by_username get_user_by_email
  authenticate_user_lem name pw w d = ground (
    arith,
    query_by_key (λ u. str_eq u.username name) (IsKey-username name) w.users d,
    query_by_key (λ u. str_eq u.email name) (IsKey-email name) w.users d,
  )

  insert_user_ok :
      (u : User) (w w' : World S)
      → insert_user u w ≡ (ok tt, w')
      → (clashes u w.users ≡ false) × (w'.users ≡ w.users ++ u ∷ [])
  unfolding insert_user
  insert_user_ok u w w' e = elim (Bool-cases (clashes u w.users)) [
    | inl clash ↦ absurd (ground arith)
    | inr free ↦ (free, ground arith)
  ]

  -- what a successful registration has written
  created :
      (username email : String) (pw : List ℕ) (first last : Option String)
      (active super verified : Bool) (w w' : World S) (u : User)
      → create_user l username email pw first last active super verified w ≡ (ok u, w')
      → (u.username ≡ username)
        × (u.email ≡ email)
        × (get_password_hash l w.drawn pw ≡ some u.hashed_password)
        × (clashes u w.users ≡ false)
        × (w'.users ≡ w.users ++ u ∷ [])
  unfolding create_user insert_user
  created username email pw first last active super verified w w' u e = ground arith

  -- After a successful registration over distinct rows the new account logs in by its username with
  -- its password, and with another password exactly when that verifies against the stored hash.
  pub authenticate_user-create_user :
      (law : Lawful l) (username email : String) (pw : List ℕ) (first last : Option String)
      (active super verified : Bool) (w w' : World S) (u : User) (q : List ℕ)
      → Distinct w.users
      → create_user l username email pw first last active super verified w ≡ (ok u, w')
      → (authenticate_user l username pw w' ≡ (ok (some u), w'))
        × (authenticate_user l username q w'
            ≡ (ok (if verify_password l q u.hashed_password then some u else none), w'))
  authenticate_user-create_user law username email pw first last active super verified w w' u q d
        e =
      let (un, em, hashed, free, rows) =
        created username email pw first last active super verified w w' u e in
      let p : User → Bool = λ v. str_eq v.username username in
      let here : p u ≡ true = (eq_iff u.username username).1 un in
      let d' : Distinct w'.users = rw rows (Distinct-append w.users u d free) in
      let found : find p w'.users ≡ some u =
        rw (rows, find-append)
          (rw (find-none_of_clash p (IsKey-username username) u w.users here free, here)) in
      let same = verify_password-get_password_hash l law w.drawn pw u.hashed_password hashed in
      (
        authenticate_user_lem username pw w' d' ∙ ground (arith, found, same),
        authenticate_user_lem username q w' d' ∙ ground (arith, found),
      )

  pub save_same_keys :
      (u u' : User) (w : World S)
      → Distinct w.users
      → In u w.users
      → u'.id ≡ u.id
      → u'.email ≡ u.email
      → u'.username ≡ u.username
      → save_user u' w ≡ (ok tt, record w { users = replace u' w.users })
  unfolding save_user
  save_same_keys u u' w d i a b c = rw (clashes-others_keys w.users u u' d i a b c)

  -- logins after one row is replaced by one with its keys
  module _ (u u' : User) (w w' : World S) (d : Distinct w.users) (i : In u w.users)
      (a : u'.id ≡ u.id) (b : u'.email ≡ u.email) (c : u'.username ≡ u.username)
      (rows : w'.users ≡ replace u' w.users) where
    Distinct-after : Distinct w'.users
    Distinct-after =
        rw rows (Distinct-replace w.users u' d (clashes-others_keys w.users u u' d i a b c))

    pub login_changed :
        (q : List ℕ) → authenticate_user l u.username q w' ≡ (ok (matching l q (some u')), w')
    login_changed q =
        let p : User → Bool = λ v. str_eq v.username u.username in
        let here : find p w.users ≡ some u =
          find_of_In p (IsKey-username u.username) u w.users d i
            ((eq_iff u.username u.username).1 refl) in
        let now_named : named u.username w'.users ≡ some u' = rw rows (
          named-replace u.username u u' w.users d i a b c
          ∙ ground (arith, here, eq_iff u.id u'.id)) in
        authenticate_user_lem u.username q w' Distinct-after ∙ ground (arith, now_named)

    pub login_other :
        (name : String) (v : User) (q : List ℕ)
        → named name w.users ≡ some v
        → v.id ≢ u.id
        → (authenticate_user l name q w').0 ≡ (authenticate_user l name q w).0
    login_other name v q before ne =
        let still : named name w'.users ≡ some v =
          rw rows (
            named-replace name u u' w.users d i a b c
            ∙ ground (arith, before, eq_iff v.id u'.id)) in
        ground (
          arith,
          authenticate_user_lem name q w' Distinct-after,
          authenticate_user_lem name q w d,
          still,
          before,
        )
