-- ===== src/Users/Steps.antt =====
-- Each account operation of auth_service.py as a step of the `users` table, and what every step keeps.
use backend_template.Prelude.{
  ℕ, suc, String, ◌≡◌, refl, ap, Bool, true, false, inl, inr, Option, none, some, List, [], ◌∷◌,
  ◌++◌, str_eq, arith, Bool-cases, Option-cases,
}
use backend_template.Security.{
  Libs, Settings, get_password_hash, verify_password_reset_token, verify_email_verification_token,
}
use backend_template.Server.{User, World, ok, Action, pure, ◌>>=◌}
use backend_template.Users.{
  clashes, others, replace, get_user_by_id, get_user_by_email, change_found, set_password,
  create_user, update_user_profile, update_user_password, deactivate_user, activate_user,
  reset_password, verify_email_with_token, mark_verified, with_subject, save_user, insert_user,
  is_found,
}
use backend_template.Users.Unique.{
  Distinct, find, In, IsKey-email, query_by_key, find-In, get_user_by_id_found,
  get_user_by_id_raises, Distinct-append, Distinct-replace,
}

-- An operation leaves the table, or changes one row and leaves its id, its username and its role, or appends one
-- row that clashes with none. A new row is a superuser only where `super` says so.
pub data RowStep (super : Bool) (us : List User) : List User → Type 0 where
  keep : RowStep super us us
  change :
      (u u' : User)
      → In u us
      → u'.id ≡ u.id
      → u'.username ≡ u.username
      → u'.is_superuser ≡ u.is_superuser
      → clashes u' (others u'.id us) ≡ false
      → RowStep super us (replace u' us)
  new : (u : User) → u.is_superuser ≡ super → clashes u us ≡ false → RowStep super us (us ++ u ∷ [])

-- Distinct rows stay distinct.
pub RowStep-Distinct :
    {super : Bool} {us vs : List User} → RowStep super us vs → Distinct us → Distinct vs
RowStep-Distinct keep d = d
RowStep-Distinct {us} (change u u' i e n r c) d = Distinct-replace us u' d c
RowStep-Distinct {us} (new u r c) d = Distinct-append us u d c

-- What follows without writing leaves the state of the write before.
state_then :
    {S A B : Type 0} (m : Action S A) (g : A → B) (w : World S)
    → ((m >>= λ a. pure (g a)) w).1 ≡ (m w).1
state_then m g w = ground arith

module _ {S : Type 0} (l : Libs) where
  save-RowStep :
      (u u' : User) (w : World S)
      → In u w.users
      → u'.id ≡ u.id
      → u'.username ≡ u.username
      → u'.is_superuser ≡ u.is_superuser
      → RowStep false w.users (save_user u' w).1.users
  unfolding save_user
  save-RowStep u u' w i e n r = elim (Bool-cases (clashes u' (others u'.id w.users))) [
    | inl clash ↦ rw (clash, save_user) keep
    | inr free ↦ rw (free, save_user) (change u u' i e n r free)
  ]

  module _ (w : World S) (d : Distinct w.users) where
    -- what follows a lookup by id: nothing where that raises, and it finds a row of the table
    after_lookup-RowStep :
        {A : Type 0} (user_id : String) (m : Option User → Action S A)
        → ((x : Option User)
            → ((u : User) → x ≡ some u → In u w.users)
            → RowStep false w.users (m x w).1.users)
        → RowStep false w.users ((get_user_by_id l user_id >>= m) w).1.users
    after_lookup-RowStep user_id m h = elim (Option-cases (l.uuid user_id)) [
      | inl e ↦ rw (get_user_by_id_raises l user_id w e) keep
      | inr (id, e) ↦
          let p : User → Bool = λ u. str_eq u.id id in
          rw (get_user_by_id_found l user_id id w e d)
            (h (find p w.users) (λ u found. (find-In p w.users u found).0))
    ]

    change_found-RowStep :
        (f : User → User)
        → ((u : User) → (f u).id ≡ u.id)
        → ((u : User) → (f u).username ≡ u.username)
        → ((u : User) → (f u).is_superuser ≡ u.is_superuser)
        → (x : Option User) → ((u : User) → x ≡ some u → In u w.users)
        → RowStep false w.users (change_found f x w).1.users
    change_found-RowStep f ids names roles none i = keep
    change_found-RowStep f ids names roles (some u) i =
        rw (state_then (save_user (f u)) (λ _. some (f u)) w)
          (save-RowStep u (f u) w (i u refl) (ids u) (names u) (roles u))

    -- an operation that looks a row up by its id and changes it
    by_id-RowStep :
        {A : Type 0} (f : User → User) (g : Option User → A)
        → ((u : User) → (f u).id ≡ u.id)
        → ((u : User) → (f u).username ≡ u.username)
        → ((u : User) → (f u).is_superuser ≡ u.is_superuser)
        → (user_id : String)
        → let m : Action S A = do
          user ← get_user_by_id l user_id
          changed ← change_found f user
          pure (g changed)
          in RowStep false w.users (m w).1.users
    by_id-RowStep f g ids names roles user_id =
        after_lookup-RowStep user_id (λ user. do changed ← change_found f user; pure (g changed))
          (λ x i.
            rw (state_then (change_found f x) g w) (change_found-RowStep f ids names roles x i))

    set_password-RowStep :
        (pw : List ℕ) (x : Option User)
        → ((u : User) → x ≡ some u → In u w.users)
        → RowStep false w.users (set_password l pw x w).1.users
    set_password-RowStep pw none i = keep
    set_password-RowStep pw (some u) i = elim (Option-cases (get_password_hash l w.drawn pw)) [
      | inl e ↦ rw e keep
      | inr (h, e) ↦
          let u' : User = record u { hashed_password = h } in
          let w' : World S = record w { drawn = suc w.drawn } in
          rw e (
            rw (state_then (save_user u') (λ _. true) w')
              (save-RowStep u u' w' (i u refl) refl refl refl))
    ]

    pub update_user_profile-RowStep :
        (user_id : String) (first last email : Option String)
        → RowStep false w.users (update_user_profile l user_id first last email w).1.users
    unfolding update_user_profile
    update_user_profile-RowStep user_id first last email =
        after_lookup-RowStep user_id _ (change_found-RowStep _ (λ u. refl) (λ u. refl) (λ u. refl))

    pub update_user_password-RowStep :
        (user_id : String) (pw : List ℕ)
        → RowStep false w.users (update_user_password l user_id pw w).1.users
    unfolding update_user_password
    update_user_password-RowStep user_id pw =
        after_lookup-RowStep user_id _ (set_password-RowStep pw)

    pub deactivate_user-RowStep :
        (user_id : String) → RowStep false w.users (deactivate_user l user_id w).1.users
    unfolding deactivate_user
    deactivate_user-RowStep user_id = by_id-RowStep _ _ (λ u. refl) (λ u. refl) (λ u. refl) user_id

    pub activate_user-RowStep :
        (user_id : String) → RowStep false w.users (activate_user l user_id w).1.users
    unfolding activate_user
    activate_user-RowStep user_id = by_id-RowStep _ _ (λ u. refl) (λ u. refl) (λ u. refl) user_id

    with_subject-RowStep :
        (r : Option (Option String)) (f : String → Action S Bool)
        → ((x : String) → RowStep false w.users (f x w).1.users)
        → RowStep false w.users (with_subject r f w).1.users
    with_subject-RowStep none f h = keep
    with_subject-RowStep (some none) f h = keep
    with_subject-RowStep (some (some x)) f h = elim (Bool-cases (str_eq x "")) [
      | inl e ↦ rw e keep
      | inr e ↦ rw e (h x)
    ]

    lookup_email :
        (email : String)
        → (x : Option User) × (get_user_by_email email w ≡ (ok x, w))
          × ((u : User) → x ≡ some u → In u w.users)
    unfolding get_user_by_email
    lookup_email email =
        let p : User → Bool = λ u. str_eq u.email email in
        (
          find p w.users,
          ap (λ r. (r, w)) (query_by_key p (IsKey-email email) w.users d),
          λ u e. (find-In p w.users u e).0,
        )

    pub reset_password-RowStep :
        (cfg : Settings) (token : String) (pw : List ℕ)
        → RowStep false w.users (reset_password l cfg token pw w).1.users
    unfolding reset_password
    reset_password-RowStep cfg token pw =
        with_subject-RowStep (verify_password_reset_token l cfg w.now token)
          (λ email. do user ← get_user_by_email email; set_password l pw user)
          (λ email. let (x, e, i) = lookup_email email in rw e (set_password-RowStep pw x i))

    pub verify_email_with_token-RowStep :
        (cfg : Settings) (token : String)
        → RowStep false w.users (verify_email_with_token l cfg token w).1.users
    unfolding verify_email_with_token
    verify_email_with_token-RowStep cfg token =
        with_subject-RowStep (verify_email_verification_token l cfg w.now token)
          (λ user_id. do
            user ← get_user_by_id l user_id
            changed ← change_found (mark_verified cfg) user
            pure (is_found changed))
          (by_id-RowStep (mark_verified cfg) is_found (λ u. refl) (λ u. refl) (λ u. refl))

  insert-RowStep :
      (u : User) (w : World S) → RowStep u.is_superuser w.users (insert_user u w).1.users
  unfolding insert_user
  insert-RowStep u w = elim (Bool-cases (clashes u w.users)) [
    | inl clash ↦ rw (clash, insert_user) keep
    | inr free ↦ rw (free, insert_user) (new u refl free)
  ]

  pub create_user-RowStep :
      (username email : String) (pw : List ℕ) (first last : Option String)
      (active super verified : Bool) (w : World S)
      → RowStep super w.users
          (create_user l username email pw first last active super verified w).1.users
  unfolding create_user
  create_user-RowStep username email pw first last active super verified w =
      elim (Option-cases (get_password_hash l w.drawn pw)) [
        | inl e ↦ rw e keep
        | inr (h, e) ↦
            let u : User = record {
              id = l.uuid4 (suc w.drawn);
              email = email;
              username = username;
              hashed_password = h;
              first_name = first;
              last_name = last;
              is_active = active;
              is_superuser = super;
              is_verified = verified;
            } in
            let w' : World S = record w { drawn = suc (suc w.drawn) } in
            rw e (rw (state_then (insert_user u) (λ _. u) w') (insert-RowStep u w'))
      ]
