-- ===== src/Users/Histories.antt =====
-- Sequences of account operations of auth_service.py, from any table.
use backend_template.Prelude.{
  ℕ, ◌+◌, String, ◌≡◌, refl, sym, ◌∙◌, ap, Bool, true, false, ◌⊎◌, inl, inr, Option, List, [], ◌∷◌,
  ◌++◌, arith, map, append-nil, append_assoc, Bool-cases, str_eq, eq_iff,
}
use mathlib.Core.List.{map-append}
use mathlib.Core.Path.{ap₂}
use backend_template.Security.{Libs, Settings}
use backend_template.Server.{User, World}
use backend_template.Users.{
  replace, create_user, update_user_profile, update_user_password, deactivate_user, activate_user,
  reset_password, verify_email_with_token,
}
use backend_template.Users.Unique.{Distinct, In, same_id}
use backend_template.Users.Steps.{
  RowStep, keep, change, new, RowStep-Distinct, create_user-RowStep, update_user_profile-RowStep,
  update_user_password-RowStep, deactivate_user-RowStep, activate_user-RowStep,
  reset_password-RowStep, verify_email_with_token-RowStep,
}

-- A call of `AuthService` with its arguments; `wait` lets time pass. `create` is a registration,
-- which leaves `is_superuser` and `is_verified` at False.
pub data Operation : Type 0 where
  create : String → String → List ℕ → Option String → Option String → Bool → Operation
  profile : String → Option String → Option String → Option String → Operation
  password : String → List ℕ → Operation
  deactivate activate : String → Operation
  reset : String → List ℕ → Operation
  verify_email : String → Operation
  wait : ℕ → Operation

module _ {S : Type 0} (l : Libs) (cfg : Settings) where
  -- the world after a call, whatever it returns or raises
  pub perform : Operation → World S → World S
  perform (create username email pw first last active) w =
      (create_user l username email pw first last active false false w).1
  perform (profile user_id first last email) w =
      (update_user_profile l user_id first last email w).1
  perform (password user_id pw) w = (update_user_password l user_id pw w).1
  perform (deactivate user_id) w = (deactivate_user l user_id w).1
  perform (activate user_id) w = (activate_user l user_id w).1
  perform (reset token pw) w = (reset_password l cfg token pw w).1
  perform (verify_email token) w = (verify_email_with_token l cfg token w).1
  perform (wait n) w = record w { now = w.now + n }

  unfoldable pub history : List Operation → World S → World S
  history [] w = w
  history (o ∷ os) w = history os (perform o w)

  perform-RowStep :
      (o : Operation) (w : World S) → Distinct w.users → RowStep false w.users (perform o w).users
  unfolding perform
  perform-RowStep (create username email pw first last active) w d =
      create_user-RowStep l username email pw first last active false false w
  perform-RowStep (profile user_id first last email) w d =
      update_user_profile-RowStep l w d user_id first last email
  perform-RowStep (password user_id pw) w d = update_user_password-RowStep l w d user_id pw
  perform-RowStep (deactivate user_id) w d = deactivate_user-RowStep l w d user_id
  perform-RowStep (activate user_id) w d = activate_user-RowStep l w d user_id
  perform-RowStep (reset token pw) w d = reset_password-RowStep l w d cfg token pw
  perform-RowStep (verify_email token) w d = verify_email_with_token-RowStep l w d cfg token
  perform-RowStep (wait n) w d = keep

-- what names an account, to its owner and to the tokens that are out
abbrev pub account : User → String × String
account u = (u.id, u.username)

replace-account :
    (u : User) (us : List User)
    → ((v : User) → In v us → v.id ≡ u.id → v.username ≡ u.username)
    → map account (replace u us) ≡ map account us
unfolding replace
replace-account u [] same = refl
replace-account u (v ∷ us) same =
    let rest = replace-account u us (λ w i. same w (inr i)) in
    elim (Bool-cases (str_eq v.id u.id)) [
      | inl e ↦
          let ids : v.id ≡ u.id = ground (arith, eq_iff v.id u.id) in
          rw (e, rest)
            (ap (λ x. x ∷ map account us)
              (ap₂ (λ a b. (a, b)) (sym ids) (sym (same v (inl refl) ids))))
      | inr e ↦ rw (e, rest) refl
    ]

-- Rows are kept under their ids and usernames, in their order, and new ones come after them.
abbrev pub KeepsAccounts : List User → List User → Type 0
KeepsAccounts us vs = (added : List (String × String)) × (map account vs ≡ map account us ++ added)

RowStep-KeepsAccounts :
    {us vs : List User} → Distinct us → RowStep false us vs → KeepsAccounts us vs
RowStep-KeepsAccounts {us} d keep = ([], sym (append-nil (map account us)))
RowStep-KeepsAccounts {us} d (change u u' i e n r c) = (
  [],
  replace-account u' us (λ v j same.
        ap (λ x. x.username) (same_id us v u d j i (ground (arith, eq_iff v.id u.id, same ∙ e)))
        ∙ sym n)
      ∙ sym (append-nil (map account us)),
)
RowStep-KeepsAccounts {us} d (new u r c) = (account u ∷ [], map-append account us (u ∷ []))

module _ {S : Type 0} (l : Libs) (cfg : Settings) where
  -- After any calls, failing or not, from rows with distinct ids, emails and usernames: the rows are
  -- still distinct in all three, and those of before are the first ones, in their order, each under
  -- its id and its username. So a call drops or renames no account, whatever it is given.
  pub history-KeepsAccounts :
      (os : List Operation) (w : World S)
      → Distinct w.users
      → Distinct (history l cfg os w).users × KeepsAccounts w.users (history l cfg os w).users
  unfolding history
  history-KeepsAccounts [] w d = (d, ([], sym (append-nil (map account w.users))))
  history-KeepsAccounts (o ∷ os) w d =
      let step = perform-RowStep l cfg o w d in
      let (added, first) = RowStep-KeepsAccounts d step in
      let (distinct, (more, then_on)) =
        history-KeepsAccounts os (perform l cfg o w) (RowStep-Distinct step d) in
      (
        distinct,
        (
          added ++ more,
          then_on ∙ ap (λ xs. xs ++ more) first ∙ append_assoc (map account w.users) added more,
        ),
      )

-- Every superuser of `vs` was a superuser of `us` under the same id.
abbrev pub NoNewSuperuser : List User → List User → Type 0
NoNewSuperuser us vs =
    (v : User)
    → In v vs
    → v.is_superuser ≡ true
    → (u : User) × In u us × (u.id ≡ v.id) × (u.is_superuser ≡ true)

In-replace : (u v : User) (us : List User) → In v (replace u us) → (v ≡ u) ⊎ In v us
unfolding replace
In-replace u v [] i = inr i
In-replace u v (w ∷ us) (inl e) = ground arith
In-replace u v (w ∷ us) (inr i) = ground (arith, In-replace u v us i)

In-append : (u v : User) (us : List User) → In v (us ++ u ∷ []) → (v ≡ u) ⊎ In v us
In-append u v [] (inl e) = inl e
In-append u v [] (inr i) = inr i
In-append u v (w ∷ us) (inl e) = inr (inl e)
In-append u v (w ∷ us) (inr i) = ground (arith, In-append u v us i)

RowStep-NoNewSuperuser : {us vs : List User} → RowStep false us vs → NoNewSuperuser us vs
RowStep-NoNewSuperuser keep v i s = (v, i, refl, s)
RowStep-NoNewSuperuser {us} (change u u' j e n r c) v i s = elim (In-replace u' v us i) [
  | inl same ↦
      (u, j, sym e ∙ ap (λ x. x.id) (sym same), sym r ∙ ap (λ x. x.is_superuser) (sym same) ∙ s)
  | inr old ↦ (v, old, refl, s)
]
RowStep-NoNewSuperuser {us} (new u r c) v i s = elim (In-append u v us i) [
  | inl same ↦ absurd (ground (arith, ap (λ x. x.is_superuser) same))
  | inr old ↦ (v, old, refl, s)
]

module _ {S : Type 0} (l : Libs) (cfg : Settings) where
  -- No sequence of registrations, profile and password changes, resets, verifications and
  -- (de)activations makes a superuser: over distinct rows every superuser afterwards was one before,
  -- under the same id.
  pub history-is_superuser :
      (os : List Operation) (w : World S) (v : User)
      → Distinct w.users
      → In v (history l cfg os w).users
      → v.is_superuser ≡ true
      → (u : User) × In u w.users × (u.id ≡ v.id) × (u.is_superuser ≡ true)
  unfolding history
  history-is_superuser [] w v d i s = (v, i, refl, s)
  history-is_superuser (o ∷ os) w v d i s =
      let step = perform-RowStep l cfg o w d in
      let (m, im, em, sm) =
        history-is_superuser os (perform l cfg o w) v (RowStep-Distinct step d) i s in
      let (u, iu, eu, su) = RowStep-NoNewSuperuser step m im sm in (u, iu, eu ∙ em, su)
