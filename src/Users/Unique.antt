-- ===== src/Users/Unique.antt =====
-- The rows of the `users` table under its uniqueness constraints: queries by a key, and the change
-- of one row.
use backend_template.Prelude.{
  String, ◌≡◌, refl, sym, ◌∙◌, ap, Bool, true, false, ◌||◌, ◌⊎◌, inl, inr, Option, none, some, List,
  [], ◌∷◌, ◌++◌, str_eq, eq_iff, arith, if◌then◌else◌, All,
}
use backend_template.Security.{Libs}
use backend_template.Server.{User, World, ok, err, raised}
use backend_template.Users.{select, one_or_none, collide, clashes, others, replace, get_user_by_id}

-- No two rows share an id, an email or a username.
abbrev pub Distinct : List User → Type 0
Distinct [] = Unit
Distinct (u ∷ us) = (clashes u us ≡ false) × Distinct us

-- the first row that satisfies a test
unfoldable pub find : (User → Bool) → List User → Option User
find p [] = none
find p (u ∷ us) = if p u then some u else find p us

abbrev pub In : User → List User → Type 0
In u [] = ⊥
In u (v ∷ us) = (u ≡ v) ⊎ In u us

-- A test that two rows pass only if they collide, such as `email == x`.
abbrev pub IsKey : (User → Bool) → Type 0
IsKey p = (u v : User) → p u ≡ true → p v ≡ true → collide u v ≡ true

pub IsKey-id : (x : String) → IsKey (λ u. str_eq u.id x)
unfolding collide
IsKey-id x u v a b = ground (arith, eq_iff u.id x, eq_iff v.id x, eq_iff u.id v.id)

pub IsKey-email : (x : String) → IsKey (λ u. str_eq u.email x)
unfolding collide
IsKey-email x u v a b = ground (arith, eq_iff u.email x, eq_iff v.email x, eq_iff u.email v.email)

pub IsKey-username : (x : String) → IsKey (λ u. str_eq u.username x)
unfolding collide
IsKey-username x u v a b =
    ground (arith, eq_iff u.username x, eq_iff v.username x, eq_iff u.username v.username)

select_nil :
    (p : User → Bool) (key : IsKey p) (u : User) (us : List User)
    → p u ≡ true
    → clashes u us ≡ false
    → select p us ≡ []
unfolding select clashes
select_nil p key u [] h c = refl
select_nil p key u (v ∷ us) h c = ground (arith, key u v, select_nil p key u us h)

-- Over distinct rows a query by a key finds the one row, and never more.
pub query_by_key :
    (p : User → Bool) (key : IsKey p) (us : List User)
    → Distinct us
    → one_or_none (select p us) ≡ ok (find p us)
unfolding select find
query_by_key p key [] d = refl
query_by_key p key (u ∷ us) d = ground (arith, select_nil p key u us, query_by_key p key us)

-- A lookup by id, over distinct rows, and for a text that is no UUID.
pub get_user_by_id_found :
    {S : Type 0} (l : Libs) (user_id id : String) (w : World S)
    → l.uuid user_id ≡ some id
    → Distinct w.users
    → get_user_by_id l user_id w ≡ (ok (find (λ u. str_eq u.id id) w.users), w)
unfolding get_user_by_id
get_user_by_id_found l user_id id w e d =
    rw (get_user_by_id, e, query_by_key (λ u. str_eq u.id id) (IsKey-id id) w.users d) refl

pub get_user_by_id_raises :
    {S : Type 0} (l : Libs) (user_id : String) (w : World S)
    → l.uuid user_id ≡ none
    → get_user_by_id l user_id w ≡ (err (raised "StatementError"), w)
unfolding get_user_by_id
get_user_by_id_raises l user_id w e = rw (get_user_by_id, e) refl

pub find-In :
    (p : User → Bool) (us : List User) (u : User) → find p us ≡ some u → In u us × (p u ≡ true)
unfolding find
find-In p [] u h = ground arith
find-In p (v ∷ us) u h = ground (arith, find-In p us u)

-- Rows collide both ways, and with themselves.
collide_comm : (u v : User) → collide u v ≡ collide v u
unfolding collide
collide_comm u v = ground (
  arith,
  eq_iff u.id v.id,
  eq_iff v.id u.id,
  eq_iff u.email v.email,
  eq_iff v.email u.email,
  eq_iff u.username v.username,
  eq_iff v.username u.username,
)

clashes-In : (u v : User) (us : List User) → clashes u us ≡ false → In v us → collide u v ≡ false
unfolding clashes
clashes-In u v [] c i = absurd i
clashes-In u v (w ∷ us) c i = ground (arith, clashes-In u v us)

collide_of_id : (u v : User) → str_eq u.id v.id ≡ true → collide u v ≡ true
unfolding collide
collide_of_id u v e = ground arith

-- A row that shares its id with a row of a distinct table is that row.
pub same_id :
    (us : List User) (u v : User)
    → Distinct us
    → In u us
    → In v us
    → str_eq u.id v.id ≡ true
    → u ≡ v
same_id [] u v d i j e = absurd i
same_id (w ∷ us) u v d (inl a) (inl b) e = ground arith
same_id (w ∷ us) u v d (inl a) (inr j) e =
    absurd (ground (arith, clashes-In w v us d.0 j, collide_of_id w v (rw (← a) e)))
same_id (w ∷ us) u v d (inr i) (inl b) e =
    absurd
      (ground (arith, clashes-In w u us d.0 i, collide_comm w u, collide_of_id u w (rw (← b) e)))
same_id (w ∷ us) u v d (inr i) (inr j) e = same_id us u v d.1 i j e

All-In : (P : User → Type 0) (us : List User) → ((v : User) → In v us → P v) → All P us
All-In P [] f = tt
All-In P (v ∷ us) f = (f v (inl refl), All-In P us (λ u i. f u (inr i)))

-- what a lookup finds after a row is replaced
abbrev pub replaced : User → Option User → Option User
replaced u none = none
replaced u (some v) = some (if str_eq v.id u.id then u else v)

find-replace_agree :
    (p : User → Bool) (u : User) (us : List User)
    → All (λ v. str_eq v.id u.id ≡ true → p v ≡ p u) us
    → find p (replace u us) ≡ replaced u (find p us)
unfolding find replace
find-replace_agree p u [] h = refl
find-replace_agree p u (v ∷ us) h = ground (arith, h.0, find-replace_agree p u us h.1)

-- Over distinct rows, replacing a row by one that passes a test as the old one did.
pub find-replace :
    (p : User → Bool) (u u' : User) (us : List User)
    → Distinct us
    → In u us
    → u'.id ≡ u.id
    → p u' ≡ p u
    → find p (replace u' us) ≡ replaced u' (find p us)
find-replace p u u' us d i e same = find-replace_agree p u' us (
    All-In (λ v. str_eq v.id u'.id ≡ true → p v ≡ p u') us
      (λ v j eq. let v_is_u : v ≡ u = same_id us v u d j i (rw (← e) eq) in ap p v_is_u ∙ sym same))

-- A changed row that keeps its keys clashes with no other.
collide_keys :
    (u u' v : User)
    → u'.id ≡ u.id
    → u'.email ≡ u.email
    → u'.username ≡ u.username
    → collide u' v ≡ collide u v
unfolding collide
collide_keys u u' v a b c = rw (a, b, c)

clashes-others :
    (id : String) (u : User) (us : List User)
    → ((v : User) → In v us → str_eq v.id id ≡ false → collide u v ≡ false)
    → clashes u (others id us) ≡ false
unfolding clashes others
clashes-others id u [] h = refl
clashes-others id u (v ∷ us) h =
    ground (arith, h v (inl refl), clashes-others id u us (λ w i. h w (inr i)))

Distinct-collide :
    (us : List User) (u v : User)
    → Distinct us
    → In u us
    → In v us
    → str_eq v.id u.id ≡ false
    → collide u v ≡ false
Distinct-collide [] u v d i j ne = absurd i
Distinct-collide (w ∷ us) u v d (inl a) (inl b) ne =
    absurd (ground (arith, eq_iff v.id u.id, ap (λ x. x.id) a, ap (λ x. x.id) b))
Distinct-collide (w ∷ us) u v d (inl a) (inr j) ne = rw a (clashes-In w v us d.0 j)
Distinct-collide (w ∷ us) u v d (inr i) (inl b) ne =
    rw b (collide_comm u w ∙ clashes-In w u us d.0 i)
Distinct-collide (w ∷ us) u v d (inr i) (inr j) ne = Distinct-collide us u v d.1 i j ne

pub clashes-others_keys :
    (us : List User) (u u' : User)
    → Distinct us
    → In u us
    → u'.id ≡ u.id
    → u'.email ≡ u.email
    → u'.username ≡ u.username
    → clashes u' (others u'.id us) ≡ false
clashes-others_keys us u u' d i a b c =
    clashes-others u'.id u' us
      (λ v j ne. collide_keys u u' v a b c ∙ Distinct-collide us u v d i j (rw (← a) ne))

-- Both kinds of write keep the rows distinct.
clashes-append :
    (v u : User) (us : List User) → clashes v (us ++ u ∷ []) ≡ (clashes v us || collide v u)
unfolding clashes
clashes-append v u [] = ground arith
clashes-append v u (w ∷ us) = ground (arith, clashes-append v u us)

pub Distinct-append :
    (us : List User) (u : User) → Distinct us → clashes u us ≡ false → Distinct (us ++ u ∷ [])
unfolding clashes
Distinct-append [] u d c = (refl, tt)
Distinct-append (v ∷ us) u d c =
    ground (arith, clashes-append v u us, collide_comm u v, Distinct-append us u d.1)

clashes-replace :
    (v u : User) (us : List User)
    → clashes v us ≡ false
    → collide v u ≡ false
    → clashes v (replace u us) ≡ false
unfolding clashes replace
clashes-replace v u [] c e = refl
clashes-replace v u (w ∷ us) c e = ground (arith, clashes-replace v u us)

-- no row has the id: there is nothing to replace or to leave out
absent_id :
    (u v : User) (us : List User)
    → clashes v us ≡ false
    → str_eq v.id u.id ≡ true
    → (replace u us ≡ us) × (others u.id us ≡ us)
unfolding clashes replace others collide
absent_id u v [] c e = (refl, refl)
absent_id u v (w ∷ us) c e =
    ground (arith, absent_id u v us, eq_iff w.id u.id, eq_iff v.id u.id, eq_iff v.id w.id)

pub Distinct-replace :
    (us : List User) (u : User)
    → Distinct us
    → clashes u (others u.id us) ≡ false
    → Distinct (replace u us)
unfolding clashes replace others
Distinct-replace [] u d c = tt
Distinct-replace (v ∷ us) u d c =
    ground
      (arith, absent_id u v us, clashes-replace v u us, collide_comm u v, Distinct-replace us u d.1)

pub find-append :
    (p : User → Bool) (us : List User) (u : User)
    → find p (us ++ u ∷ [])
      ≡ elim (find p us) [ none ↦ (if p u then some u else none) | some v ↦ some v ]
unfolding find
find-append p [] u = refl
find-append p (v ∷ us) u = ground (arith, find-append p us u)

pub find-none_of_clash :
    (p : User → Bool) (key : IsKey p) (u : User) (us : List User)
    → p u ≡ true
    → clashes u us ≡ false
    → find p us ≡ none
unfolding find clashes
find-none_of_clash p key u [] h c = refl
find-none_of_clash p key u (v ∷ us) h c = ground (arith, key u v, find-none_of_clash p key u us h)

pub find_of_In :
    (p : User → Bool) (key : IsKey p) (u : User) (us : List User)
    → Distinct us
    → In u us
    → p u ≡ true
    → find p us ≡ some u
unfolding find
find_of_In p key u [] d i h = absurd i
find_of_In p key u (v ∷ us) d (inl e) h = rw (ap p (sym e) ∙ h) (ap some (sym e))
find_of_In p key u (v ∷ us) d (inr i) h =
    ground (arith, key v u, clashes-In v u us d.0 i, find_of_In p key u us d.1 i h)
