-- ===== src/Server.antt =====
-- What a request of the authentication API reads and writes, and the monad of its handlers. The
-- rows of the `users` table are a list (database/sql/models/user.py); the state of Redis is a
-- parameter.
use backend_template.Prelude.{ℕ, suc, String, Bool, Option, none, some, List, ◌∷◌, if◌then◌else◌}

-- `User` of database/sql/models/user.py, with the columns that the modelled code uses
pub record User : Type 0 where
  pub id : String
  pub email : String
  pub username : String
  pub hashed_password : String
  pub first_name : Option String
  pub last_name : Option String
  pub is_active : Bool
  pub is_superuser : Bool
  pub is_verified : Bool

-- An email that was handed over, with the token that its link carries.
pub data Mail : Type 0 where
  reset_mail : String → String → Mail
  verification_mail : String → String → Mail

pub record World (S : Type 0) : Type 0 where
  pub users : List User
  pub redis : S
  -- the time of the request, in seconds
  pub now : ℕ
  -- how often the random sources have been read
  pub drawn : ℕ
  -- whether Celery accepts a task
  pub queue_up : Bool
  -- the emails handed over so far, the last first
  pub outbox : List Mail

-- An HTTPException with its status, or another exception by its class.
pub data Error : Type 0 where
  http : ℕ → String → Error
  raised : String → Error

pub data Result (A : Type 0) : Type 0 where
  ok : A → Result A
  err : Error → Result A

-- What was written before an exception stays written.
abbrev pub Action : Type 0 → Type 0 → Type 0
Action S A = World S → Result A × World S

module _ {S A : Type 0} where
  abbrev pub pure : A → Action S A
  pure a w = (ok a, w)

  abbrev pub raise : Error → Action S A
  raise e w = (err e, w)

  abbrev pub gets : (World S → A) → Action S A
  gets f w = (ok (f w), w)

  abbrev pub recover : Result A × World S → Action S A → Result A × World S
  recover (ok a, w) h = (ok a, w)
  recover (err e, w) h = h w

  -- `try: m / except Exception: h`
  abbrev pub catch : Action S A → Action S A → Action S A
  catch m h w = recover (m w) h

  abbrev pub or_raise : Option A → Error → Action S A
  or_raise none e w = (err e, w)
  or_raise (some a) e w = (ok a, w)

  abbrev pub from_result : Result A → Action S A
  from_result r w = (r, w)

abbrev pub continue : {S A B : Type 0} → Result A × World S → (A → Action S B) → Result B × World S
continue (ok a, w) f = f a w
continue (err e, w) f = (err e, w)

infixl 5 ◌>>=◌ ◌>>◌
abbrev pub ◌>>=◌ : {S A B : Type 0} → Action S A → (A → Action S B) → Action S B
◌>>=◌ m f w = continue (m w) f

abbrev pub ◌>>◌ : {S A B : Type 0} → Action S A → Action S B → Action S B
m >> k = m >>= λ _. k

module _ {S : Type 0} where
  abbrev pub raise_if : Bool → Error → Action S Unit
  raise_if b e w = (if b then err e else ok tt, w)

  -- one read of a random source
  abbrev pub draw : Action S ℕ
  draw w = (ok w.drawn, record w { drawn = suc w.drawn })

  abbrev pub put_users : List User → Action S Unit
  put_users us w = (ok tt, record w { users = us })

  abbrev pub put_mail : Mail → Action S Unit
  put_mail m w = (ok tt, record w { outbox = m ∷ w.outbox })
