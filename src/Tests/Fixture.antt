-- ===== src/Tests/Fixture.antt =====
-- Concrete libraries for the examples: a token is its key, its algorithm and its claims written one after the
-- other, a hash is the password bytes, and Redis is a list of entries.
use Prim.Native.Char.{Char, code}
use backend_template.Prelude.{
  ℕ, zero, suc, String, ◌≡◌, ◌≢◌, refl, ap, Bool, true, false, ◌&&◌, ◌||◌, Option, none, some, List,
  [], ◌∷◌, leb, Option-cases, inl, inr, ◌==◌, str_eq, eq_iff, arith, if◌then◌else◌,
}
use backend_template.Security.{Payload, Libs, Lawful, Timely, Settings}
use backend_template.Sessions.{Redis}
use backend_template.Sessions.Laws

abbrev pub bind : {A B : Type 0} → Option A → (A → Option B) → Option B
bind none f = none
bind (some a) f = f a

unfoldable pub write_text : String → String → String
write_text String.[] rest = String.◌∷◌ "e" rest
write_text (String.◌∷◌ c s) rest = String.◌∷◌ "." (String.◌∷◌ c (write_text s rest))

abbrev pub prefixed : Char → Option (String × String) → Option (String × String)
prefixed c none = none
prefixed c (some (s, rest)) = some (String.◌∷◌ c s, rest)

unfoldable pub read_text : String → Option (String × String)
read_text String.[] = none
read_text (String.◌∷◌ m String.[]) = if code m == b'e' then some (String.[], String.[]) else none
read_text (String.◌∷◌ m (String.◌∷◌ c s)) =
    let rest = read_text s in
    if code m == b'e' then some (String.[], String.◌∷◌ c s) else prefixed c rest

read-write_text : (s rest : String) → read_text (write_text s rest) ≡ some (s, rest)
unfolding write_text read_text
read-write_text String.[] String.[] = refl
read-write_text String.[] (String.◌∷◌ c rest) = refl
read-write_text (String.◌∷◌ c s) rest = ap (prefixed c) (read-write_text s rest)

unfoldable pub write_nat : ℕ → String → String
write_nat zero rest = String.◌∷◌ "e" rest
write_nat (suc n) rest = String.◌∷◌ "1" (write_nat n rest)

abbrev pub counted : Option (ℕ × String) → Option (ℕ × String)
counted none = none
counted (some (n, rest)) = some (suc n, rest)

unfoldable pub read_nat : String → Option (ℕ × String)
read_nat String.[] = none
read_nat (String.◌∷◌ m s) =
    let rest = read_nat s in if code m == b'e' then some (zero, s) else counted rest

read-write_nat : (n : ℕ) (rest : String) → read_nat (write_nat n rest) ≡ some (n, rest)
unfolding write_nat read_nat
read-write_nat zero rest = refl
read-write_nat (suc n) rest = ap counted (read-write_nat n rest)

module _ {A : Type 0} (write : A → String → String) (read : String → Option (A × String)) where
  abbrev pub write_option : Option A → String → String
  write_option none rest = String.◌∷◌ "n" rest
  write_option (some a) rest = String.◌∷◌ "s" (write a rest)

  abbrev pub present : Option (A × String) → Option (Option A × String)
  present none = none
  present (some (a, rest)) = some (some a, rest)

  abbrev pub read_option : String → Option (Option A × String)
  read_option String.[] = none
  read_option (String.◌∷◌ m s) = if code m == b'n' then some (none, s) else present (read s)

  read-write_option :
      (read-write : (a : A) (rest : String) → read (write a rest) ≡ some (a, rest)) (o : Option A)
      (rest : String)
      → read_option (write_option o rest) ≡ some (o, rest)
  read-write_option read-write none rest = refl
  read-write_option read-write (some a) rest = ap present (read-write a rest)

-- the text of the bytes of a password
unfoldable pub hash_bytes : List ℕ → String
hash_bytes [] = String.[]
hash_bytes (b ∷ bs) = write_nat b (hash_bytes bs)

abbrev pub write_claims : Payload → String
write_claims p = write_option write_text read_text p.sub (
    write_option write_text read_text p.kind (
      write_option write_text read_text p.jti
        (write_option write_nat read_nat p.exp (write_option write_nat read_nat p.nbf String.[]))))

abbrev pub read_claims : String → Option Payload
read_claims s = bind (read_option write_text read_text s) λ (sub, s).
    bind (read_option write_text read_text s) λ (kind, s).
      bind (read_option write_text read_text s) λ (jti, s).
        bind (read_option write_nat read_nat s) λ (exp, s).
          bind (read_option write_nat read_nat s)
            λ (nbf, s). some (record { sub = sub; kind = kind; jti = jti; exp = exp; nbf = nbf })

read-write_claims : (p : Payload) → read_claims (write_claims p) ≡ some p
read-write_claims p =
    let text = read-write_option write_text read_text read-write_text in
    let nat = read-write_option write_nat read_nat read-write_nat in
    rw text (rw text (rw text (rw nat (rw nat refl))))

abbrev pub timely : ℕ → Payload → Bool
timely now p =
    elim p.exp [ none ↦ true | some t ↦ leb now t ]
    && elim p.nbf [ none ↦ true | some t ↦ leb t now ]

abbrev pub check_time : ℕ → Option Payload → Option Payload
check_time now none = none
check_time now (some p) = if timely now p then some p else none

abbrev pub libs : Libs
libs = record {
  checkpw = λ password h. some (str_eq (hash_bytes password) h);
  hashpw = λ password n. some (hash_bytes password);
  encode = λ p key alg. write_text key (write_text alg (write_claims p));
  decode = λ now token key alg. bind (read_text token) λ (k, rest).
      bind (read_text rest) λ (a, claims).
        if str_eq k key && str_eq a alg then check_time now (read_claims claims) else none;
  token_urlsafe = λ nbytes n. write_nat nbytes (write_nat n String.[]);
  uuid4 = λ n. write_nat n String.[];
  uuid = λ s. some s;
}

timely-Timely : (now : ℕ) (p : Payload) → Timely now p → timely now p ≡ true
timely-Timely now p (before, after) = elim (Option-cases p.exp) [
  | inl e ↦ elim (Option-cases p.nbf) [
    | inl f ↦ rw (e, f) refl
    | inr (n, f) ↦ let h = after n f in rw (e, f) (ground arith)
  ]
  | inr (t, e) ↦
      let g = before t e in
      elim (Option-cases p.nbf) [
        | inl f ↦ rw (e, f) (ground arith)
        | inr (n, f) ↦ let h = after n f in rw (e, f) (ground arith)
      ]
]

pub libs-Lawful : Lawful libs
libs-Lawful = record {
  decode-encode = λ now p key alg in_time. rw read-write_text (
      rw read-write_text (
        rw
          (
            (eq_iff key key).1 refl,
            (eq_iff alg alg).1 refl,
            read-write_claims p,
            timely-Timely now p in_time,
          )
          refl));
  checkpw-hashpw = λ pw n h e. ap some ((eq_iff (hash_bytes pw) h).1 (ground arith));
}

abbrev pub has_key : String → List (String × String) → Bool
has_key k [] = false
has_key k ((j, v) ∷ s) = str_eq j k || has_key k s

abbrev pub without : String → List (String × String) → List (String × String)
without k [] = []
without k ((j, v) ∷ s) = let rest = without k s in if str_eq j k then rest else (j, v) ∷ rest

abbrev pub value : String → List (String × String) → Option String
value k [] = none
value k ((j, v) ∷ s) = if str_eq j k then some v else value k s

-- a Redis that always answers and in which nothing expires
abbrev pub redis : Redis (List (String × String))
redis = record {
  hset = λ k sub exp s. (true, (k, sub) ∷ without k s);
  expire = λ k ttl s. (true, s);
  exists = λ k s. (some (has_key k s), s);
  delete = λ k s. (true, without k s);
  hgetall = λ k s. (some (value k s), s);
}

has_key-without : (k : String) (s : List (String × String)) → has_key k (without k s) ≡ false
has_key-without k [] = refl
has_key-without k ((j, v) ∷ s) = ground (arith, has_key-without k s)

has_key-without_ne :
    (k i : String) (s : List (String × String)) → k ≢ i → has_key i (without k s) ≡ has_key i s
has_key-without_ne k i [] ne = refl
has_key-without_ne k i ((j, v) ∷ s) ne =
    ground (arith, has_key-without_ne k i s ne, eq_iff j k, eq_iff j i)

pub redis-Lawful : Laws.Lawful redis has_key
redis-Lawful = record {
  exists_answers = λ k s b e. ground arith;
  exists_keeps = λ k j s. refl;
  hset_self = λ k sub e s h. ground (arith, eq_iff k k);
  hset_ne = λ k j sub e s ne. ground (arith, eq_iff k j, has_key-without_ne k j s ne);
  expire_self = λ k ttl s h g. g;
  expire_ne = λ k j ttl s ne. refl;
  delete_self = λ k s h. has_key-without k s;
  delete_ne = λ k j s ne. has_key-without_ne k j s ne;
}

abbrev pub settings : Settings
settings = record {
  secret_key = "key";
  algorithm = "HS256";
  access_token_expire_minutes = 30;
  refresh_token_expire_days = 7;
  auth_email_verification_token_ttl_minutes = 60;
  auth_register_endpoint_enabled = true;
  auth_register_default_active = true;
  auth_send_verification_email_on_register = false;
  auth_login_require_active = true;
  auth_login_require_verified = false;
  auth_forgot_password_endpoint_enabled = true;
  auth_email_verification_makes_active = false;
  redis_refresh_prefix = "rt:";
  llm_api_access_mode = "user";
  email_available = true;
  direct_email = false;
}

abbrev has_char : String → Bool
has_char String.[] = false
has_char (String.◌∷◌ c s) = true

pub write_text_filled : (s rest : String) → write_text s rest ≢ ""
unfolding write_text
write_text_filled String.[] rest e = ground (arith, ap has_char e)
write_text_filled (String.◌∷◌ c s) rest e = ground (arith, ap has_char e)
