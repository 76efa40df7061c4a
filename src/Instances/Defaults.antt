-- ===== src/Instances/Defaults.antt =====
-- The default instance of a user (services/user_agent_instance_service.py).
use backend_template.Prelude.{
  String, ℕ, suc, ◌+◌, ◌≤◌, ◌≡◌, refl, subst, Bool, true, false, not, ◌&&◌, List, [], ◌∷◌, ◌++◌,
  str_eq, eq_iff, arith, Bool-cases, inl, inr, if◌then◌else◌,
}
use backend_template.Instances.{
  Instance, select, is_instance, clear_user_defaults, put_row, delete_row,
}
use backend_template.Instances.Rows.{Step, clear_if}

-- the number of default instances of a user
unfoldable pub defaults : String → List Instance → ℕ
defaults v [] = 0
defaults v (row ∷ rows) =
    let rest = defaults v rows in if str_eq row.user_id v && row.is_default then suc rest else rest

defaults-append :
    (v : String) (rows : List Instance) (new : Instance)
    → defaults v (rows ++ (new ∷ []))
      ≡ defaults v rows + (if str_eq new.user_id v && new.is_default then 1 else 0)
unfolding defaults
defaults-append v [] new = ground arith
defaults-append v (row ∷ rows) new = ground (arith, defaults-append v rows new)

defaults-clear : (u : String) (rows : List Instance) → defaults u (clear_user_defaults u rows) ≡ 0
unfolding defaults clear_user_defaults
defaults-clear u [] = refl
defaults-clear u (row ∷ rows) = ground (arith, defaults-clear u rows)

defaults-clear_other :
    (u v : String) (rows : List Instance)
    → str_eq u v ≡ false
    → defaults v (clear_user_defaults u rows) ≡ defaults v rows
unfolding defaults clear_user_defaults
defaults-clear_other u v [] h = refl
defaults-clear_other u v (row ∷ rows) h =
    ground (
      arith,
      defaults-clear_other u v rows h,
      eq_iff row.user_id u,
      eq_iff row.user_id v,
      eq_iff u v,
    )

defaults-put_other :
    (u v id : String) (new : Instance) (rows : List Instance)
    → str_eq u v ≡ false
    → new.user_id ≡ u
    → defaults v (put_row u id new rows) ≡ defaults v rows
unfolding defaults put_row
defaults-put_other u v id new [] h e = refl
defaults-put_other u v id new (row ∷ rows) h e =
    ground (arith, defaults-put_other u v id new rows h e, eq_iff row.user_id u, eq_iff u v)

defaults-put_le :
    (u id : String) (new : Instance) (rows : List Instance)
    → defaults u (put_row u id new rows) ≤ suc (defaults u rows)
unfolding defaults put_row
defaults-put_le u id new [] = ground arith
defaults-put_le u id new (row ∷ rows) = ground (arith, defaults-put_le u id new rows)

defaults-put_kept :
    (u id : String) (old new : Instance) (rows : List Instance)
    → select (is_instance u id) rows ≡ old ∷ []
    → (new.is_default && not old.is_default) ≡ false
    → defaults u (put_row u id new rows) ≤ defaults u rows
unfolding defaults put_row select
defaults-put_kept u id old new [] h e = ground arith
defaults-put_kept u id old new (row ∷ rows) h e = elim (Bool-cases (is_instance u id row)) [
  | inl m ↦
      let same : row ≡ old = ground arith in
      let kept : (new.is_default && not row.is_default) ≡ false = rw same e in ground arith
  | inr m ↦ ground (arith, defaults-put_kept u id old new rows)
]

defaults-delete :
    (u id v : String) (rows : List Instance) → defaults v (delete_row u id rows) ≤ defaults v rows
unfolding defaults delete_row
defaults-delete u id v [] = omega arith
defaults-delete u id v (row ∷ rows) = ground (arith, defaults-delete u id v rows)

-- No user has more than one default instance.
unfoldable pub AtMostOne : List Instance → Type 0
AtMostOne rows = (v : String) → defaults v rows ≤ 1

clear_if-other :
    (b : Bool) (u v : String) (rows : List Instance)
    → str_eq u v ≡ false
    → defaults v (clear_if b u rows) ≡ defaults v rows
clear_if-other true u v rows h = defaults-clear_other u v rows h
clear_if-other false u v rows h = refl

added-own :
    (u : String) (new : Instance) (rows : List Instance)
    → defaults u rows ≤ 1
    → defaults u (clear_if new.is_default u rows ++ (new ∷ [])) ≤ 1
added-own u new rows p = elim (Bool-cases new.is_default) [
  | inl d ↦
      ground (arith, defaults-append u (clear_if new.is_default u rows) new, defaults-clear u rows)
  | inr d ↦ ground (arith, defaults-append u (clear_if new.is_default u rows) new)
]

put-own :
    (u id : String) (old new : Instance) (b : Bool) (rows : List Instance)
    → select (is_instance u id) rows ≡ old ∷ []
    → (new.is_default && not old.is_default && not b) ≡ false
    → defaults u rows ≤ 1
    → defaults u (put_row u id new (clear_if b u rows)) ≤ 1
put-own u id old new true rows f g p =
    omega (arith, defaults-put_le u id new (clear_user_defaults u rows), defaults-clear u rows)
put-own u id old new false rows f g p =
    omega (arith, defaults-put_kept u id old new rows f (ground arith))

-- a property of the numbers of every user, from that of the user of a call and those of the others
each-user :
    (u v : String) (before after : List Instance)
    → defaults u after ≤ 1
    → (str_eq u v ≡ false → defaults v after ≤ defaults v before)
    → defaults v before ≤ 1
    → defaults v after ≤ 1
each-user u v before after own other p = elim (Bool-cases (str_eq u v)) [
  | inl same ↦ subst (λ w. defaults w after ≤ 1) ((eq_iff u v).0 same) own
  | inr differ ↦ omega (arith, other differ)
]

pub Step-AtMostOne :
    {u : String} {rows rows' : List Instance} → Step u rows rows' → AtMostOne rows → AtMostOne rows'
unfolding AtMostOne
Step-AtMostOne Step.unchanged p v = p v
Step-AtMostOne {u} {rows} (Step.added new e) p v =
    each-user u v rows (clear_if new.is_default u rows ++ (new ∷ [])) (added-own u new rows (p u))
      (λ differ. ground (
        arith,
        defaults-append v (clear_if new.is_default u rows) new,
        clear_if-other new.is_default u v rows differ,
      ))
      (p v)
Step-AtMostOne {u} {rows} (Step.put id old new b f e g) p v =
    each-user u v rows (put_row u id new (clear_if b u rows))
      (put-own u id old new b rows f g (p u))
      (λ differ. omega (
        arith,
        defaults-put_other u v id new (clear_if b u rows) differ e,
        clear_if-other b u v rows differ,
      ))
      (p v)
Step-AtMostOne {u} {rows} (Step.deleted id) p v = omega (arith, defaults-delete u id v rows, p v)
