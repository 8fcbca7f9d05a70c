-- ===== src/Panel/Recovery/Steps.antt =====
-- The steps that the accounts have got to, and that no write but a cleared factor takes back.
use crucible_analytic.Prelude.{
  ℕ, ◌≤◌, ◌≡◌, refl, subst, ◌∙◌, Bool, true, false, ◌&&◌, List, [], ◌∷◌, map, Bytes, any,
  any_append_one, arith, ltb, ◌==◌, if◌then◌else◌, ok, Bool-cases, inl, inr,
}
use crucible_analytic.Panel.Recovery.{Account, Vault, is_behind, raise, record_step, reset}
use crucible_analytic.Panel.Recovery.Outcomes.{record_step-ok}
use crucible_analytic.Panel.Recovery.Office.{edit, join}

abbrev is_of : ℕ → Account → Bool
is_of uid a = a.id == uid

-- The account is there, and has got to the step.
abbrev pub HasReached : ℕ → ℕ → List Account → Type 0
HasReached uid step as' = (any (is_of uid) as' ≡ true) × (any (is_behind uid step) as' ≡ false)

-- A change of an account that leaves its id, and does not take its step back.
abbrev IsForward : (Account → Account) → Type 0
IsForward f = (a : Account) → ((f a).id ≡ a.id) × (a.totp_last_step ≤ (f a).totp_last_step)

any-map-is_of :
    (uid : ℕ) (f : Account → Account) (as' : List Account)
    → IsForward f
    → any (is_of uid) (map f as') ≡ any (is_of uid) as'
any-map-is_of uid f [] h = refl
any-map-is_of uid f (a ∷ as') h = rw ((h a).0, any-map-is_of uid f as' h) refl

any-map-is_behind :
    (uid step : ℕ) (f : Account → Account) (as' : List Account)
    → IsForward f
    → any (is_behind uid step) as' ≡ false
    → any (is_behind uid step) (map f as') ≡ false
unfolding is_behind
any-map-is_behind uid step f [] h e = refl
any-map-is_behind uid step f (a ∷ as') h e =
    rw ((h a).0, any-map-is_behind uid step f as' h (ground (arith, e)))
      (ground (arith, e, (h a).1))

pub HasReached-map :
    (uid step : ℕ) (f : Account → Account) (as' : List Account)
    → IsForward f
    → HasReached uid step as'
    → HasReached uid step (map f as')
HasReached-map uid step f as' h (a, b) =
    (any-map-is_of uid f as' h ∙ a, any-map-is_behind uid step f as' h b)

pub raise-IsForward : (uid step : ℕ) → IsForward (raise uid step)
unfolding raise is_behind
raise-IsForward uid step a = elim (Bool-cases (a.id == uid && ltb a.totp_last_step step)) [
  | inl e ↦ rw (e) (refl, ground (arith, e))
  | inr e ↦ rw (e) (refl, omega arith)
]

-- Behind a write of a step, the account has got to it.
raised :
    (uid step : ℕ) (as' : List Account)
    → any (is_behind uid step) (map (raise uid step) as') ≡ false
unfolding raise is_behind
raised uid step [] = refl
raised uid step (a ∷ as') = elim (Bool-cases (a.id == uid && ltb a.totp_last_step step)) [
  | inl e ↦ rw (e) (ground (arith, raised uid step as'))
  | inr e ↦ rw (e) (ground (arith, e, raised uid step as'))
]

pub reset-IsForward : (uid : ℕ) (password_hash : Bytes) → IsForward (reset uid password_hash false)
unfolding reset
reset-IsForward uid password_hash a = elim (Bool-cases (a.id == uid)) [
  | inl e ↦ rw (e) (refl, omega arith)
  | inr e ↦ rw (e) (refl, omega arith)
]

pub edit-IsForward :
    (uid : ℕ) (email password_hash : Bytes) (disabled : Bool)
    → IsForward (edit uid email password_hash disabled)
edit-IsForward uid email password_hash disabled a = elim (Bool-cases (a.id == uid)) [
  | inl e ↦ rw (e) (refl, omega arith)
  | inr e ↦ rw (e) (refl, omega arith)
]

of_another_id :
    (uid id : ℕ) (as' : List Account)
    → any (is_of uid) as' ≡ true
    → any (is_of id) as' ≡ false
    → (id == uid) ≡ false
of_another_id uid id as' here new = elim (Bool-cases (id == uid)) [
  | inr away ↦ away
  | inl same ↦ let e : id ≡ uid = ground (arith, same) in let none_there = rw (e) at new in cc
]

-- Who is behind a step is behind every later one.
pub is_behind_mono :
    (uid early late : ℕ) (as' : List Account)
    → early ≤ late
    → any (is_behind uid late) as' ≡ false
    → any (is_behind uid early) as' ≡ false
unfolding is_behind
is_behind_mono uid early late [] h e = refl
is_behind_mono uid early late (a ∷ as') h e =
    ground (arith, h, e, is_behind_mono uid early late as' h)

behind_is_of :
    (uid step : ℕ) (as' : List Account)
    → any (is_behind uid step) as' ≡ true
    → any (is_of uid) as' ≡ true
unfolding is_behind
behind_is_of uid step [] e = cc
behind_is_of uid step (a ∷ as') e = ground (arith, e, behind_is_of uid step as')

pub join-HasReached :
    (uid step : ℕ) (a : Account) (v : Vault)
    → HasReached uid step v.accounts
    → HasReached uid step (join a v).accounts
unfolding join
join-HasReached uid step a v (here, past) =
    elim (Bool-cases (any (λ (b : Account). b.id == a.id) v.accounts)) [
      | inl taken ↦ rw (taken, join) (here, past)
      | inr new ↦
          let away : (a.id == uid) ≡ false = of_another_id uid a.id v.accounts here new in
          rw (new, join)
            (
              any_append_one (is_of uid) a v.accounts away ∙ here,
              any_append_one (is_behind uid step) a v.accounts
                    (unfold is_behind in ground (arith, away))
                  ∙ past,
            )
    ]

pub set-IsForward :
    (uid : ℕ) (secret : Bytes)
    → IsForward (λ (a : Account). if a.id == uid then record a { totp_secret = secret } else a)
set-IsForward uid secret a = elim (Bool-cases (a.id == uid)) [
  | inl e ↦ rw (e) (refl, omega arith)
  | inr e ↦ rw (e) (refl, omega arith)
]

pub record_step-HasReached :
    (uid step : ℕ) (v v' : Vault) → record_step uid step v ≡ ok v' → HasReached uid step v'.accounts
record_step-HasReached uid step v v' h =
    let (behind, done) = record_step-ok uid step v v' h in
    subst (λ (u : Vault). HasReached uid step u.accounts) done
      (
        any-map-is_of uid _ v.accounts (raise-IsForward uid step)
            ∙ behind_is_of uid step v.accounts behind,
        raised uid step v.accounts,
      )
