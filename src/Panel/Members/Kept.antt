-- ===== src/Panel/Members/Kept.antt =====
-- What the statements of the membership writes keep: the primary key, and an owner on a site.
use crucible_analytic.Prelude.{
  ℕ, ◌≡◌, refl, ap, ap₂, ◌∙◌, Bool, true, false, not, ◌&&◌, ◌||◌, List, [], ◌∷◌, ◌++◌, Bytes, any,
  keep_if, arith, ◌==◌, Bool-cases, inl, inr,
}
use crucible_analytic.Prelude.Text.{bytes_eq, bytes_eq_sound}
use crucible_analytic.Panel.Roles.{Role, is_owner_role}
use crucible_analytic.Panel.Members.{
  Member, Grant, is_row, is_owner_of, lock_membership, last_owner_is, update_rows, granted, upsert,
}
use crucible_analytic.Panel.Members.Owners.{
  IsKeyed, has_owner, elsewhere_untouched, any-append-left, other_owner-untouched,
  update_rows-untouched,
}

-- A change of a row that keeps its key.
abbrev pub KeepsKey : (Member → Member) → Type 0
KeepsKey f = (m : Member) → ((f m).site_id ≡ m.site_id) × ((f m).user_id ≡ m.user_id)

is_row-same :
    (s : Bytes) (u : ℕ) (f : Member → Member) (m : Member)
    → KeepsKey f
    → is_row s u (f m) ≡ is_row s u m
unfolding is_row
is_row-same s u f m k = ap₂ (λ (x : Bytes) (n : ℕ). bytes_eq x s && n == u) (k m).0 (k m).1

pub bytes_eq_sym : (s t : Bytes) → bytes_eq s t ≡ bytes_eq t s
unfolding bytes_eq
bytes_eq_sym [] [] = refl
bytes_eq_sym [] (c ∷ t) = refl
bytes_eq_sym (b ∷ s) [] = refl
bytes_eq_sym (b ∷ s) (c ∷ t) = ground (arith, bytes_eq_sym s t)

is_row_sym : (m n : Member) → is_row m.site_id m.user_id n ≡ is_row n.site_id n.user_id m
unfolding is_row
is_row_sym m n = ground (arith, bytes_eq_sym m.site_id n.site_id)

any-append_one :
    (p : Member → Bool) (ms : List Member) (m : Member) → any p (ms ++ m ∷ []) ≡ (any p ms || p m)
any-append_one p [] m = ground arith
any-append_one p (n ∷ ms) m = ground (arith, any-append_one p ms m)

any-update_rows :
    (s site : Bytes) (u uid : ℕ) (f : Member → Member) (ms : List Member)
    → KeepsKey f
    → any (is_row s u) (update_rows site uid f ms) ≡ any (is_row s u) ms
unfolding update_rows
any-update_rows s site u uid f [] k = refl
any-update_rows s site u uid f (m ∷ ms) k =
    ground (arith, is_row-same s u f m k, any-update_rows s site u uid f ms k)

pub update_rows-IsKeyed :
    (site : Bytes) (uid : ℕ) (f : Member → Member) (ms : List Member)
    → KeepsKey f
    → IsKeyed ms
    → IsKeyed (update_rows site uid f ms)
unfolding update_rows
update_rows-IsKeyed site uid f [] k v = tt
update_rows-IsKeyed site uid f (m ∷ ms) k v =
    let rest = update_rows-IsKeyed site uid f ms k v.1 in
    let other : any (is_row m.site_id m.user_id) (update_rows site uid f ms) ≡ false =
      any-update_rows m.site_id site m.user_id uid f ms k ∙ v.0 in
    elim (Bool-cases (is_row site uid m)) [
      | inl e ↦ rw e (rw ((k m).0, (k m).1) other, rest)
      | inr e ↦ rw e (other, rest)
    ]

any-keep_if :
    (p q : Member → Bool) (ms : List Member) → any p ms ≡ false → any p (keep_if q ms) ≡ false
any-keep_if p q [] e = refl
any-keep_if p q (m ∷ ms) e = ground (arith, e, any-keep_if p q ms)

pub keep_if-IsKeyed : (q : Member → Bool) (ms : List Member) → IsKeyed ms → IsKeyed (keep_if q ms)
keep_if-IsKeyed q [] v = tt
keep_if-IsKeyed q (m ∷ ms) v = elim (Bool-cases (q m)) [
  | inl e ↦ rw e (any-keep_if _ q ms v.0, keep_if-IsKeyed q ms v.1)
  | inr e ↦ rw e (keep_if-IsKeyed q ms v.1)
]

append-IsKeyed :
    (m : Member) (ms : List Member)
    → IsKeyed ms
    → any (is_row m.site_id m.user_id) ms ≡ false
    → IsKeyed (ms ++ m ∷ [])
append-IsKeyed m [] v e = (refl, tt)
append-IsKeyed m (n ∷ ms) v e = (
  ground (arith, any-append_one (is_row n.site_id n.user_id) ms m, v.0, e, is_row_sym m n),
  append-IsKeyed m ms v.1 (ground (arith, e)),
)

-- A row of the user that has been made an owner's.
update_rows-owner :
    (site : Bytes) (uid : ℕ) (f : Member → Member) (ms : List Member)
    → KeepsKey f
    → ((m : Member) → is_owner_role (f m).role ≡ true)
    → any (is_row site uid) ms ≡ true
    → has_owner site (update_rows site uid f ms) ≡ true
unfolding update_rows is_owner_of is_row
update_rows-owner site uid f [] k o e = cc
update_rows-owner site uid f (m ∷ ms) k o e = elim (Bool-cases (is_row site uid m)) [
  | inl here ↦ ground (arith, here, o m, is_row-same site uid f m k)
  | inr e' ↦ ground (arith, e, e', update_rows-owner site uid f ms k o)
]

pub upsert-IsKeyed :
    (site : Bytes) (uid : ℕ) (role : Role) (g : Grant) (ms : List Member)
    → IsKeyed ms
    → IsKeyed (upsert site uid role g ms)
unfolding upsert
upsert-IsKeyed site uid role g ms v = elim (Bool-cases (any (is_row site uid) ms)) [
  | inl e ↦
      rw (e, upsert) (update_rows-IsKeyed site uid (granted role g.until) ms (λ m. (refl, refl)) v)
  | inr e ↦ rw (e, upsert) (append-IsKeyed _ ms v e)
]

-- The guard on the last owner, when a row gets the role.
abbrev pub Guarded : Bytes → ℕ → Role → List Member → Type 0
Guarded site uid role ms =
    (not (is_owner_role role) && last_owner_is uid (lock_membership site uid ms).owners) ≡ false

pub update_rows-has_owner :
    (s site : Bytes) (uid : ℕ) (role : Role) (f : Member → Member) (ms : List Member)
    → KeepsKey f
    → ((m : Member) → (f m).role ≡ role)
    → any (is_row site uid) ms ≡ true
    → IsKeyed ms
    → has_owner s ms ≡ true
    → Guarded site uid role ms
    → has_owner s (update_rows site uid f ms) ≡ true
update_rows-has_owner s site uid role f ms k r here v h g = elim (Bool-cases (is_owner_role role)) [
  | inr e ↦
      update_rows-untouched s site uid f ms
        (other_owner-untouched s site uid ms v h (ground (arith, g, e)))
  | inl e ↦ elim (Bool-cases (bytes_eq s site)) [
    | inr away ↦ update_rows-untouched s site uid f ms (elsewhere_untouched s site uid ms away h)
    | inl same ↦
        rw (bytes_eq_sound s site same)
          (update_rows-owner site uid f ms k (λ m. ap is_owner_role (r m) ∙ e) here)
  ]
]

pub upsert-has_owner :
    (s site : Bytes) (uid : ℕ) (role : Role) (g : Grant) (ms : List Member)
    → IsKeyed ms
    → has_owner s ms ≡ true
    → Guarded site uid role ms
    → has_owner s (upsert site uid role g ms) ≡ true
unfolding upsert
upsert-has_owner s site uid role g ms v h l = elim (Bool-cases (any (is_row site uid) ms)) [
  | inl e ↦
      rw (e, upsert)
        (update_rows-has_owner s site uid role (granted role g.until) ms (λ m. (refl, refl))
          (λ m. refl) e v h l)
  | inr e ↦ rw (e, upsert) (any-append-left (is_owner_of s) ms _ h)
]
