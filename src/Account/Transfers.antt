-- ===== src/Account/Transfers.antt =====
-- The members whom the preview offers a workspace to, and `transferOwnership`.
use kurultay.Base.{
  ℕ, ◌≡◌, refl, sym, ap, ◌∙◌, ◌↔◌, ◌≢◌, inl, inr, Bool, true, false, not, ◌&&◌, none, some, List,
  [], ◌∷◌, arith, any_of, keep_if, find_first, ◌==◌, Bool-cases, Option-cases, Result-cases,
  HttpError, ok, err, >>=-eq-ok, throw_if, throw_if-eq-ok, or_throw, or_throw-eq-ok,
}
use kurultay.Base.Perms.{IsAbsent, IsDistinct}
use kurultay.Account.{User, Membership, Accounts, is_some, is_live, is_membership}
use kurultay.Account.Memberships.{is_candidate, transfer_candidates}
use kurultay.Account.Deletion.{find_target, transfer_ownership}

module _ {T : Type 0} (p : T → Bool) where
  any_of-found : (xs : List T) {x : T} → find_first p xs ≡ some x → any_of p xs ≡ true
  any_of-found [] e = cc
  any_of-found (x ∷ xs) {x = y} e = ground (arith, any_of-found xs {x = y})

  any_of-missing : (xs : List T) → find_first p xs ≡ none → any_of p xs ≡ false
  any_of-missing [] e = refl
  any_of-missing (x ∷ xs) e = ground (arith, any_of-missing xs)

-- The rows that `find_target` joins.
pub target_found :
    (s : Accounts) (w u : ℕ) {t : Membership × User}
    → find_target s w u ≡ some t
    → (find_first (is_membership w u) s.members ≡ some t.0)
      × (find_first (λ x. x.id == u) s.users ≡ some t.1)
unfolding find_target
target_found s w u e = ground arith

target_joined :
    (s : Accounts) (w u : ℕ) (m : Membership) (user : User)
    → find_first (is_membership w u) s.members ≡ some m
    → find_first (λ x. x.id == u) s.users ≡ some user
    → find_target s w u ≡ some (m, user)
unfolding find_target
target_joined s w u m user e k = ground arith

is_live_absent : (us : List User) (i : ℕ) → IsAbsent (λ u. u.id) i us → is_live us i ≡ false
is_live_absent [] i h = refl
is_live_absent (u ∷ us) i h = ground (arith, is_live_absent us i h.1)

-- A user is live where the row of that id has not been emptied.
pub is_live-found :
    (us : List User) (i : ℕ) {u : User}
    → IsDistinct (λ u. u.id) us
    → find_first (λ u. u.id == i) us ≡ some u
    → is_live us i ≡ not (is_some u.deleted_at)
is_live-found [] i d e = cc
is_live-found (x ∷ xs) i {u} d e = elim (Bool-cases (x.id == i)) [
  | inl hit ↦
      let same : x ≡ u = ground arith in
      let id_eq : x.id ≡ i = ground arith in
      let far : is_live xs i ≡ false = is_live_absent xs i (rw id_eq at (d.0)) in
      rw (hit, far) (ground (arith, same))
  | inr miss ↦ ground (arith, is_live-found xs i {u = u} d.1)
]

pub is_live-missing :
    (us : List User) (i : ℕ) → find_first (λ u. u.id == i) us ≡ none → is_live us i ≡ false
is_live-missing [] i e = refl
is_live-missing (x ∷ xs) i e = ground (arith, is_live-missing xs i)

offered :
    (us : List User) (w i u : ℕ) (ms : List Membership)
    → any_of (λ x. x.user_id == u) (keep_if (is_candidate us w i) ms)
      ≡ (any_of (is_membership w u) ms && (not (u == i) && is_live us u))
offered us w i u [] = refl
offered us w i u (m ∷ ms) = elim (Bool-cases (m.user_id == u)) [
  | inl hit ↦
      let same : m.user_id ≡ u = ground arith in
      ground (arith, offered us w i u ms, ap (is_live us) same)
  | inr miss ↦ ground (arith, offered us w i u ms)
]

and_parts : (a b c : Bool) → (a && (not b && c)) ≡ true → (a ≡ true) × (b ≡ false) × (c ≡ true)
and_parts a b c h = ground arith

refused :
    (s : Accounts) (m : Membership) (u i : ℕ) {thrown : HttpError}
    → IsDistinct (λ u. u.id) s.users
    → any_of (is_membership m.workspace_id u) s.members ≡ true
    → (u == i) ≡ false
    → is_live s.users u ≡ true
    → transfer_ownership s m u i ≢ err thrown
unfolding transfer_ownership
refused s m u i {thrown} d row other live failed =
    elim (Option-cases (find_first (is_membership m.workspace_id u) s.members)) [
      | inl gone ↦ cc (any_of-missing _ s.members gone)
      | inr (target, found) ↦ elim (Option-cases (find_first (λ x. x.id == u) s.users)) [
        | inl gone ↦ cc (is_live-missing s.users u gone)
        | inr (user, joined) ↦
            let kept : is_some user.deleted_at ≡ false =
              ground (arith, is_live-found s.users u d joined) in
            cc (
              rw (target_joined s m.workspace_id u target user found joined, other, kept) at failed)
      ]
    ]

-- A workspace can be transferred to exactly the members whom the preview offers it to. The
-- hypothesis: user ids are distinct.
pub transfer_ownership-transfer_candidates :
    (s : Accounts) (m : Membership) (new_owner_user_id departing_user_id : ℕ)
    → IsDistinct (λ u. u.id) s.users
    → ((s' : Accounts) × (transfer_ownership s m new_owner_user_id departing_user_id ≡ ok s')) ↔ (
        any_of
          (λ x. x.user_id == new_owner_user_id)
          (transfer_candidates s m.workspace_id departing_user_id)
        ≡ true)
unfolding transfer_ownership find_target transfer_candidates
transfer_ownership-transfer_candidates s m u i d = (
  λ (s', e).
      let (target, e0, e1) = >>=-eq-ok (or_throw (find_target s m.workspace_id u) _) _ e in
      let (v, e2, e3) = >>=-eq-ok (throw_if (u == i) _) _ e1 in
      let (v', e4, e5) = >>=-eq-ok (throw_if (is_some target.1.deleted_at) _) _ e3 in
      let (row, user) = target_found s m.workspace_id u (or_throw-eq-ok _ _ e0) in
      rw (
        offered s.users m.workspace_id i u s.members,
        any_of-found _ s.members row,
        throw_if-eq-ok _ _ e2,
        is_live-found s.users u d user,
        throw_if-eq-ok _ _ e4,
      ),
  λ h. elim (Result-cases (transfer_ownership s m u i)) [
    | inl done ↦ done
    | inr (thrown, failed) ↦
        let (row, other, live) = and_parts _ _ _ (sym (offered s.users _ i u s.members) ∙ h) in
        absurd (refused s m u i d row other live failed)
  ],
)
