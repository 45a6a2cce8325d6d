-- ===== src/Account/Runs.antt =====
-- What a successful erasure has gone through.
use kurultay.Base.{
  ℕ, ◌≡◌, ap, ◌∙◌, not, some, List, [], arith, find_first, find_first-holds, ◌==◌, ok, >>=-eq-ok,
  throw_if, or_throw, or_throw-eq-ok, ok-injective,
}
use kurultay.Mentions.{Text, text_eq}
use kurultay.Account.{User, DeletionInitiator, Accounts, is_some, require_live_user}
use kurultay.Account.Memberships.{Disposition, partition_memberships, match_dispositions}
use kurultay.Account.Deletion.{
  Progress, settle, surviving, Erasure, erase, delete_account, undisturbed,
}

pub live_id : (us : List User) (i : ℕ) {u : User} → require_live_user us i ≡ ok u → u.id ≡ i
unfolding require_live_user
live_id us i {u} e =
    let (x, e0, e1) = >>=-eq-ok (or_throw (find_first (λ u. u.id == i) us) _) _ e in
    let (v, e2, e3) = >>=-eq-ok (throw_if (is_some x.deleted_at) _) _ e1 in
    let found = find_first-holds (λ u. u.id == i) us (or_throw-eq-ok _ _ e0) in
    let same : x ≡ u = ok-injective e3 in rw (← same) (ground (arith, found))

pub live_user :
    (us : List User) (i : ℕ) {u : User}
    → require_live_user us i ≡ ok u
    → find_first (λ u. u.id == i) us ≡ some u
unfolding require_live_user
live_user us i {u} e =
    let (x, e0, e1) = >>=-eq-ok (or_throw (find_first (λ u. u.id == i) us) _) _ e in
    let (v, e2, e3) = >>=-eq-ok (throw_if (is_some x.deleted_at) _) _ e1 in
    or_throw-eq-ok _ _ e0 ∙ ap some (ok-injective e3)

-- The progress that the loop starts from.
abbrev pub no_progress : Accounts → Progress
no_progress s = record { tables = s; transferred = 0; removed = [] }

module _ (id_text : ℕ → Text) (normalise : Text → Text) where
  pub delete_account-runs :
      (s : Accounts) (user_id : ℕ) (confirm_email : Text) (dispositions : List Disposition)
      (initiated_by : DeletionInitiator) (actor_id now : ℕ) (done : Erasure)
      → delete_account id_text normalise undisturbed s user_id confirm_email dispositions
          initiated_by actor_id now
        ≡ ok done
      → (user : User) × (by_id : List Disposition) × (settled : Progress) × (require_live_user
            s.users user_id
          ≡ ok user)
        × (settle by_id user_id actor_id (partition_memberships s.members user_id).0 (no_progress s)
            ≡ ok settled)
        × (erase id_text settled user initiated_by now (
              surviving by_id
                (partition_memberships s.members user_id).0
                (partition_memberships s.members user_id).1)
            ≡ ok done)
  unfolding delete_account
  delete_account-runs s i confirm ds by_whom a now done e =
      let (user, e0, e1) = >>=-eq-ok (require_live_user s.users i) _ e in
      let (v, e2, e3) =
        >>=-eq-ok (throw_if (not (text_eq (normalise confirm) (normalise user.email))) _) _ e1 in
      let sole_owned = (partition_memberships s.members i).0 in
      let (by_id, e4, e5) = >>=-eq-ok (match_dispositions sole_owned ds) _ e3 in
      let (settled, e6, e7) = >>=-eq-ok (settle by_id i a sole_owned (no_progress s)) _ e5 in
      (user, by_id, settled, e0, e6, e7)
