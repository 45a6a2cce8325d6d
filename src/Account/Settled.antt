-- ===== src/Account/Settled.antt =====
-- The loop over the solely owned workspaces leaves each workspace with another owner.
use kurultay.Base.{
  ℕ, ◌≡◌, refl, subst, true, not, Option, none, some, List, [], ◌∷◌, find_first, ◌==◌, ok,
  unhandled, >>=-eq-ok, throw_if, throw_if-eq-ok, or_throw, or_throw-eq-ok, ok-injective,
}
use kurultay.Integrity.Keys.{All-update_where, All-keep_if}
use kurultay.Members.{owner}
use kurultay.Account.{User, Membership, Accounts, is_some, is_live, is_membership}
use kurultay.Account.Memberships.{
  DispositionAction, transfer, remove_workspace, Disposition, disposition_of,
}
use kurultay.Account.Deletion.{
  DeletedWorkspaceLine, Progress, find_target, transfer_ownership, delete_workspace, carry_out,
  settle,
}
use kurultay.Account.Transfers.{target_found}
use kurultay.Account.Owned.{
  IsSettling, promoted-owner, promoted-IsUnique, promoted-IsSettled, outside-IsSettled,
  IsUnique-keep_if,
}

module _ (i : ℕ) (us : List User) (m : Membership) (rest : List Membership) where
  transfer_ownership-IsSettling :
      (s s' : Accounts) (u : ℕ)
      → transfer_ownership s m u i ≡ ok s'
      → IsSettling i us (m ∷ rest) s
      → IsSettling i us rest s'
  unfolding transfer_ownership
  transfer_ownership-IsSettling s s' u e h =
      let (target, e0, e1) = >>=-eq-ok (or_throw (find_target s m.workspace_id u) _) _ e in
      let (v, e2, e3) = >>=-eq-ok (throw_if (u == i) _) _ e1 in
      let (v', e4, e5) = >>=-eq-ok (throw_if (is_some target.1.deleted_at) _) _ e3 in
      let (row, user) = target_found s m.workspace_id u (or_throw-eq-ok _ _ e0) in
      let w = m.workspace_id in
      subst (IsSettling i us rest) (ok-injective e5) (record {
        settled =
            promoted-IsSettled w u i m rest s.members s.workspaces refl
              (promoted-owner w u i s.members row (throw_if-eq-ok _ _ e2)) h.settled;
        live =
            All-update_where (λ x. is_live us x.user_id ≡ true) (is_membership w u)
              (λ x. record x { role = owner }) s.members (λ x k. k) h.live;
        unique = promoted-IsUnique w u i s.members h.unique;
        users_same = h.users_same;
      })

  delete_workspace-IsSettling :
      (s s' : Accounts) (a : ℕ) {line : DeletedWorkspaceLine}
      → delete_workspace s m.workspace_id i a ≡ ok (line, s')
      → IsSettling i us (m ∷ rest) s
      → IsSettling i us rest s'
  unfolding delete_workspace
  delete_workspace-IsSettling s s' a e h =
      let w = m.workspace_id in
      let (doomed, e0, e1) =
        >>=-eq-ok (or_throw (find_first (λ x. x.id == w) s.workspaces) unhandled) _ e in
      subst (λ p. IsSettling i us rest p.1) (ok-injective e1)
        (record {
          settled = outside-IsSettled w i m rest s.members s.workspaces refl h.settled;
          live =
              All-keep_if (λ x. is_live us x.user_id ≡ true) (λ x. not (x.workspace_id == w))
                s.members h.live;
          unique = IsUnique-keep_if (λ x. not (x.workspace_id == w)) s.members h.unique;
          users_same = h.users_same;
        })

  carry_out-IsSettling :
      (p p' : Progress) (a : ℕ) (action : DispositionAction) (u : Option ℕ)
      → carry_out p m i a action u ≡ ok p'
      → IsSettling i us (m ∷ rest) p.tables
      → IsSettling i us rest p'.tables
  unfolding carry_out
  carry_out-IsSettling p p' a transfer (some u) e h =
      let (tables, e0, e1) = >>=-eq-ok (transfer_ownership p.tables m u i) _ e in
      subst (λ q. IsSettling i us rest q.tables) (ok-injective e1)
        (transfer_ownership-IsSettling p.tables tables u e0 h)
  carry_out-IsSettling p p' a transfer none e h = cc
  carry_out-IsSettling p p' a remove_workspace u e h =
      let (done, e0, e1) = >>=-eq-ok (delete_workspace p.tables m.workspace_id i a) _ e in
      subst (λ q. IsSettling i us rest q.tables) (ok-injective e1)
        (delete_workspace-IsSettling p.tables done.1 a e0 h)

pub settle-IsSettling :
    (ds : List Disposition) (i a : ℕ) (us : List User) (ms : List Membership) (p p' : Progress)
    → settle ds i a ms p ≡ ok p'
    → IsSettling i us ms p.tables
    → IsSettling i us [] p'.tables
unfolding settle
settle-IsSettling ds i a us [] p p' e h =
    subst (λ q. IsSettling i us [] q.tables) (ok-injective e) h
settle-IsSettling ds i a us (m ∷ ms) p p' e h =
    let (d, e0, e1) = >>=-eq-ok (or_throw (disposition_of ds m.workspace_id) _) _ e in
    let (next, e2, e3) = >>=-eq-ok (carry_out p m i a d.action d.new_owner_user_id) _ e1 in
    settle-IsSettling ds i a us ms next p' e3
      (carry_out-IsSettling i us m ms p next a d.action d.new_owner_user_id e2 h)
