-- ===== src/Members/Steps.antt =====
-- Sequences of removals, role changes and departures, in any workspaces.
use kurultay.Base.{
  ℕ, ◌≤◌, ◌≡◌, sym, ap, subst, ◌∙◌, ◌≢◌, inl, inr, ◌&&◌, ◌||◌, true, false, not, some, List, arith,
  find_first, find_first-holds, ◌==◌, Bool-cases, ok, >>=-eq-ok, throw_if, throw_if-eq-ok,
  or_throw-eq-ok, ok-injective,
}
use kurultay.Base.Perms.{IsDistinct}
use kurultay.Members.{
  MemberRole, owner, role_eq, Member, WorkspaceMembership, Memberships, Reply, done, failed,
  OrganizationApi, is_member_of, require_member, is_last_owner, written, remove_member, change_role,
  update_member_role, leave,
}
use kurultay.Members.Owners.{
  owners, without_member, with_role, members_of, owners-without, owners-with_role,
  members_of-without, members_of-with_role, IsDistinct-without, IsDistinct-with_role,
}

module _ (api : OrganizationApi) where
  -- One request that succeeds, by the caller `actor` in the workspace `w`.
  pub data MemberStep (w : ℕ) (s s' : Memberships) : Type 0 where
    removed :
        (target : ℕ) (actor : WorkspaceMembership)
        → remove_member api s w target actor ≡ ok s'
        → MemberStep w s s'
    changed :
        (target : ℕ) (role : MemberRole) (actor : WorkspaceMembership) (m : Member)
        → update_member_role api s w target role actor ≡ ok (m, s')
        → MemberStep w s s'
    left : (actor : WorkspaceMembership) → leave api s w actor ≡ ok s' → MemberStep w s s'

  -- Any number of them, in any workspaces.
  pub data Reaches (s : Memberships) : Memberships → Type 0 where
    here : Reaches s s
    and_then : {s' s'' : Memberships} (w : ℕ) → Reaches s s' → MemberStep w s' s'' → Reaches s s''

  -- What a step does to the table: nothing, one row less, or one role changed; the row is one of
  -- the workspace, and is not the last owner that it has.
  data Effect (w : ℕ) (ms ms' : List Member) : Type 0 where
    same : ms' ≡ ms → Effect w ms ms'
    dropped :
        (u : ℕ) (t : Member)
        → find_first (is_member_of w u) ms ≡ some t
        → (role_eq t.role owner && is_last_owner ms w) ≡ false
        → ms' ≡ without_member t.id ms
        → Effect w ms ms'
    reassigned :
        (u : ℕ) (t : Member) (role : MemberRole)
        → find_first (is_member_of w u) ms ≡ some t
        → (role_eq t.role owner && is_last_owner ms w) ≡ false
        → ms' ≡ with_role t.id role ms
        → Effect w ms ms'

  written-eq-ok :
      (reply : Reply) (message last_owner_message : _) {ms : List Member}
      → written reply message last_owner_message ≡ ok ms
      → reply ≡ done ms
  written-eq-ok (done ms) message last_owner_message e = ap done (ok-injective e)
  written-eq-ok (failed failure) message last_owner_message e = cc

  remove_member-Effect :
      (w target : ℕ) (actor : WorkspaceMembership) (s s' : Memberships)
      → remove_member api s w target actor ≡ ok s'
      → Effect w s.members s'.members
  unfolding remove_member require_member
  remove_member-Effect w target actor s s' e =
      let (u, e0, e1) = >>=-eq-ok (throw_if (target == actor.user_id) _) _ e in
      let (t, e2, e3) = >>=-eq-ok (require_member s.members w target) _ e1 in
      let (u', e4, e5) =
        >>=-eq-ok (throw_if (role_eq t.role owner && not (role_eq actor.role owner)) _) _ e3 in
      let (u'', e6, e7) =
        >>=-eq-ok (throw_if (role_eq t.role owner && is_last_owner s.members w) _) _ e5 in
      let (ms, e8, e9) = >>=-eq-ok (written _ _ _) _ e7 in
      dropped target t (or_throw-eq-ok _ _ e2) (throw_if-eq-ok _ _ e6) (
        sym (ap (λ z. z.members) (ok-injective e9))
        ∙ api.remove_member_done s.members ms t.id w actor.user_id (written-eq-ok _ _ _ e8))

  change_role-Effect :
      (w target : ℕ) (t : Member) (role : MemberRole) (actor : WorkspaceMembership)
      (s : Memberships) {m : Member} {s' : Memberships}
      → find_first (is_member_of w target) s.members ≡ some t
      → change_role api s w target t role actor ≡ ok (m, s')
      → Effect w s.members s'.members
  unfolding change_role
  change_role-Effect w target t role actor s found e =
      let (u, e0, e1) =
        >>=-eq-ok
          (throw_if ((role_eq t.role owner || role_eq role owner) && not (role_eq actor.role owner))
            _)
          _ e in
      let (u', e2, e3) =
        >>=-eq-ok (throw_if (role_eq t.role owner && is_last_owner s.members w) _) _ e1 in
      let (ms, e4, e5) = >>=-eq-ok (written _ _ _) _ e3 in
      reassigned target t role found (throw_if-eq-ok _ _ e2) (
        sym (ap (λ z. z.1.members) (ok-injective e5))
        ∙ api.update_member_role_done s.members ms t.id role w actor.user_id
            (written-eq-ok _ _ _ e4))

  update_member_role-Effect :
      (w target : ℕ) (role : MemberRole) (actor : WorkspaceMembership) (s : Memberships)
      {m : Member} {s' : Memberships}
      → update_member_role api s w target role actor ≡ ok (m, s')
      → Effect w s.members s'.members
  unfolding update_member_role require_member
  update_member_role-Effect w target role actor s e =
      let (t, e0, e1) = >>=-eq-ok (require_member s.members w target) _ e in
      elim (Bool-cases (role_eq t.role role)) [
        | inl stays ↦ same (sym (ap (λ z. z.1.members) (ok-injective (rw stays at e1))))
        | inr differs ↦
            change_role-Effect w target t role actor s (or_throw-eq-ok _ _ e0) (rw differs at e1)
      ]

  leave-Effect :
      (w : ℕ) (actor : WorkspaceMembership) (s s' : Memberships)
      → leave api s w actor ≡ ok s'
      → Effect w s.members s'.members
  unfolding leave require_member
  leave-Effect w actor s s' e =
      let (t, e0, e1) = >>=-eq-ok (require_member s.members w actor.user_id) _ e in
      let (u, e2, e3) =
        >>=-eq-ok (throw_if (role_eq t.role owner && is_last_owner s.members w) _) _ e1 in
      let (ms, e4, e5) = >>=-eq-ok (written _ _ _) _ e3 in
      let found = or_throw-eq-ok _ _ e0 in
      dropped actor.user_id t found (throw_if-eq-ok _ _ e2) (
        sym (ap (λ z. z.members) (ok-injective e5))
        ∙ api.leave_organization_done s.members ms w actor.user_id t found (written-eq-ok _ _ _ e4))

  step-Effect : (w : ℕ) (s s' : Memberships) → MemberStep w s s' → Effect w s.members s'.members
  step-Effect w s s' (removed target actor e) = remove_member-Effect w target actor s s' e
  step-Effect w s s' (changed target role actor m e) =
      update_member_role-Effect w target role actor s e
  step-Effect w s s' (left actor e) = leave-Effect w actor s s' e

  member_workspace :
      (w u : ℕ) (ms : List Member) {t : Member}
      → find_first (is_member_of w u) ms ≡ some t
      → t.workspace_id ≡ w
  member_workspace w u ms {t} e =
      let holds : is_member_of w u t ≡ true = find_first-holds _ ms e in ground arith

  Effect-IsDistinct :
      (w : ℕ) (ms ms' : List Member)
      → Effect w ms ms'
      → IsDistinct (λ (m : Member). m.id) ms
      → IsDistinct (λ (m : Member). m.id) ms'
  Effect-IsDistinct w ms ms' (same e) d = subst (IsDistinct _) (sym e) d
  Effect-IsDistinct w ms ms' (dropped u t found kept e) d =
      subst (IsDistinct _) (sym e) (IsDistinct-without t.id ms d)
  Effect-IsDistinct w ms ms' (reassigned u t role found kept e) d =
      subst (IsDistinct _) (sym e) (IsDistinct-with_role t.id role ms d)

  Effect-foreign :
      (w other : ℕ) (ms ms' : List Member)
      → Effect w ms ms'
      → IsDistinct (λ (m : Member). m.id) ms
      → other ≢ w
      → members_of other ms' ≡ members_of other ms
  Effect-foreign w other ms ms' (same e) d apart = ap (members_of other) e
  Effect-foreign w other ms ms' (dropped u t found kept e) d apart =
      ap (members_of other) e
      ∙ members_of-without other (is_member_of w u) ms d found
          (λ k. apart (sym k ∙ member_workspace w u ms found))
  Effect-foreign w other ms ms' (reassigned u t role found kept e) d apart =
      ap (members_of other) e
      ∙ members_of-with_role other (is_member_of w u) role ms d found
          (λ k. apart (sym k ∙ member_workspace w u ms found))

  Effect-owners :
      (w other : ℕ) (ms ms' : List Member)
      → Effect w ms ms'
      → IsDistinct (λ (m : Member). m.id) ms
      → 1 ≤ owners other ms
      → 1 ≤ owners other ms'
  unfolding is_last_owner
  Effect-owners w other ms ms' (same e) d h = subst (λ z. 1 ≤ owners other z) (sym e) h
  Effect-owners w other ms ms' (dropped u t found kept e) d h =
      subst (λ z. 1 ≤ owners other z) (sym e)
        (ground (
          arith,
          owners-without other (is_member_of w u) ms d found,
          member_workspace w u ms found,
        ))
  Effect-owners w other ms ms' (reassigned u t role found kept e) d h =
      subst (λ z. 1 ≤ owners other z) (sym e)
        (ground (
          arith,
          owners-with_role other (is_member_of w u) role ms d found,
          member_workspace w u ms found,
        ))

  -- A removal, a role change or a departure in one workspace leaves the memberships of every other
  -- workspace as they were. The hypothesis: membership ids are distinct.
  pub step_foreign :
      (w other : ℕ) (s s' : Memberships)
      → MemberStep w s s'
      → IsDistinct (λ (m : Member). m.id) s.members
      → other ≢ w
      → members_of other s'.members ≡ members_of other s.members
  step_foreign w other s s' step =
      Effect-foreign w other s.members s'.members (step-Effect w s s' step)

  reaches-IsDistinct :
      (s s' : Memberships)
      → Reaches s s'
      → IsDistinct (λ (m : Member). m.id) s.members
      → IsDistinct (λ (m : Member). m.id) s'.members
  reaches-IsDistinct s s' here d = d
  reaches-IsDistinct s s'' (and_then {s'} w path step) d =
      Effect-IsDistinct w s'.members s''.members (step-Effect w s' s'' step)
        (reaches-IsDistinct s s' path d)

  -- A workspace that has an owner keeps one, whatever sequence of removals, role changes and
  -- departures succeeds, in that workspace and in others, by whomever. The hypothesis: membership
  -- ids are distinct.
  pub reaches-owners :
      (s s' : Memberships) (w : ℕ)
      → Reaches s s'
      → IsDistinct (λ (m : Member). m.id) s.members
      → 1 ≤ owners w s.members
      → 1 ≤ owners w s'.members
  reaches-owners s s' w here d h = h
  reaches-owners s s'' w (and_then {s'} v path step) d h =
      Effect-owners v w s'.members s''.members (step-Effect v s' s'' step)
        (reaches-IsDistinct s s' path d) (reaches-owners s s' w path d h)
