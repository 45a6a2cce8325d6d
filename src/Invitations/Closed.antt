-- ===== src/Invitations/Closed.antt =====
-- What a withdrawal and an acceptance leave, and that nothing withdrawn is accepted.
use kurultay.Base.{
  ℕ, ◌≡◌, refl, sym, ap, subst, ◌∙◌, inl, inr, ◌&&◌, Bool, true, false, Option, none, some, String,
  List, [], ◌∷◌, ◌++◌, arith, find_first, ◌==◌, if◌then◌else◌, Bool-cases, not_found, Result, ok,
  err,
}
use kurultay.Ordering.Tables.{update_where}
use kurultay.Account.{canceled, is_pending}
use kurultay.Members.{MemberRole, Member}
use kurultay.Invitations.{
  InvitationRow, InvitationActivity, Invited, CancelReply, cancelled, not_cancelled, AcceptReply,
  joined, not_joined, has_id, InvitationApi,
}
use kurultay.Invitations.Handlers.{
  after_cancel, welcome, after_accept, create_invitation, revoke_invitation, accept_invitation,
}
use kurultay.Invitations.Sent.{IsHonest, create_invitation-IsHonest}

abbrev withdrawn : InvitationRow → InvitationRow
withdrawn r = record r { status = canceled }

-- An error changes nothing; a withdrawal cancels a row of the workspace and adds its entry.
abbrev pub IsWithdrawn : (w actor id : ℕ) → Invited → Invited × Result (Unit {0}) → Type 0
IsWithdrawn w actor id s (s', err thrown) = s' ≡ s
IsWithdrawn w actor id s (s', ok done) =
    (row : InvitationRow) × (find_first (λ r. r.id == id && r.workspace_id == w) s.invitations
      ≡ some row)
    × (s'.invitations ≡ update_where (has_id id) withdrawn s.invitations)
    × (s'.members ≡ s.members)
    × (s'.audit
        ≡ s.audit
          ++ record {
            workspace_id = w;
            user_id = actor;
            activity = InvitationActivity.invitation_revoked id row.role;
          }
            ∷ [])

-- An error adds no entry; an acceptance makes the caller a member, in the workspace and at the
-- role of a row that was pending, and adds its entry.
abbrev pub IsGranted : (w caller id : ℕ) → Invited → Invited × Result Member → Type 0
IsGranted w caller id s (s', err thrown) = s'.audit ≡ s.audit
IsGranted w caller id s (s', ok m) =
    (row : InvitationRow) × (find_first (has_id id) s.invitations ≡ some row)
    × (is_pending row.status ≡ true)
    × (row.workspace_id ≡ w)
    × (m.workspace_id ≡ w)
    × (m.user_id ≡ caller)
    × (row.role ≡ some m.role)
    × ((stored : Member) × (s'.members ≡ s.members ++ stored ∷ [])
        × (m ≡ record stored { name = m.name }))
    × (s'.audit
        ≡ s.audit
          ++ record {
            workspace_id = w;
            user_id = caller;
            activity = InvitationActivity.invitation_accepted id m.role;
          }
            ∷ [])

module _ (api : InvitationApi) where
  revoke_invitation-IsWithdrawn :
      (s : Invited) (w actor id : ℕ) → IsWithdrawn w actor id s (revoke_invitation api s w actor id)
  unfolding revoke_invitation
  revoke_invitation-IsWithdrawn s w actor id =
      on_found (find_first (λ r. r.id == id && r.workspace_id == w) s.invitations) refl
    where
      on_reply :
          (row : InvitationRow) (reply : CancelReply)
          → find_first (λ r. r.id == id && r.workspace_id == w) s.invitations ≡ some row
          → api.cancel_invitation s.invitations id actor ≡ reply
          → IsWithdrawn w actor id s (after_cancel s w actor id row.role reply)
      on_reply row (not_cancelled failure) found sent = refl
      on_reply row (cancelled rows) found sent =
          (row, found, api.cancel_done s.invitations rows id actor sent, refl, refl)

      on_found :
          (found : Option InvitationRow)
          → find_first (λ r. r.id == id && r.workspace_id == w) s.invitations ≡ found
          → IsWithdrawn w actor id s (elim found as (λ _. Invited × Result (Unit {0})) [
            | none ↦ (s, err (not_found "Invitation not found"))
            | some row ↦
                after_cancel s w actor id row.role (api.cancel_invitation s.invitations id actor)
          ])
      on_found none found = refl
      on_found (some row) found = on_reply row _ found refl

  accept_invitation-IsGranted :
      (name_of : ℕ → Option String) (s : Invited) (w caller id : ℕ)
      → IsGranted w caller id s (accept_invitation api name_of s w caller id)
  unfolding accept_invitation
  accept_invitation-IsGranted name_of s w caller id =
      on_found (find_first (has_id id) s.invitations) refl
    where
      on_name :
          (row : InvitationRow) (rows : List InvitationRow) (ms : List Member) (m : Member)
          (name : Option String)
          → find_first (has_id id) s.invitations ≡ some row
          → is_pending row.status ≡ true
          → row.workspace_id ≡ w
          → (m.workspace_id ≡ row.workspace_id)
            × (m.user_id ≡ caller)
            × (row.role ≡ some m.role)
            × (ms ≡ s.members ++ m ∷ [])
          → IsGranted w caller id s
              (welcome (record s { invitations = rows; members = ms }) id m name)
      on_name row rows ms m none found waits here done = refl
      on_name row rows ms m (some name) found waits here (of_row, of_caller, at_role, grown) = (
        row,
        found,
        waits,
        here,
        of_row ∙ here,
        of_caller,
        at_role,
        (m, grown, refl),
        rw (of_row, here, of_caller) refl,
      )

      on_reply :
          (row : InvitationRow) (reply : AcceptReply)
          → find_first (has_id id) s.invitations ≡ some row
          → is_pending row.status ≡ true
          → row.workspace_id ≡ w
          → api.accept_invitation s.invitations s.members id caller ≡ reply
          → IsGranted w caller id s (after_accept name_of s id reply)
      on_reply row (not_joined failure) found waits here sent = refl
      on_reply row (joined rows ms none) found waits here sent = refl
      on_reply row (joined rows ms (some m)) found waits here sent =
          on_name row rows ms m (name_of m.user_id) found waits here
            (api.accept_done s.invitations rows s.members ms id caller m row sent found)

      on_found :
          (found : Option InvitationRow)
          → find_first (has_id id) s.invitations ≡ found
          → IsGranted w caller id s (elim found as (λ _. Invited × Result Member) [
            | none ↦ (s, err (not_found "Invitation not found"))
            | some row ↦
                if is_pending row.status && row.workspace_id == w
                then after_accept name_of s id
                    (api.accept_invitation s.invitations s.members id caller)
                else (s, err (not_found "Invitation not found"))
          ])
      on_found none found = refl
      on_found (some row) found =
          elim (Bool-cases (is_pending row.status && row.workspace_id == w)) [
            | inl passes ↦ rw passes (on_reply row _ found (ground arith) (ground arith) refl)
            | inr closed ↦ rw closed refl
          ]

  -- What the audit entries of the three handlers say has happened. A handler that throws adds none.
  -- A sent invitation has one entry, at a role that is not OWNER and that the stored row and the
  -- answer have, whatever others wrote meanwhile; a withdrawal has one, and cancels the row of that
  -- id, which is one of the workspace; an acceptance has one, and makes the caller a member, in the
  -- workspace and at the role of a row that was pending there.
  pub audit_lem :
      (to_lower_case : String → String) (meanwhile : List InvitationRow → List InvitationRow)
      (name_of : ℕ → Option String) (s : Invited) (now w user id : ℕ) (typed : String)
      (role : MemberRole)
      → IsHonest w user
          (to_lower_case typed)
          role
          s.audit
          (create_invitation api to_lower_case meanwhile s now w user typed role)
        × IsWithdrawn w user id s (revoke_invitation api s w user id)
        × IsGranted w user id s (accept_invitation api name_of s w user id)
  audit_lem to_lower_case meanwhile name_of s now w user id typed role = (
    create_invitation-IsHonest api to_lower_case meanwhile s now w user typed role,
    revoke_invitation-IsWithdrawn s w user id,
    accept_invitation-IsGranted name_of s w user id,
  )

  cancelled_row :
      (id : ℕ) (rows : List InvitationRow) (row : InvitationRow)
      → find_first (has_id id) (update_where (has_id id) withdrawn rows) ≡ some row
      → is_pending row.status ≡ false
  cancelled_row id [] row e = cc
  cancelled_row id (r ∷ rs) row e = elim (Bool-cases (r.id == id)) [
    | inl hit ↦
        let found : some (withdrawn r) ≡ some row = rw (hit, hit) at e in
        ap (λ o. status_pending o) (sym found)
    | inr miss ↦ cancelled_row id rs row (rw (miss, miss) at e)
  ]
    where
      status_pending : Option InvitationRow → Bool
      status_pending none = false
      status_pending (some r) = is_pending r.status

  -- After a withdrawal that succeeds, nobody can accept the invitation, in whatever workspace it is
  -- tried: the answer is 404 and nothing changes.
  pub accept_invitation-revoke_invitation :
      (name_of : ℕ → Option String) (s s' : Invited) (w actor id any caller : ℕ) (done : Unit {0})
      → revoke_invitation api s w actor id ≡ (s', ok done)
      → accept_invitation api name_of s' any caller id
        ≡ (s', err (not_found "Invitation not found"))
  unfolding accept_invitation
  accept_invitation-revoke_invitation name_of s s' w actor id any caller done e =
      let (row, found, gone, members, audit) =
        subst (IsWithdrawn w actor id s) e (revoke_invitation-IsWithdrawn s w actor id) in
      on_found (find_first (has_id id) s'.invitations) refl gone
    where
      on_found :
          (found : Option InvitationRow)
          → find_first (has_id id) s'.invitations ≡ found
          → s'.invitations ≡ update_where (has_id id) withdrawn s.invitations
          → accept_invitation api name_of s' any caller id
            ≡ (s', err (not_found "Invitation not found"))
      on_found none found gone = rw (accept_invitation, found) refl
      on_found (some row) found gone =
          let closed =
            cancelled_row id s.invitations row (sym (ap (find_first (has_id id)) gone) ∙ found) in
          rw (accept_invitation, found, closed) refl
