-- ===== src/Invitations/Handlers.antt =====
-- The handlers of workspace-invitation.service.ts: createInvitation, revokeInvitation and
-- acceptInvitation.
use kurultay.Base.{
  ℕ, ◌&&◌, not, Bool, true, false, Option, none, some, String, List, [], ◌∷◌, ◌++◌, find_first,
  any_of, ◌==◌, str_eq, if◌then◌else◌, HttpError, bad_request, forbidden, not_found, conflict,
  unhandled, Result, ok, err,
}
use kurultay.Account.{is_pending}
use kurultay.Members.{MemberRole, owner, role_eq, Member}
use kurultay.Members.Errors.{
  PluginFailure, api_error, better_auth_error_code, rethrow_better_auth_error,
}
use kurultay.Invitations.{
  InvitationRow, InvitationDto, InvitationActivity, Invited, CancelReply, cancelled, not_cancelled,
  CreateReply, issued, not_issued, AcceptReply, joined, not_joined, has_id, InvitationApi,
  find_pending_invitations,
}

-- `invitation.role !== role`
abbrev pub differs : Option MemberRole → MemberRole → Bool
differs none role = true
differs (some r) role = not (role_eq r role)

-- `grantedRole !== undefined && grantedRole !== role`
abbrev pub was_changed : Option (Option MemberRole) → MemberRole → Bool
was_changed none role = false
was_changed (some granted) role = differs granted role

-- The sentence for 403, and the one for every other status.
abbrev pub create_message : PluginFailure → String
create_message (api_error status_code code) =
    if status_code == 403
    then "You are not allowed to send this invitation"
    else "Failed to create invitation"
create_message _ = "Failed to create invitation"

abbrev pub rethrow_create_error : PluginFailure → HttpError
rethrow_create_error failure =
    rethrow_better_auth_error failure (create_message failure) "Failed to create invitation"

abbrev pub rethrow_replace_error : PluginFailure → HttpError
rethrow_replace_error failure =
    rethrow_better_auth_error failure "Failed to replace the pending invitation"
      "Failed to replace the pending invitation"

abbrev pub rethrow_accept_error : PluginFailure → HttpError
rethrow_accept_error failure = elim (better_auth_error_code failure) [
  | none ↦ rethrow_better_auth_error failure "Failed to accept invitation" "Invitation not found"
  | some code ↦
      if str_eq code "EMAIL_VERIFICATION_REQUIRED_BEFORE_ACCEPTING_OR_REJECTING_INVITATION"
      then forbidden "Confirm your email address before accepting this invitation"
      else rethrow_better_auth_error failure "Failed to accept invitation" "Invitation not found"
]

-- What `createInvitation` makes of the plugin's answer.
abbrev pub after_create :
    Invited
    → (workspace_id actor_id : ℕ) → MemberRole
    → CreateReply
    → Invited × Result InvitationDto
after_create s workspace_id actor_id role (not_issued failure) =
    (s, err (rethrow_create_error failure))
after_create s workspace_id actor_id role (issued rows none delivery) =
    (record s { invitations = rows }, err (bad_request "Failed to create invitation"))
after_create s workspace_id actor_id role (issued rows (some invitation) delivery) =
    if was_changed invitation.role role
    then (
      record s { invitations = rows },
      err (conflict "Invitation was changed concurrently, please try again"),
    )
    else (
      record s {
        invitations = rows;
        audit =
            s.audit
            ++ record {
              workspace_id = workspace_id;
              user_id = actor_id;
              activity = InvitationActivity.invitation_created invitation.id role delivery;
            }
              ∷ [];
      },
      ok (record {
        id = invitation.id;
        workspace_id = workspace_id;
        email = invitation.email;
        role = role;
        status = invitation.status;
        expires_at = invitation.expires_at;
        email_delivery = delivery;
      }),
    )

abbrev pub after_cancel :
    Invited
    → (workspace_id actor_id invitation_id : ℕ) → (role : Option MemberRole) → CancelReply
    → Invited × Result (Unit {0})
after_cancel s workspace_id actor_id invitation_id role (not_cancelled failure) = (
  s,
  err (rethrow_better_auth_error failure "Failed to revoke invitation" "Invitation not found"),
)
after_cancel s workspace_id actor_id invitation_id role (cancelled rows) = (
  record s {
    invitations = rows;
    audit =
        s.audit
        ++ record {
          workspace_id = workspace_id;
          user_id = actor_id;
          activity = InvitationActivity.invitation_revoked invitation_id role;
        }
          ∷ [];
  },
  ok tt,
)

-- `name_of` reads the user; where there is none, the query throws what is not Nest's.
abbrev pub welcome :
    Invited → (invitation_id : ℕ) → Member → Option String → Invited × Result Member
welcome s invitation_id m none = (s, err unhandled)
welcome s invitation_id m (some name) = (
  record s {
    audit =
        s.audit
        ++ record {
          workspace_id = m.workspace_id;
          user_id = m.user_id;
          activity = InvitationActivity.invitation_accepted invitation_id m.role;
        }
          ∷ [];
  },
  ok (record m { name = name }),
)

abbrev pub after_accept :
    (name_of : ℕ → Option String)
    → Invited
    → (invitation_id : ℕ) → AcceptReply
    → Invited × Result Member
after_accept name_of s invitation_id (not_joined failure) = (s, err (rethrow_accept_error failure))
after_accept name_of s invitation_id (joined rows members none) = (
  record s { invitations = rows; members = members },
  err (bad_request "Failed to accept invitation"),
)
after_accept name_of s invitation_id (joined rows members (some m)) =
    welcome (record s { invitations = rows; members = members }) invitation_id m (name_of m.user_id)

module _ (api : InvitationApi) where
  -- The loop over the pending invitations; what it has cancelled stays so when it throws.
  unfoldable pub cancel_all :
      (caller : ℕ)
      → List InvitationRow
      → List InvitationRow
      → List InvitationRow × Result (Unit {0})
  cancel_all caller [] rows = (rows, ok tt)
  cancel_all caller (r ∷ rs) rows = elim (api.cancel_invitation rows r.id caller) [
    | cancelled rows' ↦ cancel_all caller rs rows'
    | not_cancelled failure ↦ (rows, err (rethrow_replace_error failure))
  ]

  -- Pending invitations of which one has another role are cancelled.
  unfoldable pub replace_pending :
      (caller : ℕ)
      → MemberRole
      → (found rows : List InvitationRow) → List InvitationRow × Result (Unit {0})
  replace_pending caller role found rows =
      if any_of (λ r. differs r.role role) found
      then cancel_all caller found rows
      else (rows, ok tt)

  unfoldable pub issue :
      Invited
      → (workspace_id actor_id : ℕ) → (email : String) → MemberRole
      → Invited × Result InvitationDto
  issue s workspace_id actor_id email role =
      after_create s workspace_id actor_id role
        (api.create_invitation s.invitations email role workspace_id actor_id)

  -- `meanwhile` is what others write to the table between the lookup and the plugin's call.
  unfoldable pub create_invitation :
      (to_lower_case : String → String) (meanwhile : List InvitationRow → List InvitationRow)
      → Invited
      → (now workspace_id actor_id : ℕ) → (email : String) → MemberRole
      → Invited × Result InvitationDto
  create_invitation to_lower_case meanwhile s now workspace_id actor_id typed role =
      let email = to_lower_case typed in
      let found = find_pending_invitations s.invitations workspace_id email now in
      let replaced = replace_pending actor_id role found s.invitations in
      if role_eq role owner
      then (s, err (bad_request "Cannot invite someone as OWNER"))
      else elim replaced.1 [
        | err thrown ↦ (record s { invitations = replaced.0 }, err thrown)
        | ok done ↦
            issue (record s { invitations = meanwhile replaced.0 }) workspace_id actor_id email role
      ]

  unfoldable pub revoke_invitation :
      Invited → (workspace_id actor_id invitation_id : ℕ) → Invited × Result (Unit {0})
  revoke_invitation s workspace_id actor_id invitation_id =
      elim (find_first (λ r. r.id == invitation_id && r.workspace_id == workspace_id)
        s.invitations) [
          | none ↦ (s, err (not_found "Invitation not found"))
          | some invitation ↦
              after_cancel s workspace_id actor_id invitation_id invitation.role
                (api.cancel_invitation s.invitations invitation_id actor_id)
        ]

  unfoldable pub accept_invitation :
      (name_of : ℕ → Option String)
      → Invited
      → (workspace_id caller invitation_id : ℕ) → Invited × Result Member
  accept_invitation name_of s workspace_id caller invitation_id =
      elim (find_first (has_id invitation_id) s.invitations) [
        | none ↦ (s, err (not_found "Invitation not found"))
        | some invitation ↦
            if is_pending invitation.status && invitation.workspace_id == workspace_id
            then after_accept name_of s invitation_id
                (api.accept_invitation s.invitations s.members invitation_id caller)
            else (s, err (not_found "Invitation not found"))
      ]
