-- ===== src/Invitations.antt =====
-- workspace/workspace-invitation.service.ts: invitations are sent, withdrawn and accepted. The rows
-- are written by the organization plugin (better-auth), a parameter here, and no transaction spans
-- its calls: a handler answers with the state that it leaves, also where it throws. The accept link
-- of an answer is left out.
pub mod Handlers
pub mod Sent
pub mod Uniform
pub mod Closed
use kurultay.Base.{
  ℕ, ◌≡◌, ◌≢◌, ◌&&◌, not, Bool, true, false, Option, none, some, String, List, [], ◌∷◌, ◌++◌,
  keep_if, find_first, any_of, All, ltb, ◌==◌, str_eq, if◌then◌else◌, HttpError, bad_request,
  forbidden, not_found, conflict, unhandled, Result, ok, err, or_throw,
}
use kurultay.Ordering.Tables.{update_where}
use kurultay.Account.{InvitationStatus, pending, canceled, accepted, is_pending}
use kurultay.Members.{MemberRole, owner, guest, role_eq, Member}
use kurultay.Members.Errors.{
  PluginFailure, api_error, better_auth_error_code, rethrow_better_auth_error,
}

pub data MailDeliveryStatus : Type 0 where
  sent not_configured failed : MailDeliveryStatus

pub record InvitationRow : Type 0 where
  pub id : ℕ
  pub workspace_id : ℕ
  pub email : String
  pub role : Option MemberRole
  pub status : InvitationStatus
  pub expires_at : ℕ

pub record InvitationDto : Type 0 where
  pub id : ℕ
  pub workspace_id : ℕ
  pub email : String
  pub role : MemberRole
  pub status : InvitationStatus
  pub expires_at : ℕ
  pub email_delivery : Option MailDeliveryStatus

pub data InvitationActivity : Type 0 where
  invitation_created :
      (invitation_id : ℕ) (role : MemberRole) (email_delivery : Option MailDeliveryStatus)
      → InvitationActivity
  invitation_revoked : (invitation_id : ℕ) (role : Option MemberRole) → InvitationActivity
  invitation_accepted : (invitation_id : ℕ) (role : MemberRole) → InvitationActivity

pub record InvitationEntry : Type 0 where
  pub workspace_id : ℕ
  pub user_id : ℕ
  pub activity : InvitationActivity

pub record Invited : Type 0 where
  pub invitations : List InvitationRow
  pub members : List Member
  -- oldest first
  pub audit : List InvitationEntry

-- The invitation in the plugin's answer; its role may be absent, and may be null.
pub record IssuedInvitation : Type 0 where
  pub id : ℕ
  pub email : String
  pub status : InvitationStatus
  pub expires_at : ℕ
  pub role : Option (Option MemberRole)

pub data CancelReply : Type 0 where
  cancelled : List InvitationRow → CancelReply
  not_cancelled : PluginFailure → CancelReply

-- What it issued, `none` when a field that the service needs is missing, and what was seen of the
-- mail.
pub data CreateReply : Type 0 where
  issued : List InvitationRow → Option IssuedInvitation → Option MailDeliveryStatus → CreateReply
  not_issued : PluginFailure → CreateReply

pub data AcceptReply : Type 0 where
  joined : List InvitationRow → List Member → Option Member → AcceptReply
  not_joined : PluginFailure → AcceptReply

abbrev pub has_id : ℕ → InvitationRow → Bool
has_id id r = r.id == id

-- `auth.api`, called for the user of the session, with what the plugin documents: a cancellation
-- changes the status of the one row, an invitation that is issued is a pending row of the address
-- whose role the answer has, and an acceptance makes the caller a member at the row's role.
pub record InvitationApi : Type 1 where
  pub cancel_invitation : List InvitationRow → (invitation_id caller : ℕ) → CancelReply
  pub create_invitation :
      List InvitationRow → (email : String) → MemberRole → (workspace_id caller : ℕ) → CreateReply
  pub accept_invitation :
      List InvitationRow → List Member → (invitation_id caller : ℕ) → AcceptReply
  pub cancel_done :
      (rows rows' : List InvitationRow) (invitation_id caller : ℕ)
      → cancel_invitation rows invitation_id caller ≡ cancelled rows'
      → rows' ≡ update_where (has_id invitation_id) (λ r. record r { status = canceled }) rows
  pub create_done :
      (rows rows' : List InvitationRow) (email : String) (role : MemberRole)
      (workspace_id caller : ℕ) (invitation : IssuedInvitation)
      (delivery : Option MailDeliveryStatus)
      → create_invitation rows email role workspace_id caller
        ≡ issued rows' (some invitation) delivery
      → (row : InvitationRow) × (find_first (has_id invitation.id) rows' ≡ some row)
        × (row.workspace_id ≡ workspace_id)
        × (row.email ≡ email)
        × (row.status ≡ pending)
        × (invitation.role ≡ some row.role)
        × ((P : InvitationRow → Type 0) → All P rows → P row → All P rows')
  pub accept_done :
      (rows rows' : List InvitationRow) (ms ms' : List Member) (invitation_id caller : ℕ)
      (m : Member) (row : InvitationRow)
      → accept_invitation rows ms invitation_id caller ≡ joined rows' ms' (some m)
      → find_first (has_id invitation_id) rows ≡ some row
      → (m.workspace_id ≡ row.workspace_id)
        × (m.user_id ≡ caller)
        × (row.role ≡ some m.role)
        × (ms' ≡ ms ++ m ∷ [])

-- `status: 'pending', expiresAt: { gt: now }`
abbrev pub is_open : (now : ℕ) → InvitationRow → Bool
is_open now r = is_pending r.status && ltb now r.expires_at

abbrev pub is_open_for : (workspace_id : ℕ) (email : String) (now : ℕ) → InvitationRow → Bool
is_open_for workspace_id email now r =
    (r.workspace_id == workspace_id && str_eq r.email email) && is_open now r

abbrev pub find_pending_invitations :
    List InvitationRow → (workspace_id : ℕ) → (email : String) → (now : ℕ) → List InvitationRow
find_pending_invitations rows workspace_id email now =
    keep_if (is_open_for workspace_id email now) rows
