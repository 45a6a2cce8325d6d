-- ===== src/Tests/InvitationRuns.antt =====
-- Invitations sent, replaced, withdrawn and accepted, with a plugin that grants every call.
use kurultay.Base.{
  ℕ, ◌≡◌, refl, sym, ap, subst, ◌∙◌, Option, none, some, String, List, [], ◌∷◌, ◌++◌, find_first,
  All, ok, err, not_found,
}
use kurultay.Ordering.Tables.{update_where}
use kurultay.Account.{pending, canceled}
use kurultay.Members.{MemberRole, admin, member, guest, Member}
use kurultay.Members.Errors.{api_error, rethrow_better_auth_error}
use kurultay.Invitations.{
  MailDeliveryStatus, InvitationRow, InvitationDto, InvitationActivity, Invited, IssuedInvitation,
  CancelReply, cancelled, not_cancelled, CreateReply, issued, not_issued, AcceptReply, joined,
  not_joined, has_id, InvitationApi,
}
use kurultay.Invitations.Handlers.{
  issue, replace_pending, cancel_all, create_invitation, revoke_invitation, accept_invitation,
}
use kurultay.Invitations.Sent.{IsHonest}
use kurultay.Invitations.Uniform.{IsAtRole, create_invitation-IsAtRole}
use kurultay.Invitations.Closed.{
  IsWithdrawn, IsGranted, audit_lem, accept_invitation-revoke_invitation,
}

abbrev cancelled_rows : CancelReply → List InvitationRow
cancelled_rows (cancelled rows) = rows
cancelled_rows (not_cancelled f) = []

-- The plugin issues every invitation anew, as row 900 at the head of the table.
abbrev fresh : (email : String) → MemberRole → (w : ℕ) → InvitationRow
fresh email role w = record {
  id = 900;
  workspace_id = w;
  email = email;
  role = some role;
  status = pending;
  expires_at = 1000;
}

abbrev answer_of : InvitationRow → IssuedInvitation
answer_of r = record {
  id = r.id;
  email = r.email;
  status = r.status;
  expires_at = r.expires_at;
  role = some r.role;
}

abbrev issued_rows : CreateReply → List InvitationRow
issued_rows (issued rows invitation delivery) = rows
issued_rows (not_issued f) = []

abbrev issued_invitation : CreateReply → IssuedInvitation
issued_invitation (issued rows (some invitation) delivery) = invitation
issued_invitation _ = answer_of (fresh "" guest 0)

abbrev accept_at :
    List InvitationRow → List Member → (id caller w : ℕ) → Option MemberRole → AcceptReply
accept_at rows ms id caller w none = not_joined (api_error 400 none)
accept_at rows ms id caller w (some role) =
    let m : Member = record {
      id = 800;
      workspace_id = w;
      user_id = caller;
      role = role;
      name = "";
    } in
    joined rows (ms ++ m ∷ []) (some m)

abbrev accept_row :
    List InvitationRow → List Member → (id caller : ℕ) → Option InvitationRow → AcceptReply
accept_row rows ms id caller none = not_joined (api_error 404 none)
accept_row rows ms id caller (some r) = accept_at rows ms id caller r.workspace_id r.role

abbrev joined_members : AcceptReply → List Member
joined_members (joined rows ms m) = ms
joined_members (not_joined f) = []

abbrev joined_member : AcceptReply → Option Member
joined_member (joined rows ms m) = m
joined_member (not_joined f) = none

abbrev nobody : Member
nobody = record { id = 0; workspace_id = 0; user_id = 0; role = guest; name = "" }

abbrev the : Option Member → Member
the none = nobody
the (some m) = m

accept_at-done :
    (rows rows' : List InvitationRow) (ms ms' : List Member) (id caller w : ℕ)
    (role : Option MemberRole) (m : Member)
    → accept_at rows ms id caller w role ≡ joined rows' ms' (some m)
    → (m.workspace_id ≡ w) × (m.user_id ≡ caller) × (role ≡ some m.role) × (ms' ≡ ms ++ m ∷ [])
accept_at-done rows rows' ms ms' id caller w none m e = absurd (cc)
accept_at-done rows rows' ms ms' id caller w (some role) m e =
    let same = ap (λ r. the (joined_member r)) e in
    (
      ap (λ x. x.workspace_id) (sym same),
      ap (λ x. x.user_id) (sym same),
      ap (λ x. some x.role) same,
      sym (ap joined_members e) ∙ ap (λ x. ms ++ x ∷ []) same,
    )

abbrev granting_invitations : InvitationApi
granting_invitations = record {
  cancel_invitation = λ rows id caller.
      cancelled (update_where (has_id id) (λ r. record r { status = canceled }) rows);
  create_invitation = λ rows email role w caller.
      issued (fresh email role w ∷ rows) (some (answer_of (fresh email role w)))
        (some MailDeliveryStatus.sent);
  accept_invitation =
      λ rows ms id caller. accept_row rows ms id caller (find_first (has_id id) rows);
  cancel_done = λ rows rows' id caller e. sym (ap cancelled_rows e);
  create_done = λ rows rows' email role w caller invitation delivery e. (
    fresh email role w,
    sym (ap (λ r. find_first (has_id (issued_invitation r).id) (issued_rows r)) e),
    refl,
    refl,
    refl,
    sym (ap (λ r. (issued_invitation r).role) e),
    λ P h p. subst (All P) (ap issued_rows e) (p, h),
  );
  accept_done = λ rows rows' ms ms' id caller m row e found.
      accept_at-done rows rows' ms ms' id caller row.workspace_id row.role m (rw found at e);
}

abbrev as_typed : String → String
as_typed text = text

abbrev open_at : (id : ℕ) → MemberRole → InvitationRow
open_at id role = record {
  id = id;
  workspace_id = 7;
  email = "a@k.org";
  role = some role;
  status = pending;
  expires_at = 50;
}

abbrev some_name : ℕ → Option String
some_name user_id = some "Ayşe"

abbrev desk : Invited
desk = record { invitations = open_at 1 guest ∷ open_at 2 admin ∷ []; members = []; audit = [] }

abbrev nobody_else : List InvitationRow → List InvitationRow
nobody_else rows = rows

abbrev replaced : Invited
replaced = record {
  invitations =
      fresh "a@k.org" member 7
      ∷ record (open_at 1 guest) { status = canceled }
      ∷ record (open_at 2 admin) { status = canceled }
      ∷ [];
  members = [];
  audit =
      record {
        workspace_id = 7;
        user_id = 5;
        activity = InvitationActivity.invitation_created 900 member (some MailDeliveryStatus.sent);
      }
      ∷ [];
}

abbrev offer : InvitationDto
offer = record {
  id = 900;
  workspace_id = 7;
  email = "a@k.org";
  role = member;
  status = pending;
  expires_at = 1000;
  email_delivery = some MailDeliveryStatus.sent;
}

replacing :
    create_invitation granting_invitations as_typed nobody_else desk 10 7 5 "a@k.org" member
    ≡ (replaced, ok offer)
unfolding create_invitation issue replace_pending cancel_all rethrow_better_auth_error
replacing = refl

create_invitation-IsAtRole_example : All (IsAtRole 7 "a@k.org" 10 member) replaced.invitations
create_invitation-IsAtRole_example =
    create_invitation-IsAtRole granting_invitations as_typed desk replaced 10 7 5 "a@k.org" member
      offer replacing

audit_lem_example :
    IsHonest 7 5 "a@k.org" member desk.audit
      (create_invitation granting_invitations as_typed nobody_else desk 10 7 5 "a@k.org" member)
    × IsWithdrawn 7 5 2 desk (revoke_invitation granting_invitations desk 7 5 2)
    × IsGranted 7 5 2 desk (accept_invitation granting_invitations some_name desk 7 5 2)
audit_lem_example =
    audit_lem granting_invitations as_typed nobody_else some_name desk 10 7 5 2 "a@k.org" member

abbrev withdrawn_desk : Invited
withdrawn_desk = record desk {
  invitations = open_at 1 guest ∷ record (open_at 2 admin) { status = canceled } ∷ [];
  audit =
      record {
        workspace_id = 7;
        user_id = 5;
        activity = InvitationActivity.invitation_revoked 2 (some admin);
      }
      ∷ [];
}

withdrawing : revoke_invitation granting_invitations desk 7 5 2 ≡ (withdrawn_desk, ok tt)
unfolding revoke_invitation
withdrawing = refl

accept_invitation-revoke_invitation_example :
    accept_invitation granting_invitations some_name withdrawn_desk 7 6 2
    ≡ (withdrawn_desk, err (not_found "Invitation not found"))
accept_invitation-revoke_invitation_example =
    accept_invitation-revoke_invitation granting_invitations some_name desk withdrawn_desk 7 5 2 7 6
      tt withdrawing
