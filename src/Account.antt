-- ===== src/Account.antt =====
-- account/account-deletion.service.ts and account/anonymised-user.ts: a person's account is emptied,
-- and the row is kept. The handler is in the children; the tables that it reads and writes are here.
-- Rows that hang on a task carry the workspace of the task's board.
pub mod Memberships
pub mod Redaction
pub mod Deletion
pub mod Decisions
pub mod Transfers
pub mod Erased
pub mod Sweep
pub mod Pages
pub mod Redacted
pub mod Owned
pub mod Runs
pub mod Settled
pub mod Ownership
use kurultay.Base.{
  ℕ, ◌≡◌, ◌&&◌, not, Bool, true, false, Option, none, some, List, [], ◌∷◌, ◌++◌, find_first, any_of,
  keep_if, ◌==◌, if◌then◌else◌, bad_request, forbidden, not_found, conflict, Result, ok, err, ◌>>=◌,
  ◌>>◌, throw_if, or_throw,
}
use kurultay.Store.{Board}
use kurultay.Members.{MemberRole, owner, role_eq}
use kurultay.Mentions.{Text, codes}

pub record User : Type 0 where
  pub id : ℕ
  pub email : Text
  pub name : Text
  pub email_verified : Bool
  pub avatar_url : Option Text
  pub locale : Option Text
  -- the time of the erasure
  pub deleted_at : Option ℕ

pub record Workspace : Type 0 where
  pub id : ℕ
  pub name : Text
  pub slug : Text

pub record Membership : Type 0 where
  pub id : ℕ
  pub workspace_id : ℕ
  pub user_id : ℕ
  pub role : MemberRole

pub data InvitationStatus : Type 0 where
  pending accepted rejected canceled : InvitationStatus

abbrev pub is_pending : InvitationStatus → Bool
is_pending pending = true
is_pending _ = false

pub record Invitation : Type 0 where
  pub workspace_id : ℕ
  pub inviter_id : ℕ
  pub status : InvitationStatus

-- A row of `TaskAssignee`, `Notification` or `UsagePing`.
pub record WorkspaceRow : Type 0 where
  pub workspace_id : ℕ
  pub user_id : ℕ

-- A row of `Session` or `Account`.
pub record Credential : Type 0 where
  pub id : ℕ
  pub user_id : ℕ

pub record Verification : Type 0 where
  pub id : ℕ
  pub identifier : Text

pub record Comment : Type 0 where
  pub id : ℕ
  pub workspace_id : ℕ
  pub user_id : ℕ
  pub body : Text

pub data DeletionInitiator : Type 0 where
  by_self by_instance_admin : DeletionInitiator

-- The keys of the payload besides `targetUserId` and `targetName`.
pub data PayloadRest : Type 0 where
  account_deleted : (previous_role : MemberRole) (initiated_by : DeletionInitiator) → PayloadRest
  -- with the reason `account.deleted`
  role_changed : (previous_role new_role actor_role : MemberRole) → PayloadRest
  -- whatever the other services write, by its type
  other_activity : ℕ → PayloadRest

pub record ActivityRow : Type 0 where
  pub workspace_id : ℕ
  pub user_id : ℕ
  pub target_user_id : Option ℕ
  pub target_name : Option Text
  pub payload : PayloadRest

-- `WorkspaceMember` and the tables that an erasure reaches.
pub record Accounts : Type 0 where
  pub users : List User
  pub workspaces : List Workspace
  pub members : List Membership
  pub boards : List Board
  pub assignees : List WorkspaceRow
  pub invitations : List Invitation
  -- in the order of their ids
  pub comments : List Comment
  pub activities : List ActivityRow
  pub notifications : List WorkspaceRow
  pub usage_pings : List WorkspaceRow
  pub sessions : List Credential
  pub credentials : List Credential
  pub verifications : List Verification

abbrev pub some_is : Option ℕ → ℕ → Bool
some_is none i = false
some_is (some a) i = a == i

abbrev pub is_some {ℓ} : {A : Type ℓ} → Option A → Bool
is_some none = false
is_some (some a) = true

-- `ANONYMOUS_USER_NAME`
abbrev pub anonymous_user_name : Text
anonymous_user_name = codes "Deleted user"

-- The text of a user's id is the parameter `id_text`.
unfoldable pub anonymised_email_for : (ℕ → Text) → ℕ → Text
anonymised_email_for id_text user_id =
    codes "deleted-" ++ (id_text user_id ++ codes "@deleted.invalid")

unfoldable pub anonymised_user_fields : (ℕ → Text) → (user_id deleted_at : ℕ) → User
unfolding anonymised_email_for
anonymised_user_fields id_text user_id deleted_at = record {
  id = user_id;
  email = anonymised_email_for id_text user_id;
  name = anonymous_user_name;
  email_verified = false;
  avatar_url = none;
  locale = none;
  deleted_at = some deleted_at;
}

abbrev pub is_live : List User → ℕ → Bool
is_live users user_id = any_of (λ u. u.id == user_id && not (is_some u.deleted_at)) users

-- `requireLiveUser`: an emptied account answers as one that never was.
unfoldable pub require_live_user : List User → ℕ → Result User
require_live_user users user_id = do
  user ← or_throw (find_first (λ u. u.id == user_id) users) (not_found "Account not found")
  throw_if (is_some user.deleted_at) (not_found "Account not found")
  ok user

abbrev pub is_membership : (workspace_id user_id : ℕ) → Membership → Bool
is_membership workspace_id user_id m = m.workspace_id == workspace_id && m.user_id == user_id

abbrev pub is_owner_in : ℕ → Membership → Bool
is_owner_in workspace_id m = m.workspace_id == workspace_id && role_eq m.role owner
