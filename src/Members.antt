-- ===== src/Members.antt =====
-- workspace/workspace-member.service.ts: members are removed, change roles and leave. The rows are
-- written by the organization plugin (better-auth), a parameter here; a call of it is outside any
-- transaction of the service, so the audit entry follows the plugin's answer.
pub mod Errors
pub mod Owners
pub mod Steps
pub mod Permissions
use kurultay.Base.{
  ℕ, ◌≡◌, ◌&&◌, ◌||◌, not, Bool, true, false, Option, none, some, String, List, [], ◌∷◌, ◌++◌,
  length, keep_if, find_first, leb, ◌==◌, if◌then◌else◌, bad_request, forbidden, not_found,
  conflict, Result, ok, err, ◌>>=◌, ◌>>◌, throw_if, or_throw,
}
use kurultay.Ordering.Tables.{update_where}
use Errors.{PluginFailure, rethrow_member_write_error}

pub data MemberRole : Type 0 where
  owner admin member guest : MemberRole

abbrev pub role_eq : MemberRole → MemberRole → Bool
role_eq owner owner = true
role_eq admin admin = true
role_eq member member = true
role_eq guest guest = true
role_eq _ _ = false

-- A membership row with the name that it joins from the user; the avatar is left out.
pub record Member : Type 0 where
  pub id : ℕ
  pub workspace_id : ℕ
  pub user_id : ℕ
  pub role : MemberRole
  pub name : String

-- The caller's membership, as the workspace guard read it.
pub record WorkspaceMembership : Type 0 where
  pub id : ℕ
  pub workspace_id : ℕ
  pub user_id : ℕ
  pub role : MemberRole

pub data MemberActivity : Type 0 where
  member_removed :
      (target_user_id : ℕ) (target_name : String) (previous_role actor_role : MemberRole)
      → MemberActivity
  member_role_changed :
      (target_user_id : ℕ) (target_name : String) (previous_role new_role actor_role : MemberRole)
      → MemberActivity
  member_left :
      (target_user_id : ℕ) (target_name : String) (previous_role : MemberRole) → MemberActivity

pub record AuditEntry : Type 0 where
  pub workspace_id : ℕ
  pub user_id : ℕ
  pub activity : MemberActivity

pub record Eviction : Type 0 where
  pub workspace_id : ℕ
  pub user_id : ℕ

pub record Memberships : Type 0 where
  pub members : List Member
  -- oldest first
  pub audit : List AuditEntry
  -- `evictUserFromWorkspaceSockets`, in the order of the calls
  pub evicted : List Eviction

-- The plugin's answer: the membership table after its write, or what it threw.
pub data Reply : Type 0 where
  done : List Member → Reply
  failed : PluginFailure → Reply

abbrev pub is_member_of : ℕ → ℕ → Member → Bool
is_member_of workspace_id user_id m = m.workspace_id == workspace_id && m.user_id == user_id

abbrev pub is_owner_of : ℕ → Member → Bool
is_owner_of workspace_id m = m.workspace_id == workspace_id && role_eq m.role owner

-- `auth.api`, called for the user whose session the request carries, with the writes that the
-- plugin documents: it deletes or changes the one row that it is asked for.
pub record OrganizationApi : Type 0 where
  pub remove_member : List Member → (member_id workspace_id caller : ℕ) → Reply
  pub update_member_role :
      List Member → (member_id : ℕ) → MemberRole → (workspace_id caller : ℕ) → Reply
  pub leave_organization : List Member → (workspace_id caller : ℕ) → Reply
  pub remove_member_done :
      (ms ms' : List Member) (member_id workspace_id caller : ℕ)
      → remove_member ms member_id workspace_id caller ≡ done ms'
      → ms' ≡ keep_if (λ m. not (m.id == member_id)) ms
  pub update_member_role_done :
      (ms ms' : List Member) (member_id : ℕ) (role : MemberRole) (workspace_id caller : ℕ)
      → update_member_role ms member_id role workspace_id caller ≡ done ms'
      → ms' ≡ update_where (λ m. m.id == member_id) (λ m. record m { role = role }) ms
  pub leave_organization_done :
      (ms ms' : List Member) (workspace_id caller : ℕ) (m : Member)
      → find_first (is_member_of workspace_id caller) ms ≡ some m
      → leave_organization ms workspace_id caller ≡ done ms'
      → ms' ≡ keep_if (λ x. not (x.id == m.id)) ms

unfoldable pub require_member : List Member → (workspace_id user_id : ℕ) → Result Member
require_member ms workspace_id user_id =
    or_throw (find_first (is_member_of workspace_id user_id) ms)
      (not_found "Workspace member not found")

unfoldable pub is_last_owner : List Member → ℕ → Bool
is_last_owner ms workspace_id = leb (length (keep_if (is_owner_of workspace_id) ms)) 1

-- `try { await auth.api… } catch (error) { this.rethrowMemberWriteError(…) }`
abbrev pub written : Reply → (message last_owner_message : String) → Result (List Member)
written (done ms) message last_owner_message = ok ms
written (failed failure) message last_owner_message =
    err (rethrow_member_write_error failure message last_owner_message)

abbrev pub audited : Memberships → AuditEntry → List AuditEntry
audited s entry = s.audit ++ entry ∷ []

module _ (api : OrganizationApi) where
  -- The plugin runs the hook `afterRemoveMember`, which evicts the user's sockets.
  unfoldable pub remove_member :
      Memberships → (workspace_id target_user_id : ℕ) → WorkspaceMembership → Result Memberships
  remove_member s workspace_id target_user_id actor = do
    throw_if (target_user_id == actor.user_id)
        (bad_request "Use POST /workspaces/:workspaceId/members/me/leave to remove yourself")
    target ← require_member s.members workspace_id target_user_id
    throw_if (role_eq target.role owner && not (role_eq actor.role owner))
        (forbidden "Only an OWNER can remove another OWNER")
    throw_if (role_eq target.role owner && is_last_owner s.members workspace_id)
        (conflict "The last OWNER cannot be removed from the workspace")
    members ←
        written (api.remove_member s.members target.id workspace_id actor.user_id)
          "Failed to remove the member" "The last OWNER cannot be removed from the workspace"
    ok (record {
      members = members;
      audit = audited s (record {
        workspace_id = workspace_id;
        user_id = actor.user_id;
        activity = MemberActivity.member_removed target_user_id target.name target.role actor.role;
      });
      evicted = s.evicted ++ record { workspace_id = workspace_id; user_id = target_user_id } ∷ [];
    })

  -- What `updateMemberRole` does where the role differs.
  unfoldable pub change_role :
      Memberships
      → (workspace_id target_user_id : ℕ) → Member
      → MemberRole
      → WorkspaceMembership
      → Result (Member × Memberships)
  change_role s workspace_id target_user_id target next_role actor = do
    throw_if
        ((role_eq target.role owner || role_eq next_role owner) && not (role_eq actor.role owner))
        (forbidden "Only an OWNER can change ownership")
    throw_if (role_eq target.role owner && is_last_owner s.members workspace_id)
        (conflict "The last OWNER cannot be demoted; promote another OWNER first")
    members ←
        written (api.update_member_role s.members target.id next_role workspace_id actor.user_id)
          "Failed to change the member role"
          "The last OWNER cannot be demoted; promote another OWNER first"
    ok (
      record target { role = next_role },
      record s {
        members = members;
        audit = audited s (record {
          workspace_id = workspace_id;
          user_id = actor.user_id;
          activity =
              MemberActivity.member_role_changed target_user_id target.name target.role next_role
                actor.role;
        });
      },
    )

  unfoldable pub update_member_role :
      Memberships
      → (workspace_id target_user_id : ℕ) → MemberRole
      → WorkspaceMembership
      → Result (Member × Memberships)
  update_member_role s workspace_id target_user_id next_role actor = do
    target ← require_member s.members workspace_id target_user_id
    if role_eq target.role next_role
        then ok (target, s)
        else change_role s workspace_id target_user_id target next_role actor

  unfoldable pub leave : Memberships → ℕ → WorkspaceMembership → Result Memberships
  leave s workspace_id actor = do
    membership ← require_member s.members workspace_id actor.user_id
    throw_if (role_eq membership.role owner && is_last_owner s.members workspace_id) (
        conflict
          "The last OWNER cannot leave the workspace; transfer ownership or delete the workspace")
    members ←
        written (api.leave_organization s.members workspace_id actor.user_id)
          "Failed to leave the workspace"
          "The last OWNER cannot leave the workspace; transfer ownership or delete the workspace"
    ok (record {
      members = members;
      audit = audited s (record {
        workspace_id = workspace_id;
        user_id = actor.user_id;
        activity = MemberActivity.member_left actor.user_id membership.name membership.role;
      });
      evicted = s.evicted ++ record { workspace_id = workspace_id; user_id = actor.user_id } ∷ [];
    })
