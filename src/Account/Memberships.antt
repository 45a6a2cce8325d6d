-- ===== src/Account/Memberships.antt =====
-- `AccountDeletionService.partitionMemberships`, `preview` and `matchDispositions`: the workspaces
-- that an erasure needs a decision on, and the decisions sent for them. The ids that the source puts
-- into the messages of its exceptions are left out.
use kurultay.Base.{
  ℕ, ◌&&◌, not, Bool, Option, List, [], ◌∷◌, ◌++◌, map, length, find_first, any_of, keep_if, ltb,
  leb, ◌==◌, if◌then◌else◌, conflict, Result, ok, ◌>>=◌, ◌>>◌, throw_if,
}
use kurultay.Members.{owner, role_eq}
use kurultay.Account.{User, Membership, Accounts, is_live, require_live_user, is_owner_in}

pub data DispositionAction : Type 0 where
  transfer remove_workspace : DispositionAction

pub record Disposition : Type 0 where
  pub workspace_id : ℕ
  pub action : DispositionAction
  pub new_owner_user_id : Option ℕ

abbrev pub insert_by_workspace : Membership → List Membership → List Membership
insert_by_workspace m [] = m ∷ []
insert_by_workspace m (x ∷ xs) =
    let rest = insert_by_workspace m xs in
    if leb m.workspace_id x.workspace_id then m ∷ x ∷ xs else x ∷ rest

-- `orderBy: { workspaceId: 'asc' }`
abbrev pub by_workspace : List Membership → List Membership
by_workspace [] = []
by_workspace (m ∷ ms) = insert_by_workspace m (by_workspace ms)

-- An owner of a workspace that counts one owner at most. The source counts the owners of all such
-- workspaces in one grouped query, and reads the count of the row's workspace.
unfoldable pub is_sole_owner : List Membership → Membership → Bool
is_sole_owner members m =
    role_eq m.role owner && leb (length (keep_if (is_owner_in m.workspace_id) members)) 1

-- The memberships that need a decision, and the others.
unfoldable pub partition_memberships : List Membership → ℕ → List Membership × List Membership
partition_memberships members user_id =
    let memberships = by_workspace (keep_if (λ m. m.user_id == user_id) members) in
    (
      keep_if (is_sole_owner members) memberships,
      keep_if (λ m. not (is_sole_owner members m)) memberships,
    )

abbrev same_workspace : ℕ → Disposition → Bool
same_workspace workspace_id d = d.workspace_id == workspace_id

-- The loop over the dispositions, with the map that it fills.
unfoldable pub collect_dispositions :
    (required : List Membership) (by_id : List Disposition)
    → List Disposition
    → Result (List Disposition)
collect_dispositions required by_id [] = ok by_id
collect_dispositions required by_id (d ∷ ds) = do
  throw_if (any_of (same_workspace d.workspace_id) by_id)
      (conflict "Two decisions were sent for the same workspace")
  throw_if (not (any_of (λ m. m.workspace_id == d.workspace_id) required))
      (conflict "This account is not the only owner of the workspace; no decision is needed for it")
  collect_dispositions required (by_id ++ d ∷ []) ds

unfoldable pub match_dispositions :
    (sole_owned : List Membership) → List Disposition → Result (List Disposition)
unfolding collect_dispositions
match_dispositions sole_owned dispositions = do
  by_id ← collect_dispositions sole_owned [] dispositions
  let undecided = keep_if (λ m. not (any_of (same_workspace m.workspace_id) by_id)) sole_owned
  throw_if (ltb 0 (length undecided)) (
      conflict
        "Decide what happens to each workspace this account solely owns before it can be deleted")
  ok by_id

-- `dispositions.get(workspaceId)`
abbrev pub disposition_of : List Disposition → ℕ → Option Disposition
disposition_of by_id workspace_id = find_first (same_workspace workspace_id) by_id

-- What the preview says of a workspace that needs a decision.
pub record SoleOwnedWorkspace : Type 0 where
  pub workspace_id : ℕ
  pub member_count : ℕ
  pub board_count : ℕ
  pub transfer_candidates : List Membership

abbrev pub is_candidate : List User → (workspace_id user_id : ℕ) → Membership → Bool
is_candidate users workspace_id user_id m =
    m.workspace_id == workspace_id && (not (m.user_id == user_id) && is_live users m.user_id)

-- The members whom the preview offers a workspace to.
unfoldable pub transfer_candidates : Accounts → (workspace_id user_id : ℕ) → List Membership
transfer_candidates s workspace_id user_id =
    keep_if (is_candidate s.users workspace_id user_id) s.members

-- `preview`, without the counts of what is retained; names are joined for display only.
unfoldable pub preview :
    Accounts → (user_id : ℕ) → Result (List SoleOwnedWorkspace × List Membership)
unfolding require_live_user partition_memberships transfer_candidates
preview s user_id = do
  user ← require_live_user s.users user_id
  let (sole_owned, other) = partition_memberships s.members user_id
  ok (
    map
        (λ m. record {
          workspace_id = m.workspace_id;
          member_count = length (keep_if (λ x. x.workspace_id == m.workspace_id) s.members);
          board_count = length (keep_if (λ b. b.workspace_id == m.workspace_id) s.boards);
          transfer_candidates = transfer_candidates s m.workspace_id user_id;
        })
        sole_owned,
    other,
  )
