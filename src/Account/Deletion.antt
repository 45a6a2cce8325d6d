-- ===== src/Account/Deletion.antt =====
-- `AccountDeletionService.deleteAccount`, one transaction: the decided workspaces are transferred or
-- deleted, the person's rows go, and the account's row is anonymised. Sockets are evicted and lines
-- are logged behind the commit; `trim().toLowerCase()` is the parameter `normalise`.
use kurultay.Base.{
  ℕ, suc, ◌&&◌, not, Bool, true, false, Option, none, some, List, [], ◌∷◌, ◌++◌, map, length,
  find_first, keep_if, ◌==◌, forbidden, not_found, conflict, unhandled, Result, ok, err, ◌>>=◌,
  ◌>>◌, throw_if, or_throw,
}
use kurultay.Ordering.Tables.{update_where}
use kurultay.Members.{owner}
use kurultay.Mentions.{Text, text_eq}
use kurultay.Account.{
  User, Membership, Invitation, Comment, DeletionInitiator, account_deleted, role_changed,
  ActivityRow, Accounts, is_some, is_pending, anonymised_user_fields, require_live_user,
  is_membership,
}
use kurultay.Account.Memberships.{
  DispositionAction, transfer, remove_workspace, Disposition, partition_memberships,
  match_dispositions, disposition_of,
}
use kurultay.Account.Redaction.{includes, redact_comment_mentions, redact_activity_payloads}

-- The membership that a workspace is transferred to, with the user it joins.
unfoldable pub find_target : Accounts → (workspace_id user_id : ℕ) → Option (Membership × User)
find_target s workspace_id user_id =
    elim (find_first (is_membership workspace_id user_id) s.members) [
      | none ↦ none
      | some m ↦ elim (find_first (λ u. u.id == user_id) s.users) [
        | none ↦ none
        | some u ↦ some (m, u)
      ]
    ]

unfoldable pub transfer_ownership :
    Accounts → Membership → (new_owner_user_id departing_user_id : ℕ) → Result Accounts
unfolding find_target
transfer_ownership s membership new_owner_user_id departing_user_id = do
  (target, user) ←
      or_throw (find_target s membership.workspace_id new_owner_user_id)
        (not_found "Workspace member not found")
  throw_if (new_owner_user_id == departing_user_id) (not_found "Workspace member not found")
  throw_if (is_some user.deleted_at)
      (conflict "That member has been deleted and cannot become an owner")
  ok (record s {
    members =
        update_where (is_membership membership.workspace_id new_owner_user_id)
          (λ m. record m { role = owner }) s.members;
    activities =
        s.activities
        ++ record {
          workspace_id = membership.workspace_id;
          user_id = departing_user_id;
          target_user_id = some new_owner_user_id;
          target_name = some user.name;
          payload = role_changed target.role owner membership.role;
        }
          ∷ [];
  })

-- `workspace.deleted` without the times; the row is there, since its delete would throw otherwise.
pub record DeletedWorkspaceLine : Type 0 where
  pub workspace_id : ℕ
  pub actor_id : ℕ
  pub name : Text
  pub slug : Text
  pub member_count : ℕ
  pub board_count : ℕ
  pub deleted_with_account : ℕ

-- The delete cascades to every table that refers to the workspace.
unfoldable pub delete_workspace :
    Accounts
    → (workspace_id departing_user_id actor_id : ℕ) → Result (DeletedWorkspaceLine × Accounts)
delete_workspace s workspace_id departing_user_id actor_id = do
  doomed ← or_throw (find_first (λ w. w.id == workspace_id) s.workspaces) unhandled
  ok (
    record {
      workspace_id = workspace_id;
      actor_id = actor_id;
      name = doomed.name;
      slug = doomed.slug;
      member_count = length (keep_if (λ m. m.workspace_id == workspace_id) s.members);
      board_count = length (keep_if (λ b. b.workspace_id == workspace_id) s.boards);
      deleted_with_account = departing_user_id;
    },
    record s {
      workspaces = keep_if (λ w. not (w.id == workspace_id)) s.workspaces;
      members = keep_if (λ m. not (m.workspace_id == workspace_id)) s.members;
      boards = keep_if (λ b. not (b.workspace_id == workspace_id)) s.boards;
      assignees = keep_if (λ a. not (a.workspace_id == workspace_id)) s.assignees;
      invitations = keep_if (λ i. not (i.workspace_id == workspace_id)) s.invitations;
      comments = keep_if (λ c. not (c.workspace_id == workspace_id)) s.comments;
      activities = keep_if (λ a. not (a.workspace_id == workspace_id)) s.activities;
      notifications = keep_if (λ n. not (n.workspace_id == workspace_id)) s.notifications;
      usage_pings = keep_if (λ p. not (p.workspace_id == workspace_id)) s.usage_pings;
    },
  )

-- What the loop over the solely owned workspaces has done so far.
pub record Progress : Type 0 where
  pub tables : Accounts
  pub transferred : ℕ
  pub removed : List DeletedWorkspaceLine

-- The body of the loop, on the disposition that the map has.
unfoldable pub carry_out :
    Progress
    → Membership
    → (departing_user_id actor_id : ℕ) → DispositionAction
    → Option ℕ
    → Result Progress
unfolding transfer_ownership delete_workspace
carry_out p membership departing_user_id actor_id transfer (some new_owner_user_id) = do
  tables ← transfer_ownership p.tables membership new_owner_user_id departing_user_id
  ok (record p { tables = tables; transferred = suc p.transferred })
carry_out p membership departing_user_id actor_id transfer none =
    err (conflict "A transfer needs a new owner for the workspace")
carry_out p membership departing_user_id actor_id remove_workspace _ = do
  (line, tables) ← delete_workspace p.tables membership.workspace_id departing_user_id actor_id
  ok (record p { tables = tables; removed = p.removed ++ line ∷ [] })

unfoldable pub settle :
    (by_id : List Disposition) (departing_user_id actor_id : ℕ)
    → List Membership
    → Progress
    → Result Progress
unfolding carry_out
settle by_id departing_user_id actor_id [] p = ok p
settle by_id departing_user_id actor_id (m ∷ ms) p = do
  d ←
      or_throw (disposition_of by_id m.workspace_id)
        (conflict "Decide what happens to the workspace before this account can be deleted")
  next ← carry_out p m departing_user_id actor_id d.action d.new_owner_user_id
  settle by_id departing_user_id actor_id ms next

abbrev is_transfer : DispositionAction → Bool
is_transfer transfer = true
is_transfer remove_workspace = false

abbrev is_transferred : List Disposition → Membership → Bool
is_transferred by_id m = elim (disposition_of by_id m.workspace_id) [
  | none ↦ false
  | some d ↦ is_transfer d.action
]

-- The workspaces that the request leaves in place.
unfoldable pub surviving : List Disposition → (sole_owned other : List Membership) → List Membership
surviving by_id sole_owned other = keep_if (is_transferred by_id) sole_owned ++ other

abbrev pub departure : ℕ → DeletionInitiator → Membership → ActivityRow
departure user_id initiated_by m = record {
  workspace_id = m.workspace_id;
  user_id = user_id;
  target_user_id = some user_id;
  target_name = none;
  payload = account_deleted m.role initiated_by;
}

pub record AccountDeletionCounts : Type 0 where
  pub workspaces_transferred : ℕ
  pub workspaces_deleted : ℕ
  pub memberships_removed : ℕ
  pub assignments_removed : ℕ
  pub invitations_revoked : ℕ
  pub comments_redacted : ℕ
  pub activities_redacted : ℕ
  pub sessions_deleted : ℕ
  pub accounts_deleted : ℕ
  pub verifications_deleted : ℕ
  pub notifications_deleted : ℕ
  pub usage_pings_deleted : ℕ

-- What a request leaves: the tables, its answer, the workspaces whose sockets the user is put out
-- of, and the lines logged for the workspaces that are gone.
pub record Erasure : Type 0 where
  pub tables : Accounts
  pub counts : AccountDeletionCounts
  pub evictions : List ℕ
  pub removed : List DeletedWorkspaceLine

abbrev pub is_invitation_of : ℕ → Invitation → Bool
is_invitation_of user_id i = i.inviter_id == user_id && is_pending i.status

-- `COMMENT_REDACTION_PAGE`
unfoldable pub comment_redaction_page : ℕ
comment_redaction_page = 500

-- Nobody else writes.
abbrev pub undisturbed : Accounts → Accounts
undisturbed s = s

module _ (id_text : ℕ → Text) where
  -- The comments without the person's name, and how many were rewritten.
  abbrev pub redact_comments : Accounts → (user : User) → Option (List Comment × ℕ)
  redact_comments s user =
      redact_comment_mentions (id_text user.id) comment_redaction_page (suc (length s.comments))
        none s.comments 0

  -- The writes of the transaction from the activity entries on, and the counts of the answer.
  unfoldable pub erased :
      Progress
      → (user : User) → DeletionInitiator
      → (now : ℕ) → (surviving : List Membership) → List Comment × ℕ
      → Erasure
  unfolding redact_activity_payloads
  erased p user initiated_by now remaining (comments, comments_redacted) =
      let s = p.tables in
      let of_user : ℕ → Bool = λ i. i == user.id in
      let (activities, activities_redacted) =
        redact_activity_payloads user.id
          (s.activities ++ map (departure user.id initiated_by) remaining) in
      record {
        tables = record s {
          users =
              update_where (λ u. u.id == user.id) (λ u. anonymised_user_fields id_text u.id now)
                s.users;
          members = keep_if (λ m. not (of_user m.user_id)) s.members;
          assignees = keep_if (λ a. not (of_user a.user_id)) s.assignees;
          invitations = keep_if (λ i. not (is_invitation_of user.id i)) s.invitations;
          comments = comments;
          activities = activities;
          notifications = keep_if (λ n. not (of_user n.user_id)) s.notifications;
          usage_pings = keep_if (λ n. not (of_user n.user_id)) s.usage_pings;
          sessions = keep_if (λ c. not (of_user c.user_id)) s.sessions;
          credentials = keep_if (λ c. not (of_user c.user_id)) s.credentials;
          verifications = keep_if (λ v. not (includes user.email v.identifier)) s.verifications;
        };
        counts = record {
          workspaces_transferred = p.transferred;
          workspaces_deleted = length p.removed;
          memberships_removed = length (keep_if (λ m. of_user m.user_id) s.members);
          assignments_removed = length (keep_if (λ a. of_user a.user_id) s.assignees);
          invitations_revoked = length (keep_if (is_invitation_of user.id) s.invitations);
          comments_redacted = comments_redacted;
          activities_redacted = activities_redacted;
          sessions_deleted = length (keep_if (λ c. of_user c.user_id) s.sessions);
          accounts_deleted = length (keep_if (λ c. of_user c.user_id) s.credentials);
          verifications_deleted =
              length (keep_if (λ v. includes user.email v.identifier) s.verifications);
          notifications_deleted = length (keep_if (λ n. of_user n.user_id) s.notifications);
          usage_pings_deleted = length (keep_if (λ n. of_user n.user_id) s.usage_pings);
        };
        evictions = map (λ m. m.workspace_id) remaining;
        removed = p.removed;
      }

  unfoldable pub erase :
      Progress
      → (user : User) → DeletionInitiator
      → (now : ℕ) → (surviving : List Membership) → Result Erasure
  unfolding redact_comment_mentions comment_redaction_page erased
  erase p user initiated_by now remaining = do
    redacted ← or_throw (redact_comments p.tables user) unhandled
    ok (erased p user initiated_by now remaining redacted)

  -- The user, the memberships and the decisions are read before the transaction; `meanwhile` is what
  -- others write to the tables until it begins.
  module _ (normalise : Text → Text) (meanwhile : Accounts → Accounts) where
    unfoldable pub delete_account :
        Accounts
        → (user_id : ℕ) → (confirm_email : Text) → List Disposition
        → DeletionInitiator
        → (actor_id : ℕ) → (now : ℕ) → Result Erasure
    unfolding require_live_user partition_memberships match_dispositions settle surviving erase
    delete_account s user_id confirm_email dispositions initiated_by actor_id now = do
      user ← require_live_user s.users user_id
      throw_if (not (text_eq (normalise confirm_email) (normalise user.email)))
          (forbidden "The confirmation address does not match this account")
      let (sole_owned, other) = partition_memberships s.members user_id
      by_id ← match_dispositions sole_owned dispositions
      settled ←
          settle by_id user_id actor_id sole_owned
            (record { tables = meanwhile s; transferred = 0; removed = [] })
      erase settled user initiated_by now (surviving by_id sole_owned other)
