-- ===== src/Tests/AccountRuns.antt =====
-- An account that owns one workspace with others and one alone, erased.
use kurultay.Base.{
  ℕ, ◌+◌, ◌≡◌, ◌↔◌, refl, true, false, none, some, String, List, [], ◌∷◌, ◌++◌, map, arith, All,
  any_of, ◌==◌, ok,
}
use kurultay.Base.Perms.{IsDistinct}
use kurultay.Members.{MemberRole, owner, member, guest}
use kurultay.Mentions.{Text, codes, redact_mentions_of}
use kurultay.Account.{
  User, Membership, pending, accepted, Comment, by_self, account_deleted, role_changed,
  other_activity, Accounts, anonymised_user_fields,
}
use kurultay.Account.Memberships.{
  transfer, remove_workspace, Disposition, is_sole_owner, match_dispositions, transfer_candidates,
}
use kurultay.Account.Redaction.{redact_comment_mentions}
use kurultay.Account.Deletion.{transfer_ownership, Erasure, delete_account, undisturbed}
use kurultay.Account.Decisions.{needs, decides, match_dispositions_iff}
use kurultay.Account.Transfers.{transfer_ownership-transfer_candidates}
use kurultay.Account.Sweep.{redact_row, changed_count}
use kurultay.Account.Redacted.{redact_comment_mentions_lem}
use kurultay.Account.Owned.{IsOwned}
use kurultay.Account.Ownership.{delete_account-IsOwned}

abbrev id_text : ℕ → Text
id_text i = codes "u" ++ (48 + i) ∷ []

abbrev as_typed : Text → Text
as_typed text = text

abbrev account : ℕ → String → User
account i name = record {
  id = i;
  email = codes name ++ codes "@k.org";
  name = codes name;
  email_verified = true;
  avatar_url = none;
  locale = none;
  deleted_at = none;
}

abbrev seat : ℕ → ℕ → ℕ → MemberRole → Membership
seat i w u r = record { id = i; workspace_id = w; user_id = u; role = r }

abbrev remark : ℕ → ℕ → String → Comment
remark i w body = record { id = i; workspace_id = w; user_id = 2; body = codes body }

-- Workspaces 7 and 8 are the first user's alone to give; 9 has another owner.
abbrev garden : Accounts
garden = record {
  users = account 1 "ada" ∷ account 2 "bea" ∷ [];
  workspaces =
      record { id = 7; name = codes "Garden"; slug = codes "garden" }
      ∷ record { id = 8; name = codes "Own"; slug = codes "own" }
      ∷ record { id = 9; name = codes "Other"; slug = codes "other" }
      ∷ [];
  members =
      seat 1 9 1 member
      ∷ seat 2 7 1 owner
      ∷ seat 3 7 2 guest
      ∷ seat 4 8 1 owner
      ∷ seat 5 9 2 owner
      ∷ [];
  boards = [];
  assignees = record { workspace_id = 7; user_id = 1 } ∷ [];
  invitations =
      record { workspace_id = 9; inviter_id = 1; status = pending }
      ∷ record { workspace_id = 9; inviter_id = 1; status = accepted }
      ∷ [];
  comments = remark 1 7 "Ask @[Ada](u1)!" ∷ remark 2 8 "@[Ada](u1)" ∷ remark 3 9 "see /u1" ∷ [];
  activities =
      record {
        workspace_id = 9;
        user_id = 2;
        target_user_id = some 1;
        target_name = some (codes "ada");
        payload = other_activity 0;
      }
      ∷ [];
  notifications = record { workspace_id = 9; user_id = 1 } ∷ [];
  usage_pings = record { workspace_id = 9; user_id = 2 } ∷ [];
  sessions = record { id = 1; user_id = 1 } ∷ record { id = 2; user_id = 2 } ∷ [];
  credentials = record { id = 1; user_id = 1 } ∷ [];
  verifications = record { id = 1; identifier = codes "otp-ada@k.org" } ∷ [];
}

abbrev decisions : List Disposition
decisions =
    record { workspace_id = 8; action = remove_workspace; new_owner_user_id = none }
    ∷ record { workspace_id = 7; action = transfer; new_owner_user_id = some 2 }
    ∷ []

abbrev garden_done : Erasure
garden_done = record {
  tables = record {
    users =
        record {
          id = 1;
          email = codes "deleted-u1@deleted.invalid";
          name = codes "Deleted user";
          email_verified = false;
          avatar_url = none;
          locale = none;
          deleted_at = some 50;
        }
        ∷ record {
          id = 2;
          email = codes "bea@k.org";
          name = codes "bea";
          email_verified = true;
          avatar_url = none;
          locale = none;
          deleted_at = none;
        }
        ∷ [];
    workspaces =
        record { id = 7; name = codes "Garden"; slug = codes "garden" }
        ∷ record { id = 9; name = codes "Other"; slug = codes "other" }
        ∷ [];
    members =
        record { id = 3; workspace_id = 7; user_id = 2; role = owner }
        ∷ record { id = 5; workspace_id = 9; user_id = 2; role = owner }
        ∷ [];
    boards = [];
    assignees = [];
    invitations = record { workspace_id = 9; inviter_id = 1; status = accepted } ∷ [];
    comments =
        record { id = 1; workspace_id = 7; user_id = 2; body = codes "Ask @[Deleted user](u1)!" }
        ∷ record { id = 3; workspace_id = 9; user_id = 2; body = codes "see /u1" }
        ∷ [];
    activities =
        record {
          workspace_id = 9;
          user_id = 2;
          target_user_id = some 1;
          target_name = some (codes "Deleted user");
          payload = other_activity 0;
        }
        ∷ record {
          workspace_id = 7;
          user_id = 1;
          target_user_id = some 2;
          target_name = some (codes "bea");
          payload = role_changed guest owner owner;
        }
        ∷ record {
          workspace_id = 7;
          user_id = 1;
          target_user_id = some 1;
          target_name = none;
          payload = account_deleted owner by_self;
        }
        ∷ record {
          workspace_id = 9;
          user_id = 1;
          target_user_id = some 1;
          target_name = none;
          payload = account_deleted member by_self;
        }
        ∷ [];
    notifications = [];
    usage_pings = record { workspace_id = 9; user_id = 2 } ∷ [];
    sessions = record { id = 2; user_id = 2 } ∷ [];
    credentials = [];
    verifications = [];
  };
  counts = record {
    workspaces_transferred = 1;
    workspaces_deleted = 1;
    memberships_removed = 2;
    assignments_removed = 1;
    invitations_revoked = 1;
    comments_redacted = 1;
    activities_redacted = 1;
    sessions_deleted = 1;
    accounts_deleted = 1;
    verifications_deleted = 1;
    notifications_deleted = 1;
    usage_pings_deleted = 0;
  };
  evictions = 7 ∷ 9 ∷ [];
  removed =
      record {
        workspace_id = 8;
        actor_id = 1;
        name = codes "Own";
        slug = codes "own";
        member_count = 1;
        board_count = 0;
        deleted_with_account = 1;
      }
      ∷ [];
}

erase_run :
    delete_account id_text as_typed undisturbed garden 1 (codes "ada@k.org") decisions by_self 1 50
    ≡ ok garden_done
unfolding delete_account is_sole_owner anonymised_user_fields redact_mentions_of
erase_run = refl

garden-IsOwned : IsOwned garden
garden-IsOwned = record { owned = ground arith; live = ground arith; unique = ground arith }

delete_account-IsOwned_example : IsOwned garden_done.tables
delete_account-IsOwned_example =
    delete_account-IsOwned id_text as_typed garden 1 (codes "ada@k.org") decisions by_self 1 50
      garden_done erase_run garden-IsOwned

abbrev sole_owned : List Membership
sole_owned = seat 2 7 1 owner ∷ seat 4 8 1 owner ∷ []

match_dispositions_iff_example : (match_dispositions sole_owned decisions ≡ ok decisions) ↔ (
    (decisions ≡ decisions)
    × IsDistinct (λ d. d.workspace_id) decisions
    × All (λ d. needs sole_owned d.workspace_id ≡ true) decisions
    × All (λ m. decides decisions m.workspace_id ≡ true) sole_owned)
match_dispositions_iff_example = match_dispositions_iff sole_owned decisions decisions

transfer_ownership-transfer_candidates_example :
    ((s' : Accounts) × (transfer_ownership garden (seat 2 7 1 owner) 2 1 ≡ ok s'))
    ↔ (any_of (λ x. x.user_id == 2) (transfer_candidates garden 7 1) ≡ true)
transfer_ownership-transfer_candidates_example =
    transfer_ownership-transfer_candidates garden (seat 2 7 1 owner) 2 1 (omega arith)

-- Pages of one comment.
redact_comment_mentions_lem_example :
    redact_comment_mentions (id_text 1) 1 4 none garden.comments 0
    ≡ some (map (redact_row (id_text 1)) garden.comments, changed_count (id_text 1) garden.comments)
redact_comment_mentions_lem_example =
    redact_comment_mentions_lem (id_text 1) 1 4 garden.comments (omega arith) (omega arith)
      (omega arith)
