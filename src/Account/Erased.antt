-- ===== src/Account/Erased.antt =====
-- What is left of an account behind its erasure.
use kurultay.Base.{ℕ, ◌≡◌, Bool, true, false, some, List, All, any_of, find_first, ◌==◌}
use kurultay.Mentions.{Text}
use kurultay.Account.{
  User, Credential, Verification, Accounts, anonymous_user_name, anonymised_user_fields,
}
use kurultay.Account.Redaction.{includes, names_user}
use kurultay.Account.Deletion.{is_invitation_of}

-- No row of the table is one of those.
abbrev pub NoneIs : {T : Type 0} → (T → Bool) → List T → Type 0
NoneIs p rows = any_of p rows ≡ false

-- What `delete_account` deletes, empties or rewrites by the user's id, and by the address in the
-- identifier of a verification.
pub record IsErased (id_text : ℕ → Text) (user : User) (now : ℕ) (s : Accounts) : Type 0 where
  pub no_membership : NoneIs (λ m. m.user_id == user.id) s.members
  pub no_assignment : NoneIs (λ a. a.user_id == user.id) s.assignees
  pub no_pending_invitation : NoneIs (is_invitation_of user.id) s.invitations
  pub no_notification : NoneIs (λ n. n.user_id == user.id) s.notifications
  pub no_usage_ping : NoneIs (λ p. p.user_id == user.id) s.usage_pings
  pub no_session : NoneIs (λ c. c.user_id == user.id) s.sessions
  pub no_credential : NoneIs (λ c. c.user_id == user.id) s.credentials
  pub no_verification : NoneIs (λ v. includes user.email v.identifier) s.verifications
  pub nameless :
      All (λ a. names_user user.id a ≡ true → a.target_name ≡ some anonymous_user_name) s.activities
  pub row :
      find_first (λ u. u.id == user.id) s.users ≡ some (anonymised_user_fields id_text user.id now)

-- The tables that hold no workspace's rows.
record Personal : Type 0 where
  users : List User
  sessions : List Credential
  credentials : List Credential
  verifications : List Verification

abbrev personal : Accounts → Personal
personal s = record {
  users = s.users;
  sessions = s.sessions;
  credentials = s.credentials;
  verifications = s.verifications;
}
