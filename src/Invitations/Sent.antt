-- ===== src/Invitations/Sent.antt =====
-- What an invitation that is sent leaves: one entry, and a row of the role that the answer has.
use kurultay.Base.{
  ℕ, ◌≡◌, refl, ap, inl, inr, true, false, Option, none, some, String, List, [], ◌∷◌, ◌++◌, arith,
  find_first, Bool-cases, Result, ok, err,
}
use kurultay.Account.{pending}
use kurultay.Members.{MemberRole, owner, admin, member, guest, role_eq}
use kurultay.Invitations.{
  InvitationRow, InvitationDto, InvitationActivity, InvitationEntry, Invited, CreateReply, issued,
  not_issued, has_id, InvitationApi,
}
use kurultay.Invitations.Handlers.{differs, was_changed, after_create, issue, create_invitation}

role_eq-eq : (a b : MemberRole) → role_eq a b ≡ true → a ≡ b
role_eq-eq owner owner e = refl
role_eq-eq owner admin e = cc
role_eq-eq owner member e = cc
role_eq-eq owner guest e = cc
role_eq-eq admin owner e = cc
role_eq-eq admin admin e = refl
role_eq-eq admin member e = cc
role_eq-eq admin guest e = cc
role_eq-eq member owner e = cc
role_eq-eq member admin e = cc
role_eq-eq member member e = refl
role_eq-eq member guest e = cc
role_eq-eq guest owner e = cc
role_eq-eq guest admin e = cc
role_eq-eq guest member e = cc
role_eq-eq guest guest e = refl

-- A role that does not differ is there, and is the one that was asked for.
pub differs-eq :
    (held : Option MemberRole) (role : MemberRole) → differs held role ≡ false → held ≡ some role
differs-eq none role e = cc
differs-eq (some r) role e = ap some (role_eq-eq r role (ground arith))

pub was_changed-eq :
    (granted : Option (Option MemberRole)) (held : Option MemberRole) (role : MemberRole)
    → granted ≡ some held
    → was_changed granted role ≡ false
    → held ≡ some role
was_changed-eq granted held role e h = differs-eq held role (rw e at h)

-- The row that an answer speaks of.
abbrev pub IsStored : Invited → (w : ℕ) → (email : String) → MemberRole → (id : ℕ) → Type 0
IsStored s w email role id =
    (row : InvitationRow) × (find_first (has_id id) s.invitations ≡ some row)
    × (row.workspace_id ≡ w)
    × (row.email ≡ email)
    × (row.status ≡ pending)
    × (row.role ≡ some role)

-- An error adds no entry; an answer adds one, and its row is stored at the role of both.
abbrev pub IsHonest :
    (w actor : ℕ)
    → (email : String) → MemberRole
    → List InvitationEntry
    → Invited × Result InvitationDto
    → Type 0
IsHonest w actor email role audit (s, err thrown) = s.audit ≡ audit
IsHonest w actor email role audit (s, ok dto) =
    (role_eq role owner ≡ false)
    × (dto.role ≡ role)
    × (s.audit
        ≡ audit
          ++ record {
            workspace_id = w;
            user_id = actor;
            activity = InvitationActivity.invitation_created dto.id role dto.email_delivery;
          }
            ∷ [])
    × IsStored s w email role dto.id

module _ (api : InvitationApi) where
  after_create-IsHonest :
      (s : Invited) (w actor : ℕ) (email : String) (role : MemberRole) (reply : CreateReply)
      → role_eq role owner ≡ false
      → api.create_invitation s.invitations email role w actor ≡ reply
      → IsHonest w actor email role s.audit (after_create s w actor role reply)
  after_create-IsHonest s w actor email role (not_issued failure) grants e = refl
  after_create-IsHonest s w actor email role (issued rows none delivery) grants e = refl
  after_create-IsHonest s w actor email role (issued rows (some invitation) delivery) grants e =
      elim (Bool-cases (was_changed invitation.role role)) [
        | inl changed ↦ rw changed refl
        | inr kept ↦
            let (row, found, of_w, at_email, waits, shown, rest) =
              api.create_done s.invitations rows email role w actor invitation delivery e in
            rw kept (
              grants,
              refl,
              refl,
              (
                row,
                found,
                of_w,
                at_email,
                waits,
                was_changed-eq invitation.role row.role role shown kept,
              ),
            )
      ]

  pub create_invitation-IsHonest :
      (to_lower_case : String → String) (meanwhile : List InvitationRow → List InvitationRow)
      (s : Invited) (now w actor : ℕ) (typed : String) (role : MemberRole)
      → IsHonest w actor
          (to_lower_case typed)
          role
          s.audit
          (create_invitation api to_lower_case meanwhile s now w actor typed role)
  unfolding create_invitation issue
  create_invitation-IsHonest to_lower_case meanwhile s now w actor typed role =
      elim (Bool-cases (role_eq role owner)) [
        | inl refused ↦ rw refused refl
        | inr grants ↦ rw grants (after_cancel_all _ grants)
      ]
    where
      email : String
      email = to_lower_case typed

      after_cancel_all :
          (replaced : List InvitationRow × Result (Unit {0}))
          → role_eq role owner ≡ false
          → IsHonest w actor email role s.audit (elim replaced.1 [
            | err thrown ↦ (record s { invitations = replaced.0 }, err thrown)
            | ok done ↦
                issue api (record s { invitations = meanwhile replaced.0 }) w actor email role
          ])
      after_cancel_all (rows, err thrown) grants = refl
      after_cancel_all (rows, ok done) grants =
          after_create-IsHonest (record s { invitations = meanwhile rows }) w actor email role _
            grants refl
