-- ===== src/Invitations/Uniform.antt =====
-- A new invitation of an address replaces those that it has at another role.
use kurultay.Base.{
  ℕ, ◌≡◌, refl, sym, ap, subst, inl, inr, ◌||◌, Bool, true, false, none, some, String, List, [],
  ◌∷◌, arith, any_of, All, each-map, each_kept, ◌==◌, Bool-cases, Result, ok, err,
}
use kurultay.Ordering.Tables.{update_where}
use kurultay.Account.{canceled}
use kurultay.Members.{MemberRole, owner, role_eq}
use kurultay.Invitations.{
  InvitationRow, InvitationDto, Invited, CancelReply, cancelled, not_cancelled, CreateReply, issued,
  not_issued, has_id, InvitationApi, is_open_for, find_pending_invitations,
}
use kurultay.Invitations.Handlers.{
  differs, was_changed, after_create, issue, rethrow_replace_error, cancel_all, replace_pending,
  create_invitation,
}
use kurultay.Invitations.Sent.{differs-eq, was_changed-eq}

-- An invitation that is still open for the address is one at the role.
abbrev pub IsAtRole : (w : ℕ) → (email : String) → (now : ℕ) → MemberRole → InvitationRow → Type 0
IsAtRole w email now role r = is_open_for w email now r ≡ true → r.role ≡ some role

module _ (w : ℕ) (email : String) (now : ℕ) where
  abbrev withdrawn : InvitationRow → InvitationRow
  withdrawn r = record r { status = canceled }

  -- The open ones are among those that are still to be cancelled.
  abbrev IsAmong : List InvitationRow → InvitationRow → Type 0
  IsAmong left r = is_open_for w email now r ≡ true → any_of (λ i. i.id == r.id) left ≡ true

  cancel-IsAmong :
      (i : InvitationRow) (left rows : List InvitationRow)
      → All (IsAmong (i ∷ left)) rows
      → All (IsAmong left) (update_where (has_id i.id) withdrawn rows)
  cancel-IsAmong i left [] h = tt
  cancel-IsAmong i left (r ∷ rs) h = elim (Bool-cases (r.id == i.id)) [
    | inl hit ↦ rw hit ((λ still. absurd (shut still)), cancel-IsAmong i left rs h.1)
    | inr miss ↦ rw miss ((λ still. next miss (h.0 still)), cancel-IsAmong i left rs h.1)
  ]
    where
      shut : is_open_for w email now (withdrawn r) ≡ true → ⊥
      shut e = ground arith

      next :
          (r.id == i.id) ≡ false
          → (i.id == r.id || any_of (λ j. j.id == r.id) left) ≡ true
          → any_of (λ j. j.id == r.id) left ≡ true
      next e f = ground arith

  -- The rows that are open and of another role are none, once none of the open ones differs.
  none_differs :
      (role : MemberRole) (rows : List InvitationRow)
      → any_of (λ r. differs r.role role) (find_pending_invitations rows w email now) ≡ false
      → All (IsAtRole w email now role) rows
  none_differs role [] h = tt
  none_differs role (r ∷ rs) h = elim (Bool-cases (is_open_for w email now r)) [
    | inl still ↦
        let same : (differs r.role role
              || any_of (λ x. differs x.role role) (find_pending_invitations rs w email now))
            ≡ false =
          rw still at h in
        ((λ _. differs-eq r.role role (first _ _ same)), none_differs role rs (rest _ _ same))
    | inr shut ↦ ((λ still. absurd (cc)), none_differs role rs (rw shut at h))
  ]
    where
      first : (a b : Bool) → (a || b) ≡ false → a ≡ false
      first a b e = ground arith

      rest : (a b : Bool) → (a || b) ≡ false → b ≡ false
      rest a b e = ground arith

  module _ (api : InvitationApi) (caller : ℕ) (role : MemberRole) where
    cancel_all_lem :
        (left rows rows' : List InvitationRow) (done : Unit {0})
        → All (IsAmong left) rows
        → cancel_all api caller left rows ≡ (rows', ok done)
        → All (IsAtRole w email now role) rows'
    unfolding cancel_all
    cancel_all_lem [] rows rows' done h e =
        subst (All (IsAtRole w email now role)) (ap (λ z. z.0) e)
          (each-map (λ r among still. absurd (let found = among still in cc)) rows h)
    cancel_all_lem (i ∷ left) rows rows' done h e =
        on_reply (api.cancel_invitation rows i.id caller) refl
          (λ rows1. cancel_all_lem left rows1 rows' done) e
      where
        on_reply :
            (reply : CancelReply)
            → api.cancel_invitation rows i.id caller ≡ reply
            → ((rows1 : List InvitationRow)
                → All (IsAmong left) rows1
                → cancel_all api caller left rows1 ≡ (rows', ok done)
                → All (IsAtRole w email now role) rows')
            → elim reply as (λ _. List InvitationRow × Result (Unit {0})) [
              | cancelled rows1 ↦ cancel_all api caller left rows1
              | not_cancelled failure ↦ (rows, err (rethrow_replace_error failure))
            ]
              ≡ (rows', ok done)
            → All (IsAtRole w email now role) rows'
        on_reply (cancelled rows1) sent again e =
            again rows1
              (subst (All (IsAmong left)) (sym (api.cancel_done rows rows1 i.id caller sent))
                (cancel-IsAmong i left rows h))
              e
        on_reply (not_cancelled failure) sent again e = absurd (cc)

    replace_pending-IsAtRole :
        (rows rows' : List InvitationRow) (done : Unit {0})
        → replace_pending api caller role (find_pending_invitations rows w email now) rows
          ≡ (rows', ok done)
        → All (IsAtRole w email now role) rows'
    unfolding replace_pending
    replace_pending-IsAtRole rows rows' done e =
        elim (Bool-cases
          (any_of (λ r. differs r.role role) (find_pending_invitations rows w email now))) [
            | inl differ ↦
                cancel_all_lem (find_pending_invitations rows w email now) rows rows' done
                  (each_kept (is_open_for w email now) (λ i r. i.id == r.id) (λ r. ground arith)
                    rows)
                  (rw differ at e)
            | inr alike ↦
                subst (All (IsAtRole w email now role)) (ap (λ z. z.0) (rw alike at e))
                  (none_differs role rows alike)
          ]

    after_create-IsAtRole :
        (s s' : Invited) (actor : ℕ) (dto : InvitationDto) (reply : CreateReply)
        → api.create_invitation s.invitations email role w actor ≡ reply
        → All (IsAtRole w email now role) s.invitations
        → after_create s w actor role reply ≡ (s', ok dto)
        → All (IsAtRole w email now role) s'.invitations
    after_create-IsAtRole s s' actor dto (not_issued failure) sent h e = absurd (cc)
    after_create-IsAtRole s s' actor dto (issued rows none delivery) sent h e = absurd (cc)
    after_create-IsAtRole s s' actor dto (issued rows (some invitation) delivery) sent h e =
        elim (Bool-cases (was_changed invitation.role role)) [
          | inl changed ↦ absurd (let thrown = rw changed at e in cc)
          | inr kept ↦
              let (row, found, of_w, at_email, waits, shown, others) =
                api.create_done s.invitations rows email role w actor invitation delivery sent in
              subst (All (IsAtRole w email now role)) (ap (λ z. z.0.invitations) (rw kept at e)) (
                others (IsAtRole w email now role) h
                  (λ still. was_changed-eq invitation.role row.role role shown kept))
        ]

-- An invitation that is sent while nobody else writes leaves the address no open invitation of the
-- workspace at a role other than the one asked for.
pub create_invitation-IsAtRole :
    (api : InvitationApi) (to_lower_case : String → String) (s s' : Invited) (now w actor : ℕ)
    (typed : String) (role : MemberRole) (dto : InvitationDto)
    → create_invitation api to_lower_case (λ rows. rows) s now w actor typed role ≡ (s', ok dto)
    → All (IsAtRole w (to_lower_case typed) now role) s'.invitations
unfolding create_invitation issue
create_invitation-IsAtRole api to_lower_case s s' now w actor typed role dto e =
    elim (Bool-cases (role_eq role owner)) [
      | inl refused ↦ absurd (let thrown = rw refused at e in cc)
      | inr grants ↦
          after_all (replace_pending api actor role _ s.invitations)
            (λ rows done.
              replace_pending-IsAtRole w email now api actor role s.invitations rows done)
            (rw grants at e)
    ]
  where
    email : String
    email = to_lower_case typed

    after_all :
        (replaced : List InvitationRow × Result (Unit {0}))
        → ((rows : List InvitationRow) (done : Unit {0})
            → replaced ≡ (rows, ok done)
            → All (IsAtRole w email now role) rows)
        → elim replaced.1 as (λ _. Invited × Result InvitationDto) [
          | err thrown ↦ (record s { invitations = replaced.0 }, err thrown)
          | ok done ↦ issue api (record s { invitations = replaced.0 }) w actor email role
        ]
          ≡ (s', ok dto)
        → All (IsAtRole w email now role) s'.invitations
    after_all (rows, err thrown) h e = absurd (cc)
    after_all (rows, ok done) h e =
        after_create-IsAtRole w email now api actor role (record s { invitations = rows }) s' actor
          dto _ refl (h rows done refl) e
