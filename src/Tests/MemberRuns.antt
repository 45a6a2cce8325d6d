-- ===== src/Tests/MemberRuns.antt =====
-- The member service, run with a plugin that grants every write.
use kurultay.Base.{
  ◌≤◌, ◌≡◌, refl, sym, ap, ◌&&◌, true, not, Option, none, some, List, [], ◌∷◌, arith, keep_if,
  find_first, any_of, ◌==◌, ok,
}
use kurultay.Ordering.Tables.{update_where}
use kurultay.Members.{
  owner, admin, guest, role_eq, Member, WorkspaceMembership, Memberships, MemberActivity, Reply,
  done, failed, OrganizationApi, is_member_of, require_member, is_last_owner, remove_member,
  change_role, update_member_role, leave,
}
use kurultay.Members.Errors.{api_error}
use kurultay.Members.Owners.{owners, members_of}
use kurultay.Members.Steps.{changed, left, Reaches, here, and_then, step_foreign, reaches-owners}
use kurultay.Members.Permissions.{
  can_manage_members, can_manage_member, assignable_roles, is_refused,
  remove_member-can_manage_member, update_member_role-assignable_roles,
}

rows_of : Reply → List Member → List Member
rows_of (done ms) old = ms
rows_of (failed f) old = old

done-injective : {ms ms' : List Member} → done ms ≡ done ms' → ms ≡ ms'
unfolding rows_of
done-injective {ms} e = ap (λ r. rows_of r ms) e

abbrev leave_row : List Member → Option Member → Reply
leave_row ms none = failed (api_error 400 (some "MEMBER_NOT_FOUND"))
leave_row ms (some m) = done (keep_if (λ x. not (x.id == m.id)) ms)

leave_row-done :
    (ms ms' : List Member) (found : Option Member) (m : Member)
    → found ≡ some m
    → leave_row ms found ≡ done ms'
    → ms' ≡ keep_if (λ x. not (x.id == m.id)) ms
leave_row-done ms ms' found m e h = sym (done-injective (rw e at h))

abbrev granting : OrganizationApi
granting = record {
  remove_member = λ ms i w caller. done (keep_if (λ m. not (m.id == i)) ms);
  update_member_role =
      λ ms i role w caller. done (update_where (λ m. m.id == i) (λ m. record m { role = role }) ms);
  leave_organization = λ ms w caller. leave_row ms (find_first (is_member_of w caller) ms);
  remove_member_done = λ ms ms' i w caller e. sym (done-injective e);
  update_member_role_done = λ ms ms' i role w caller e. sym (done-injective e);
  leave_organization_done = λ ms ms' w caller m found e.
      leave_row-done ms ms' (find_first (is_member_of w caller) ms) m found e;
}

abbrev ayse : Member
ayse = record { id = 1; workspace_id = 7; user_id = 50; role = owner; name = "Ayşe" }

abbrev bora : Member
bora = record { id = 2; workspace_id = 7; user_id = 51; role = admin; name = "Bora" }

abbrev deniz : Member
deniz = record { id = 3; workspace_id = 8; user_id = 50; role = owner; name = "Ayşe" }

abbrev as_owner : WorkspaceMembership
as_owner = record { id = 1; workspace_id = 7; user_id = 50; role = owner }

abbrev as_admin : WorkspaceMembership
as_admin = record { id = 2; workspace_id = 7; user_id = 51; role = admin }

abbrev start : Memberships
start = record { members = ayse ∷ bora ∷ deniz ∷ []; audit = []; evicted = [] }

-- The admin becomes the second owner, and the first owner leaves.
abbrev promoted : Memberships
promoted = record start {
  members = ayse ∷ record bora { role = owner } ∷ deniz ∷ [];
  audit =
      record {
        workspace_id = 7;
        user_id = 50;
        activity = MemberActivity.member_role_changed 51 "Bora" admin owner owner;
      }
      ∷ [];
}

promote_run :
    update_member_role granting start 7 51 owner as_owner
    ≡ ok (record bora { role = owner }, promoted)
unfolding update_member_role change_role require_member is_last_owner
promote_run = refl

abbrev handed_over : Memberships
handed_over = record {
  members = record bora { role = owner } ∷ deniz ∷ [];
  audit =
      record {
        workspace_id = 7;
        user_id = 50;
        activity = MemberActivity.member_role_changed 51 "Bora" admin owner owner;
      }
      ∷ record {
        workspace_id = 7;
        user_id = 50;
        activity = MemberActivity.member_left 50 "Ayşe" owner;
      }
      ∷ [];
  evicted = record { workspace_id = 7; user_id = 50 } ∷ [];
}

leave_run : leave granting promoted 7 as_owner ≡ ok handed_over
unfolding leave require_member is_last_owner
leave_run = refl

abbrev route : Reaches granting start handed_over
route =
    and_then 7
      (and_then 7 here (changed 51 owner as_owner (record bora { role = owner }) promote_run))
      (left as_owner leave_run)

reaches-owners_example : 1 ≤ owners 7 handed_over.members
reaches-owners_example =
    reaches-owners granting start handed_over 7 route (ground arith) (omega arith)

step_foreign_example : members_of 8 handed_over.members ≡ members_of 8 promoted.members
step_foreign_example =
    step_foreign granting 7 8 promoted handed_over (left as_owner leave_run) (ground arith)
      (λ e. ground arith)

manages_run : can_manage_members (some admin) ≡ true
unfolding can_manage_members
manages_run = refl

-- An admin aims at an owner.
remove_member-can_manage_member_example :
    is_refused "Only an OWNER can remove another OWNER" (remove_member granting start 7 50 as_admin)
    ≡ not (can_manage_member (some admin) owner)
remove_member-can_manage_member_example =
    remove_member-can_manage_member granting start 7 50 as_admin ayse manages_run
      (λ e. ground arith) refl

update_member_role-assignable_roles_example :
    is_refused "Only an OWNER can change ownership"
      (update_member_role granting start 7 50 guest as_admin)
    ≡ not (
        can_manage_member (some admin) owner
        && any_of (role_eq guest) (assignable_roles (some admin)))
update_member_role-assignable_roles_example =
    update_member_role-assignable_roles granting start 7 50 guest as_admin ayse manages_run refl
      refl
