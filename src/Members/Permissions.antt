-- ===== src/Members/Permissions.antt =====
-- lib/member-permissions.ts of the web client: which controls on members are drawn, against what
-- the service answers.
use kurultay.Base.{
  ℕ, ◌≡◌, refl, ◌∙◌, ◌≢◌, inl, inr, ◌&&◌, ◌||◌, Bool, true, false, not, Option, none, some, String,
  List, [], ◌∷◌, arith, find_first, any_of, ◌==◌, str_eq, if◌then◌else◌, Bool-cases, HttpError,
  forbidden, conflict, Result, ok, err, ◌>>=◌, ◌>>◌, throw_if,
}
use kurultay.Members.{
  MemberRole, owner, admin, member, guest, role_eq, Member, WorkspaceMembership, Memberships,
  OrganizationApi, Reply, done, failed, is_member_of, require_member, is_last_owner, written,
  remove_member, change_role, update_member_role,
}
use kurultay.Members.Errors.{
  PluginFailure, api_error, other, rethrow_member_write_error, rethrow_better_auth_error,
  to_http_exception, better_auth_error_code,
}

unfoldable pub can_manage_members : Option MemberRole → Bool
can_manage_members none = false
can_manage_members (some role) = role_eq role owner || role_eq role admin

unfoldable pub can_change_ownership : Option MemberRole → Bool
can_change_ownership none = false
can_change_ownership (some role) = role_eq role owner

unfoldable pub can_manage_member : Option MemberRole → MemberRole → Bool
can_manage_member actor_role target_role =
    can_manage_members actor_role
    && (not (role_eq target_role owner) || can_change_ownership actor_role)

-- `INVITABLE_ROLES`
abbrev pub invitable_roles : List MemberRole
invitable_roles = admin ∷ member ∷ guest ∷ []

unfoldable pub assignable_roles : Option MemberRole → List MemberRole
assignable_roles actor_role =
    if can_change_ownership actor_role then owner ∷ invitable_roles else invitable_roles

-- The answer is a 403 with this sentence.
abbrev pub says : String → HttpError → Bool
says text (forbidden message) = str_eq message text
says text _ = false

abbrev pub is_refused {ℓ} : {A : Type ℓ} → String → Result A → Bool
is_refused text (ok a) = false
is_refused text (err e) = says text e

-- A write that the plugin refuses is answered in the sentence of that write.
says-rethrow :
    (message last text : String) (f : PluginFailure)
    → str_eq message text ≡ false
    → says text (rethrow_member_write_error f message last) ≡ false
unfolding rethrow_member_write_error rethrow_better_auth_error to_http_exception
    better_auth_error_code
says-rethrow message last text other h = refl
says-rethrow message last text (api_error status none) h = ground arith
says-rethrow message last text (api_error status (some code)) h = ground arith

is_refused-written :
    (reply : Reply) (message last text : String)
    → str_eq message text ≡ false
    → is_refused text (written reply message last) ≡ false
is_refused-written (done ms) message last text h = refl
is_refused-written (failed f) message last text h = says-rethrow message last text f h

is_refused->>= :
    {A B : Type 0} (text : String) (m : Result A) (k : A → Result B)
    → is_refused text m ≡ false
    → ((a : A) → is_refused text (k a) ≡ false)
    → is_refused text (m >>= k) ≡ false
is_refused->>= text (ok a) k h j = j a
is_refused->>= text (err e) k h j = h

-- Past the check of the role, nothing is refused in its sentence.
is_refused-write :
    {B : Type 0} (text message last conflict_message : String) (b : Bool) (reply : Reply)
    (k : List Member → B)
    → str_eq message text ≡ false
    → is_refused text
        (throw_if b (conflict conflict_message) >> (written reply message last >>= λ ms. ok (k ms)))
      ≡ false
is_refused-write text message last conflict_message true reply k h = refl
is_refused-write text message last conflict_message false reply k h =
    is_refused->>= text (written reply message last) (λ ms. ok (k ms))
      (is_refused-written reply message last text h) (λ ms. refl)

module _ (api : OrganizationApi) where
  -- For a caller whom the route admits, the client draws the control that removes another member
  -- exactly where the service does not refuse the removal for the caller's role.
  pub remove_member-can_manage_member :
      (s : Memberships) (w target : ℕ) (actor : WorkspaceMembership) (t : Member)
      → can_manage_members (some actor.role) ≡ true
      → target ≢ actor.user_id
      → find_first (is_member_of w target) s.members ≡ some t
      → is_refused "Only an OWNER can remove another OWNER" (remove_member api s w target actor)
        ≡ not (can_manage_member (some actor.role) t.role)
  unfolding remove_member require_member can_manage_members can_change_ownership can_manage_member
  remove_member-can_manage_member s w target actor t manages apart found =
      rw (distinct, found, ◌>>=◌)
        (elim (Bool-cases (role_eq t.role owner && not (role_eq actor.role owner))) [
          | inl refused ↦ rw (refused, ◌>>=◌) (ground arith)
          | inr allowed ↦
              rw (allowed, ◌>>=◌)
                (is_refused-write "Only an OWNER can remove another OWNER"
                    "Failed to remove the member" _ _
                    (role_eq t.role owner && is_last_owner s.members w) _ _ refl
                  ∙ ground arith)
        ])
    where
      distinct : (target == actor.user_id) ≡ false
      distinct = ground arith

  -- For a caller whom the route admits, and a role that a member does not have yet, the client's
  -- `canManageMember` holds and its `assignableRoles` has the role exactly where the service does
  -- not refuse the change for the caller's role. It is so whoever the member is, the caller too,
  -- although the client draws no control on the caller's own row.
  pub update_member_role-assignable_roles :
      (s : Memberships) (w target : ℕ) (next : MemberRole) (actor : WorkspaceMembership)
      (t : Member)
      → can_manage_members (some actor.role) ≡ true
      → find_first (is_member_of w target) s.members ≡ some t
      → role_eq t.role next ≡ false
      → is_refused "Only an OWNER can change ownership"
          (update_member_role api s w target next actor)
        ≡ not (
            can_manage_member (some actor.role) t.role
            && any_of (role_eq next) (assignable_roles (some actor.role)))
  unfolding update_member_role change_role require_member can_manage_members can_change_ownership
      can_manage_member assignable_roles
  update_member_role-assignable_roles s w target next actor t manages found differs =
      rw (found, ◌>>=◌)
        (rw differs
          (elim (Bool-cases
            ((role_eq t.role owner || role_eq next owner) && not (role_eq actor.role owner))) [
              | inl refused ↦ rw (refused, ◌>>=◌) (ground arith)
              | inr allowed ↦
                  rw (allowed, ◌>>=◌)
                    (is_refused-write "Only an OWNER can change ownership"
                        "Failed to change the member role" _ _
                        (role_eq t.role owner && is_last_owner s.members w) _ _ refl
                      ∙ ground arith)
            ]))
