-- ===== src/Users/Service.antt =====
-- src/modules/users/users.service.ts and users.mapper.ts.
use mathlib.Core.Option
use chat_app_backend.Prelude.{
  ℕ, ◌+◌, Bool, true, false, not, ◌&&◌, Option, List, map, ◌==◌, leb, any, take, length,
  if◌then◌else◌,
}
use chat_app_backend.Access.{Role, agent, is_admin, is_agent, is_user}
use chat_app_backend.Documents.{
  User, AccountStatus, pending, approved, rejected, is_approved, is_pending,
}
use chat_app_backend.Errors.{http, bad_request, not_found}
use chat_app_backend.Mongo.{Mongo}
use chat_app_backend.Server.{Db, M, pure, throw, ◌>>=◌, access}
use chat_app_backend.Chat.Conversations.{or_throw}

pub record PublicUser : Type 0 where
  pub id : ℕ
  pub name : ℕ
  pub email : ℕ
  pub role : Role
  pub status : AccountStatus
  pub created_at : ℕ

unfoldable pub to_public_user : User → PublicUser
to_public_user u = record {
  id = u.id;
  name = u.name;
  email = u.email;
  role = u.role;
  status = u.status;
  created_at = u.created_at;
}

pub record UsersSummary : Type 0 where
  pub total : ℕ
  pub pending_users : ℕ
  pub approved_users : ℕ
  pub rejected_users : ℕ
  pub users : List PublicUser

abbrev pub summary_user_limit : ℕ
summary_user_limit = 200

abbrev pub is_rejected : AccountStatus → Bool
is_rejected rejected = true
is_rejected _ = false

abbrev pub same_status : AccountStatus → AccountStatus → Bool
same_status pending s = is_pending s
same_status approved s = is_approved s
same_status rejected s = is_rejected s

abbrev pub same_role : Role → Role → Bool
same_role Role.admin r = is_admin r
same_role agent r = is_agent r
same_role Role.user r = is_user r

abbrev pub newest_first : User → User → Bool
newest_first u v = leb v.created_at u.created_at

abbrev pub by_name : User → User → Bool
by_name u v = leb u.name v.name

module _ (mongo : Mongo) where
  -- `User.findOneAndUpdate(…, { returnDocument: 'after' })`
  update_user : (User → Bool) → (User → User) → M (Option User)
  update_user p u = access λ now db.
      let r = mongo.update_one User p u db.users in (record db { users = r.0 }, Option.map u r.1)

  unfoldable pub list : AccountStatus → Role → M (List PublicUser)
  list status role = access λ now db. (
    db,
    map to_public_user (
        mongo.find_sorted User newest_first
          (λ u. same_role role u.role && same_status status u.status) db.users),
  )

  count_customers : AccountStatus → Db → ℕ
  count_customers status db =
      length (mongo.find User (λ u. is_user u.role && same_status status u.status) db.users)

  -- The aggregation by status, with 0 for a status that has no row.
  customer_counts : M (ℕ × ℕ × ℕ)
  unfolding count_customers
  customer_counts = access λ now db.
      (db, (count_customers pending db, count_customers approved db, count_customers rejected db))

  unfoldable pub summary : M UsersSummary
  unfolding customer_counts
  summary = do
    counts ← customer_counts
    users ← access λ now db. (
      db,
      map to_public_user (
          take summary_user_limit
            (mongo.find_sorted User newest_first (λ u. is_user u.role) db.users)),
    )
    pure (record {
      total = counts.0 + counts.1 + counts.2;
      pending_users = counts.0;
      approved_users = counts.1;
      rejected_users = counts.2;
      users = users;
    })

  -- `status` is 'approved' or 'rejected': the route's DTO admits no other.
  unfoldable pub update_approval : ℕ → AccountStatus → M PublicUser
  unfolding update_user
  update_approval user_id status = do
    updated ←
        update_user (λ u. u.id == user_id && (is_user u.role && is_pending u.status))
          (λ u. record u { status = status })
    found ← or_throw (http (not_found "PENDING_USER_NOT_FOUND" "Pending user not found")) updated
    pure (to_public_user found)

  change_role : ℕ → Role → M PublicUser
  unfolding update_user
  change_role user_id role = do
    updated ←
        update_user (λ u. u.id == user_id && (not (is_admin u.role) && is_approved u.status))
          (λ u. record u { role = role })
    found ← or_throw (http (not_found "USER_NOT_FOUND" "Approved non-admin user not found")) updated
    pure (to_public_user found)

  unfoldable pub update_role : ℕ → Role → ℕ → M PublicUser
  unfolding change_role
  update_role user_id role acting_admin_id =
      if user_id == acting_admin_id
      then throw (http (bad_request "CANNOT_CHANGE_OWN_ROLE" "You cannot change your own role"))
      else change_role user_id role

  unfoldable pub find_public_by_id : ℕ → M (Option PublicUser)
  find_public_by_id user_id = access λ now db.
      (db, Option.map to_public_user (mongo.find_one User (λ u. u.id == user_id) db.users))

  unfoldable pub list_active_agents : M (List PublicUser)
  list_active_agents = access λ now db. (
    db,
    map to_public_user
        (mongo.find_sorted User by_name (λ u. is_agent u.role && is_approved u.status) db.users),
  )

  -- id → name, for the ids that are those of users
  unfoldable pub names_by_ids : List ℕ → M (List (ℕ × ℕ))
  names_by_ids user_ids = access λ now db.
      (db, map (λ u. (u.id, u.name)) (mongo.find User (λ u. any (◌==◌ u.id) user_ids) db.users))
