-- ===== src/Access.antt =====
-- src/common/auth/permissions.ts: roles, permissions and the table that joins them.
use chat_app_backend.Prelude.{ℕ, Bool, true, false, List, [], ◌∷◌, ◌==◌, any}

pub data Role : Type 0 where
  admin agent user : Role

pub data Permission : Type 0 where
  chat_read_own chat_send_own chat_read_any chat_reply chat_export : Permission
  agent_set_status agent_view agent_manage agent_assign : Permission
  user_approve metrics_view : Permission

-- The position in the source's list, by which two permissions are compared.
abbrev position : Permission → ℕ
position chat_read_own = 0
position chat_send_own = 1
position chat_read_any = 2
position chat_reply = 3
position chat_export = 4
position agent_set_status = 5
position agent_view = 6
position agent_manage = 7
position agent_assign = 8
position user_approve = 9
position metrics_view = 10

unfoldable pub permissions : List Permission
permissions =
    chat_read_own ∷ chat_send_own ∷ chat_read_any ∷ chat_reply ∷ chat_export ∷ agent_set_status
    ∷ agent_view ∷ agent_manage ∷ agent_assign ∷ user_approve ∷ metrics_view ∷ []

unfoldable pub role_permissions : Role → List Permission
unfolding permissions
role_permissions user = chat_read_own ∷ chat_send_own ∷ chat_export ∷ []
role_permissions agent =
    chat_read_any ∷ chat_reply ∷ chat_export ∷ agent_set_status ∷ agent_view ∷ []
role_permissions admin = permissions

unfoldable pub has_permission : Role → Permission → Bool
unfolding role_permissions
has_permission role permission =
    any (λ p. position p == position permission) (role_permissions role)

unfoldable pub is_staff : Role → Bool
is_staff admin = true
is_staff agent = true
is_staff user = false

-- `role === 'agent'`, `role === 'admin'` and `role === 'user'`.
abbrev pub is_agent : Role → Bool
is_agent agent = true
is_agent _ = false

abbrev pub is_admin : Role → Bool
is_admin admin = true
is_admin _ = false

abbrev pub is_user : Role → Bool
is_user user = true
is_user _ = false
