-- ===== src/Auth/History.antt =====
-- Runs of the service: any of its operations, one after the other, on one database.
pub mod Spent
pub mod Once
pub mod SingleUse
use zglab_rag.Prelude.{ℕ, Bool, Option, some, List, [], ◌∷◌, Text}
use zglab_rag.Auth.Models.{Platform, Call, UserRole}
use zglab_rag.Auth.Db.{AuthDb}
use zglab_rag.Auth.Tables.Sessions
use zglab_rag.Auth.Identity
use zglab_rag.Auth.Identity.{IdentityConfig}
use zglab_rag.Auth.Session
use zglab_rag.Auth.Session.{SessionConfig}

-- The operations, with the random values that they draw.
pub data Operation : Type 0 where
  provision_user : Text → Text → UserRole → Text → Operation
  activate_account : Text → Text → Text → Operation
  reset_password_with_token : Text → Text → Text → Operation
  admin_reset_password : Text → Text → Operation
  set_enabled : Text → Bool → Operation
  revoke_sessions : Text → Operation
  login : Text → Text → Text → Text → Operation
  log_out : Text → Operation
  resolve_session : Option Text → Operation
  change_password : Text → Text → Text → Text → ℕ → ℕ → Operation
  prune_expired : Operation

pub record Config : Type 0 where
  pub platform : Platform
  pub identity : IdentityConfig
  pub session : SessionConfig

unfoldable pub perform : Config → Call → Operation → AuthDb → AuthDb
perform k c (provision_user plaintext raw role created_by) db =
    (Identity.provision_user k.platform k.identity c plaintext raw role created_by db).1
perform k c (activate_account salt token password) db =
    (Identity.activate k.platform k.identity c salt token password db).1
perform k c (reset_password_with_token salt token password) db =
    (Identity.reset_password_with_token k.platform k.identity c salt token password db).1
perform k c (admin_reset_password plaintext raw) db =
    (Identity.admin_reset_password k.platform k.identity c plaintext raw db).1
perform k c (set_enabled raw enabled) db =
    (Identity.set_enabled k.platform k.identity c raw enabled db).1
perform k c (revoke_sessions raw) db = (Identity.revoke_sessions k.platform k.identity c raw db).1
perform k c (login token csrf raw password) db =
    (Session.login k.platform k.session c token csrf raw password db).1
perform k c (log_out token) db = (Session.log_out k.platform k.session c token db).1
perform k c (resolve_session token) db = (Session.resolve_session k.platform k.session c token db).1
perform k c (change_password salt token current new min_length max_length) db =
    (Session.change_password k.platform k.session c salt token current new min_length max_length
      db).1
perform k c prune_expired db = Sessions.prune_expired c.now db

unfoldable pub run : Config → List (Call × Operation) → AuthDb → AuthDb
run k [] db = db
run k ((c, o) ∷ rest) db = run k rest (perform k c o db)
