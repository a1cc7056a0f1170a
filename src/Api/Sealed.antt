-- ===== src/Api/Sealed.antt =====
-- The one-way lifecycle of the bootstrap credentials: app/database/auth.py and the endpoints of
-- app/routers/auth.py. Once acknowledged they are never shown again, not even by a later process.
use palworld_server_service.Common.{
  ℕ, String, ◌≡◌, refl, ◌∙◌, Bool, true, Option, none, some, List, [], ◌∷◌, arith, ◌==◌, eq_iff,
}
use palworld_server_service.Common.Outcome.{err, http}
use palworld_server_service.Common.Keeps.{Keeps, Keeps-pure, if-keeps, continue-keeps}
use palworld_server_service.Database.Models.{UserRecord}
use palworld_server_service.Database.Store.{Database}
use palworld_server_service.Database.Users.{
  UserUpdate, get_user_by_id, get_user_by_username, create_user, update_user, update_existing,
  delete_user, update_user_last_login, set_user_permissions, count_users, list_users, with_user,
  inserted,
}
use palworld_server_service.Database.Records.{
  record_login_audit, get_meta, set_meta, lookup_meta, upsert_meta,
}
use palworld_server_service.Database.Integrity.{or_runtime_error-state}
use palworld_server_service.Auth.Crypto.{Crypto}
use palworld_server_service.Auth.Bootstrap.{
  Server, Supply, no_bootstrap, on_db, acknowledge_bootstrap, bootstrap_admin_user,
  bootstrap_missing, bootstrap_new, after_creation, first_user, choose_password,
  set_bootstrap_pending,
}
use palworld_server_service.Api.Deps.{Context, Request}
use palworld_server_service.Api.Accounts.{
  set_permissions, get_bootstrap_credentials, acknowledge_bootstrap_credentials,
}
use palworld_server_service.Api.Serve.{
  bootstrap_credentials, serve, start, Event, run, ack_bootstrap,
}
use palworld_server_service.Api.Preserves.{Preserves, run-Keeps}

-- Nothing is pending in memory, and the database says that the bootstrap is complete.
pub record IsSealed (s : Server) : Type 0 where
  pub idle : s.bootstrap ≡ no_bootstrap
  pub completed : lookup_meta "bootstrap_completed" s.db.system_metadata ≡ some "true"

lookup-upsert :
    (key value : String) (rows : List (String × String))
    → lookup_meta key (upsert_meta key value rows) ≡ some value
lookup-upsert key value [] = ground (arith, eq_iff key key)
lookup-upsert key value ((k, v) ∷ rows) = ground (arith, eq_iff k key, lookup-upsert key value rows)

-- Writes to the other tables.

meta-create_user :
    (username hash salt email role : String) (active : Bool) (now : String) (db : Database)
    → (create_user username hash salt email role active now db).1.system_metadata
      ≡ db.system_metadata
unfolding create_user
meta-create_user username hash salt email role active now db =
    let row = inserted username hash salt email role active now db in
    ground
      (arith, or_runtime_error-state (get_user_by_id row.id (with_user row db)) (with_user row db))

meta-set_user_permissions :
    (k : ℕ) (perms : List String) (db : Database)
    → (set_user_permissions k perms db).1.system_metadata ≡ db.system_metadata
unfolding set_user_permissions
meta-set_user_permissions k [] db = ground arith
meta-set_user_permissions k (p ∷ ps) db = ground arith

meta-update_user :
    (k : ℕ) (up : UserUpdate) (db : Database)
    → (update_user k up db).1.system_metadata ≡ db.system_metadata
unfolding update_user
meta-update_user k up db = go (get_user_by_id k db)
  where
    go :
        (found : Option UserRecord)
        → (update_existing k up found db).1.system_metadata ≡ db.system_metadata
    go none = refl
    go (some u) = refl

same_meta :
    (s t : Server)
    → t.bootstrap ≡ s.bootstrap
    → t.db.system_metadata ≡ s.db.system_metadata
    → IsSealed s
    → IsSealed t
same_meta s t b m h = record { idle = b ∙ h.idle; completed = rw m h.completed }

acknowledge-IsSealed : (s : Server) → IsSealed (acknowledge_bootstrap s).1
unfolding acknowledge_bootstrap set_meta
acknowledge-IsSealed s = record {
  idle = refl;
  completed = lookup-upsert "bootstrap_completed" "true" s.db.system_metadata;
}

-- A process that starts over a completed database marks nothing as pending.
after_creation-IsSealed :
    (sup : Supply) (password : String) (generated exports : Bool) (user : UserRecord)
    → Keeps IsSealed (after_creation sup password generated exports user)
after_creation-IsSealed sup password generated exports user = record {
  at = λ s h.
      same_meta s _ (unfold get_meta in ground (arith, h.completed))
        (unfold get_meta set_bootstrap_pending in ground (arith, h.completed)) h;
}

first_user-state : (us : List UserRecord) (s : Server) → (first_user us s).1 ≡ s
first_user-state [] s = refl
first_user-state (u ∷ us) s = refl

bootstrap_new-IsSealed :
    (c : Crypto) (default_password : Option String) (exports : Bool) (sup : Supply)
    → Keeps IsSealed (bootstrap_new c default_password exports sup)
bootstrap_new-IsSealed c default_password exports sup = record {
  at = λ s h.
      let (password, generated) = choose_password default_password sup in
      continue-keeps _ _ _ (λ user. after_creation-IsSealed sup password generated exports user)
        (admin_created _ _ sup.now s h);
}
  where
    admin_created :
        (hash salt now : String) (s : Server)
        → IsSealed s
        → IsSealed (on_db (create_user "admin" hash salt "admin@localhost" "admin" true now) s).1
    admin_created hash salt now s h =
        same_meta s _ refl
          (meta-create_user "admin" hash salt "admin@localhost" "admin" true now s.db) h

start-IsSealed :
    (c : Crypto) (default_password : Option String) (exports : Bool) (sup : Supply) (s : Server)
    → IsSealed s
    → IsSealed (start c default_password exports sup s)
unfolding start bootstrap_admin_user
start-IsSealed c default_password exports sup s h =
    let s₀ = record s { bootstrap = no_bootstrap } in
    missing (get_user_by_username "admin" s.db) s₀ (record { idle = refl; completed = h.completed })
  where
    missing :
        (found : Option UserRecord) (t : Server)
        → IsSealed t
        → IsSealed (bootstrap_missing c default_password exports sup found t).1
    missing (some user) t h = h
    missing none t h =
        if-keeps IsSealed (count_users t.db == 0) _ _
          ((bootstrap_new-IsSealed c default_password exports sup).at t h)
          (rw (first_user-state (list_users t.db) t) h)

set_permissions-IsSealed :
    (k : ℕ) (perms : Option (List String)) → Keeps IsSealed (set_permissions k perms)
set_permissions-IsSealed k none = Keeps-pure tt
set_permissions-IsSealed k (some perms) = record {
  at = λ s h. same_meta s _ refl (meta-set_user_permissions k perms s.db) h;
}

sealed : Preserves IsSealed
sealed = record {
  create_account = λ ctx username password email role sup. record {
    at = λ s h. same_meta s _ refl (meta-create_user username _ _ email role true sup.now s.db) h;
  };
  update_user_last_login = λ k timestamp. record {
    at = λ s h. same_meta s _ refl (unfold update_user_last_login in refl) h;
  };
  set_permissions = set_permissions-IsSealed;
  record_login_audit = λ username client_ip user_agent status reason now. record {
    at = λ s h. same_meta s _ refl (unfold record_login_audit in refl) h;
  };
  acknowledge_bootstrap = record { at = λ s h. acknowledge-IsSealed s };
  update_user = λ k up s existing found safe h. same_meta s _ refl (meta-update_user k up s.db) h;
  delete_user = λ k s existing found safe h. same_meta s _ refl (unfold delete_user in refl) h;
  start = start-IsSealed;
}

sealed_answer : (s : Server) → IsSealed s → (get_bootstrap_credentials s).0 ≡ err (http 404)
unfolding get_bootstrap_credentials
sealed_answer s h = ground (arith, h.idle)

acknowledged :
    (s : Server) → s.bootstrap.is_pending ≡ true → IsSealed (acknowledge_bootstrap_credentials s).1
unfolding acknowledge_bootstrap_credentials acknowledge_bootstrap set_meta
acknowledged s pending = record {
  idle = ground arith;
  completed = ground (arith, lookup-upsert "bootstrap_completed" "true" s.db.system_metadata);
}

-- After an acknowledgement that succeeds, whatever requests and restarts follow, every request for
-- the bootstrap credentials is answered 404.
pub bootstrap_credentials_sealed :
    (ctx ctx' : Context) (r r' : Request) (sup sup' : Supply) (s : Server) (es : List Event)
    → s.bootstrap.is_pending ≡ true
    → (serve ctx' r' sup' bootstrap_credentials (run es (serve ctx r sup ack_bootstrap s).1)).0
      ≡ err (http 404)
unfolding serve
bootstrap_credentials_sealed ctx ctx' r r' sup sup' s es pending =
    sealed_answer _ (run-Keeps sealed es _ (acknowledged s pending))
