-- ===== src/Api/LastAdmin/Start.antt =====
-- The bootstrap of a process keeps an administrator active.
use mathlib.Core.Path.{subst}
use palworld_server_service.Common.{
  String, ◌≡◌, refl, Bool, true, Option, none, some, List, [], ◌==◌, sym, ◌∷◌, arith,
}
use palworld_server_service.Common.Keeps.{Keeps, if-keeps, continue-keeps}
use palworld_server_service.Database.Models.{UserRecord}
use palworld_server_service.Database.Users.{
  get_user_by_username, count_users, list_users, create_user,
}
use palworld_server_service.Database.Integrity.{IsConsistent, create_user-IsConsistent}
use palworld_server_service.Database.Admins.{count-create_user}
use palworld_server_service.Auth.Crypto.{Crypto}
use palworld_server_service.Auth.Bootstrap.{
  Server, Supply, no_bootstrap, bootstrap_admin_user, bootstrap_missing, bootstrap_new, first_user,
  after_creation, choose_password, set_bootstrap_pending, on_db,
}
use palworld_server_service.Api.Serve.{start}
use palworld_server_service.Api.LastAdmin.Writes.{IsGoverned}

db-after_creation :
    (sup : Supply) (password : String) (is_generated has_export_path : Bool) (user : UserRecord)
    (s : Server)
    → (after_creation sup password is_generated has_export_path user s).1.db ≡ s.db
unfolding set_bootstrap_pending
db-after_creation sup password is_generated has_export_path user s = ground arith

-- Being governed is a matter of the database.
IsGoverned-db : (s t : Server) → t.db ≡ s.db → IsGoverned s → IsGoverned t
IsGoverned-db s t e g = record {
  consistent = subst IsConsistent (sym e) g.consistent;
  governed = rw e g.governed;
}

first_user-state : (us : List UserRecord) (s : Server) → (first_user us s).1 ≡ s
first_user-state [] s = refl
first_user-state (u ∷ us) s = refl

pub bootstrap_new-IsGoverned :
    (c : Crypto) (default_password : Option String) (has_export_path : Bool) (sup : Supply)
    → Keeps IsGoverned (bootstrap_new c default_password has_export_path sup)
bootstrap_new-IsGoverned c default_password has_export_path sup = record {
  at = λ s g.
      let (password, is_generated) = choose_password default_password sup in
      continue-keeps _ _ _
        (λ user. record {
          at = λ t h.
              IsGoverned-db t _ (db-after_creation sup password is_generated has_export_path user t)
                h;
        })
        (create_admin-IsGoverned _ _ sup.now s g);
}
  where
    create_admin-IsGoverned :
        (pw_hash salt now : String) (s : Server)
        → IsGoverned s
        → IsGoverned
            (on_db (create_user "admin" pw_hash salt "admin@localhost" "admin" true now) s).1
    create_admin-IsGoverned pw_hash salt now s g = record {
      consistent =
          create_user-IsConsistent "admin" pw_hash salt "admin@localhost" "admin" true now s.db
            g.consistent;
      governed = omega (
        arith,
        count-create_user "admin" pw_hash salt "admin@localhost" "admin" true now s.db,
        g.governed,
      );
    }

pub start-IsGoverned :
    (c : Crypto) (default_password : Option String) (has_export_path : Bool) (sup : Supply)
    (s : Server)
    → IsGoverned s
    → IsGoverned (start c default_password has_export_path sup s)
unfolding start bootstrap_admin_user
start-IsGoverned c default_password has_export_path sup s g =
    let s₀ = record s { bootstrap = no_bootstrap } in
    missing (get_user_by_username "admin" s.db) s₀ (IsGoverned-db s s₀ refl g)
  where
    missing :
        (found : Option UserRecord) (t : Server)
        → IsGoverned t
        → IsGoverned (bootstrap_missing c default_password has_export_path sup found t).1
    missing (some user) t h = h
    missing none t h =
        if-keeps IsGoverned (count_users t.db == 0) _ _
          ((bootstrap_new-IsGoverned c default_password has_export_path sup).at t h)
          (rw (first_user-state (list_users t.db) t) h)
