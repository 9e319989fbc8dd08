-- ===== src/Tests/Subjects.antt =====
-- Tests of the subjects of tokens and of the handlers that check them.
use mathlib.Core.List.{Memᴰ}
use burnell.Prelude.{◌≡◌, ◌↔◌, refl, true, false, ◌⊎◌, List, [], ◌∷◌, ◌++◌, arith, ◌+◌}
use burnell.Text.{Text, codes, ◌==◌, split, join}
use burnell.Result.{ok, err}
use burnell.Util.{str_contains}
use burnell.Config.{dummy_super_role}
use burnell.Route.Subject.{
  extract_tenant, extract_from, extract_eval_tenant, verify_subject, verify_from,
}
use burnell.Route.Subject.Tenancy.{Covers, extract_eval_tenant_iff, verify_subject_iff}
use burnell.Route.Request.{Request, header_set}
use burnell.Route.Middleware.{
  pass, Auth, auth_verify_jwt, auth_verify_tenant_jwt, super_role_required, injected_subs,
}
use burnell.Route.Middleware.Laws.{open_to_all}
use burnell.Route.Middleware.Tenants.{Admits, auth_verify_tenant_jwt-Admits}
use burnell.Route.Limit.{Server, start, Run, here, next, enter, abort}
use burnell.Route.Semaphore.{new_sema, acquire}
use burnell.Route.Limit.Overrun.{Bounded, Run-Bounded, limit_overrun}

abbrev pub supers : List Text
supers = codes "admin" ∷ codes "superuser" ∷ []

extract_eval_tenant_iff_example :
    (extract_eval_tenant (codes "chris-datastax") (codes "chris-datastax-client-12345qbc") ≡ true)
    ↔ Covers (codes "chris-datastax") (codes "chris-datastax-client-12345qbc")
extract_eval_tenant_iff_example =
    extract_eval_tenant_iff (codes "chris-datastax") (codes "chris-datastax-client-12345qbc")

verify_subject_iff_example :
    ((verify_subject supers (codes "t") (codes "u-1" ++ b',' ∷ codes "t-1") ≡ true)
      ↔ (Memᴰ (codes "u-1") supers ⊎ Covers (codes "t") (codes "u-1")))
    × ((verify_subject supers (codes "t") (codes "u-1") ≡ true)
        ↔ (Memᴰ (codes "u-1") supers ⊎ Covers (codes "t") (codes "u-1")))
verify_subject_iff_example =
    verify_subject_iff supers (codes "t") (codes "u-1") (codes "t-1") (omega arith)

subject_tests :
    (extract_tenant (codes "chris-datastax-12345qbc")
      ≡ (codes "chris-datastax", codes "chris-datastax"))
    × (extract_tenant (codes "chris-datastax-client-12345qbc")
        ≡ (codes "chris-datastax-client", codes "chris-datastax"))
    × (extract_tenant (codes "chris-datastax") ≡ (codes "chris", codes "chris"))
    × (verify_subject supers (codes "t") (codes "u-1,t-1") ≡ false)
    × (verify_subject supers (codes "t") (codes "t-1,u-1") ≡ true)
unfolding extract_tenant extract_from verify_subject verify_from split join ◌==◌ str_contains
subject_tests = (refl, refl, refl, refl, refl)

-- A process that checks tokens, and takes each for its own subject.
abbrev pub guarded : Auth
guarded = record { jwt_enabled = true; super_roles = supers; token_subject = λ t. ok t }

abbrev unguarded : Auth
unguarded = record { jwt_enabled = false; super_roles = supers; token_subject = λ t. err [] }

abbrev pub request : Request
request = record {
  method = codes "GET";
  uri = codes "/k/tenant/t";
  headers = (codes "Authorization", codes "Bearer t-1") ∷ [];
  vars = (codes "tenant", codes "t") ∷ [];
  query = [];
  body = [];
}

auth_verify_tenant_jwt-Admits_example :
    (auth_verify_tenant_jwt guarded request ≡ pass (header_set injected_subs (codes "t-1") request))
    ↔ Admits guarded request (header_set injected_subs (codes "t-1") request)
auth_verify_tenant_jwt-Admits_example =
    auth_verify_tenant_jwt-Admits guarded request (header_set injected_subs (codes "t-1") request)

open_to_all_example :
    (auth_verify_jwt unguarded request ≡ pass (header_set injected_subs dummy_super_role request))
    × (auth_verify_tenant_jwt unguarded request
        ≡ pass (header_set injected_subs dummy_super_role request))
    × (super_role_required unguarded request
        ≡ pass (header_set injected_subs dummy_super_role request))
open_to_all_example = open_to_all unguarded request refl

limit_overrun_example : (s : Server) × Run (start 200) s × (s.serving ≡ 100 + 200)
limit_overrun_example = limit_overrun 200 100 (omega arith)

-- A request is served, and its handler panics.
abbrev one_aborted : Server
one_aborted = record { rate = (acquire (new_sema 200)).0; serving = 0; refusing = 0; aborted = 1 }

aborts : Run (start 200) one_aborted
unfolding start new_sema acquire
aborts = next (next here (enter refl)) (abort 0 refl)

Run-Bounded_example : Bounded 200 one_aborted
Run-Bounded_example = Run-Bounded 200 aborts
