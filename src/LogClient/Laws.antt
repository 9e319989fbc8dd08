-- ===== src/LogClient/Laws.antt =====
-- What the map of functions keeps.
use burnell.Prelude.{
  ◌+◌, ◌≡◌, refl, [], ◌∷◌, Option, none, some, arith, if◌then◌else◌, Option-cases, inl, inr,
}
use burnell.Text.{Text, ◌==◌}
use burnell.Text.Laws.{eq_iff, eq_refl}
use burnell.Assoc.{lookup, insert, delete, lookup-insert}
use burnell.LogClient.{
  FunctionMap, FunctionType, FunctionDetails, function_of, key_of, read_function_map,
  write_function_map_if_not_exist, tenant_function_count, parse_service_request,
}

delete-absent :
    (key : Text) (functions : FunctionMap)
    → lookup key functions ≡ none
    → delete key functions ≡ functions
unfolding lookup delete
delete-absent key [] h = refl
delete-absent key ((name, f) ∷ functions) h = ground (arith, delete-absent key functions)

abbrev pub or_first : Option FunctionType → FunctionType → FunctionType
or_first none f = f
or_first (some known) f = known

-- A service request adds its function under its key where the key is new, and changes nothing else:
-- what is known under a key is never replaced.
pub lookup-parse_service_request :
    (fd : FunctionDetails) (key : Text) (functions : FunctionMap)
    → read_function_map key (parse_service_request fd functions) ≡ (
        if key_of fd == key
        then some (or_first (read_function_map key functions) (function_of fd))
        else read_function_map key functions)
unfolding parse_service_request write_function_map_if_not_exist read_function_map
lookup-parse_service_request fd key functions = elim (Option-cases (lookup (key_of fd) functions)) [
  | inl e ↦
      ground
        (arith, e, eq_iff (key_of fd) key, lookup-insert (key_of fd) key (function_of fd) functions)
  | inr (f, e) ↦ ground (arith, e, eq_iff (key_of fd) key)
]

-- Two functions with the same key, of whatever tenants: the first one is what the second one's
-- name finds.
second_function_is_lost :
    (first second : FunctionDetails) (functions : FunctionMap)
    → key_of first ≡ key_of second
    → read_function_map (key_of first) functions ≡ none
    → read_function_map
        (key_of second)
        (parse_service_request second (parse_service_request first functions))
      ≡ some (function_of first)
second_function_is_lost first second functions same new = ground (
  arith,
  lookup-parse_service_request second (key_of second) (parse_service_request first functions),
  lookup-parse_service_request first (key_of second) functions,
  eq_refl (key_of second),
)

-- No service request lowers the number of a tenant's functions, one that deletes a function
-- neither: the count is the same, or one more where the key is new and the function the tenant's.
tenant_function_count-parse :
    (fd : FunctionDetails) (tenant : Text) (functions : FunctionMap)
    → tenant_function_count tenant (parse_service_request fd functions)
      ≡ (elim (read_function_map (key_of fd) functions) [
        | none ↦ (if fd.tenant == tenant then 1 else 0)
        | some _ ↦ 0
      ])
        + tenant_function_count tenant functions
unfolding parse_service_request write_function_map_if_not_exist read_function_map insert
    tenant_function_count
tenant_function_count-parse fd tenant functions =
    elim (Option-cases (lookup (key_of fd) functions)) [
      | inl e ↦ ground (arith, e, delete-absent (key_of fd) functions e)
      | inr (f, e) ↦ ground (arith, e)
    ]
