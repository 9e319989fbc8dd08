-- ===== src/Route/Subject.antt =====
-- src/route/handlers.go: which tenant a token's subject speaks for.
pub mod Laws
pub mod Tenancy
use burnell.Prelude.{
  ℕ, ◌-◌, Bool, true, false, ◌||◌, List, [], ◌∷◌, Option, none, some, ltb, if◌then◌else◌, length,
  take, get_elem?,
}
use burnell.Text.{Text, codes, ◌==◌, split, join}
use burnell.Util.{str_contains}

abbrev pub sub_delimiter : ℕ
sub_delimiter = b'-'

-- `parts[i] == word`
abbrev part_is : Option Text → Text → Bool
part_is none word = false
part_is (some p) word = p == word

-- `ExtractTenant` behind its test on the number of parts.
unfoldable pub extract_from : List Text → Text × Text
extract_from parts =
    let valid_length = length parts - 1 in
    let case1 = join (take valid_length parts) (sub_delimiter ∷ []) in
    let case2 = join (take (valid_length - 1) parts) (sub_delimiter ∷ []) in
    if part_is (get_elem? parts (valid_length - 1)) (codes "client")
    then (case1, case2)
    else if part_is (get_elem? parts (valid_length - 1)) (codes "admin")
    then (case1, case2)
    else (case1, case1)

unfoldable pub extract_tenant : Text → Text × Text
extract_tenant token_sub =
    let parts = split token_sub sub_delimiter in
    if ltb (length parts) 2 then (token_sub, token_sub) else extract_from parts

-- `extractEvalTenant`, the callback for Pulsar Beam.
unfoldable pub extract_eval_tenant : Text → Text → Bool
extract_eval_tenant required_subject token_sub =
    let (sub_case1, sub_case2) = extract_tenant token_sub in
    required_subject == sub_case1 || required_subject == sub_case2

-- The loop of `VerifySubject` over the subjects of a token. Both branches of its body return.
unfoldable pub verify_from : List Text → Text → List Text → Bool
verify_from super_roles required_subject [] = false
verify_from super_roles required_subject (v ∷ subjects) =
    if str_contains super_roles v
    then true
    else let (sub_case1, sub_case2) = extract_tenant v in
      required_subject == sub_case1 || required_subject == sub_case2

unfoldable pub verify_subject : List Text → Text → Text → Bool
verify_subject super_roles required_subject token_subjects =
    verify_from super_roles required_subject (split token_subjects b',')
