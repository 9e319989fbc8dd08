-- ===== src/Route/Subject/Laws.antt =====
-- Whom `ExtractTenant` and `VerifySubject` accept, against the forms of a subject.
use native.Mathlib.Decide.{ℕ_discrete}
use burnell.Prelude.{
  ℕ, ◌-◌, ◌≡◌, List, [], ◌∷◌, ◌++◌, arith, length, length-append, take, take-append, get_elem?,
  get_elem?-append, length-pos, append_assoc, some, ap, if◌then◌else◌,
}
use burnell.Text.{Text, codes, ◌==◌, split, join}
use burnell.Text.Split.{Lacks, split-last, split-Lacks, split-ne-nil, join-split, join-append_last}
use burnell.Route.Subject.{extract_tenant, extract_from, sub_delimiter}

-- A subject with no dash is a tenant's name, or a role.
pub extract_tenant-Lacks : (s : Text) → Lacks sub_delimiter s → extract_tenant s ≡ (s, s)
unfolding extract_tenant
extract_tenant-Lacks s h = rw (split-Lacks s sub_delimiter h)

-- What `ExtractTenant` returns of a subject whose parts are `ps`, `w` and `k`.
abbrev pub result_of : Text → Text → Text → Text × Text
result_of longer shorter w =
    if w == codes "client"
    then (longer, shorter)
    else if w == codes "admin"
    then (longer, shorter)
    else (longer, longer)

extract_from-concat :
    (ps : List Text) (w k : Text)
    → extract_from ((ps ++ w ∷ []) ++ k ∷ [])
      ≡ result_of (join (ps ++ w ∷ []) (sub_delimiter ∷ [])) (join ps (sub_delimiter ∷ [])) w
unfolding extract_from
extract_from-concat ps w k =
    let n : length ((ps ++ w ∷ []) ++ k ∷ []) - 1 ≡ length (ps ++ w ∷ []) =
      omega (arith, length-append (ps ++ w ∷ []) (k ∷ [])) in
    let m : length (ps ++ w ∷ []) - 1 ≡ length ps = omega (arith, length-append ps (w ∷ [])) in
    let at : get_elem? ((ps ++ w ∷ []) ++ k ∷ []) (length ps) ≡ some w =
      rw append_assoc (get_elem?-append ps (k ∷ []) w) in
    let front : take (length ps) ((ps ++ w ∷ []) ++ k ∷ []) ≡ ps =
      rw append_assoc (take-append ps (w ∷ k ∷ [])) in
    rw (n, m, at, front, take-append (ps ++ w ∷ []) (k ∷ []))

-- A subject `t-k`.
extract_tenant-dash :
    (t k : Text)
    → Lacks sub_delimiter k
    → extract_tenant (t ++ sub_delimiter ∷ k) ≡ extract_from (split t sub_delimiter ++ k ∷ [])
unfolding extract_tenant
extract_tenant-dash t k h = rw (split-last t k sub_delimiter h) (
    ground (
      arith,
      length-append (split t sub_delimiter) (k ∷ []),
      length-pos (split t sub_delimiter) (split-ne-nil t sub_delimiter),
    ))

-- A subject `w-k` with no other dash.
pub extract_tenant-one_dash :
    (w k : Text)
    → Lacks sub_delimiter w
    → Lacks sub_delimiter k
    → extract_tenant (w ++ sub_delimiter ∷ k) ≡ result_of w [] w
extract_tenant-one_dash w k hw hk =
    rw (extract_tenant-dash w k hk, split-Lacks w sub_delimiter hw)
      (unfold join in extract_from-concat [] w k)

-- A subject `t-w-k`, where `t` may hold more dashes.
pub extract_tenant-two_dashes :
    (t w k : Text)
    → Lacks sub_delimiter w
    → Lacks sub_delimiter k
    → extract_tenant ((t ++ sub_delimiter ∷ w) ++ sub_delimiter ∷ k)
      ≡ result_of (t ++ sub_delimiter ∷ w) t w
extract_tenant-two_dashes t w k hw hk = rw (
  extract_tenant-dash (t ++ sub_delimiter ∷ w) k hk,
  split-last t w sub_delimiter hw,
  extract_from-concat (split t sub_delimiter) w k,
  join-append_last (split t sub_delimiter) w (sub_delimiter ∷ []) (split-ne-nil t sub_delimiter),
  join-split t sub_delimiter,
)

-- The dash of a subject that stands last.
pub data LastDash (s : Text) : Type 0 where
  no_dash : Lacks sub_delimiter s → LastDash s
  dash : (t k : Text) → Lacks sub_delimiter k → s ≡ t ++ sub_delimiter ∷ k → LastDash s

LastDash-cons : (c : ℕ) {s : Text} → LastDash s → LastDash (c ∷ s)
LastDash-cons c {s} (no_dash h) = elim (ℕ_discrete c sub_delimiter) [
  | yes e ↦ dash [] s h (ap (λ d. d ∷ s) e)
  | no ne ↦ no_dash (ne, h)
]
LastDash-cons c (dash t k h e) = dash (c ∷ t) k h (ap (λ r. c ∷ r) e)

pub last_dash : (s : Text) → LastDash s
last_dash [] = no_dash tt
last_dash (c ∷ s) = LastDash-cons c (last_dash s)
