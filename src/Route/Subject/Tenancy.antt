-- ===== src/Route/Subject/Tenancy.antt =====
-- The subjects that act for a tenant: `VerifySubject` against the forms that its comment lists.
use mathlib.Core.List.{Memᴰ}
use mathlib.Core.Bool.{false≢true}
use burnell.Prelude.{
  ◌≡◌, ◌↔◌, refl, sym, ◌∙◌, ◌⊎◌, inl, inr, Bool, true, List, [], ◌∷◌, ◌++◌, ◌||◌, arith, Bool-cases,
}
use burnell.Text.{Text, codes, ◌==◌, split}
use burnell.Text.Laws.{eq_iff, eq_refl}
use burnell.Text.Split.{Lacks, split-Lacks, split-append}
use burnell.Util.{str_contains}
use burnell.Util.Laws.{str_contains_sound, str_contains_complete}
use burnell.Route.Subject.{
  extract_tenant, extract_eval_tenant, verify_subject, verify_from, sub_delimiter,
}
use burnell.Route.Subject.Laws.{
  extract_tenant-Lacks, extract_tenant-one_dash, extract_tenant-two_dashes, result_of, LastDash,
  no_dash, dash, last_dash,
}

-- The words that may stand between a tenant's name and a token's key.
abbrev IsRoleWord : Text → Type 0
IsRoleWord w = (w ≡ codes "client") ⊎ (w ≡ codes "admin")

IsRoleWord-Lacks : (w : Text) → IsRoleWord w → Lacks sub_delimiter w
IsRoleWord-Lacks w (inl e) = rw e (omega arith)
IsRoleWord-Lacks w (inr e) = rw e (omega arith)

-- The subject acts for the tenant: it is the tenant's name, or that name with a key behind it, or
-- with `client` or `admin` and a key. A name may hold dashes where a key follows. A subject
-- `client-k` or `admin-k` acts for the nameless tenant too.
pub data Covers (tenant subject : Text) : Type 0 where
  exact : Lacks sub_delimiter subject → subject ≡ tenant → Covers tenant subject
  keyed :
      (k : Text)
      → Lacks sub_delimiter k
      → subject ≡ tenant ++ sub_delimiter ∷ k
      → Covers tenant subject
  role_keyed :
      (w k : Text)
      → IsRoleWord w
      → Lacks sub_delimiter k
      → subject ≡ (tenant ++ sub_delimiter ∷ w) ++ sub_delimiter ∷ k
      → Covers tenant subject
  nameless :
      (w k : Text)
      → IsRoleWord w
      → Lacks sub_delimiter k
      → tenant ≡ []
      → subject ≡ w ++ sub_delimiter ∷ k
      → Covers tenant subject

is_one_of : Text → Text × Text → Bool
is_one_of tenant cases = tenant == cases.0 || tenant == cases.1

is_one_of_same : (tenant s : Text) → (is_one_of tenant (s, s) ≡ true) ↔ (tenant ≡ s)
unfolding is_one_of
is_one_of_same tenant s = ground (arith, eq_iff tenant s)

is_one_of-result_of :
    (tenant longer shorter w : Text)
    → is_one_of tenant (result_of longer shorter w) ≡ true
    → (tenant ≡ longer) ⊎ (IsRoleWord w × (tenant ≡ shorter))
unfolding is_one_of
is_one_of-result_of tenant longer shorter w h = ground (
  arith,
  eq_iff tenant longer,
  eq_iff tenant shorter,
  eq_iff w (codes "client"),
  eq_iff w (codes "admin"),
)

result_of-longer : (tenant shorter w : Text) → is_one_of tenant (result_of tenant shorter w) ≡ true
unfolding is_one_of
result_of-longer tenant shorter w = ground (arith, eq_refl tenant)

result_of-shorter :
    (tenant longer w : Text) → IsRoleWord w → is_one_of tenant (result_of longer tenant w) ≡ true
unfolding is_one_of
result_of-shorter tenant longer w h =
    ground (arith, eq_refl tenant, eq_iff w (codes "client"), eq_iff w (codes "admin"))

Covers-two_dashes :
    (tenant u w k : Text)
    → Lacks sub_delimiter k
    → (tenant ≡ u ++ sub_delimiter ∷ w) ⊎ (IsRoleWord w × (tenant ≡ u))
    → Covers tenant ((u ++ sub_delimiter ∷ w) ++ sub_delimiter ∷ k)
Covers-two_dashes tenant u w k hk (inl e) = keyed k hk (rw e)
Covers-two_dashes tenant u w k hk (inr (r, e)) = role_keyed w k r hk (rw e)

Covers-one_dash :
    (tenant w k : Text)
    → Lacks sub_delimiter k
    → (tenant ≡ w) ⊎ (IsRoleWord w × (tenant ≡ []))
    → Covers tenant (w ++ sub_delimiter ∷ k)
Covers-one_dash tenant w k hk (inl e) = keyed k hk (rw e)
Covers-one_dash tenant w k hk (inr (r, e)) = nameless w k r hk e refl

Covers-dash :
    (tenant t k : Text)
    → LastDash t
    → Lacks sub_delimiter k
    → is_one_of tenant (extract_tenant (t ++ sub_delimiter ∷ k)) ≡ true
    → Covers tenant (t ++ sub_delimiter ∷ k)
Covers-dash tenant t k (no_dash ht) hk h =
    Covers-one_dash tenant t k hk
      (is_one_of-result_of tenant t [] t (rw (extract_tenant-one_dash t k ht hk) at h))
Covers-dash tenant t k (dash u w hw e) hk h = rw e (
    Covers-two_dashes tenant u w k hk (
      is_one_of-result_of tenant (u ++ sub_delimiter ∷ w) u w
        (rw (extract_tenant-two_dashes u w k hw hk) at (rw e at h))))

Covers-sound :
    (tenant subject : Text)
    → LastDash subject
    → is_one_of tenant (extract_tenant subject) ≡ true
    → Covers tenant subject
Covers-sound tenant subject (no_dash hs) h =
    exact hs (sym ((is_one_of_same tenant subject).0 (rw (extract_tenant-Lacks subject hs) at h)))
Covers-sound tenant subject (dash t k hk e) h =
    rw e (Covers-dash tenant t k (last_dash t) hk (rw e at h))

extract_tenant_keyed :
    (tenant k : Text)
    → LastDash tenant
    → Lacks sub_delimiter k
    → is_one_of tenant (extract_tenant (tenant ++ sub_delimiter ∷ k)) ≡ true
extract_tenant_keyed tenant k (no_dash ht) hk =
    rw (extract_tenant-one_dash tenant k ht hk) (result_of-longer tenant [] tenant)
extract_tenant_keyed tenant k (dash u w hw e) hk =
    rw e
      (rw (extract_tenant-two_dashes u w k hw hk) (result_of-longer (u ++ sub_delimiter ∷ w) u w))

Covers-complete :
    (tenant subject : Text)
    → Covers tenant subject
    → is_one_of tenant (extract_tenant subject) ≡ true
Covers-complete tenant subject (exact hs e) =
    rw (extract_tenant-Lacks subject hs) ((is_one_of_same tenant subject).1 (sym e))
Covers-complete tenant subject (keyed k hk e) =
    rw e (extract_tenant_keyed tenant k (last_dash tenant) hk)
Covers-complete tenant subject (role_keyed w k r hk e) =
    rw (e, extract_tenant-two_dashes tenant w k (IsRoleWord-Lacks w r) hk)
      (result_of-shorter tenant (tenant ++ sub_delimiter ∷ w) w r)
Covers-complete tenant subject (nameless w k r hk z e) =
    rw (e, extract_tenant-one_dash w k (IsRoleWord-Lacks w r) hk, z) (result_of-shorter [] w w r)

-- `extractEvalTenant` accepts a subject for a tenant exactly if the subject acts for it.
pub extract_eval_tenant_iff :
    (tenant subject : Text) → (extract_eval_tenant tenant subject ≡ true) ↔ Covers tenant subject
unfolding extract_eval_tenant is_one_of
extract_eval_tenant_iff tenant subject =
    (Covers-sound tenant subject (last_dash subject), Covers-complete tenant subject)

verify_from_iff :
    (super_roles : List Text) (tenant first : Text) (others : List Text)
    → (verify_from super_roles tenant (first ∷ others) ≡ true)
      ↔ (Memᴰ first super_roles ⊎ Covers tenant first)
unfolding verify_from extract_eval_tenant
verify_from_iff super_roles tenant first others =
    elim (Bool-cases (str_contains super_roles first)) [
      | inl e ↦ (λ _. inl (str_contains_sound super_roles first e), λ _. rw e)
      | inr e ↦ (
        λ h. inr ((extract_eval_tenant_iff tenant first).0 (rw e at h)),
        λ h. rw e (elim h [
          | inl m ↦ absurd (false≢true (sym e ∙ str_contains_complete super_roles first m))
          | inr c ↦ (extract_eval_tenant_iff tenant first).1 c
        ]),
      )
    ]

-- `VerifySubject` accepts a token for a tenant exactly if the first of the token's subjects is a
-- super role or acts for the tenant. The subjects behind the first comma are never looked at.
pub verify_subject_iff :
    (super_roles : List Text) (tenant first rest : Text)
    → Lacks b',' first
    → ((verify_subject super_roles tenant (first ++ b',' ∷ rest) ≡ true)
        ↔ (Memᴰ first super_roles ⊎ Covers tenant first))
      × ((verify_subject super_roles tenant first ≡ true)
          ↔ (Memᴰ first super_roles ⊎ Covers tenant first))
unfolding verify_subject
verify_subject_iff super_roles tenant first rest h = (
  rw (split-append first rest b',', split-Lacks first b',' h)
      (verify_from_iff super_roles tenant first (split rest b',')),
  rw (split-Lacks first b',' h) (verify_from_iff super_roles tenant first []),
)
