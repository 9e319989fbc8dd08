-- ===== src/Metrics/Federated/Filtering.antt =====
-- What `FilterFederatedMetrics` lets through.
use burnell.Prelude.{
  ℕ, ◌≡◌, refl, ◌∙◌, ◌⊎◌, inl, inr, Bool, true, false, not, ◌&&◌, List, [], ◌∷◌, ◌++◌, Option, none,
  some, filter, arith, Bool-cases,
}
use burnell.Text.{Text, codes, has_prefix, cut}
use burnell.Text.Laws.{has_prefix-append}
use burnell.Metrics.Federated.{
  is_type_def, is_of_subject, namespace_pattern, filter_lines, with_type_def,
}

module _ (match_string : Text → Text → Option Bool) (subject : Text) where
  abbrev type_def_at : Text → Bool
  type_def_at = is_type_def match_string subject

  abbrev of_subject_at : Text → Bool
  of_subject_at = is_of_subject match_string subject

  abbrev metric_of_subject : Text → Bool
  metric_of_subject text = not (type_def_at text) && of_subject_at text

  abbrev no_type_def : Text → Bool
  no_type_def text = not (type_def_at text)

  -- What waits to be written is a type definition, or nothing does.
  abbrev Waits : Text → Type 0
  Waits type_def = (type_def ≡ []) ⊎ (type_def_at type_def ≡ true)

  filter-with_type_def :
      (type_def text : Text) (rest : List Text)
      → Waits type_def
      → filter no_type_def (with_type_def type_def text rest) ≡ filter no_type_def (text ∷ rest)
  filter-with_type_def [] text rest w = refl
  filter-with_type_def (c ∷ type_def) text rest (inl e) = ground (arith, e)
  filter-with_type_def (c ∷ type_def) text rest (inr e) = rw e refl

  filter-filter_lines :
      (texts : List Text) (type_def : Text)
      → Waits type_def
      → filter no_type_def (filter_lines match_string subject type_def texts)
        ≡ filter metric_of_subject texts
  unfolding filter_lines
  filter-filter_lines [] type_def w = refl
  filter-filter_lines (text ∷ texts) type_def w = elim (Bool-cases (type_def_at text)) [
    | inl e ↦ rw (filter_lines, e) (filter-filter_lines texts text (inr e))
    | inr e ↦ elim (Bool-cases (of_subject_at text)) [
      | inr f ↦ rw (filter_lines, e, f) (filter-filter_lines texts type_def w)
      | inl f ↦
          rw (filter_lines, e, f)
            (filter-with_type_def type_def text (filter_lines match_string subject [] texts) w
              ∙ rw (e, filter-filter_lines texts [] (inl refl)) refl)
    ]
  ]

  -- Of the lines that are no type definitions, exactly those that match the subject's pattern are
  -- written, in their order.
  pub filter_lines-metrics :
      (texts : List Text)
      → filter no_type_def (filter_lines match_string subject [] texts)
        ≡ filter metric_of_subject texts
  filter_lines-metrics texts = filter-filter_lines texts [] (inl refl)

-- A text holds another one.
abbrev pub contains : Text → Text → Bool
contains s sub = elim (cut s sub) [ none ↦ false | some parts ↦ true ]

-- A pattern of a name without special characters is found where its text stands.
abbrev pub Literal : (Text → Text → Option Bool) → Text → Type 0
Literal match_string subject =
    (text : Text)
    → match_string (namespace_pattern subject) text
      ≡ some (contains text (codes ",namespace=\"" ++ subject))

contains-cons : (c : ℕ) (s sub : Text) → contains s sub ≡ true → contains (c ∷ s) sub ≡ true
unfolding cut
contains-cons c s sub h = ground (arith, h)

contains-prefix :
    (c : ℕ) (s sub : Text) → has_prefix (c ∷ s) sub ≡ true → contains (c ∷ s) sub ≡ true
unfolding cut
contains-prefix c s sub h = rw (contains, cut, h) refl

contains-append :
    (a b : Text) (c : ℕ) (sub : Text) → contains (a ++ ((c ∷ sub) ++ b)) (c ∷ sub) ≡ true
contains-append [] b c sub = contains-prefix c (sub ++ b) (c ∷ sub) (has_prefix-append (c ∷ sub) b)
contains-append (d ∷ a) b c sub =
    contains-cons d (a ++ ((c ∷ sub) ++ b)) (c ∷ sub) (contains-append a b c sub)

-- The metric of another tenant, whose name begins with the subject's, is let through.
pub filter_lines-leaks :
    (match_string : Text → Text → Option Bool) (subject a other rest : Text)
    → Literal match_string subject
    → is_type_def match_string subject
        (a ++ ((codes ",namespace=\"" ++ subject) ++ (other ++ (b'/' ∷ rest))))
      ≡ false
    → filter_lines match_string subject []
        ((a ++ ((codes ",namespace=\"" ++ subject) ++ (other ++ (b'/' ∷ rest)))) ∷ [])
      ≡ (a ++ ((codes ",namespace=\"" ++ subject) ++ (other ++ (b'/' ∷ rest)))) ∷ []
unfolding filter_lines
filter_lines-leaks match_string subject a other rest literal no_type =
    rw
      (
        filter_lines,
        no_type,
        literal (a ++ ((codes ",namespace=\"" ++ subject) ++ (other ++ (b'/' ∷ rest)))),
        contains-append a (other ++ (b'/' ∷ rest)) b',' (codes "namespace=\"" ++ subject),
      )
      refl
