-- ===== src/Policy/TopicStats/Laws.antt =====
-- What the functions over topic statistics return.
use burnell.Prelude.{
  ℕ, zero, suc, ◌+◌, ◌-◌, ◌≤◌, ◌<◌, ◌^◌, min, ◌≡◌, refl, sym, ◌∙◌, ap, inl, inr, List, [], ◌∷◌,
  ◌++◌, map, Option, none, some, arith, if◌then◌else◌, length, take, drop, take-append-drop,
  length-take, length-drop, append_assoc, append-nil, Option-cases, Bool-cases,
}
use burnell.Prelude.Int.{ℤ, pos, negsuc, wrap, ◌+ℤ◌, wrap_pos}
use burnell.Text.{Text, ◌==◌}
use burnell.Text.Laws.{eq_iff}
use burnell.Assoc.{lookup, lookup-insert}
use burnell.Result.{ok, panic}
use burnell.Policy.TopicStats.{TopicStats, is_fresh, count_from, count_topics, append_to}
use burnell.Policy.TopicStats.Page.{page, slice}
use burnell.Policy.TopicStats.Brokers.{select_brokers, collect, Event, result}

-- The names of the fresh topics of a namespace, in the order of the rows.
unfoldable pub fresh_ids : {D : Type 0} → ℕ → Text → List (TopicStats D) → List Text
fresh_ids now namespace [] = []
fresh_ids now namespace (p ∷ rows) =
    let later = fresh_ids now namespace rows in
    if is_fresh now p then (if p.namespace == namespace then p.id ∷ later else later) else later

abbrev pub with_ids : Option (List Text) → List Text → Option (List Text)
with_ids none [] = none
with_ids none (id ∷ ids) = some (id ∷ ids)
with_ids (some topics) ids = some (topics ++ ids)

with_ids-nil : (o : Option (List Text)) → o ≡ with_ids o []
with_ids-nil none = refl
with_ids-nil (some topics) = ap some (sym (append-nil topics))

with_ids-cons :
    (o : Option (List Text)) (id : Text) (ids : List Text)
    → with_ids (some (elim o [ none ↦ id ∷ [] | some topics ↦ topics ++ id ∷ [] ])) ids
      ≡ with_ids o (id ∷ ids)
with_ids-cons none id ids = refl
with_ids-cons (some topics) id ids = ap some (append_assoc topics (id ∷ []) ids)

lookup-append_to :
    (namespace other id : Text) (namespaces : List (Text × List Text))
    → lookup other (append_to namespace namespaces id) ≡ (
        if namespace == other
        then some
            (elim (lookup other namespaces) [ none ↦ id ∷ [] | some topics ↦ topics ++ id ∷ [] ])
        else lookup other namespaces)
lookup-append_to namespace other id namespaces = elim (Option-cases (lookup namespace namespaces)) [
  | inl e ↦
      ground (arith, e, eq_iff namespace other, lookup-insert namespace other (id ∷ []) namespaces)
  | inr (topics, e) ↦ ground (
    arith,
    e,
    eq_iff namespace other,
    lookup-insert namespace other (topics ++ id ∷ []) namespaces,
  )
]

lookup-count_from :
    {D : Type 0} (now : ℕ) (namespace : Text) (acc : List (Text × List Text))
    (rows : List (TopicStats D))
    → lookup namespace (count_from now acc rows)
      ≡ with_ids (lookup namespace acc) (fresh_ids now namespace rows)
unfolding count_from fresh_ids
lookup-count_from now namespace acc [] = with_ids-nil (lookup namespace acc)
lookup-count_from now namespace acc (p ∷ rows) = elim (Bool-cases (is_fresh now p)) [
  | inr e ↦ rw (e, lookup-count_from now namespace acc rows) refl
  | inl e ↦ elim (Bool-cases (p.namespace == namespace)) [
    | inr n ↦
        rw
          (
            e,
            n,
            lookup-count_from now namespace (append_to p.namespace acc p.id) rows,
            lookup-append_to p.namespace namespace p.id acc,
            n,
          )
          refl
    | inl n ↦
        rw
          (
            e,
            n,
            lookup-count_from now namespace (append_to p.namespace acc p.id) rows,
            lookup-append_to p.namespace namespace p.id acc,
            n,
          )
          (with_ids-cons (lookup namespace acc) p.id (fresh_ids now namespace rows))
  ]
]

-- The loop over the answers, whatever their order: with all answers in time it returns them and the
-- status 200, and with the end of the time before the last answer those received and 500.
pub collect-results :
    {S : Type 0} (n : ℕ) (acc rs : List S) (events : List (Event S))
    → length rs ≡ suc n
    → collect (suc n) acc (map result rs ++ events) ≡ some (acc ++ rs, 200)
unfolding collect
collect-results n acc [] events h = ground arith
collect-results zero acc (r ∷ []) events h = refl
collect-results zero acc (r ∷ q ∷ rs) events h = ground arith
collect-results (suc n) acc (r ∷ rs) events h =
    rw
      (collect-results n (acc ++ r ∷ []) rs events (omega (arith, h)), append_assoc acc (r ∷ []) rs)
      refl

-- `CountTopics` of a tenant's rows counts all of them, and lists for each namespace the names of its
-- fresh topics in their order; a namespace without one is not listed.
pub count_topics-rows :
    {D : Type 0} (now : ℕ) (namespace : Text) (rows : List (TopicStats D))
    → (lookup namespace (count_topics now (some rows)).0
        ≡ with_ids none (fresh_ids now namespace rows))
      × ((count_topics now (some rows)).1 ≡ pos (length rows))
unfolding count_topics lookup
count_topics-rows now namespace rows = (lookup-count_from now namespace [] rows, refl)

slice-in_range :
    {A : Type 0} (xs : List A) (low high : ℕ)
    → low ≤ high
    → high ≤ length xs
    → slice xs (pos low) (pos high) ≡ ok (take (high - low) (drop low xs))
unfolding slice
slice-in_range xs low high h l = ground arith

wrap_sum : (low size : ℕ) → low + size < 2 ^ 63 → wrap (pos low +ℤ pos size) ≡ pos (low + size)
wrap_sum low size h = ground (arith, wrap_pos (low + size) h)

wrap_over :
    (low size : ℕ)
    → low < 2 ^ 63
    → size < 2 ^ 63
    → 2 ^ 63 ≤ low + size
    → wrap (pos low +ℤ pos size) ≡ negsuc (2 ^ 64 - 1 - (low + size))
wrap_over low size a b h = ground arith

-- The parts into which two bounds divide a list.
abbrev pub Window : {A : Type 0} → List A → ℕ → ℕ → List A → Type 0
Window {A} xs low size shown =
    (before : List A) × (after : List A) × (xs ≡ before ++ (shown ++ after))
    × (length before ≡ low)
    × (length shown ≡ min size (length xs - low))

take-Window :
    {A : Type 0} (xs : List A) (low size : ℕ)
    → low ≤ length xs
    → Window xs low size (take size (drop low xs))
take-Window xs low size h = (
  take low xs,
  drop size (drop low xs),
  sym (rw (take-append-drop size (drop low xs)) (take-append-drop low xs)),
  omega (arith, h, length-take low xs),
  omega (arith, length-take size (drop low xs), length-drop low xs),
)

module _ {D : Type 0} (no_data : D) (all_topics : List (Text × D)) (keys : List Text) where
  -- A negative offset makes `PaginateTopicStats` panic.
  pub page-negative :
      (m : ℕ) (page_size : ℤ) → page no_data all_topics keys (negsuc m) page_size ≡ panic
  unfolding page slice
  page-negative m page_size = ground arith

select_brokers-sliced :
    (brokers : List Text) (low high size : ℕ)
    → low < length brokers
    → 0 < size
    → low + size < 2 ^ 63
    → high ≡ min (low + size) (length brokers)
    → select_brokers brokers (pos low) (pos size)
      ≡ ok (take (high - low) (drop low brokers), pos high)
unfolding select_brokers
select_brokers-sliced brokers low high size h positive small e = ground (
  arith,
  wrap_sum low size small,
  slice-in_range brokers low high (omega (arith, h, e)) (omega (arith, e)),
)

-- With an offset to some broker, a positive limit and no overflow the brokers asked are the next
-- ones from the offset on, at most as many as the limit, and the new offset stands behind them.
pub select_brokers-Window :
    (brokers : List Text) (low size : ℕ)
    → low < length brokers
    → 0 < size
    → low + size < 2 ^ 63
    → (asked : List Text) × Window brokers low size asked
      × (select_brokers brokers (pos low) (pos size) ≡ ok (asked, pos (low + length asked)))
select_brokers-Window brokers low size h positive small =
    let high = min (low + size) (length brokers) in
    let asked = take (high - low) (drop low brokers) in
    let (before, after, parts, starts, counts) =
      take-Window brokers low (high - low) (omega (arith, h)) in
    (
      asked,
      (before, after, parts, starts, omega (arith, counts, h)),
      select_brokers-sliced brokers low high size h positive small refl
          ∙ ap (λ k. ok (asked, pos k)) (omega (arith, counts, h)),
    )

-- An offset and a limit below 2 ^ 63 with a sum beyond it make `AggregateBrokersStats` panic.
select_brokers-overflow :
    (brokers : List Text) (low size : ℕ)
    → low < length brokers
    → low < 2 ^ 63
    → size < 2 ^ 63
    → 2 ^ 63 ≤ low + size
    → select_brokers brokers (pos low) (pos size) ≡ panic
unfolding select_brokers slice
select_brokers-overflow brokers low size h a b over = ground (arith, wrap_over low size a b over)
