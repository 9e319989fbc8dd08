-- ===== src/K8s/Laws.antt =====
-- What `CreateSecret` does to the secrets of the cluster.
use burnell.Prelude.{◌≡◌, refl, ◌⊎◌, inl, inr, true, false, List, arith, Bool-cases}
use burnell.Text.{Text}
use burnell.Text.Laws.{eq_iff, eq_refl}
use burnell.Result.{Result-cases, ok, err, panic}
use burnell.K8s.{Secret, KubeApi, Documented, is_at, get_secret, create_secret}

is_at_same : (ns n ns' n' : Text) → is_at ns n ns' n' ≡ true → (ns ≡ ns') × (n ≡ n')
is_at_same ns n ns' n' h = ground (arith, eq_iff ns ns', eq_iff n n')

pub is_at_refl : (ns n : Text) → is_at ns n ns n ≡ true
is_at_refl ns n = rw (eq_refl ns, eq_refl n) refl

module _ {S : Type 0} (api : KubeApi S) (d : Documented api) where
  created_elsewhere :
      (s : S) (ns ns' name' : Text) (secret made old : Secret)
      → (api.create s ns secret).1 ≡ ok made
      → api.get s ns' name' ≡ ok old
      → is_at ns secret.name ns' name' ≡ false
  created_elsewhere s ns ns' name' secret made old e h =
      elim (Bool-cases (is_at ns secret.name ns' name')) [
        | inr no_one ↦ no_one
        | inl same ↦
            let (same_ns, same_name) = is_at_same ns secret.name ns' name' same in
            absurd (d.taken s ns secret old made (rw (same_ns, same_name) h) e)
      ]

  create-keeps :
      (s : S) (ns : Text) (secret : Secret) (ns' name' : Text) (old : Secret)
      → api.get s ns' name' ≡ ok old
      → api.get (api.create s ns secret).0 ns' name' ≡ ok old
  create-keeps s ns secret ns' name' old h = elim (Result-cases (api.create s ns secret).1) [
    | inl (made, e) ↦
        rw
          (
            d.get_created s ns secret made ns' name' e,
            created_elsewhere s ns ns' name' secret made old e h,
          )
          h
    | inr (inl (message, e)) ↦ rw (d.not_created s ns secret message e) h
    | inr (inr e) ↦ absurd (d.no_panic s ns secret e)
  ]

  -- Whatever its result, it changes no secret that is there.
  pub create_secret-keeps :
      (s : S) (ns name : Text) (contents : List (Text × Text)) (ns' name' : Text) (old : Secret)
      → api.get s ns' name' ≡ ok old
      → api.get (create_secret api s ns name contents).0 ns' name' ≡ ok old
  unfolding create_secret
  create_secret-keeps s ns name contents ns' name' old h =
      create-keeps s ns (record { name = name; contents = contents }) ns' name' old h

  -- Where it succeeds, the secret is there.
  pub create_secret-made :
      (s : S) (ns name : Text) (contents : List (Text × Text))
      → (create_secret api s ns name contents).1 ≡ ok tt
      → get_secret api (create_secret api s ns name contents).0 ns name ≡ ok contents
  unfolding create_secret get_secret
  create_secret-made s ns name contents h =
      elim (Result-cases (api.create s ns (record { name = name; contents = contents })).1) [
        | inl (made, e) ↦
            rw
              (
                d.get_created s ns (record { name = name; contents = contents }) made ns name e,
                is_at_refl ns name,
              )
              refl
        | inr (inl (message, e)) ↦ cc (rw e at h)
        | inr (inr e) ↦ absurd (d.no_panic s ns (record { name = name; contents = contents }) e)
      ]

-- A cluster that answers every question and takes every secret whose name is free.
pub record Available {S : Type 0} (api : KubeApi S) : Type 0 where
  pub answers : (s : S) (ns name : Text) → ¬ (api.get s ns name ≡ panic)
  pub accepts :
      (s : S) (ns : Text) (secret : Secret) (message : Text)
      → api.get s ns secret.name ≡ err message
      → (api.create s ns secret).1 ≡ ok secret

-- What `GetSecret` answers tells what is stored.
pub get_secret-cases :
    {S : Type 0} (api : KubeApi S) (s : S) (ns name : Text)
    → Available api
    → ((secret : Secret) × (api.get s ns name ≡ ok secret)
        × (get_secret api s ns name ≡ ok secret.contents))
      ⊎ ((message : Text) × (api.get s ns name ≡ err message)
          × (get_secret api s ns name ≡ err message))
unfolding get_secret
get_secret-cases api s ns name a = elim (Result-cases (api.get s ns name)) [
  | inl (secret, e) ↦ inl (secret, e, rw e refl)
  | inr (inl (message, e)) ↦ inr (message, e, rw e refl)
  | inr (inr e) ↦ absurd (a.answers s ns name e)
]

-- A secret whose name is free is there once `CreateSecret` was called.
pub create_secret-free :
    {S : Type 0} (api : KubeApi S) (s : S) (ns name message : Text) (contents : List (Text × Text))
    → Documented api
    → Available api
    → api.get s ns name ≡ err message
    → api.get (create_secret api s ns name contents).0 ns name
      ≡ ok (record { name = name; contents = contents })
unfolding create_secret
create_secret-free api s ns name message contents d a e =
    let secret : Secret = record { name = name; contents = contents } in
    rw
      (
        d.get_created s ns secret secret ns name (a.accepts s ns secret message e),
        is_at_refl ns name,
      )
      refl

-- `CreateSecret` on a name that is taken changes nothing.
pub create_secret-taken :
    {S : Type 0} (api : KubeApi S) (s : S) (ns name : Text) (contents : List (Text × Text))
    (old : Secret)
    → Documented api
    → api.get s ns name ≡ ok old
    → (create_secret api s ns name contents).0 ≡ s
unfolding create_secret
create_secret-taken api s ns name contents old d e =
    let secret : Secret = record { name = name; contents = contents } in
    elim (Result-cases (api.create s ns secret).1) [
      | inl (made, f) ↦ absurd (d.taken s ns secret old made e f)
      | inr (inl (message, f)) ↦ d.not_created s ns secret message f
      | inr (inr f) ↦ absurd (d.no_panic s ns secret f)
    ]

-- `CreateSecret` on a free name leaves the other names as they are.
pub create_secret-elsewhere :
    {S : Type 0} (api : KubeApi S) (s : S) (ns name ns' name' message : Text)
    (contents : List (Text × Text))
    → Documented api
    → Available api
    → api.get s ns name ≡ err message
    → is_at ns name ns' name' ≡ false
    → api.get (create_secret api s ns name contents).0 ns' name' ≡ api.get s ns' name'
unfolding create_secret
create_secret-elsewhere api s ns name ns' name' message contents d a e other =
    let secret : Secret = record { name = name; contents = contents } in
    rw (d.get_created s ns secret secret ns' name' (a.accepts s ns secret message e), other) refl
