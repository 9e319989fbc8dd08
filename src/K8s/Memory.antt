-- ===== src/K8s/Memory.antt =====
-- A cluster in memory, as an association list of secrets by namespace and name, meets what the
-- Kubernetes API documents.
use burnell.Prelude.{◌≡◌, List, [], ◌∷◌, arith, if◌then◌else◌}
use burnell.Text.{Text, codes}
use burnell.Result.{Result, ok, err, panic}
use burnell.K8s.{Secret, KubeApi, Documented, is_at}
use burnell.K8s.Laws.{Available}

abbrev pub Memory : Type 0
Memory = List (Text × Secret)

unfoldable pub find : Memory → Text → Text → Result Secret
find [] ns name = err (codes "not found")
find ((ns', secret) ∷ s) ns name =
    let later = find s ns name in if is_at ns' secret.name ns name then ok secret else later

abbrev add_to : Memory → Text → Secret → Result Secret → Memory × Result Secret
add_to s ns secret (ok old) = (s, err (codes "already exists"))
add_to s ns secret (err message) = ((ns, secret) ∷ s, ok secret)
add_to s ns secret panic = ((ns, secret) ∷ s, ok secret)

unfoldable pub add : Memory → Text → Secret → Memory × Result Secret
add s ns secret = add_to s ns secret (find s ns secret.name)

abbrev pub memory_api : KubeApi Memory
memory_api = record { get = find; create = add }

created :
    (s : Memory) (ns : Text) (secret made : Secret) → (add s ns secret).1 ≡ ok made → made ≡ secret
unfolding add
created s ns secret made e = ground arith

get_created :
    (s : Memory) (ns : Text) (secret made : Secret) (ns' name' : Text)
    → (add s ns secret).1 ≡ ok made
    → find (add s ns secret).0 ns' name'
      ≡ (if is_at ns secret.name ns' name' then ok secret else find s ns' name')
unfolding add find
get_created s ns secret made ns' name' e = ground arith

not_created :
    (s : Memory) (ns : Text) (secret : Secret) (message : Text)
    → (add s ns secret).1 ≡ err message
    → (add s ns secret).0 ≡ s
unfolding add
not_created s ns secret message e = ground arith

no_panic : (s : Memory) (ns : Text) (secret : Secret) → ¬ ((add s ns secret).1 ≡ panic)
unfolding add
no_panic s ns secret e = ground arith

taken :
    (s : Memory) (ns : Text) (secret old made : Secret)
    → find s ns secret.name ≡ ok old
    → ¬ ((add s ns secret).1 ≡ ok made)
unfolding add
taken s ns secret old made f e = ground arith

pub memory-Documented : Documented memory_api
memory-Documented = record {
  created = created;
  get_created = get_created;
  not_created = not_created;
  no_panic = no_panic;
  taken = taken;
}

answers : (s : Memory) (ns name : Text) → ¬ (find s ns name ≡ panic)
unfolding find
answers [] ns name e = ground arith
answers ((ns', secret) ∷ s) ns name e = ground (arith, answers s ns name)

accepts :
    (s : Memory) (ns : Text) (secret : Secret) (message : Text)
    → find s ns secret.name ≡ err message
    → (add s ns secret).1 ≡ ok secret
unfolding add
accepts s ns secret message e = ground arith

pub memory-Available : Available memory_api
memory-Available = record { answers = answers; accepts = accepts }
