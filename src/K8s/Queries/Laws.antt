-- ===== src/K8s/Queries/Laws.antt =====
-- Which logs `GetPodLog` returns.
use computing_api.Base.{
  Bool, Bool-cases, List, Option, Str, [], ap, bind-eq-ok, false, if◌then◌else◌, inl, inr, none, ok,
  ok-injective, refl, some, str_eq, str_eq_iff, sym, text, true, ◌∙◌, ◌∷◌, ◌≡◌, ◌⊎◌,
}
use computing_api.K8s.Client.{ClientSet, Labels, Pod, label_of}
use computing_api.K8s.Queries.{get_pod_log, pod_logs, read_log, set_log}

twice :
    (b : Bool) (first second third : Option Str)
    → (if b then first else third) ≡ (if b then first else if b then second else third)
twice true first second third = refl
twice false first second third = refl

kept_apart :
    (k n node : Str) (found log : Option Str)
    → str_eq k n ≡ false
    → str_eq k node ≡ true
    → found ≡ (if str_eq n node then log else found)
kept_apart k n node found log apart here = elim (Bool-cases (str_eq n node)) [
  | inl there ↦
      let equal : k ≡ n = (str_eq_iff k node).0 here ∙ sym ((str_eq_iff n node).0 there) in
      let same = (str_eq_iff k n).1 equal in absurd cc
  | inr there ↦ rw there refl
]

set_log-same :
    (n node log l : Str) (rest logs : Labels)
    → label_of node rest ≡ (if str_eq n node then some log else label_of node logs)
    → (k : Str)
    → label_of node (if str_eq k n then (k, log) ∷ logs else (k, l) ∷ rest)
      ≡ (if str_eq n node then some log else label_of node ((k, l) ∷ logs))
unfolding label_of
set_log-same n node log l rest logs h k = elim (Bool-cases (str_eq k n)) [
  | inl same ↦
      rw (same, (str_eq_iff k n).0 same)
        (twice (str_eq n node) (some log) (some l) (label_of node logs))
  | inr apart ↦ rw apart (elim (Bool-cases (str_eq k node)) [
    | inl here ↦ rw here (kept_apart k n node (some l) (some log) apart here)
    | inr there ↦ rw there h
  ])
]

-- A log that is set is the one that is found, and the others stay.
label_of-set_log :
    (node n log : Str) (logs : Labels)
    → label_of node (set_log n log logs) ≡ (if str_eq n node then some log else label_of node logs)
unfolding label_of set_log
label_of-set_log node n log [] = refl
label_of-set_log node n log ((k, l) ∷ logs) =
    set_log-same n node log l (set_log n log logs) logs (label_of-set_log node n log logs) k

-- The pod on a node that is listed last.
abbrev or_this : Option Pod → Bool → Pod → Option Pod
or_this (some p) here pod = some p
or_this none true pod = some pod
or_this none false pod = none

unfoldable pub last_on : Str → List Pod → Option Pod
last_on node [] = none
last_on node (pod ∷ pods) = or_this (last_on node pods) (str_eq pod.node_name node) pod

module _ (k : ClientSet) (s : k.State) (node : Str) where
  -- The log of a node: that of a pod, or the one that was there where there is no pod.
  abbrev LogOf : Option Pod → Option Str → Option Str → Type 0
  LogOf (some pod) before found =
      (log : Str) × (read_log k (text "kube-system") pod.name s ≡ ok log) × (found ≡ some log)
  LogOf none before found = found ≡ before

  add-LogOf :
      (p : Option Pod) (here : Bool) (pod : Pod) (log : Str) (before found : Option Str)
      → read_log k (text "kube-system") pod.name s ≡ ok log
      → LogOf p (if here then some log else before) found
      → LogOf (or_this p here pod) before found
  add-LogOf (some p) here pod log before found read h = h
  add-LogOf none true pod log before found read h = (log, read, h)
  add-LogOf none false pod log before found read h = h

  pod_logs-LogOf :
      (pods : List Pod) (result logs : Labels)
      → pod_logs k pods result s ≡ ok logs
      → LogOf (last_on node pods) (label_of node result) (label_of node logs)
  unfolding pod_logs last_on
  pod_logs-LogOf [] result logs h = ap (label_of node) (sym (ok-injective h))
  pod_logs-LogOf (pod ∷ pods) result logs h =
      let (log, read, rest) =
        bind-eq-ok (read_log k (text "kube-system") pod.name s)
          (λ buf. pod_logs k pods (set_log pod.node_name buf result) s) h in
      let later = pod_logs-LogOf pods (set_log pod.node_name log result) logs rest in
      add-LogOf (last_on node pods) (str_eq pod.node_name node) pod log _ _ read
        (rw (label_of-set_log node pod.node_name log result) at later)

  found_or_none :
      (p : Option Pod) (found : Option Str)
      → LogOf p none found
      → ((p ≡ none) × (found ≡ none))
        ⊎ ((pod : Pod) × (log : Str) × (p ≡ some pod)
            × (read_log k (text "kube-system") pod.name s ≡ ok log)
            × (found ≡ some log))
  found_or_none none found h = inl (refl, h)
  found_or_none (some pod) found (log, read, e) = inr (pod, log, refl, read, e)

-- Where `GetPodLog` returns logs, the list of the exporters could be read, and each node has an entry
-- where an exporter is listed on it, and no other: what could be read of the log of the one that is
-- listed last.
pub get_pod_log_lem :
    (k : ClientSet) (s : k.State) (logs : Labels) (node : Str)
    → get_pod_log k s ≡ ok logs
    → (pods : List Pod) × (k.list_pods (text "kube-system") (text "app=resource-exporter") s
        ≡ ok pods)
      × (((last_on node pods ≡ none) × (label_of node logs ≡ none))
          ⊎ ((pod : Pod) × (log : Str) × (last_on node pods ≡ some pod)
              × (read_log k (text "kube-system") pod.name s ≡ ok log)
              × (label_of node logs ≡ some log)))
unfolding get_pod_log label_of
get_pod_log_lem k s logs node h =
    let (pods, listed, rest) =
      bind-eq-ok (k.list_pods (text "kube-system") (text "app=resource-exporter") s)
        (λ pods. pod_logs k pods [] s) h in
    (
      pods,
      listed,
      found_or_none k s node (last_on node pods) (label_of node logs)
          (pod_logs-LogOf k s node pods [] logs rest),
    )
