-- ===== src/Graph/State/Change.antt =====
-- How a transition may change a node.
use codex_routecraft.Prelude.{
  ◌≤◌, ◌<◌, true, String, List, [], ◌∷◌, map, ◌≡◌, refl, ap, ◌∙◌, inl, inr, arith, All, Pointwise,
  Pointwise-refl, Pointwise-trans, contains, ◌==◌, Bool-cases,
}
use codex_routecraft.Graph.Types.{Node, RetryPolicy}
use codex_routecraft.Graph.Skip.{update_first, update_last}
use codex_routecraft.Graph.State.{is_ready}

-- A node was started at most as often as its policy allows, and less often if it is READY.
abbrev pub IsWithinBudget : Node → Type 0
IsWithinBudget n =
    (n.attempt ≤ n.retry_policy.max_attempts)
    × (is_ready n.status ≡ true → n.attempt < n.retry_policy.max_attempts)

pub record Change (n m : Node) : Type 0 where
  pub same_id : n.node_id ≡ m.node_id
  pub same_type : n.node_type ≡ m.node_type
  pub same_dependencies : n.dependencies ≡ m.dependencies
  pub same_tools : n.allowed_tools ≡ m.allowed_tools
  pub same_policy : n.retry_policy ≡ m.retry_policy
  pub budget : IsWithinBudget n → IsWithinBudget m

pub Change-refl : (n : Node) → Change n n
Change-refl n = record {
  same_id = refl;
  same_type = refl;
  same_dependencies = refl;
  same_tools = refl;
  same_policy = refl;
  budget = λ h. h;
}

pub Change-trans : (a b c : Node) → Change a b → Change b c → Change a c
Change-trans a b c p q = record {
  same_id = p.same_id ∙ q.same_id;
  same_type = p.same_type ∙ q.same_type;
  same_dependencies = p.same_dependencies ∙ q.same_dependencies;
  same_tools = p.same_tools ∙ q.same_tools;
  same_policy = p.same_policy ∙ q.same_policy;
  budget = λ h. q.budget (p.budget h);
}

abbrev pub Changes : List Node → List Node → Type 0
Changes = Pointwise Change

pub Changes-refl : (ns : List Node) → Changes ns ns
Changes-refl = Pointwise-refl Change Change-refl

pub Changes-trans : (xs ys zs : List Node) → Changes xs ys → Changes ys zs → Changes xs zs
Changes-trans = Pointwise-trans Change Change-trans

-- A step that clears the READY claim of a node and does not start it.
pub record IsQuiet (n m : Node) : Type 0 where
  pub same_id : n.node_id ≡ m.node_id
  pub same_type : n.node_type ≡ m.node_type
  pub same_dependencies : n.dependencies ≡ m.dependencies
  pub same_tools : n.allowed_tools ≡ m.allowed_tools
  pub same_policy : n.retry_policy ≡ m.retry_policy
  pub same_attempt : n.attempt ≡ m.attempt
  pub claim : is_ready m.status ≡ true → is_ready n.status ≡ true

pub IsQuiet-Change : (n m : Node) → IsQuiet n m → Change n m
IsQuiet-Change n m q = record {
  same_id = q.same_id;
  same_type = q.same_type;
  same_dependencies = q.same_dependencies;
  same_tools = q.same_tools;
  same_policy = q.same_policy;
  budget = λ h.
      let limit = ap (λ (p : RetryPolicy). p.max_attempts) q.same_policy in
      let attempts = q.same_attempt in
      (omega (arith, h.0), λ r. let below = h.1 (q.claim r) in omega arith);
}

pub update_first-Changes :
    (id : String) (f : Node → Node) (ns : List Node)
    → All (λ n. (n.node_id == id) ≡ true → Change n (f n)) ns
    → Changes ns (update_first id f ns)
unfolding update_first
update_first-Changes id f [] h = tt
update_first-Changes id f (n ∷ ns) h = elim (Bool-cases (n.node_id == id)) [
  | inl e ↦ rw e (h.0 e, Changes-refl ns)
  | inr e ↦ rw e (Change-refl n, update_first-Changes id f ns h.1)
]

pub update_last-Changes :
    (id : String) (f : Node → Node) (ns : List Node)
    → ((n : Node) → Change n (f n))
    → Changes ns (update_last id f ns)
unfolding update_last
update_last-Changes id f [] h = tt
update_last-Changes id f (n ∷ ns) h = elim (Bool-cases (contains (map (λ m. m.node_id) ns) id)) [
  | inl e ↦ rw e (Change-refl n, update_last-Changes id f ns h)
  | inr e ↦ rw e (elim (Bool-cases (n.node_id == id)) [
    | inl k ↦ rw k (h n, Changes-refl ns)
    | inr k ↦ rw k (Changes-refl (n ∷ ns))
  ])
]
