-- ===== src/Graph/Compiler/Orders.antt =====
-- routecraft_graph/compiler.py: reachability from the roots, transitive order, the topological
-- order, and the compatibility of data contracts.
use codex_routecraft.Prelude.{
  ℕ, zero, suc, ◌+◌, ◌-◌, Bool, true, false, not, ◌&&◌, ◌||◌, String, Option, none, some, List, [],
  ◌∷◌, ◌++◌, map, keep, all, any, count, contains, sorted, length, ◌==◌, if◌then◌else◌,
}
use mathlib.Core.List.{reverse}
use codex_routecraft.Graph.Types.{Edge, Scalar, Schema, Properties, in_dependency_edge_types}
use codex_routecraft.Graph.Closure.{Pairs, targets}
use codex_routecraft.Graph.Compiler.{outgoing}
use codex_routecraft.Graph.Compiler.Cycle.{inner}

-- The nodes that no dependency edge leads to.
unfoldable pub roots : List String → List Edge → List String
unfolding keep any sorted ◌==◌
roots ids edges = sorted (
    keep (λ id. not (any (λ e. in_dependency_edge_types e.edge_type && (e.target == id)) edges))
      ids)

-- `for target in ...: if target not in seen: seen.add(target); stack.append(target)`
unfoldable pub push_new : List String → List String → List String → List String × List String
unfolding contains
push_new [] stack seen = (stack, seen)
push_new (t ∷ ts) stack seen =
    let old = push_new ts stack seen in
    let new = push_new ts (t ∷ stack) (t ∷ seen) in if contains seen t then old else new

-- The loop of `_reachable`, which marks a node when it is pushed. The top of the stack is its head.
unfoldable pub spread : Pairs → ℕ → List String → List String → List String
unfolding push_new targets
spread ps zero stack seen = seen
spread ps (suc fuel) [] seen = seen
spread ps (suc fuel) (x ∷ stack) seen =
    let next = push_new (targets ps x) stack seen in spread ps fuel next.0 next.1

-- A node is pushed once, and a target of an edge at most once for each edge.
unfoldable pub reachable : List String → List Edge → List String
unfolding roots spread outgoing
reachable ids edges =
    let start = roots ids edges in
    spread (outgoing edges) (length start + length (outgoing edges)) (reverse start) start

-- `reaches` inside `_ordered_transitively`: the source itself is never an answer.
unfoldable pub search_other : Pairs → String → String → ℕ → List String → List String → Bool
unfolding targets contains ◌==◌
search_other ps source target zero stack seen = false
search_other ps source target (suc fuel) [] seen = false
search_other ps source target (suc fuel) (x ∷ stack) seen =
    let again = search_other ps source target fuel stack seen in
    let more = search_other ps source target fuel (reverse (targets ps x) ++ stack) (x ∷ seen) in
    if (x == target) && not (x == source) then true else if contains seen x then again else more

unfoldable pub reaches_other : String → String → List Edge → Bool
unfolding search_other outgoing
reaches_other source target edges =
    let ps = outgoing edges in search_other ps source target (suc (length ps)) (source ∷ []) []

unfoldable pub ordered_transitively : String → String → List Edge → Bool
unfolding reaches_other
ordered_transitively left right edges =
    reaches_other left right edges || reaches_other right left edges

-- The dictionary `incoming`: the counts that are left.
abbrev pub Counts : Type 0
Counts = List (String × ℕ)

unfoldable pub count_at : Counts → String → ℕ
unfolding ◌==◌
count_at [] id = 0
count_at ((k, n) ∷ cs) id = if k == id then n else count_at cs id

-- `incoming[target] -= 1`: no count is lowered below zero, since it counts the edges.
unfoldable pub lower_count : Counts → String → Counts
unfolding ◌==◌
lower_count [] id = []
lower_count ((k, n) ∷ cs) id = if k == id then (k, n - 1) ∷ cs else (k, n) ∷ lower_count cs id

-- The inner loop: the targets of a node that joined the order.
unfoldable pub release : List String → Counts → List String → Counts × List String
unfolding lower_count count_at sorted
release [] counts ready = (counts, ready)
release (t ∷ ts) counts ready =
    let left = lower_count counts t in
    let freed = release ts left (sorted (ready ++ t ∷ [])) in
    let waits = release ts left ready in elim (count_at left t) [ zero ↦ freed | suc _ ↦ waits ]

unfoldable pub order_loop : Pairs → ℕ → Counts → List String → List String
unfolding release targets sorted
order_loop ps zero counts ready = []
order_loop ps (suc fuel) counts [] = []
order_loop ps (suc fuel) counts (x ∷ ready) =
    let next = release (sorted (targets ps x)) counts ready in x ∷ order_loop ps fuel next.0 next.1

unfoldable pub initial_counts : List String → Pairs → Counts
unfolding count ◌==◌
initial_counts ids ps = map (λ id. (id, count (λ p. p.1 == id) ps)) ids

abbrev pub is_zero : ℕ → Bool
is_zero zero = true
is_zero (suc _) = false

-- Each round takes a node out of `ready`, and a node is put there once.
unfoldable pub topological_order : List String → List Edge → List String
unfolding order_loop initial_counts count_at inner keep sorted
topological_order ids edges =
    let ps = inner ids edges in
    let counts = initial_counts ids ps in
    order_loop ps (length ids) counts (sorted (keep (λ id. is_zero (count_at counts id)) ids))

-- `schema.get("type")`
abbrev pub scalar_text : Scalar → String
scalar_text Scalar.string = "string"
scalar_text Scalar.integer = "integer"
scalar_text Scalar.number = "number"
scalar_text Scalar.boolean = "boolean"
scalar_text Scalar.null = "null"

abbrev pub schema_type : Schema → String
schema_type (Schema.scalar s) = scalar_text s
schema_type Schema.array = "array"
schema_type (Schema.array_of _) = "array"
schema_type (Schema.object _ _) = "object"

-- `properties[name]["type"]`, where the name is a key: no key stands twice in a dictionary.
unfoldable pub property_type : Properties → String → Option String
unfolding ◌==◌
property_type Properties.end name = none
property_type (Properties.property key schema more) name =
    if key == name then some (schema_type schema) else property_type more name

-- A required name that the consumer does not describe has the type `None`, which no schema has.
unfoldable pub same_type : Option String → Option String → Bool
unfolding ◌==◌
same_type (some a) (some b) = a == b
same_type _ _ = false

unfoldable pub schema_compatible : Schema → Schema → Bool
unfolding property_type same_type all ◌==◌
schema_compatible (Schema.object p _) (Schema.object c required) =
    all (λ name. same_type (property_type p name) (property_type c name)) required
schema_compatible producer consumer = schema_type producer == schema_type consumer
