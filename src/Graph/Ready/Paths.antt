-- ===== src/Graph/Ready/Paths.antt =====
-- The critical paths of scheduler.py, along a numbering of the nodes.
use codex_routecraft.Prelude.{
  ℕ, zero, suc, ◌≤◌, ◌<◌, true, String, List, [], ◌∷◌, ◌≡◌, refl, sym, ap, subst, ◌∙◌, inl, inr,
  arith, Result, ok, ◌>>=◌, >>=-eq-ok, ok-injective, contains, contains-sorted, contains-nil,
  contains-cons, contains-head, contains-tail, contains-other, sorted, length, Bool-cases, ◌==◌,
  ==_iff,
}
use Prim.Native.Nat.{max}
use codex_routecraft.Graph.Types.{Graph, GraphError}
use codex_routecraft.Graph.Closure.{Pairs, targets}
use codex_routecraft.Graph.Scheduler.{dependencies, dependency_keys, children}
use codex_routecraft.Graph.Scheduler.Downstream.{contains-children, dependencies-key}
use codex_routecraft.Graph.Ready.{longest, path_length, measure, critical_path_lengths, length_at}

longest-le :
    (f : String → Result GraphError ℕ) (cs : List String) (m : ℕ) (c : String)
    → longest f cs ≡ ok m
    → contains cs c ≡ true
    → (k : ℕ) × (f c ≡ ok k) × (k ≤ m)
unfolding longest contains
longest-le f [] m c e h = cc
longest-le f (d ∷ cs) m c e h =
    let (a, first, more) = >>=-eq-ok (f d) (λ a. longest f cs >>= λ b. ok (max a b)) e in
    let (b, rest, last) = >>=-eq-ok (longest f cs) (λ b. ok (max a b)) more in
    let total : max a b ≡ m = ok-injective last in
    elim (contains-cons d c cs h) [
      | inl same ↦ (a, ap f (sym same) ∙ first, omega arith)
      | inr later ↦ let (k, is, bound) = longest-le f cs b c rest later in (k, is, omega arith)
    ]

longest-total :
    (f : String → Result GraphError ℕ) (bound : ℕ) (cs : List String)
    → ((c : String) → contains cs c ≡ true → (k : ℕ) × (f c ≡ ok k) × (k ≤ bound))
    → (m : ℕ) × (longest f cs ≡ ok m) × (m ≤ bound)
unfolding longest
longest-total f bound [] all = (0, refl, omega arith)
longest-total f bound (c ∷ cs) all =
    let (a, is_a, below_a) = all c (contains-head c cs) in
    let (b, is_b, below_b) = longest-total f bound cs (λ d h. all d (contains-tail c d cs h)) in
    (max a b, rw (is_a, is_b), omega arith)

-- `rank` numbers the nodes so that every dependency goes up: there is no cycle.
abbrev pub IsRanking : Pairs → (String → ℕ) → Type 0
IsRanking ps rank = (x y : String) → contains (targets ps x) y ≡ true → rank y < rank x

path_length-total :
    (ps : Pairs) (rank : String → ℕ)
    → IsRanking ps rank
    → (fuel : ℕ) (id : String) → rank id < fuel
    → (n : ℕ) × (path_length ps fuel id ≡ ok n) × (n ≤ suc (rank id))
unfolding path_length
path_length-total ps rank up zero id h = absurd (omega arith)
path_length-total ps rank up (suc fuel) id h =
    let (m, is, bound) = longest-total (path_length ps fuel) (rank id) (targets ps id) (λ c child.
      let lower = up id c child in
      let (k, is_k, below) = path_length-total ps rank up fuel c (omega arith) in
      (k, is_k, omega arith)) in
    (suc m, rw is, omega arith)

longest_mono :
    (f h : String → Result GraphError ℕ) (cs : List String) (m : ℕ)
    → ((c : String) (k : ℕ) → f c ≡ ok k → h c ≡ ok k)
    → longest f cs ≡ ok m
    → longest h cs ≡ ok m
unfolding longest
longest_mono f h [] m up e = e
longest_mono f h (c ∷ cs) m up e =
    let (a, first, more) = >>=-eq-ok (f c) (λ a. longest f cs >>= λ b. ok (max a b)) e in
    let (b, rest, last) = >>=-eq-ok (longest f cs) (λ b. ok (max a b)) more in
    rw (up c a first, longest_mono f h cs b up rest) last

path_length-step :
    (ps : Pairs) (fuel : ℕ) (id : String) (n : ℕ)
    → path_length ps (suc fuel) id ≡ ok n
    → (m : ℕ) × (longest (path_length ps fuel) (targets ps id) ≡ ok m) × (suc m ≡ n)
unfolding path_length
path_length-step ps fuel id n e =
    let (m, is, last) =
      >>=-eq-ok (longest (path_length ps fuel) (targets ps id)) (λ m. ok (suc m)) e in
    (m, is, ok-injective last)

path_length_of_longest :
    (ps : Pairs) (fuel : ℕ) (id : String) (m : ℕ)
    → longest (path_length ps fuel) (targets ps id) ≡ ok m
    → path_length ps (suc fuel) id ≡ ok (suc m)
unfolding path_length
path_length_of_longest ps fuel id m e = rw e

-- More fuel does not change an answer.
path_length-suc :
    (ps : Pairs) (fuel : ℕ) (id : String) (n : ℕ)
    → path_length ps fuel id ≡ ok n
    → path_length ps (suc fuel) id ≡ ok n
path_length-suc ps zero id n e = unfold path_length in cc
path_length-suc ps (suc fuel) id n e =
    let (m, is, last) = path_length-step ps fuel id n e in
    let longer =
      longest_mono (path_length ps fuel) (path_length ps (suc fuel)) (targets ps id) m
        (path_length-suc ps fuel) is in
    path_length_of_longest ps (suc fuel) id m longer ∙ ap ok last

-- The path from a node is longer than the path from each node that depends on it.
path_length-child :
    (ps : Pairs) (fuel : ℕ) (x y : String) (n : ℕ)
    → path_length ps fuel x ≡ ok n
    → contains (targets ps x) y ≡ true
    → (k : ℕ) × (path_length ps fuel y ≡ ok k) × (k < n)
path_length-child ps zero x y n e h = unfold path_length in cc
path_length-child ps (suc fuel) x y n e h =
    let (m, is, last) = path_length-step ps fuel x n e in
    let (k, is_k, below) = longest-le (path_length ps fuel) (targets ps x) m y is h in
    (k, path_length-suc ps fuel y k is_k, omega arith)

measure-cons :
    (ps : Pairs) (fuel : ℕ) (id : String) (ids : List String) (ls : List (String × ℕ))
    → measure ps fuel (id ∷ ids) ≡ ok ls
    → (n : ℕ) × (rest : List (String × ℕ)) × (path_length ps fuel id ≡ ok n)
      × (measure ps fuel ids ≡ ok rest)
      × ((id, n) ∷ rest ≡ ls)
unfolding measure
measure-cons ps fuel id ids ls e =
    let (n, is, more) =
      >>=-eq-ok (path_length ps fuel id) (λ n. measure ps fuel ids >>= λ rest. ok ((id, n) ∷ rest))
        e in
    let (rest, are, last) = >>=-eq-ok (measure ps fuel ids) (λ rest. ok ((id, n) ∷ rest)) more in
    (n, rest, is, are, ok-injective last)

-- The table holds the path length of each of its keys.
length_at-measure :
    (ps : Pairs) (fuel : ℕ) (ids : List String) (ls : List (String × ℕ)) (id : String)
    → measure ps fuel ids ≡ ok ls
    → contains ids id ≡ true
    → path_length ps fuel id ≡ ok (length_at ls id)
unfolding length_at
length_at-measure ps fuel [] ls id e h = absurd (contains-nil id h)
length_at-measure ps fuel (k ∷ ids) ls id e h =
    let (n, rest, is, are, last) = measure-cons ps fuel k ids ls e in
    subst (λ l. path_length ps fuel id ≡ ok (length_at l id)) last
      (elim (Bool-cases (k == id)) [
        | inl same ↦ rw same (ap (path_length ps fuel) (sym ((==_iff k id).0 same)) ∙ is)
        | inr other ↦
            rw other (length_at-measure ps fuel ids rest id are (contains-other k id ids other h))
      ])

measure-total :
    (ps : Pairs) (fuel : ℕ) (ids : List String)
    → ((id : String) → contains ids id ≡ true → (n : ℕ) × (path_length ps fuel id ≡ ok n))
    → (ls : List (String × ℕ)) × (measure ps fuel ids ≡ ok ls)
unfolding measure
measure-total ps fuel [] all = ([], refl)
measure-total ps fuel (id ∷ ids) all =
    let (n, is) = all id (contains-head id ids) in
    let (rest, are) = measure-total ps fuel ids (λ k h. all k (contains-tail id k ids h)) in
    ((id, n) ∷ rest, rw (is, are))

-- Where a node needs another, the critical path of the other is longer.
pub critical_path_lengths-lt :
    (g : Graph) (ls : List (String × ℕ)) (x y : String)
    → critical_path_lengths g ≡ ok ls
    → contains (dependency_keys g) x ≡ true
    → contains (dependencies g y) x ≡ true
    → length_at ls y < length_at ls x
unfolding critical_path_lengths
critical_path_lengths-lt g ls x y e key h =
    let ps = children g in
    let ids = dependency_keys g in
    let fuel = suc (length ids) in
    let at_x = length_at-measure ps fuel (sorted ids) ls x e (contains-sorted ids x ∙ key) in
    let at_y =
      length_at-measure ps fuel (sorted ids) ls y e
        (contains-sorted ids y ∙ dependencies-key g x y h) in
    let (k, is_k, below) =
      path_length-child ps fuel x y (length_at ls x) at_x (contains-children g x y ∙ h) in
    let same : k ≡ length_at ls y = ok-injective (sym is_k ∙ at_y) in omega arith

-- If the nodes can be numbered, by numbers up to their count, so that each node's number is above
-- the numbers of those that need it, the recursion ends and every critical path is found.
pub critical_path_lengths-total :
    (g : Graph) (rank : String → ℕ)
    → ((x y : String) → contains (dependencies g y) x ≡ true → rank y < rank x)
    → ((x : String) → contains (dependency_keys g) x ≡ true → rank x ≤ length (dependency_keys g))
    → (ls : List (String × ℕ)) × (critical_path_lengths g ≡ ok ls)
unfolding critical_path_lengths
critical_path_lengths-total g rank up bounded =
    let ps = children g in
    let ids = dependency_keys g in
    measure-total ps (suc (length ids)) (sorted ids) (λ id h.
      let low = bounded id (sym (contains-sorted ids id) ∙ h) in
      let (n, is, _) =
        path_length-total ps rank (λ x y c. up x y (sym (contains-children g x y) ∙ c))
          (suc (length ids)) id (omega arith) in
      (n, is))
