-- ===== src/Graph/Compiler/Paths.antt =====
-- `_reaches` of compiler.py, and paths of dependency edges.
use codex_routecraft.Prelude.{
  ℕ, zero, suc, ◌+◌, true, false, String, some, List, [], ◌∷◌, ◌++◌, ◌≡◌, ◌↔◌, refl, sym, subst,
  ◌∙◌, inl, inr, arith, contains, length, ◌==◌, ==_iff, Bool-cases,
}
use mathlib.Core.List.{reverse}
use mathlib.Core.Option.{some_inj}
use codex_routecraft.Graph.Types.{Edge}
use codex_routecraft.Graph.Closure.{
  Pairs, targets, walk, closure, closure-walk, Reaches, closure_iff,
}
use codex_routecraft.Graph.Compiler.{outgoing, search, reaches}

walk-keeps :
    (ps : Pairs) (fuel : ℕ) (stack seen r : List String) (y : String)
    → walk ps fuel stack seen ≡ some r
    → contains seen y ≡ true
    → contains r y ≡ true
unfolding walk contains
walk-keeps ps zero [] seen r y e h = rw (← some_inj.0 e) h
walk-keeps ps zero (x ∷ stack) seen r y e h = cc
walk-keeps ps (suc fuel) [] seen r y e h = rw (← some_inj.0 e) h
walk-keeps ps (suc fuel) (x ∷ stack) seen r y e h = elim (Bool-cases (contains seen x)) [
  | inl old ↦ walk-keeps ps fuel stack seen r y (rw (old, walk) at e) h
  | inr new ↦
      walk-keeps ps fuel (reverse (targets ps x) ++ stack) (x ∷ seen) r y (rw (new, walk) at e)
        (ground (arith, h))
]

-- The search that stops early and the one that goes on agree.
search-walk :
    (ps : Pairs) (t : String) (fuel : ℕ) (stack seen r : List String)
    → walk ps fuel stack seen ≡ some r
    → contains seen t ≡ false
    → search ps t fuel stack seen ≡ contains r t
unfolding walk search contains
search-walk ps t zero [] seen r e h = rw (← some_inj.0 e) (sym h)
search-walk ps t zero (x ∷ stack) seen r e h = cc
search-walk ps t (suc fuel) [] seen r e h = rw (← some_inj.0 e) (sym h)
search-walk ps t (suc fuel) (x ∷ stack) seen r e h = elim (Bool-cases (contains seen x)) [
  | inl old ↦ elim (Bool-cases (x == t)) [
    | inl hit ↦
        absurd (ground (arith, subst (λ k. contains seen k ≡ true) ((==_iff x t).0 hit) old, h))
    | inr miss ↦
        let rest = search-walk ps t fuel stack seen r (rw (old, walk) at e) h in rw (miss, old) rest
  ]
  | inr new ↦
      let e' = rw (new, walk) at e in
      let found = walk-keeps ps fuel (reverse (targets ps x) ++ stack) (x ∷ seen) r t e' in
      elim (Bool-cases (x == t)) [
        | inl hit ↦ rw hit (sym (found (ground (arith, hit))))
        | inr miss ↦
            let rest =
              search-walk ps t fuel (reverse (targets ps x) ++ stack) (x ∷ seen) r e'
                (ground (arith, miss, h)) in
            rw (miss, new) rest
      ]
]

-- The compiler's `_reaches` answers "yes" exactly where the target is a successor of the source
-- along the dependency edges, directly or through other nodes.
pub reaches_iff :
    (source target : String) (edges : List Edge)
    → (reaches source target edges ≡ true)
      ↔ Reaches (outgoing edges) (reverse (targets (outgoing edges) source)) target
unfolding reaches
reaches_iff source target edges =
    let ps = outgoing edges in
    let stack = reverse (targets ps source) in
    let same =
      search-walk ps target (length stack + length ps) stack [] (closure ps stack)
        (closure-walk ps stack) refl in
    let (sound, complete) = closure_iff ps stack target in
    (λ h. sound (sym same ∙ h), λ w. same ∙ complete w)
