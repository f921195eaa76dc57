-- ===== src/Graph/Contracts/Patterns/Paths.antt =====
-- Texts in which the search of canonical.py finds no path.
use codex_routecraft.Prelude.{
  ℕ, Bool, true, false, ◌||◌, String, List, [], ◌∷◌, ◌++◌, any, ◌≡◌, refl, ap, sym, subst, ◌∙◌, ◌⊎◌,
  inl, inr, arith,
}
use codex_routecraft.Core.Words.{codes}
use codex_routecraft.Graph.Contracts.Patterns.{
  after, found, exactly, is_letter, is_slash, is_absolute, starts_folder, has_folder, is_pathlike,
}
use codex_routecraft.Graph.Contracts.Patterns.Meaning.{Matched}

abbrev pub IsFolder : List ℕ → Type 0
IsFolder name = (name ≡ codes "Users") ⊎ (name ≡ codes "home") ⊎ (name ≡ codes "workspace")

-- No root, share or drive at the start, and nowhere one of three folders between slashes.
pub record HasNoPath (cs : List ℕ) : Type 0 where
  pub no_root : (rest : List ℕ) → cs ≡ b'/' ∷ rest → ⊥
  pub no_share : (rest : List ℕ) → cs ≡ 92 ∷ 92 ∷ rest → ⊥
  pub no_drive :
      (drive slash : ℕ) (rest : List ℕ)
      → is_letter drive ≡ true
      → is_slash slash ≡ true
      → cs ≡ drive ∷ b':' ∷ slash ∷ rest
      → ⊥
  pub no_folder :
      (front name rest : List ℕ) (a b : ℕ)
      → IsFolder name
      → is_slash a ≡ true
      → is_slash b ≡ true
      → cs ≡ front ++ (a ∷ (name ++ (b ∷ rest)))
      → ⊥

found-Matched :
    (tests : List (ℕ → Bool)) (front rest : List ℕ)
    → Matched tests front
    → found (after tests (front ++ rest)) ≡ true
unfolding after
found-Matched [] [] rest Matched.nothing = refl
found-Matched [] (c ∷ front) rest m = elim m [ ]
found-Matched (test ∷ tests) [] rest m = elim m [ ]
found-Matched (test ∷ tests) (c ∷ front) rest (Matched.next passes m) =
    rw passes (found-Matched tests front rest m)

starts_folder-name :
    (name rest : List ℕ) (a b : ℕ)
    → IsFolder name
    → is_slash a ≡ true
    → is_slash b ≡ true
    → starts_folder (a ∷ (name ++ (b ∷ rest))) ≡ true
unfolding starts_folder any after
starts_folder-name name rest a b folder before behind = elim folder [
  | inl users ↦
      subst (λ n. starts_folder (a ∷ (n ++ (b ∷ rest))) ≡ true) (sym users)
        (ground (arith, before, behind))
  | inr (inl home) ↦
      subst (λ n. starts_folder (a ∷ (n ++ (b ∷ rest))) ≡ true) (sym home)
        (ground (arith, before, behind))
  | inr (inr workspace) ↦
      subst (λ n. starts_folder (a ∷ (n ++ (b ∷ rest))) ≡ true) (sym workspace)
        (ground (arith, before, behind))
]

or_true : (b : Bool) → (b || true) ≡ true
or_true false = refl
or_true true = refl

has_folder-append : (front cs : List ℕ) → starts_folder cs ≡ true → has_folder (front ++ cs) ≡ true
unfolding has_folder
has_folder-append [] [] e = cc
has_folder-append [] (c ∷ cs) e = ap (λ b. b || has_folder cs) e
has_folder-append (c ∷ front) cs e =
    ap (λ b. starts_folder (c ∷ front ++ cs) || b) (has_folder-append front cs e) ∙ or_true _

refute : {b : Bool} → b ≡ true → b ≡ false → ⊥
refute h other = cc

absolute-root : (rest : List ℕ) → is_absolute (b'/' ∷ rest) ≡ true
unfolding is_absolute after
absolute-root rest = ground arith

absolute-share : (rest : List ℕ) → is_absolute (92 ∷ 92 ∷ rest) ≡ true
unfolding is_absolute after
absolute-share rest = ground arith

absolute-drive :
    (drive slash : ℕ) (rest : List ℕ)
    → is_letter drive ≡ true
    → is_slash slash ≡ true
    → is_absolute (drive ∷ b':' ∷ slash ∷ rest) ≡ true
unfolding is_absolute
absolute-drive drive slash rest letter then_slash =
    ap
      (λ b.
        b
        || found (after (exactly b'/' ∷ []) (drive ∷ b':' ∷ slash ∷ rest))
        || found (after (exactly 92 ∷ exactly 92 ∷ []) (drive ∷ b':' ∷ slash ∷ rest)))
      (found-Matched (is_letter ∷ exactly b':' ∷ is_slash ∷ []) (drive ∷ b':' ∷ slash ∷ []) rest
        (Matched.next letter (Matched.next refl (Matched.next then_slash Matched.nothing))))

pub is_pathlike-HasNoPath : (s : String) → is_pathlike s ≡ false → HasNoPath (codes s)
unfolding is_pathlike
is_pathlike-HasNoPath s e =
    let relative : is_absolute (codes s) ≡ false = ground (arith, e) in
    let unnamed : has_folder (codes s) ≡ false = ground (arith, e) in
    record {
      no_root = λ rest is.
          absurd (refute (absolute-root rest) (subst (λ cs. is_absolute cs ≡ false) is relative));
      no_share = λ rest is.
          absurd (refute (absolute-share rest) (subst (λ cs. is_absolute cs ≡ false) is relative));
      no_drive = λ drive slash rest letter then_slash is. absurd (
          refute (absolute-drive drive slash rest letter then_slash)
            (subst (λ cs. is_absolute cs ≡ false) is relative));
      no_folder = λ front name rest a b folder before behind is. absurd (
          refute
            (has_folder-append front (a ∷ (name ++ (b ∷ rest)))
              (starts_folder-name name rest a b folder before behind))
            (subst (λ cs. has_folder cs ≡ false) is unnamed));
    }
