-- ===== src/Core/Capabilities/Declared.antt =====
-- The scopes of a registry that a capability's answer rests on.
use codex_routecraft.Prelude.{
  Bool, true, false, ◌&&◌, String, Option, none, some, List, [], ◌∷◌, ◌≡◌, refl, sym, arith, subst,
  ap, ◌⊎◌, inl, inr, ◌∙◌, any, ◌==◌, Bool-cases, Option-cases,
}
use codex_routecraft.Core.Capabilities.{
  Registry, Capabilities, ProviderCapability, HostCapability, ModelCapability, capability,
  find_provider, find_host, find_model, state_of, model_states, host_states, merge_states,
  most_specific, is_declared_false,
}

-- A state that stands in a list of states.
pub data IsAmong (s : Option Bool) : List (Option Bool) → Type 0 where
  here : {ss : List (Option Bool)} → IsAmong s (s ∷ ss)
  there : {t : Option Bool} {ss : List (Option Bool)} → IsAmong s ss → IsAmong s (t ∷ ss)

most_specific-IsAmong :
    (ss : List (Option Bool)) (b : Bool) → most_specific ss ≡ some b → IsAmong (some b) ss
unfolding most_specific
most_specific-IsAmong [] b e = absurd (ground arith)
most_specific-IsAmong (none ∷ ss) b e = there (most_specific-IsAmong ss b e)
most_specific-IsAmong (some a ∷ ss) b e = subst (λ s. IsAmong s (some a ∷ ss)) e here

any-false-IsAmong :
    (ss : List (Option Bool)) → any is_declared_false ss ≡ true → IsAmong (some false) ss
unfolding any
any-false-IsAmong [] e = absurd (ground arith)
any-false-IsAmong (some false ∷ ss) e = here
any-false-IsAmong (some true ∷ ss) e = there (any-false-IsAmong ss e)
any-false-IsAmong (none ∷ ss) e = there (any-false-IsAmong ss e)

IsAmong-any : (ss : List (Option Bool)) → IsAmong (some false) ss → any is_declared_false ss ≡ true
unfolding any
IsAmong-any [] m = elim m [ ]
IsAmong-any (s ∷ ss) here = refl
IsAmong-any (s ∷ ss) (there m) = ground (arith, IsAmong-any ss m)

-- The answer to a question about `available` is never "yes" where one scope says "no".
merge_states-IsAmong :
    (name : String) (ss : List (Option Bool)) (b : Bool)
    → merge_states name ss ≡ some b
    → IsAmong (some b) ss × ((name == "available") ≡ true → IsAmong (some false) ss → b ≡ false)
unfolding merge_states
merge_states-IsAmong name ss b e =
    elim (Bool-cases ((name == "available") && any is_declared_false ss)) [
      | inl down ↦
          let no : b ≡ false = ground (arith, down, e) in
          let found : any is_declared_false ss ≡ true = ground (arith, down) in
          (subst (λ x. IsAmong (some x) ss) (sym no) (any-false-IsAmong ss found), λ _ _. no)
      | inr up ↦ (
        most_specific-IsAmong ss b (rw up at e),
        λ n m. absurd (ground (arith, up, n, IsAmong-any ss m)),
      )
    ]

-- The host `h` of the provider, where a host is asked for.
abbrev pub AsksHost : ProviderCapability → Option String → HostCapability → Type 0
AsksHost p host found = (h : String) × (host ≡ some h) × (find_host p h ≡ some found)

abbrev pub AsksModel : HostCapability → Option String → ModelCapability → Type 0
AsksModel h model found = (m : String) × (model ≡ some m) × (find_model h m ≡ some found)

-- The declarations of a scope that a question about a provider, a host and a model covers: the
-- provider's own, the host's, or the model's.
abbrev pub IsScope : ProviderCapability → Option String → Option String → Capabilities → Type 0
IsScope p host model c =
    (c ≡ p.capabilities)
    ⊎ (h : HostCapability) × AsksHost p host h
      × ((c ≡ h.capabilities) ⊎ (m : ModelCapability) × AsksModel h model m × (c ≡ m.capabilities))

-- The states are just those that the scopes declare.
pub record AreDeclared (name : String) (p : ProviderCapability) (host model : Option String)
    (states : List (Option Bool)) : Type 0 where
  pub sound :
      (s : Option Bool)
      → IsAmong s states
      → (c : Capabilities) × IsScope p host model c × (state_of c name ≡ s)
  pub complete : (c : Capabilities) → IsScope p host model c → IsAmong (state_of c name) states

IsAmong-cons :
    (s t : Option Bool) (ss : List (Option Bool)) → IsAmong s (t ∷ ss) → (t ≡ s) ⊎ IsAmong s ss
IsAmong-cons s t ss here = inl refl
IsAmong-cons s t ss (there m) = inr m

IsAmong-nil : (s : Option Bool) → IsAmong s [] → ⊥
IsAmong-nil s m = elim m [ ]

some-injective : {A : Type 0} {a b : A} → some a ≡ some b → a ≡ b
some-injective e = cc

none-neq-some : {A : Type 0} {a : A} → ◌≡◌ {A = Option A} none (some a) → ⊥
none-neq-some e = cc

module _ (name : String) (p : ProviderCapability) where
  provider-AreDeclared : AreDeclared name p none none (state_of p.capabilities name ∷ [])
  provider-AreDeclared = record {
    sound = λ s m. elim (IsAmong-cons s (state_of p.capabilities name) [] m) [
      | inl is ↦ (p.capabilities, inl refl, is)
      | inr rest ↦ absurd (IsAmong-nil s rest)
    ];
    complete = λ c scope. elim scope [
      | inl is ↦
          subst (λ d. IsAmong (state_of d name) (state_of p.capabilities name ∷ [])) (sym is) here
      | inr (h, (asked, same, found), rest) ↦ absurd (none-neq-some same)
    ];
  }

  module _ (h : String) (host : HostCapability) (listed : find_host p h ≡ some host) where
    -- A host that is asked for is the one that is found.
    only_host : (other : HostCapability) → AsksHost p (some h) other → host ≡ other
    only_host other (asked, same, is) =
        some-injective (sym listed ∙ ap (find_host p) (some-injective same) ∙ is)

    abbrev states_of : List (Option Bool)
    states_of = state_of host.capabilities name ∷ state_of p.capabilities name ∷ []

    host_sound :
        (model : Option String) (s : Option Bool)
        → IsAmong s states_of
        → (c : Capabilities) × IsScope p (some h) model c × (state_of c name ≡ s)
    host_sound model s m =
        elim (IsAmong-cons s (state_of host.capabilities name) (state_of p.capabilities name ∷ [])
          m) [
            | inl is ↦ (host.capabilities, inr (host, (h, refl, listed), inl refl), is)
            | inr rest ↦ elim (IsAmong-cons s (state_of p.capabilities name) [] rest) [
              | inl is ↦ (p.capabilities, inl refl, is)
              | inr end ↦ absurd (IsAmong-nil s end)
            ]
          ]

    host-AreDeclared : AreDeclared name p (some h) none states_of
    host-AreDeclared = record {
      sound = host_sound none;
      complete = λ c scope. elim scope [
        | inl is ↦ subst (λ d. IsAmong (state_of d name) states_of) (sym is) (there here)
        | inr (other, asks, inl is) ↦
            subst (λ d. IsAmong (state_of d name) states_of)
              (ap (λ x. x.capabilities) (only_host other asks) ∙ sym is) here
        | inr (other, asks, inr (model, (m, same, found), is)) ↦ absurd (none-neq-some same)
      ];
    }

    model-AreDeclared :
        (m : String) (model : ModelCapability)
        → find_model host m ≡ some model
        → AreDeclared name p (some h) (some m) (state_of model.capabilities name ∷ states_of)
    model-AreDeclared m model known = record {
      sound = λ s among. elim (IsAmong-cons s (state_of model.capabilities name) states_of among) [
        | inl is ↦ (
          model.capabilities,
          inr (host, (h, refl, listed), inr (model, (m, refl, known), refl)),
          is,
        )
        | inr rest ↦ host_sound (some m) s rest
      ];
      complete = λ c scope. elim scope [
        | inl is ↦ subst (among_all m model) (sym is) (there (there here))
        | inr (other, asks, inl is) ↦
            subst (among_all m model) (ap (λ x. x.capabilities) (only_host other asks) ∙ sym is)
              (there here)
        | inr (other, asks, inr (that, (asked, same, found), is)) ↦
            let one : model ≡ that = some-injective (
              sym known
              ∙ ap (λ x. find_model x m) (only_host other asks)
              ∙ ap (find_model other) (some-injective same)
              ∙ found) in
            subst (among_all m model) (ap (λ x. x.capabilities) one ∙ sym is) here
      ];
    }
      where
        among_all : String → ModelCapability → Capabilities → Type 0
        among_all m model d =
            IsAmong (state_of d name) (state_of model.capabilities name ∷ states_of)

model_states-AreDeclared :
    (name : String) (p : ProviderCapability) (h : String) (found : HostCapability)
    (model : Option String) (states : List (Option Bool))
    → find_host p h ≡ some found
    → model_states name
        (state_of found.capabilities name ∷ state_of p.capabilities name ∷ [])
        found
        model
      ≡ some states
    → AreDeclared name p (some h) model states
unfolding model_states
model_states-AreDeclared name p h found none states is e =
    subst (AreDeclared name p (some h) none) (some-injective e) (host-AreDeclared name p h found is)
model_states-AreDeclared name p h found (some m) states is e =
    elim (Option-cases (find_model found m)) [
      | inl missing ↦ absurd (ground (arith, missing, e))
      | inr (record_of, known) ↦
          subst (AreDeclared name p (some h) (some m))
            (some-injective (rw (model_states, known) at e))
            (model-AreDeclared name p h found is m record_of known)
    ]

host_states-AreDeclared :
    (name : String) (p : ProviderCapability) (host model : Option String)
    (states : List (Option Bool))
    → host_states name p host model ≡ some states
    → AreDeclared name p host model states
unfolding host_states
host_states-AreDeclared name p none none states e =
    subst (AreDeclared name p none none) (some-injective e) (provider-AreDeclared name p)
host_states-AreDeclared name p none (some m) states e = absurd (none-neq-some e)
host_states-AreDeclared name p (some h) model states e = elim (Option-cases (find_host p h)) [
  | inl missing ↦ absurd (ground (arith, missing, e))
  | inr (found, is) ↦
      model_states-AreDeclared name p h found model states is (rw (host_states, is) at e)
]

-- A known answer about a capability comes from a listed provider, and one of the scopes that are
-- asked for, the provider's own, the host's or the model's, declares exactly this state. About
-- `available` the answer is "no" as soon as one of these scopes says so.
pub capability-IsDeclared :
    (r : Registry) (name : String) (provider host model : Option String) (b : Bool)
    → capability r name provider host model ≡ some b
    → (p : String) × (found : ProviderCapability) × (provider ≡ some p)
      × (find_provider r p ≡ some found)
      × ((c : Capabilities) × IsScope found host model c × (state_of c name ≡ some b))
      × ((c : Capabilities)
          → IsScope found host model c
          → (name == "available") ≡ true
          → state_of c name ≡ some false
          → b ≡ false)
unfolding capability
capability-IsDeclared r name none host model b e = absurd (ground arith)
capability-IsDeclared r name (some p) host model b e = elim (Option-cases (find_provider r p)) [
  | inl missing ↦ absurd (ground (arith, missing, e))
  | inr (found, is) ↦ elim (Option-cases (host_states name found host model)) [
    | inl missing ↦ absurd (ground (arith, is, missing, e))
    | inr (states, are) ↦
        let (among, down) = merge_states-IsAmong name states b (rw (capability, is, are) at e) in
        let declared = host_states-AreDeclared name found host model states are in
        (
          p,
          found,
          refl,
          is,
          declared.sound (some b) among,
          λ c scope asks says.
              down asks (subst (λ s. IsAmong s states) says (declared.complete c scope)),
        )
  ]
]
