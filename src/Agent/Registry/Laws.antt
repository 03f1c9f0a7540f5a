-- ===== src/Agent/Registry/Laws.antt =====
-- What the registry of internal/agent/registry.go finds.
use cyber_foreman.Prelude.{
  String, str_eq, eq_refl, str_eq_cases, ◌≡◌, refl, sym, ap, ◌∙◌, false, List, [], ◌∷◌, ◌++◌,
  Option, none, some, Map, lookup, lookup-insert, insert, ◌⊎◌, inl, inr, Bool-cases,
}
use cyber_foreman.Agent.{Adapter, adapter_name}
use cyber_foreman.Agent.Registry.{
  RegistryError, exists, register, or_stop, register_each, new_registry, get,
}

module _ (trim : String → String) where
  -- A registration that succeeds adds the adapter under its trimmed name, which was free.
  register-insert :
      (a : Adapter) (m : Map Adapter) {m' : Map Adapter}
      → register trim (some a) m ≡ inr m'
      → (lookup (trim (adapter_name a)) m ≡ none) × (m' ≡ insert (trim (adapter_name a)) a m)
  unfolding register
  register-insert a m {m'} h = elim (Bool-cases (str_eq (trim (adapter_name a)) "")) [
    | inl y ↦ absurd (cc (rw y at h))
    | inr n ↦ elim (Bool-cases (exists (lookup (trim (adapter_name a)) m))) [
      | inl y ↦ absurd (cc (rw (n, y) at h))
      | inr k ↦ (absent (lookup (trim (adapter_name a)) m) k, cc (rw (n, k) at h))
    ]
  ]
    where
      absent : (o : Option Adapter) → exists o ≡ false → o ≡ none
      absent none e = refl
      absent (some b) e = absurd (cc e)

  or_stop-inr :
      (r : RegistryError ⊎ Map Adapter) (f : Map Adapter → RegistryError ⊎ Map Adapter)
      {m' : Map Adapter}
      → or_stop trim r f ≡ inr m'
      → (x : Map Adapter) × (r ≡ inr x) × (f x ≡ inr m')
  or_stop-inr (inl e) f h = absurd (cc h)
  or_stop-inr (inr x) f h = (x, refl, h)

  register-keeps :
      (a : Option Adapter) (m : Map Adapter) {m' : Map Adapter} (key : String) {b : Adapter}
      → register trim a m ≡ inr m'
      → lookup key m ≡ some b
      → lookup key m' ≡ some b
  unfolding register
  register-keeps none m key h f = absurd (cc h)
  register-keeps (some a) m key {b} h f =
      let (g, e) = register-insert a m h in
      ap (lookup key) e
      ∙ lookup-insert (trim (adapter_name a)) key a m
      ∙ (elim (str_eq_cases (trim (adapter_name a)) key) [
        | inl y ↦ absurd (cc (sym g ∙ ap (λ k. lookup k m) y ∙ f))
        | inr n ↦ rw n f
      ])

  -- What was registered stays registered.
  register_each-keeps :
      (rest : List (Option Adapter)) (m : Map Adapter) {m' : Map Adapter} (key : String)
      {b : Adapter}
      → register_each trim rest m ≡ inr m'
      → lookup key m ≡ some b
      → lookup key m' ≡ some b
  unfolding register_each
  register_each-keeps [] m key h f = cc (h, f)
  register_each-keeps (a ∷ rest) m key h f =
      let (x, q, k) = or_stop-inr (register trim a m) (λ m'. register_each trim rest m') h in
      register_each-keeps rest x key k (register-keeps a m key q f)

  register_each-get :
      (before : List (Option Adapter)) (a : Adapter) (after : List (Option Adapter))
      (m : Map Adapter) {m' : Map Adapter}
      → register_each trim (before ++ some a ∷ after) m ≡ inr m'
      → lookup (trim (adapter_name a)) m' ≡ some a
  unfolding register_each
  register_each-get [] a after m h =
      let (x, q, k) =
        or_stop-inr (register trim (some a) m) (λ m'. register_each trim after m') h in
      let (g, e) = register-insert a m q in
      register_each-keeps after x (trim (adapter_name a)) k (
        ap (lookup (trim (adapter_name a))) e
        ∙ lookup-insert (trim (adapter_name a)) (trim (adapter_name a)) a m
        ∙ rw eq_refl refl)
  register_each-get (b ∷ before) a after m h =
      let (x, q, k) =
        or_stop-inr (register trim b m) (λ m'. register_each trim (before ++ some a ∷ after) m')
          h in
      register_each-get before a after x k

  -- A registry that could be made finds every adapter that it was made of under its trimmed name: no later one
  -- has taken its place.
  pub new_registry-get :
      (before : List (Option Adapter)) (a : Adapter) (after : List (Option Adapter))
      {m : Map Adapter}
      → new_registry trim (before ++ some a ∷ after) ≡ inr m
      → get (trim (adapter_name a)) m ≡ inr a
  unfolding new_registry get
  new_registry-get before a after h = rw (register_each-get before a after [] h) refl
