-- ===== src/Registry/Creation.antt =====
-- What `createNamespaceRegistry` (registry.ts) accepts and what it returns.
mod Steps
use identifold.Prelude.{
  ◌≡◌, List, [], ◌∷◌, ◌++◌, All, ap, sym, ◌∙◌, ◌↔◌, append-nil, append_assoc, All-append,
}
use identifold.Errors.{ok, ◌>>=◌, >>=-eq-ok, ok-injective}
use identifold.Registry.{
  NamespaceDefinition, RegisteredNamespaceDefinition, NamespaceRegistry, register, register_all,
  create_namespace_registry,
}
use Steps.{Accepts, register_sound, register_complete}
pub use Steps.{Accepts}
use identifold.Registry.WellFormed.{
  Compatible, AllCompatible, ValidDefinition, registry_of, IsWellFormed, AllCompatible-append,
}

-- The registered definitions are, one for one and in order, what the given ones register as.
abbrev pub Registers : List NamespaceDefinition → List RegisteredNamespaceDefinition → Type 0
Registers [] [] = Unit
Registers [] (e ∷ es) = ⊥
Registers (d ∷ ds) [] = ⊥
Registers (d ∷ ds) (e ∷ es) = Accepts d e × Registers ds es

All-append_left :
    (P : RegisteredNamespaceDefinition → Type 0) (es more : List RegisteredNamespaceDefinition)
    → All P (es ++ more)
    → All P es
All-append_left P [] more h = tt
All-append_left P (e ∷ es) more h = (h.0, All-append_left P es more h.1)

Compatible-before :
    (es : List RegisteredNamespaceDefinition) (e : RegisteredNamespaceDefinition)
    (more : List RegisteredNamespaceDefinition)
    → AllCompatible (es ++ e ∷ more)
    → All (λ x. Compatible x e) es
Compatible-before [] e more h = tt
Compatible-before (x ∷ es) e more h = (middle es h.0, Compatible-before es e more h.1)
  where
    middle :
        (l : List RegisteredNamespaceDefinition)
        → All (Compatible x) (l ++ e ∷ more)
        → Compatible x e
    middle [] k = k.0
    middle (y ∷ l) k = middle l k.1

register_all_sound :
    (es : List RegisteredNamespaceDefinition) (ds : List NamespaceDefinition)
    (registry : NamespaceRegistry)
    → All ValidDefinition es
    → AllCompatible es
    → register_all (registry_of es) ds ≡ ok registry
    → (more : List RegisteredNamespaceDefinition) × Registers ds more
      × (registry ≡ registry_of (es ++ more))
      × All ValidDefinition (es ++ more)
      × AllCompatible (es ++ more)
unfolding register_all
register_all_sound es [] registry v c h = (
  [],
  tt,
  sym (ok-injective h) ∙ ap registry_of (sym (append-nil es)),
  rw append-nil v,
  rw append-nil c,
)
register_all_sound es (d ∷ ds) registry v c h =
    let (next, stepped, rest) = >>=-eq-ok (register (registry_of es) d) _ h in
    let (e, accepts, valid, compatible, same) = register_sound es d next stepped in
    let (more, registers, final, all_valid, all_compatible) =
      register_all_sound (es ++ e ∷ []) ds registry
        (All-append ValidDefinition es (e ∷ []) v (valid, tt))
        (AllCompatible-append es e c compatible) (rw same at rest) in
    (
      e ∷ more,
      (accepts, registers),
      rw append_assoc at final,
      rw append_assoc at all_valid,
      rw append_assoc at all_compatible,
    )

register_all_complete :
    (es : List RegisteredNamespaceDefinition) (ds : List NamespaceDefinition)
    (more : List RegisteredNamespaceDefinition)
    → Registers ds more
    → All ValidDefinition more
    → AllCompatible (es ++ more)
    → register_all (registry_of es) ds ≡ ok (registry_of (es ++ more))
unfolding register_all
register_all_complete es [] [] r v c = rw append-nil
register_all_complete es [] (e ∷ more) r v c = absurd r
register_all_complete es (d ∷ ds) [] r v c = absurd r
register_all_complete es (d ∷ ds) (e ∷ more) r v c =
    rw (register_complete es e d r.0 v.0 (Compatible-before es e more c), ◌>>=◌)
      (rw append_assoc at
        (register_all_complete (es ++ e ∷ []) ds more r.1 v.1 (rw append_assoc c)))

-- `createNamespaceRegistry` returns a registry exactly if the registry is well formed and its
-- definitions are, one for one and in order, what the given definitions register as. So it
-- accepts every list of valid, distinct and prefix-free definitions, and no other.
pub create_namespace_registry_iff :
    (definitions : List NamespaceDefinition) (registry : NamespaceRegistry)
    → (create_namespace_registry definitions ≡ ok registry)
      ↔ (Registers definitions registry.definitions × IsWellFormed registry)
unfolding create_namespace_registry
create_namespace_registry_iff definitions registry = (
  λ h.
      let (es, registers, same, valid, compatible) =
        register_all_sound [] definitions registry tt tt h in
      (
        rw same registers,
        record { indexed = rw same; valid = rw same valid; compatible = rw same compatible },
      ),
  λ h.
      rw h.1.indexed
        (register_all_complete [] definitions registry.definitions h.0 h.1.valid h.1.compatible),
)
