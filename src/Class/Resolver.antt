-- ===== src/Class/Resolver.antt =====
-- internal/class/resolver.go: the class of a Sandbox, by its name or by default. The cluster's Get and
-- List are parameters: Get answers that the class is absent, or an error, or the class; List fails or
-- lists every class.
use setec.Prelude.{
  ◌≡◌, ◌↔◌, inl, inr, refl, sym, ap, ◌∙◌, true, false, String, Option, none, some, List, [], ◌∷◌,
  ◌++◌, ◌==◌, string_eq, map, arith, Bool-cases, if◌then◌else◌,
}
use setec.Api.{Sandbox, SandboxClass}

-- What Get answers.
pub data Got (A : Type 0) : Type 0 where
  got : A → Got A
  absent : Got A
  get_error : Got A

pub data Resolved (Q : Type 0) : Type 0 where
  resolved : SandboxClass Q → Resolved Q
  not_initialized nil_sandbox get_failed list_failed no_default : Resolved Q
  class_not_found : String → Resolved Q
  ambiguous : List String → Resolved Q

pub record Client (Q : Type 0) : Type 0 where
  pub get : String → Got (SandboxClass Q)
  pub list : Option (List (SandboxClass Q))

unfoldable pub defaults : {Q : Type 0} → List (SandboxClass Q) → List (SandboxClass Q)
defaults [] = []
defaults (c ∷ cs) = let rest = defaults cs in if c.spec.default_class then c ∷ rest else rest

abbrev name_of : {Q : Type 0} → SandboxClass Q → String
name_of c = c.name

resolve_among : {Q : Type 0} → List (SandboxClass Q) → Resolved Q
resolve_among [] = no_default
resolve_among (c ∷ []) = resolved c
resolve_among (c ∷ d ∷ cs) = ambiguous (map name_of (c ∷ d ∷ cs))

unfoldable pub resolve_default : {Q : Type 0} → Option (List (SandboxClass Q)) → Resolved Q
unfolding resolve_among
resolve_default none = list_failed
resolve_default (some items) = resolve_among (defaults items)

unfoldable pub resolve_by_name : {Q : Type 0} → Got (SandboxClass Q) → String → Resolved Q
resolve_by_name (got c) name = resolved c
resolve_by_name absent name = class_not_found name
resolve_by_name get_error name = get_failed

unfoldable pub resolve : {Q : Type 0} → Option (Client Q) → Option (Sandbox Q) → Resolved Q
unfolding resolve_default resolve_by_name
resolve none sb = not_initialized
resolve (some client) none = nil_sandbox
resolve (some client) (some sb) =
    let name = sb.spec.sandbox_class_name in
    if name == "" then resolve_default client.list else resolve_by_name (client.get name) name

-- The class stands once among the items with default: true, with none before it and none after it.
pub record OnlyDefault {Q : Type 0} (c : SandboxClass Q) (items : List (SandboxClass Q))
    : Type 0 where
  pub before : List (SandboxClass Q)
  pub after : List (SandboxClass Q)
  pub split : items ≡ before ++ c ∷ after
  pub is_default : c.spec.default_class ≡ true
  pub none_before : defaults before ≡ []
  pub none_after : defaults after ≡ []

module _ {Q : Type 0} where
  skip :
      (d c : SandboxClass Q) (items : List (SandboxClass Q))
      → d.spec.default_class ≡ false
      → OnlyDefault c items
      → OnlyDefault c (d ∷ items)
  unfolding defaults
  skip d c items h o = record {
    before = d ∷ o.before;
    after = o.after;
    split = ap (λ l. d ∷ l) o.split;
    is_default = o.is_default;
    none_before = rw h o.none_before;
    none_after = o.none_after;
  }

  first :
      (c : SandboxClass Q) (items : List (SandboxClass Q))
      → c.spec.default_class ≡ true
      → defaults items ≡ []
      → OnlyDefault c (c ∷ items)
  unfolding defaults
  first c items h n = record {
    before = [];
    after = items;
    split = refl;
    is_default = h;
    none_before = refl;
    none_after = n;
  }

  -- Where the first item is a default, the rest has none; otherwise the search goes on.
  defaults-one :
      (c : SandboxClass Q) (items : List (SandboxClass Q))
      → defaults items ≡ c ∷ []
      → OnlyDefault c items
  unfolding defaults
  defaults-one c [] e = absurd (ground arith)
  defaults-one c (d ∷ items) e = elim (Bool-cases d.spec.default_class) [
    | inl h ↦
        let same : d ≡ c = ground arith in
        rw same (first c items (sym (ap (λ x. x.spec.default_class) same) ∙ h) (ground arith))
    | inr h ↦ skip d c items h (defaults-one c items (ground arith))
  ]

  defaults-append :
      (xs ys : List (SandboxClass Q)) → defaults (xs ++ ys) ≡ defaults xs ++ defaults ys
  unfolding defaults
  defaults-append [] ys = refl
  defaults-append (x ∷ xs) ys = let ih = defaults-append xs ys in ground arith

  one-defaults :
      (c : SandboxClass Q) (items : List (SandboxClass Q))
      → OnlyDefault c items
      → defaults items ≡ c ∷ []
  unfolding defaults
  one-defaults c items o =
      let h = o.is_default in
      let n = o.none_after in
      ap defaults o.split ∙ (defaults-append o.before (c ∷ o.after) ∙ rw (o.none_before, h, n) refl)

  among-resolved :
      (c : SandboxClass Q) (ds : List (SandboxClass Q))
      → (resolve_among ds ≡ resolved c) ↔ (ds ≡ c ∷ [])
  unfolding resolve_among
  among-resolved c [] = (λ h. cc, λ h. cc)
  among-resolved c (d ∷ []) = (λ h. cc, λ h. cc)
  among-resolved c (d ∷ e ∷ ds) = (λ h. cc, λ h. cc)

  -- For a Sandbox that names no class, and a list of the classes that succeeds, Resolve returns a class
  -- exactly when it is the only default of the list.
  pub resolve-OnlyDefault :
      (client : Client Q) (sb : Sandbox Q) (items : List (SandboxClass Q)) (c : SandboxClass Q)
      → sb.spec.sandbox_class_name ≡ ""
      → client.list ≡ some items
      → (resolve (some client) (some sb) ≡ resolved c) ↔ OnlyDefault c items
  unfolding resolve resolve_default
  resolve-OnlyDefault client sb items c e l =
      rw (e, l)
        (
          λ h. defaults-one c items ((among-resolved c (defaults items)).0 h),
          λ o. (among-resolved c (defaults items)).1 (one-defaults c items o),
        )
