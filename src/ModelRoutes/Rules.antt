-- ===== src/ModelRoutes/Rules.antt =====
-- What the tests of routes and rules decide: pkg/kthena-router/datastore/store.go
use kthena.Common.{
  ◌≡◌, ◌≢◌, true, not, ◌&&◌, ◌||◌, List, [], ◌∷◌, ◌++◌, ◌==◌, ==-iff, ◌⊎◌, All, Any, Text, text_eq,
  has_prefix, has_prefix_rest, has_prefix-append, ap, ◌∙◌, codes,
}
use kthena.Common.Decides.{
  Decides, OrElse, decides-and, decides-or, decides-not, decides-option, decides-true,
}
use kthena.Common.Dict.{Dict, lookup}
use kthena.GroupStore.{name_eq, get_or}
use kthena.ModelRoutes.{
  StringMatch, ModelMatch, Rule, ParentRef, ModelRoute, Request, Store, gateway_group, match_string,
  headers_matched, rule_matches, has_listener, is_gateway_parent_ref, attaches, any_attaches,
  matches_specific_gateway, gateway_allows,
}

abbrev pub StartsWith : Text → Text → Type 0
StartsWith value start = (rest : Text) × (value ≡ start ++ rest)

-- An exact text, or else a prefix, or else a pattern, or else anything.
abbrev pub TextMatches : Request → StringMatch → Text → Type 0
TextMatches req sm value =
    OrElse (λ text. value ≡ text) sm.exact
      (OrElse (StartsWith value) sm.prefix
        (OrElse (λ pattern. req.match_regex pattern value ≡ true) sm.regex Unit))

-- The request fits the condition: the model's name, every header, and the path.
abbrev pub FitsMatch : Text → Request → ModelMatch → Type 0
FitsMatch model req m =
    OrElse (λ name. model ≡ name) m.body_model Unit
    × (All (λ (h : Text × StringMatch). TextMatches req h.1 (req.header h.0)) m.headers
        × OrElse (λ sm. TextMatches req sm req.path) m.uri Unit)

abbrev pub Fits : Text → Request → Rule → Type 0
Fits model req rule = OrElse (FitsMatch model req) rule.model_match Unit

-- The reference names the gateway, and a listener of it if it names one.
abbrev pub Attached : Text → Text → List Text → ParentRef → Type 0
Attached namespace gateway_key listeners ref =
    (OrElse (λ group. group ≡ gateway_group) ref.group Unit
      × OrElse (λ kind. kind ≡ codes "Gateway") ref.kind Unit)
    × (((get_or ref.namespace namespace ++ (b'/' ∷ ref.name)) ≡ gateway_key)
        × OrElse (λ section. Any (λ listener. listener ≡ section) listeners) ref.section_name Unit)

-- A route with parent references serves the requests of a gateway it is attached to. Without, it serves
-- those of no gateway, and of the gateways in its namespace.
abbrev pub AllowedBy : Store → Text → ModelRoute → List ParentRef → Type 0
AllowedBy s gateway_key mr [] =
    (gateway_key ≡ []) ⊎ StartsWith gateway_key (mr.namespace ++ (b'/' ∷ []))
AllowedBy s gateway_key mr (_ ∷ _) =
    (gateway_key ≢ [])
    × OrElse (λ listeners. Any (Attached mr.namespace gateway_key listeners) mr.parent_refs)
        (lookup gateway_key s.gateways) ⊥

abbrev pub Allowed : Store → Text → ModelRoute → Type 0
Allowed s gateway_key mr = AllowedBy s gateway_key mr mr.parent_refs

StartsWith-decides :
    (value start : Text) → Decides (has_prefix value start) (StartsWith value start)
StartsWith-decides value start = (
  has_prefix_rest value start,
  λ (rest, e). ap (λ v. has_prefix v start) e ∙ has_prefix-append rest start,
)

match_string-decides :
    (req : Request) (sm : StringMatch) (value : Text)
    → Decides (match_string req sm value) (TextMatches req sm value)
unfolding match_string
match_string-decides req sm value = decides-option _ _ _ _ sm.exact (==-iff value) (
    decides-option _ _ _ _ sm.prefix (StartsWith-decides value)
      (decides-option _ _ _ _ sm.regex (λ pattern. (λ h. h, λ h. h)) decides-true))

headers-decides :
    (req : Request) (headers : Dict Text StringMatch)
    → Decides
        (headers_matched req headers)
        (All (λ (h : Text × StringMatch). TextMatches req h.1 (req.header h.0)) headers)
unfolding headers_matched
headers-decides req [] = decides-true
headers-decides req ((key, sm) ∷ headers) =
    decides-and _ _ _ _ (match_string-decides req sm (req.header key)) (headers-decides req headers)

pub rule_matches-decides :
    (model : Text) (req : Request) (rule : Rule)
    → Decides (rule_matches model req rule) (Fits model req rule)
unfolding rule_matches
rule_matches-decides model req rule =
    decides-option _ _ _ _ rule.model_match
      (λ m. decides-and _ _ _ _ (decides-option _ _ _ _ m.body_model (==-iff model) decides-true) (
        decides-and _ _ _ _ (headers-decides req m.headers)
          (decides-option _ _ _ _ m.uri (λ sm. match_string-decides req sm req.path) decides-true)))
      decides-true

listener-decides :
    (section : Text) (listeners : List Text)
    → Decides (has_listener section listeners) (Any (λ listener. listener ≡ section) listeners)
unfolding has_listener
listener-decides section [] = (λ h. cc, λ h. elim h [ ])
listener-decides section (listener ∷ listeners) =
    decides-or _ _ _ _ (==-iff listener section) (listener-decides section listeners)

attaches-decides :
    (namespace gateway_key : Text) (listeners : List Text) (ref : ParentRef)
    → Decides
        (attaches namespace gateway_key listeners ref)
        (Attached namespace gateway_key listeners ref)
unfolding attaches is_gateway_parent_ref
attaches-decides namespace gateway_key listeners ref =
    decides-and _ _ _ _
      (decides-and _ _ _ _
        (decides-option _ _ _ _ ref.group (λ group. ==-iff group gateway_group) decides-true)
        (decides-option _ _ _ _ ref.kind (λ kind. ==-iff kind (codes "Gateway")) decides-true))
      (decides-and _ _ _ _ (==-iff _ gateway_key) (
        decides-option _ _ _ _ ref.section_name (λ section. listener-decides section listeners)
          decides-true))

any_attaches-decides :
    (namespace gateway_key : Text) (listeners : List Text) (refs : List ParentRef)
    → Decides
        (any_attaches namespace gateway_key listeners refs)
        (Any (Attached namespace gateway_key listeners) refs)
unfolding any_attaches
any_attaches-decides namespace gateway_key listeners [] = (λ h. cc, λ h. elim h [ ])
any_attaches-decides namespace gateway_key listeners (ref ∷ refs) =
    decides-or _ _ _ _ (attaches-decides namespace gateway_key listeners ref)
      (any_attaches-decides namespace gateway_key listeners refs)

AllowedBy-decides :
    (s : Store) (gateway_key : Text) (mr : ModelRoute) (refs : List ParentRef)
    → Decides
        (elim refs [
          | _ ∷ _ ↦ not (gateway_key == []) && matches_specific_gateway s mr gateway_key
          | [] ↦ gateway_key == [] || has_prefix gateway_key (mr.namespace ++ (b'/' ∷ []))
        ])
        (AllowedBy s gateway_key mr refs)
unfolding matches_specific_gateway
AllowedBy-decides s gateway_key mr [] =
    decides-or _ _ _ _ (==-iff gateway_key []) (StartsWith-decides gateway_key _)
AllowedBy-decides s gateway_key mr (_ ∷ _) =
    decides-and _ _ _ _ (decides-not _ _ (==-iff gateway_key [])) (
      decides-option _ _ _ _ (lookup gateway_key s.gateways)
        (λ listeners. any_attaches-decides mr.namespace gateway_key listeners mr.parent_refs)
        ((λ h. cc), λ h. elim h [ ]))

pub gateway_allows-decides :
    (s : Store) (gateway_key : Text) (mr : ModelRoute)
    → Decides (gateway_allows s gateway_key mr) (Allowed s gateway_key mr)
unfolding gateway_allows
gateway_allows-decides s gateway_key mr = AllowedBy-decides s gateway_key mr mr.parent_refs
