-- ===== src/HttpRoute/Attachment.antt =====
-- Which routes are attached to a listener: pkg/kthena-router/router/httproute_match.go
use mathlib.Core.Path.{refl}
use kthena.Common.{
  ℕ, ◌≡◌, Bool, true, false, not, Option, none, some, List, [], ◌∷◌, ◌++◌, ==-iff, inl, inr, ◌⊎◌,
  nat_eq, if◌then◌else◌, Text, text_eq, codes, sym, Any,
}
use kthena.Common.Decides.{Decides, OrElse, decides-and, decides-or, decides-option, decides-true}
use kthena.GroupStore.{get_or}
use kthena.HttpRoute.{HttpRoute, ParentReference, slash}
use kthena.HttpRoute.Matching.{Request, namespace_or, is_gateway_parent_ref, attaches, any_attaches}

-- No listener is named: its name is empty and its port 0.
abbrev pub Anonymous : Text → ℕ → Type 0
Anonymous name port = (name ≡ []) × (port ≡ 0)

-- The reference names the gateway, and no section or port but the listener's.
abbrev pub Attached : Text → Text → Text → Request → ParentReference → Type 0
Attached group_name namespace gateway_key request ref =
    (OrElse (λ group. group ≡ group_name) ref.group Unit
      × OrElse (λ kind. kind ≡ codes "Gateway") ref.kind Unit)
    × (((get_or ref.namespace namespace ++ (slash ∷ ref.name)) ≡ gateway_key)
        × ((Anonymous request.listener_name request.listener_port
              × ((ref.section_name ≡ none) × (ref.port ≡ none)))
            ⊎ ((Anonymous request.listener_name request.listener_port → ⊥)
                × (OrElse (λ section. section ≡ request.listener_name) ref.section_name Unit
                    × OrElse (λ port. port ≡ request.listener_port) ref.port Unit))))

is_none-decides :
    {A : Type 0} (o : Option A) → Decides (elim o [ none ↦ true | some _ ↦ false ]) (o ≡ none)
is_none-decides none = (λ h. refl, λ h. refl)
is_none-decides (some a) = (λ h. cc, λ h. cc)

decides-if :
    (b x y : Bool) (P X Y : Type 0)
    → Decides b P
    → Decides x X
    → Decides y Y
    → Decides (if b then x else y) ((P × X) ⊎ ((P → ⊥) × Y))
decides-if true x y P X Y p q r = (
  λ h. inl (p.0 refl, q.0 h),
  λ h. elim h [ inl (_, a) ↦ q.1 a | inr (none', _) ↦ absurd (none' (p.0 refl)) ],
)
decides-if false x y P X Y p q r = (
  λ h. inr (λ a. cc (p.1 a), r.0 h),
  λ h. elim h [ inl (a, _) ↦ cc (p.1 a) | inr (_, a) ↦ r.1 a ],
)

-- `if not a then false else b`
decides-guard :
    (a b : Bool) (P Q : Type 0)
    → Decides a P
    → Decides b Q
    → Decides (if not a then false else b) (P × Q)
decides-guard true b P Q p q = (λ h. (p.0 refl, q.0 h), λ h. q.1 h.1)
decides-guard false b P Q p q = (λ h. cc, λ h. p.1 h.0)

gateway_ref-decides :
    (group_name : Text) (ref : ParentReference)
    → Decides (is_gateway_parent_ref group_name ref) (
        OrElse (λ group. group ≡ group_name) ref.group Unit
        × OrElse (λ kind. kind ≡ codes "Gateway") ref.kind Unit)
unfolding is_gateway_parent_ref
gateway_ref-decides group_name ref =
    decides-and _ _ _ _
      (decides-option _ _ _ _ ref.group (λ group. ==-iff group group_name) decides-true)
      (decides-option _ _ _ _ ref.kind (λ kind. ==-iff kind (codes "Gateway")) decides-true)

namespace_or-get_or : (o : Option Text) (d : Text) → namespace_or o d ≡ get_or o d
namespace_or-get_or none d = refl
namespace_or-get_or (some n) d = refl

attaches-decides :
    (group_name gateway_key : Text) (route : HttpRoute) (request : Request) (ref : ParentReference)
    → Decides
        (attaches group_name route gateway_key request.listener_name request.listener_port ref)
        (Attached group_name route.namespace gateway_key request ref)
unfolding attaches
attaches-decides group_name gateway_key route request ref =
    rw (sym (namespace_or-get_or ref.namespace route.namespace)) (
      decides-guard _ _ _ _ (gateway_ref-decides group_name ref) (
        decides-guard _ _ _ _ (==-iff _ gateway_key) (
          decides-if _ _ _ _ _ _
            (decides-and _ _ _ _ (==-iff request.listener_name []) (==-iff request.listener_port 0))
            (decides-and _ _ _ _ (is_none-decides ref.section_name) (is_none-decides ref.port))
            (decides-and _ _ _ _
              (decides-option _ _ _ _ ref.section_name
                (λ section. ==-iff section request.listener_name) decides-true)
              (decides-option _ _ _ _ ref.port (λ port. ==-iff port request.listener_port)
                decides-true)))))

pub any_attaches-decides :
    (group_name gateway_key : Text) (route : HttpRoute) (request : Request)
    (refs : List ParentReference)
    → Decides
        (any_attaches group_name route gateway_key request.listener_name request.listener_port refs)
        (Any (Attached group_name route.namespace gateway_key request) refs)
unfolding any_attaches
any_attaches-decides group_name gateway_key route request [] = (λ h. cc, λ h. elim h [ ])
any_attaches-decides group_name gateway_key route request (ref ∷ refs) =
    decides-or _ _ _ _ (attaches-decides group_name gateway_key route request ref)
      (any_attaches-decides group_name gateway_key route request refs)
