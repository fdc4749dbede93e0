-- ===== src/Jsonrpc/Reflected/Arguments.antt =====
-- The arguments that `Call` passes, beside the arguments that the method has.
use mathlib.Core.List.{append_assoc, append-nil}
use vipnode.Base.{
  ◌≡◌, refl, sym, ◌∙◌, ap, subst, ◌↔◌, Bool, true, false, ◌||◌, not, some, List, [], ◌∷◌, ◌++◌, map,
  arith, if_keeps, if◌then◌else◌,
}
use vipnode.Base.Exec.{ok}
use vipnode.Jsonrpc.Reflected.{
  GoType, receiver_type, context_type, Value, receiver_value, context_value, argument, GoMethod,
  Method, is_context, method_arg_types, load, call_arguments,
}

abbrev pub type_of : {J : Type 0} → Value J → GoType
type_of receiver_value = receiver_type
type_of context_value = context_type
type_of (argument t v) = t

-- The arguments of a method that are no contexts, and whether there is one.
abbrev pub plain_types : List GoType → List GoType
plain_types [] = []
plain_types (t ∷ ts) = if is_context t then plain_types ts else t ∷ plain_types ts

abbrev pub any_context : List GoType → Bool
any_context [] = false
any_context (t ∷ ts) = is_context t || any_context ts

-- What the loop gives when all types are valid, after some types and from a mark.
abbrev Plain : List GoType → List GoType → Bool → List GoType × Bool × Bool → Type 0
Plain ins types has_ctx (found, marked, valid) =
    valid ≡ true → (found ≡ types ++ plain_types ins) × (marked ≡ has_ctx || any_context ins)

or_assoc : (a b c : Bool) → ((a || b) || c) ≡ (b || (a || c))
or_assoc true true c = refl
or_assoc true false c = refl
or_assoc false true c = refl
or_assoc false false c = refl

Plain-next :
    (t : GoType) (ins types : List GoType) (has_ctx : Bool) (x : List GoType × Bool × Bool)
    → Plain ins (if is_context t then types else types ++ (t ∷ [])) (is_context t || has_ctx) x
    → Plain (t ∷ ins) types has_ctx x
Plain-next t ins types has_ctx (found, marked, valid) h ok_types =
    let (a, b) = h ok_types in
    (
      ground (arith, a, append_assoc types (t ∷ []) (plain_types ins)),
      b ∙ or_assoc (is_context t) has_ctx (any_context ins),
    )

method_arg_types-Plain :
    (is_valid : GoType → Bool) (ins types : List GoType) (has_ctx : Bool)
    → Plain ins types has_ctx (method_arg_types is_valid ins types has_ctx)
unfolding method_arg_types
method_arg_types-Plain is_valid [] types has_ctx = λ h. (sym (append-nil types), ground arith)
method_arg_types-Plain is_valid (t ∷ ins) types has_ctx =
    if_keeps (Plain (t ∷ ins) types has_ctx) (is_valid t) _ _
      (λ _. Plain-next t ins types has_ctx _ (method_arg_types-Plain is_valid ins _ _)) (λ _ h. cc)

-- A context is the first argument or there is none, and there is no second one.
abbrev pub is_leading : List GoType → Bool
is_leading [] = true
is_leading (t ∷ ts) = not (any_context ts)

with_context : Bool → List GoType → List GoType
with_context has_ctx types = if has_ctx then context_type ∷ types else types

plain-no_context : (ins : List GoType) → any_context (plain_types ins) ≡ false
plain-no_context [] = refl
plain-no_context (t ∷ ins) = ground (arith, plain-no_context ins)

no_context-plain : (ins : List GoType) → any_context ins ≡ false → plain_types ins ≡ ins
no_context-plain [] h = refl
no_context-plain (t ∷ ins) h = ground (arith, no_context-plain ins, h)

-- The contexts first: that gives the types back exactly when it is first already.
with_context-leading :
    (ins : List GoType)
    → (with_context (any_context ins) (plain_types ins) ≡ ins) ↔ (is_leading ins ≡ true)
unfolding with_context
with_context-leading [] = ((λ h. refl), (λ h. refl))
with_context-leading (context_type ∷ ins) = (
  (λ h.
      let same : plain_types ins ≡ ins = cc in
      ap not (subst (λ l. any_context l ≡ false) same (plain-no_context ins))),
  (λ h. ap (λ l. context_type ∷ l) (no_context-plain ins (ground (arith, h)))),
)
with_context-leading (t ∷ ins) =
    ((λ h. ground (arith, h)), (λ h. ground (arith, h, no_context-plain ins)))

load-plain :
    {S J : Type 0} (is_valid : GoType → Bool) (g : GoMethod S J) (m : Method S J)
    → load is_valid g ≡ some (ok m)
    → (m.arg_types ≡ plain_types g.ins) × (m.has_ctx ≡ any_context g.ins)
unfolding load
load-plain is_valid g m loaded =
    ground (arith, loaded, method_arg_types-Plain is_valid g.ins [] false)

map-context :
    {J : Type 0} (has_ctx : Bool) (args : List (Value J))
    → map type_of (if has_ctx then context_value ∷ args else args)
      ≡ with_context has_ctx (map type_of args)
unfolding with_context
map-context true args = refl
map-context false args = refl

tail_eq : {t : GoType} {l k : List GoType} → (t ∷ l) ≡ (t ∷ k) → l ≡ k
tail_eq e = cc

-- For every method that is loaded and any values of the types of its arguments: what `Call` passes
-- has the types of the method's arguments, the receiver in front, exactly when the first
-- of them is the only one that may be a context.
pub call_arguments-fit :
    {S J : Type 0} (is_valid : GoType → Bool) (g : GoMethod S J) (m : Method S J)
    (args : List (Value J))
    → load is_valid g ≡ some (ok m)
    → map type_of args ≡ m.arg_types
    → (map type_of (call_arguments m args) ≡ receiver_type ∷ g.ins) ↔ (is_leading g.ins ≡ true)
call_arguments-fit is_valid g m args loaded typed =
    let (types, marked) = load-plain is_valid g m loaded in
    let passed =
      map-context m.has_ctx args
      ∙ ap (with_context m.has_ctx) (typed ∙ types)
      ∙ ap (λ b. with_context b (plain_types g.ins)) marked in
    let (to, from) = with_context-leading g.ins in
    ((λ h. to (sym passed ∙ tail_eq h)), (λ h. ap (λ l. receiver_type ∷ l) (passed ∙ from h)))
