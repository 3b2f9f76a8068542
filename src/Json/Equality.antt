-- ===== src/Json/Equality.antt =====
-- `PartialEq` on JSON values.
use mathlib.Core.Bool.{and-eq-true_iff}
use pilatus.Base.{
  ◌≡◌, refl, ap, subst, ◌↔◌, Bool, true, false, ◌&&◌, arith, PartialEq, ◌==◌, nat_eq, list_eq,
  list_beq_iff,
}
use pilatus.Json.Defs.{
  Json, null, bool, number, string, array, object, Items, nil, cons, Fields, end, field,
}

abbrev pub bool_beq : Bool → Bool → Bool
bool_beq true b = b
bool_beq false true = false
bool_beq false false = true

bool_beq_sound : (a b : Bool) → bool_beq a b ≡ true → a ≡ b
bool_beq_sound a b h = ground arith

module _ {N : Type 0} ⦃e : PartialEq N⦄ where
  unfoldable mutual
    pub json_beq : Json N → Json N → Bool
    json_beq null null = true
    json_beq (bool a) (bool b) = bool_beq a b
    json_beq (number a) (number b) = a == b
    json_beq (string a) (string b) = a == b
    json_beq (array a) (array b) = items_beq a b
    json_beq (object a) (object b) = fields_beq a b
    json_beq _ _ = false

    pub items_beq : Items N → Items N → Bool
    items_beq nil nil = true
    items_beq (cons a as') (cons b bs) = json_beq a b && items_beq as' bs
    items_beq _ _ = false

    pub fields_beq : Fields N → Fields N → Bool
    fields_beq end end = true
    fields_beq (field j a as') (field k b bs) = j == k && (json_beq a b && fields_beq as' bs)
    fields_beq _ _ = false

  unfoldable mutual
    unfolding json_beq items_beq fields_beq

    json_beq_sound : (a b : Json N) → json_beq a b ≡ true → a ≡ b
    json_beq_sound null null h = refl
    json_beq_sound (bool a) (bool b) h = ap bool (bool_beq_sound a b h)
    json_beq_sound (number a) (number b) h = ap number ((e.eq_iff a b).0 h)
    json_beq_sound (string a) (string b) h = ap string ((list_beq_iff a b).0 h)
    json_beq_sound (array a) (array b) h = ap array (items_beq_sound a b h)
    json_beq_sound (object a) (object b) h = ap object (fields_beq_sound a b h)
    json_beq_sound _ _ h = cc

    items_beq_sound : (a b : Items N) → items_beq a b ≡ true → a ≡ b
    items_beq_sound nil nil h = refl
    items_beq_sound (cons a as') (cons b bs) h =
        let (here, others) = (and-eq-true_iff _ _).0 h in
        let first = json_beq_sound a b here in
        let rest = items_beq_sound as' bs others in λ i. cons (first i) (rest i)
    items_beq_sound _ _ h = cc

    fields_beq_sound : (a b : Fields N) → fields_beq a b ≡ true → a ≡ b
    fields_beq_sound end end h = refl
    fields_beq_sound (field j a as') (field k b bs) h =
        let (same, later) = (and-eq-true_iff _ _).0 h in
        let (here, others) = (and-eq-true_iff _ _).0 later in
        let key = (list_beq_iff j k).0 same in
        let first = json_beq_sound a b here in
        let rest = fields_beq_sound as' bs others in λ i. field (key i) (first i) (rest i)
    fields_beq_sound _ _ h = cc

  unfoldable mutual
    unfolding json_beq items_beq fields_beq

    json_beq_refl : (a : Json N) → json_beq a a ≡ true
    json_beq_refl null = refl
    json_beq_refl (bool true) = refl
    json_beq_refl (bool false) = refl
    json_beq_refl (number a) = (e.eq_iff a a).1 refl
    json_beq_refl (string a) = (list_beq_iff a a).1 refl
    json_beq_refl (array a) = items_beq_refl a
    json_beq_refl (object a) = fields_beq_refl a

    items_beq_refl : (a : Items N) → items_beq a a ≡ true
    items_beq_refl nil = refl
    items_beq_refl (cons a as') = rw (json_beq_refl a) (items_beq_refl as')

    fields_beq_refl : (a : Fields N) → fields_beq a a ≡ true
    fields_beq_refl end = refl
    fields_beq_refl (field j a as') =
        rw ((list_beq_iff j j).1 refl, json_beq_refl a) (fields_beq_refl as')

  pub json_beq_iff : (a b : Json N) → (json_beq a b ≡ true) ↔ (a ≡ b)
  json_beq_iff a b = (json_beq_sound a b, λ p. subst (λ x. json_beq a x ≡ true) p (json_beq_refl a))

  instance abbrev pub json_eq : PartialEq (Json N)
  json_eq = record { eq = json_beq; eq_iff = json_beq_iff }
