-- ===== src/Config/Values.antt =====
-- A small model of the JSON library, for examples: values, and objects with their members.
use wl_tmm.Prelude.{
  ℕ, ◌≡◌, refl, Option, none, some, List, [], ◌∷◌, Bool, true, false, ap, inl, inr, Bool-cases,
  if◌then◌else◌,
}
use wl_tmm.Prelude.Int.{ℤ, pos}
use wl_tmm.Prelude.Maps.{text_eq, list_beq, lookup}
use wl_tmm.Config.{Json}
use wl_tmm.Config.Documents.{Documents, is_int}

-- Values, and lists of members.
mutual
  pub data Value : Type 0 where
    null_value : Value
    text_value : List ℕ → Value
    number_value : ℤ → Value
    object_value : Members → Value

  pub data Members : Type 0 where
    no_members : Members
    a_member : List ℕ → Value → Members → Members

abbrev pub to_members : List (List ℕ × Value) → Members
to_members [] = no_members
to_members ((k, v) ∷ ms) = a_member k v (to_members ms)

abbrev pub find : Members → List ℕ → Value
find no_members k = null_value
find (a_member j v ms) k = if list_beq j k then v else find ms k

abbrev pub member : Value → List ℕ → Option Value
member null_value k = some null_value
member (object_value ms) k = some (find ms k)
member (text_value t) k = none
member (number_value n) k = none

abbrev pub is_null : Value → Bool
is_null null_value = true
is_null _ = false

abbrev pub as_string : Value → Option (List ℕ)
as_string (text_value t) = some t
as_string null_value = some []
as_string _ = none

abbrev pub as_int : Value → Option ℤ
as_int (number_value n) = if is_int n then some n else none
as_int null_value = some (pos 0)
as_int _ = none

abbrev pub values : Json Value
values = record { member = member; is_null = is_null; as_string = as_string; as_int = as_int }

pub find-to_members :
    (ms : List (List ℕ × Value)) (k : List ℕ)
    → find (to_members ms) k ≡ elim (lookup k ms) [ none ↦ null_value | some v ↦ v ]
unfolding lookup
find-to_members [] k = refl
find-to_members ((j, v) ∷ ms) k = elim (Bool-cases (list_beq j k)) [
  | inl here ↦ rw here
  | inr there ↦ rw there (find-to_members ms k)
]

abbrev pub value_documents : Documents Value values
value_documents = record {
  null = null_value;
  text = text_value;
  number = number_value;
  object = λ ms. object_value (to_members ms);
  is_null-null = refl;
  is_null-text = λ t. refl;
  is_null-number = λ n. refl;
  is_null-object = λ ms. refl;
  as_string-text = λ t. refl;
  as_int-number = λ n. refl;
  member-object = λ ms k. ap some (find-to_members ms k);
}
