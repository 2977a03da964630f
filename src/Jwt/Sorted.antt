-- ===== src/Jwt/Sorted.antt =====
-- What `JSON.parse` makes of the deterministic JSON text of projects/node/src/jwt/jwt.ts: the value with
-- the properties of every object in the order of their names.
use text.Mathlib.TextPositions.{compare_refl}
use decentralized_identity_p.Prelude.{
  String, str_eq, eq_iff, ◌≡◌, refl, sym, subst, ◌∙◌, true, false, Bool-cases, inl, inr,
  if◌then◌else◌,
}
use decentralized_identity_p.Js.{
  Js, undefined, null, bool, num, str, arr, obj, Items, nil, cons, Fields, end, field, get,
}
use decentralized_identity_p.Jwt.{key_le}

unfoldable pub insert_field : String → Js → Fields → Fields
insert_field k v end = field k v end
insert_field k v (field l w fs) =
    let rest = insert_field k v fs in
    if key_le k l then field k v (field l w fs) else field l w rest

unfoldable mutual
  pub sorted : Js → Js
  sorted undefined = undefined
  sorted null = null
  sorted (bool b) = bool b
  sorted (num z m) = num z m
  sorted (str s) = str s
  sorted (arr vs) = arr (sorted_items vs)
  sorted (obj fs) = obj (sorted_fields fs)

  pub sorted_items : Items → Items
  sorted_items nil = nil
  sorted_items (cons v vs) = cons (sorted v) (sorted_items vs)

  pub sorted_fields : Fields → Fields
  sorted_fields end = end
  sorted_fields (field k v fs) = insert_field k (sorted v) (sorted_fields fs)

key_le-same : (k : String) → key_le k k ≡ true
key_le-same k = rw (key_le, compare_refl k) refl

other_key : (k l : String) → key_le k l ≡ false → str_eq l k ≡ false
other_key k l h = elim (Bool-cases (str_eq l k)) [
  | inr e ↦ e
  | inl e ↦
      let same : l ≡ k = (eq_iff l k).0 e in
      let le : key_le k l ≡ true = subst (λ t. key_le k t ≡ true) (sym same) (key_le-same k) in
      absurd (let wrong : true ≡ false = sym le ∙ h in cc)
]

get-insert_field :
    (name k : String) (v : Js) (fs : Fields)
    → get name (insert_field k v fs) ≡ (if str_eq k name then v else get name fs)
unfolding insert_field
get-insert_field name k v end = refl
get-insert_field name k v (field l w fs) = elim (Bool-cases (key_le k l)) [
  | inl before ↦ rw before refl
  | inr after ↦
      let rest = get-insert_field name k v fs in
      rw after (elim (Bool-cases (str_eq l name)) [
        | inr other ↦ rw other rest
        | inl here_ ↦
            let same : l ≡ name = (eq_iff l name).0 here_ in
            let apart : str_eq k name ≡ false = str_eq_sym l k name same (other_key k l after) in
            rw (here_, apart) refl
      ])
]
  where
    str_eq_sym : (l k name : String) → l ≡ name → str_eq l k ≡ false → str_eq k name ≡ false
    str_eq_sym l k name same h = elim (Bool-cases (str_eq k name)) [
      | inr e ↦ e
      | inl e ↦
          let yes_ : str_eq l k ≡ true = (eq_iff l k).1 (same ∙ sym ((eq_iff k name).0 e)) in
          absurd (let wrong : true ≡ false = sym yes_ ∙ h in cc)
    ]

-- The properties are the same ones.
pub get-sorted_fields :
    (name : String) (fs : Fields) → get name (sorted_fields fs) ≡ sorted (get name fs)
unfolding sorted sorted_fields
get-sorted_fields name end = refl
get-sorted_fields name (field k v fs) =
    get-insert_field name k (sorted v) (sorted_fields fs) ∙ (elim (Bool-cases (str_eq k name)) [
      | inl e ↦ rw e refl
      | inr e ↦ rw e (get-sorted_fields name fs)
    ])
