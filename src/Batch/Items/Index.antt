-- ===== src/Batch/Items/Index.antt =====
-- The index of core/tasks/batchtfile/item_progress.go: an update by ID reaches the record of that
-- element and no other.
use save_any_bot.Prelude.{
  ℕ, suc, zero, ◌≡◌, ◌≢◌, refl, ap, subst, ◌∙◌, String, Option, none, some, List, [], ◌∷◌, ◌++◌,
  if◌then◌else◌, get, put, get-put, length, length-append, get_elem?, set, arith, str_eq,
  str_eq_iff, Bool-cases, Option-cases, inl, inr,
}
use native.Mathlib.Decide.{ℕ_discrete}
use save_any_bot.Batch.Items.{
  ElementInfo, ItemState, Items, fresh_item, add_items, new_item_progress_states, change_at,
  update_item, item_at,
}

module _ {ℓ} {A : Type ℓ} where
  get_elem?-set_self :
      (xs : List A) (i : ℕ) (x v : A) → get_elem? xs i ≡ some x → get_elem? (set xs i v) i ≡ some v
  get_elem?-set_self [] i x v e = cc
  get_elem?-set_self (y ∷ xs) zero x v e = refl
  get_elem?-set_self (y ∷ xs) (suc i) x v e = get_elem?-set_self xs i x v e

  get_elem?-set_ne :
      (xs : List A) (i j : ℕ) (v : A) → i ≢ j → get_elem? (set xs i v) j ≡ get_elem? xs j
  get_elem?-set_ne [] i j v h = refl
  get_elem?-set_ne (y ∷ xs) zero zero v h = absurd (h refl)
  get_elem?-set_ne (y ∷ xs) zero (suc j) v h = refl
  get_elem?-set_ne (y ∷ xs) (suc i) zero v h = refl
  get_elem?-set_ne (y ∷ xs) (suc i) (suc j) v h = get_elem?-set_ne xs i j v (omega arith)

  get_elem?-append :
      (xs : List A) (i : ℕ) (x y : A)
      → get_elem? xs i ≡ some x
      → get_elem? (xs ++ y ∷ []) i ≡ some x
  get_elem?-append [] i x y e = cc
  get_elem?-append (z ∷ xs) zero x y e = e
  get_elem?-append (z ∷ xs) (suc i) x y e = get_elem?-append xs i x y e

  get_elem?-last : (xs : List A) (y : A) → get_elem? (xs ++ y ∷ []) (length xs) ≡ some y
  get_elem?-last [] y = refl
  get_elem?-last (z ∷ xs) y = get_elem?-last xs y

-- The record under an ID.
unfoldable pub item_of : Items → String → Option ItemState
unfolding item_at
item_of t id = item_at t (get id t.item_index)

-- The index leads to records that carry the ID it is asked for.
abbrev pub WellIndexed : Items → Type 0
WellIndexed t =
    (id : String) (i : ℕ)
    → get id t.item_index ≡ some i
    → (item : ItemState) × (get_elem? t.item_states i ≡ some item) × (item.id ≡ id)

add_item-WellIndexed :
    (i : ℕ) (elem : ElementInfo) (t : Items)
    → length t.item_states ≡ i
    → WellIndexed t
    → WellIndexed (record {
      item_states = t.item_states ++ fresh_item i elem ∷ [];
      item_index = put elem.id i t.item_index;
    })
unfolding fresh_item
add_item-WellIndexed i elem t e w id j h = elim (Bool-cases (str_eq elem.id id)) [
  | inl q ↦
      let p : i ≡ j = ground (arith, get-put id elem.id i t.item_index) in
      (
        fresh_item i elem,
        subst
            (λ k. get_elem? (t.item_states ++ fresh_item i elem ∷ []) k ≡ some (fresh_item i elem))
            (e ∙ p) (get_elem?-last t.item_states (fresh_item i elem)),
        (str_eq_iff elem.id id).0 q,
      )
  | inr q ↦
      let (item, found, keyed) = w id j (ground (arith, get-put id elem.id i t.item_index)) in
      (item, get_elem?-append t.item_states j item (fresh_item i elem) found, keyed)
]

add_items-WellIndexed :
    (i : ℕ) (elems : List ElementInfo) (t : Items)
    → length t.item_states ≡ i
    → WellIndexed t
    → WellIndexed (add_items i elems t)
unfolding add_items
add_items-WellIndexed i [] t e w = w
add_items-WellIndexed i (elem ∷ elems) t e w =
    add_items-WellIndexed (suc i) elems _
      (omega (arith, length-append t.item_states (fresh_item i elem ∷ [])))
      (add_item-WellIndexed i elem t e w)

pub new_item_progress_states-WellIndexed :
    (elems : List ElementInfo) → WellIndexed (new_item_progress_states elems)
unfolding new_item_progress_states get
new_item_progress_states-WellIndexed elems =
    add_items-WellIndexed 0 elems (record { item_states = []; item_index = [] }) refl (λ id i e. cc)

abbrev pub after {ℓ} : {A : Type ℓ} → (A → A) → Option A → Option A
after f none = none
after f (some a) = some (f a)

abbrev pub KeepsId : (ItemState → ItemState) → Type 0
KeepsId f = (item : ItemState) → (f item).id ≡ item.id

set-item_of :
    (t : Items) (item : ItemState) (i : ℕ) (f : ItemState → ItemState) (id j : String)
    → WellIndexed t
    → get id t.item_index ≡ some i
    → get_elem? t.item_states i ≡ some item
    → item.id ≡ id
    → (o : Option ℕ) → get j t.item_index ≡ o
    → item_at (record t { item_states = set t.item_states i (f item) }) o
      ≡ (if str_eq id j then after f (item_at t o) else item_at t o)
unfolding item_at
set-item_of t item i f id j w found here keyed none e = ground arith
set-item_of t item i f id j w found here keyed (some k) e = elim (Bool-cases (str_eq id j)) [
  | inl q ↦ ground (
    arith,
    get_elem?-set_self t.item_states i item (f item) here,
    str_eq_iff id j,
    ap (λ k. get k t.item_index) ((str_eq_iff id j).0 q),
  )
  | inr q ↦
      let (other, there, other_keyed) = w j k e in
      let apart : i ≢ k = λ p. ground (arith, ap (get_elem? t.item_states) p, str_eq_iff id j) in
      rw (q, get_elem?-set_ne t.item_states i k (f item) apart)
]

missing-item_of :
    (t : Items) (id : String) (f : ItemState → ItemState) (j : String)
    → get id t.item_index ≡ none
    → item_at t (get j t.item_index) ≡ (
        if str_eq id j
        then after f (item_at t (get j t.item_index))
        else item_at t (get j t.item_index))
unfolding item_at
missing-item_of t id f j e = elim (Bool-cases (str_eq id j)) [
  | inl q ↦
      let gone : get j t.item_index ≡ none =
        subst (λ k. get k t.item_index ≡ none) ((str_eq_iff id j).0 q) e in
      rw (q, gone) refl
  | inr q ↦ rw q refl
]

-- After an update of the record under an ID, that record is the updated one and the record under
-- every other ID is as before; an ID without a record changes nothing.
pub update_item-item_of :
    (t : Items) (id : String) (f : ItemState → ItemState) (j : String)
    → WellIndexed t
    → item_of (update_item t id f).0 j
      ≡ (if str_eq id j then after f (item_of t j) else item_of t j)
unfolding update_item item_of
update_item-item_of t id f j w = elim (Option-cases (get id t.item_index)) [
  | inl e ↦ rw (e, update_item) (missing-item_of t id f j e)
  | inr (i, e) ↦
      let (item, here, keyed) = w id i e in
      rw (e, update_item)
        (rw (here, change_at)
          (set-item_of t item i f id j w e here keyed (get j t.item_index) refl))
]

set-WellIndexed :
    (t : Items) (item : ItemState) (i : ℕ) (f : ItemState → ItemState)
    → KeepsId f
    → WellIndexed t
    → get_elem? t.item_states i ≡ some item
    → WellIndexed (record t { item_states = set t.item_states i (f item) })
set-WellIndexed t item i f keeps w here id k e =
    let (other, there, keyed) = w id k e in
    elim (ℕ_discrete i k) [
      | yes p ↦
          let same : item ≡ other = ground (arith, ap (get_elem? t.item_states) p) in
          (
            f item,
            subst (λ n. get_elem? (set t.item_states i (f item)) n ≡ some (f item)) p
                (get_elem?-set_self t.item_states i item (f item) here),
            keeps item ∙ ap (λ (x : ItemState). x.id) same ∙ keyed,
          )
      | no p ↦ (other, get_elem?-set_ne t.item_states i k (f item) p ∙ there, keyed)
    ]

pub update_item-WellIndexed :
    (t : Items) (id : String) (f : ItemState → ItemState)
    → KeepsId f
    → WellIndexed t
    → WellIndexed (update_item t id f).0
unfolding update_item
update_item-WellIndexed t id f keeps w = elim (Option-cases (get id t.item_index)) [
  | inl e ↦ rw (e, update_item) w
  | inr (i, e) ↦
      let (item, here, keyed) = w id i e in
      rw (e, update_item) (rw (here, change_at) (set-WellIndexed t item i f keeps w here))
]
