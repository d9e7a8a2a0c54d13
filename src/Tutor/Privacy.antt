-- ===== src/Tutor/Privacy.antt =====
-- apps/api/src/rigor_api/tutor_domain.py: `assert_tutor_context_is_public` looks everywhere.
use leetcode_platform.Prelude.{
  ℕ, String, ◌≡◌, refl, false, Option, none, some, List, [], ◌∷◌, ◌++◌, suc, inl, inr, Bool-cases,
}
use leetcode_platform.Json.{
  Json, Items, Fields, null, bool, int, float, str, arr, obj, nil, cons, end, field,
}
use leetcode_platform.Tutor.{
  is_forbidden, PathPart, key, index, or_else, refused_in, refused_fields, refused_items,
}

-- The key `k` stands in a value, at any depth.
mutual
  pub data InJson (k : String) : Json → Type 0 where
    in_obj : {fields : Fields} → InFields k fields → InJson k (obj fields)
    in_arr : {items : Items} → InItems k items → InJson k (arr items)

  pub data InFields (k : String) : Fields → Type 0 where
    this : {v : Json} {rest : Fields} → InFields k (field k v rest)
    below : {j : String} {v : Json} {rest : Fields} → InJson k v → InFields k (field j v rest)
    after : {j : String} {v : Json} {rest : Fields} → InFields k rest → InFields k (field j v rest)

  pub data InItems (k : String) : Items → Type 0 where
    first : {v : Json} {rest : Items} → InJson k v → InItems k (cons v rest)
    later : {v : Json} {rest : Items} → InItems k rest → InItems k (cons v rest)

or_else-none : {A : Type 0} (a b : Option A) → or_else a b ≡ none → (a ≡ none) × (b ≡ none)
or_else-none none b h = (refl, h)
or_else-none (some a) b h = cc

module _ (fold : String → String) where
  split_field :
      (j : String) (v : Json) (rest : Fields) (path : List PathPart)
      → refused_fields fold (field j v rest) path ≡ none
      → (is_forbidden (fold j) ≡ false)
        × (refused_in fold v (path ++ key j ∷ []) ≡ none)
        × (refused_fields fold rest path ≡ none)
  unfolding refused_fields
  split_field j v rest path h = elim (Bool-cases (is_forbidden (fold j))) [
    | inl bad ↦ absurd (cc (rw bad at h))
    | inr good ↦
        let (inside, further) =
          or_else-none (refused_in fold v (path ++ key j ∷ [])) (refused_fields fold rest path)
            (rw good at h) in
        (good, inside, further)
  ]

  split_item :
      (v : Json) (rest : Items) (n : ℕ) (path : List PathPart)
      → refused_items fold (cons v rest) n path ≡ none
      → (refused_in fold v (path ++ index n ∷ []) ≡ none)
        × (refused_items fold rest (suc n) path ≡ none)
  unfolding refused_items
  split_item v rest n path h =
      or_else-none (refused_in fold v (path ++ index n ∷ [])) (refused_items fold rest (suc n) path)
        h

  split_obj :
      (fields : Fields) (path : List PathPart)
      → refused_in fold (obj fields) path ≡ none
      → refused_fields fold fields path ≡ none
  unfolding refused_in
  split_obj fields path h = h

  split_arr :
      (items : Items) (path : List PathPart)
      → refused_in fold (arr items) path ≡ none
      → refused_items fold items 0 path ≡ none
  unfolding refused_in
  split_arr items path h = h

  mutual
    json_clean :
        (k : String) (v : Json) (path : List PathPart)
        → refused_in fold v path ≡ none
        → InJson k v
        → is_forbidden (fold k) ≡ false
    json_clean k null path h i = elim i [ ]
    json_clean k (bool _) path h i = elim i [ ]
    json_clean k (int _) path h i = elim i [ ]
    json_clean k (float _) path h i = elim i [ ]
    json_clean k (str _) path h i = elim i [ ]
    json_clean k (obj fields) path h (in_obj i) =
        fields_clean k fields path (split_obj fields path h) i
    json_clean k (arr items) path h (in_arr i) =
        items_clean k items 0 path (split_arr items path h) i

    fields_clean :
        (k : String) (fields : Fields) (path : List PathPart)
        → refused_fields fold fields path ≡ none
        → InFields k fields
        → is_forbidden (fold k) ≡ false
    fields_clean k end path h i = elim i [ ]
    fields_clean k (field _ v rest) path h this = (split_field k v rest path h).0
    fields_clean k (field j v rest) path h (below i) =
        let (_, inside, _) = split_field j v rest path h in
        json_clean k v (path ++ key j ∷ []) inside i
    fields_clean k (field j v rest) path h (after i) =
        let (_, _, further) = split_field j v rest path h in fields_clean k rest path further i

    items_clean :
        (k : String) (items : Items) (n : ℕ) (path : List PathPart)
        → refused_items fold items n path ≡ none
        → InItems k items
        → is_forbidden (fold k) ≡ false
    items_clean k nil n path h i = elim i [ ]
    items_clean k (cons v rest) n path h (first i) =
        json_clean k v (path ++ index n ∷ []) (split_item v rest n path h).0 i
    items_clean k (cons v rest) n path h (later i) =
        items_clean k rest (suc n) path (split_item v rest n path h).1 i

  -- Where the check lets a value through, no key at any depth of it is one of the forbidden keys,
  -- spaces around it and its case left aside.
  pub passed_context_clean :
      (k : String) (v : Json) (path : List PathPart)
      → refused_in fold v path ≡ none
      → InJson k v
      → is_forbidden (fold k) ≡ false
  passed_context_clean k v path h i = json_clean k v path h i
