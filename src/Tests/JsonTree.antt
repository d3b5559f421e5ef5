-- ===== src/Tests/JsonTree.antt =====
-- JSON as trees: values that meet what the parameters of crates/ferroq-gateway/src/onebot_v11.rs
-- and its neighbours promise.
use ferroq.Prelude.{
  String, Bool, true, false, Option, none, some, List, [], ◌∷◌, ◌++◌, ◌≡◌, refl, ap, ◌∙◌, ◌==◌,
  eq_String, if◌then◌else◌,
}
use ferroq.Prelude.Int.{ℤ, pos}
use ferroq.Prelude.Decimal.{int_text}
use ferroq.Core.Json.{JsonValue}
use ferroq.Core.Json.Build.{JsonBuild, last_field}

mutual
  pub data Tree : Type 0 where
    nothing : Tree
    number : ℤ → Tree
    string : String → Tree
    items : Trees → Tree
    fields : Entries → Tree

  pub data Trees : Type 0 where
    no_item : Trees
    item : Tree → Trees → Trees

  pub data Entries : Type 0 where
    no_entry : Entries
    entry : String → Tree → Entries → Entries

abbrev trees_of : List Tree → Trees
trees_of [] = no_item
trees_of (v ∷ vs) = item v (trees_of vs)

abbrev tree_list : Trees → List Tree
tree_list no_item = []
tree_list (item v vs) = v ∷ tree_list vs

abbrev entries_of : List (String × Tree) → Entries
entries_of [] = no_entry
entries_of ((k, v) ∷ es) = entry k v (entries_of es)

abbrev entry_list : Entries → List (String × Tree)
entry_list no_entry = []
entry_list (entry k v es) = (k, v) ∷ entry_list es

pub tree_list-of : (vs : List Tree) → tree_list (trees_of vs) ≡ vs
tree_list-of [] = refl
tree_list-of (v ∷ vs) = ap (◌∷◌ v) (tree_list-of vs)

pub entry_list-of : (es : List (String × Tree)) → entry_list (entries_of es) ≡ es
entry_list-of [] = refl
entry_list-of ((k, v) ∷ es) = ap (λ (l : List (String × Tree)). (k, v) ∷ l) (entry_list-of es)

abbrev get : Tree → String → Option Tree
get (fields es) key = last_field (entry_list es) key none
get _ key = none

abbrev is_object : Tree → Bool
is_object (fields es) = true
is_object _ = false

abbrev insert : Tree → String → Tree → Tree
insert (fields es) key v = fields (entries_of (entry_list es ++ (key, v) ∷ []))
insert t key v = t

last_field-append :
    (es : List (String × Tree)) (k key : String) (v : Tree) (found : Option Tree)
    → last_field (es ++ (k, v) ∷ []) key found
      ≡ (if k == key then some v else last_field es key found)
last_field-append [] k key v found = refl
last_field-append ((j, w) ∷ es) k key v found =
    last_field-append es k key v (if j == key then some w else found)

abbrev pub tree_json : JsonValue Tree
tree_json = record {
  get = get;
  as_i64 = λ v. elim v [ number z ↦ some z | _ ↦ none ];
  as_u64 = λ v. elim v [ number z ↦ elim z [ ℤ.pos n ↦ some n | _ ↦ none ] | _ ↦ none ];
  as_str = λ v. elim v [ string s ↦ some s | _ ↦ none ];
  as_array = λ v. elim v [ items vs ↦ some (tree_list vs) | _ ↦ none ];
  number_text = λ v. elim v [ number z ↦ some (int_text z) | _ ↦ none ];
  null = nothing;
}

pub get-insert :
    (v w : Tree) (k key : String)
    → is_object v ≡ true
    → get (insert v k w) key ≡ (if k == key then some w else get v key)
get-insert (fields es) w k key o =
    ap (λ (l : List (String × Tree)). last_field l key none)
      (entry_list-of (entry_list es ++ (k, w) ∷ []))
    ∙ last_field-append (entry_list es) k key w none
get-insert nothing w k key o = cc
get-insert (number z) w k key o = cc
get-insert (string t) w k key o = cc
get-insert (items vs) w k key o = cc

pub is_object-insert :
    (v w : Tree) (k : String) → is_object v ≡ true → is_object (insert v k w) ≡ true
is_object-insert (fields es) w k o = refl
is_object-insert nothing w k o = cc
is_object-insert (number z) w k o = cc
is_object-insert (string t) w k o = cc
is_object-insert (items vs) w k o = cc

abbrev pub tree_build : JsonBuild tree_json
tree_build = record {
  text = string;
  integer = number;
  unsigned = λ n. number (pos n);
  float = number;
  array = λ vs. items (trees_of vs);
  object = λ es. fields (entries_of es);
  insert = insert;
  is_object = is_object;
  as_str-text = λ s. refl;
  as_i64-integer = λ z i. refl;
  as_array-array = λ vs. ap some (tree_list-of vs);
  get-object =
      λ es key. ap (λ (l : List (String × Tree)). last_field l key none) (entry_list-of es);
  is_object-object = λ es. refl;
  get-insert = get-insert;
  is_object-insert = is_object-insert;
}
