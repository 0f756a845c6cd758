-- ===== src/Json/Objects.antt =====
-- What the accessors of Json find in the objects and arrays that the program builds.
use actuator_final.Prelude.{◌≡◌, refl, ap, [], ◌∷◌, List}
use actuator_final.Dict.{Dict}
use actuator_final.Json.{Json, items, items_of, members, members_of}

module _ {F : Type 0} where
  pub items-items_of : (js : List (Json F)) → items (items_of js) ≡ js
  unfolding items items_of
  items-items_of [] = refl
  items-items_of (j ∷ js) = ap (◌∷◌ j) (items-items_of js)

  pub members-members_of : (d : Dict (Json F)) → members (members_of d) ≡ d
  unfolding members members_of
  members-members_of [] = refl
  members-members_of ((key, j) ∷ d) = ap (◌∷◌ (key, j)) (members-members_of d)
