-- ===== src/Controller/Gestation/Newborns/Examples.antt =====
-- syncNewborns in a namespace with one newborn, with a codec in the place of JSON.
use kyvernetria.Controller.Gestation.Newborns.{Json, Entry, Cared, Namespace}
use kyvernetria.Gestation.Memory.Codec.{write_list, read_list}
use kyvernetria.Text.{Text, codes}
use kyvernetria.Prelude.{true, List, [], ◌∷◌, Option, none, some}

abbrev flattened : List Entry → List Text
flattened [] = []
flattened (e ∷ es) = e.selector ∷ e.priority_class ∷ flattened es

abbrev paired : List Text → List Entry
paired [] = []
paired (s ∷ []) = []
paired (s ∷ c ∷ ts) = record { selector = s; priority_class = c } ∷ paired ts

-- 91 is the opening bracket of a list, so that no list is blank.
abbrev after_bracket : Text → Option (List Entry)
after_bracket [] = none
after_bracket (c ∷ t) = some (paired (read_list t).0)

abbrev codec : Json
codec = record { marshal = λ es. 91 ∷ write_list (flattened es) []; unmarshal = after_bracket }

abbrev newborn : Cared
newborn = record {
  scope = codes "shop";
  in_care = true;
  selector = some (codes "app=web");
  class = codes "newborn";
}

abbrev shop : Namespace
shop = record { name = codes "shop"; annotation = [] }
