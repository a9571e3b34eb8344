-- ===== src/App/Kinds/Lines.antt =====
-- The events of the application as lines of text: the kind, and a path, innermost id first; a part of a
-- construct stands before the path, with a dot.
use Prim.Native.Char.{code}
use services_modulith_infra.Base.{String, List, [], ◌∷◌, ◌++◌, map, eqb, words, if◌then◌else◌}
use services_modulith_infra.App.Names.{Segment}
use services_modulith_infra.App.Inventory.{id_of, path_of}
use services_modulith_infra.App.Kinds.{Event, made, used}

-- A construct, or a part of one.
pub data Place : Type 0 where
  whole : List Segment → Place
  part : List Segment → String → Place

abbrev pub Named : Type 0
Named = Event Place

abbrev place_of : List String → Place
place_of [] = whole []
place_of (String.[] ∷ ids) = whole []
place_of (String.◌∷◌ c s ∷ ids) =
    if eqb (code c) b'.' then part (map id_of ids) s else whole (map id_of (String.◌∷◌ c s ∷ ids))

abbrev named_line : List String → List Named
named_line [] = []
named_line (kind ∷ ids) = used kind (place_of ids) ∷ []

abbrev named_lines : List String → List Named
named_lines [] = []
named_lines (l ∷ ls) = named_line (words l) ++ named_lines ls

-- A line that names a construct.
abbrev pub name : String → List Named
name line = named_line (words line)

-- A line that makes a part of a construct.
abbrev made_part : List String → List Named
made_part [] = []
made_part (kind ∷ ids) = made (kind ∷ []) (place_of ids) ∷ []

abbrev pub comes_with : String → List Named
comes_with line = made_part (words line)

abbrev kinds_line : String → List String
kinds_line String.[] = []
kinds_line line = words line

abbrev scope_line : String → List Segment → List Named
scope_line kind (id ∷ second ∷ scope) = used kind (whole (second ∷ scope)) ∷ []
scope_line kind _ = []

abbrev creation : String → List String → List String → List Segment → List Named
creation kind kinds uses path =
    scope_line kind path ++ (named_lines uses ++ made ("construct" ∷ kinds) (whole path) ∷ [])

-- The creation of a construct with its kinds, the lines of what its arguments name, and its path.
abbrev pub creates : String → List String → String → List Named
creates kinds uses path = creation "construct" (kinds_line kinds) uses (path_of path)

-- The creation of a container in its task definition.
abbrev pub contains : List String → String → List Named
contains uses path = creation "task_definition" ("container" ∷ []) uses (path_of path)

abbrev pub join : List (List Named) → List Named
join [] = []
join (es ∷ rest) = es ++ join rest
