-- ===== src/Scene/Pick.antt =====
-- `pick` of frontend/components/command-center/Scene2D.tsx, what the pointer does with it in
-- frontend/components/command-center/CommandCenter.tsx, and the nodes and edges that are in focus.
-- Distances are a parameter: `Math.hypot` on the projected nodes, and its order.
use llmplane.Common.{
  Bool, false, not, ◌||◌, List, [], ◌∷◌, ◌++◌, Option, none, some, Text, text_eq, any,
  if◌then◌else◌,
}
use llmplane.Topology.Types.{InfraNode, InfraEdge}

module _ {Num D : Type 0} (less : D → D → Bool) (distance : InfraNode Num → D) where
  -- The loop of `pick`, from the best node and its distance so far.
  unfoldable pub pick_from : Option Text → D → List (InfraNode Num) → Option Text
  pick_from best best_d [] = best
  pick_from best best_d (n ∷ ns) =
      let nearer = pick_from (some n.id) (distance n) ns in
      let same = pick_from best best_d ns in if less (distance n) best_d then nearer else same

  -- `radius` is 26.
  unfoldable pub pick : D → List (InfraNode Num) → Option Text
  unfolding pick_from
  pick radius ns = pick_from none radius ns

-- `selectedId` and `hoveredId`.
pub record Pointer : Type 0 where
  pub selected_id : Option Text
  pub hovered_id : Option Text

pub data PointerEvent : Type 0 where
  moves clicks : Option Text → PointerEvent
  closes_panel refreshes : PointerEvent

-- What is picked is hovered on a move and selected on a click; the panel's button clears the selection.
-- When the queries bring another map, neither changes.
unfoldable pub on_pointer : Pointer → PointerEvent → Pointer
on_pointer p (moves id) = record p { hovered_id = id }
on_pointer p (clicks id) = record p { selected_id = id }
on_pointer p closes_panel = record p { selected_id = none }
on_pointer p refreshes = p

unfoldable pub point : Pointer → List PointerEvent → Pointer
unfolding on_pointer
point p [] = p
point p (e ∷ es) = point (on_pointer p e) es

-- `hoveredId ?? selectedId`.
unfoldable pub focus_of : Pointer → Option Text
focus_of p = elim p.hovered_id [ none ↦ p.selected_id | some id ↦ some id ]

-- The members that the loop over the edges adds.
unfoldable pub neighbours : Text → List InfraEdge → List Text
neighbours focus [] = []
neighbours focus (e ∷ es) =
    (if text_eq e.from focus then e.to ∷ [] else [])
    ++ ((if text_eq e.to focus then e.from ∷ [] else []) ++ neighbours focus es)

-- `neighborSet`, empty without a focus. An empty text counts as no focus in the source, and is no id.
unfoldable pub neighbour_set : Option Text → List InfraEdge → List Text
unfolding neighbours
neighbour_set none es = []
neighbour_set (some focus) es = focus ∷ neighbours focus es

unfoldable pub is_connected : Option Text → InfraEdge → Bool
is_connected none e = false
is_connected (some focus) e = text_eq e.from focus || text_eq e.to focus

-- A node is dimmed if there is a focus and it is not in the set.
unfoldable pub is_dim : Option Text → List InfraEdge → Text → Bool
unfolding neighbour_set
is_dim none es id = false
is_dim (some focus) es id = not (any (text_eq id) (neighbour_set (some focus) es))
