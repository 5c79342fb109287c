-- ===== src/Display/Nav.antt =====
-- The sidebar's entries in frontend/lib/constants.ts and what frontend/components/layout/Sidebar.tsx
-- does with them: groups, the active entry, and the collapsed state that is stored.
use llmplane.Common.{
  Bool, true, false, not, ◌||◌, List, [], ◌∷◌, ◌++◌, Option, none, some, Text, text, text_eq,
  starts_with, keep_if, if◌then◌else◌,
}

pub data NavGroup : Type 0 where
  operate build evaluate observe : NavGroup

unfoldable pub nav_group_order : List NavGroup
nav_group_order = operate ∷ build ∷ evaluate ∷ observe ∷ []

pub record NavItem : Type 0 where
  pub label : Text
  pub href : Text
  pub icon : Text
  pub group : NavGroup

abbrev item : Text → Text → Text → NavGroup → NavItem
item label href icon group = record { label = label; href = href; icon = icon; group = group }

unfoldable pub nav_items : List NavItem
nav_items =
    item (text "Dashboard") (text "/dashboard") (text "LayoutDashboard") operate
    ∷ item (text "Command Center") (text "/infrastructure") (text "Network") operate
    ∷ item (text "Providers") (text "/providers") (text "Server") operate
    ∷ item (text "Deployments") (text "/deployments") (text "Container") operate
    ∷ item (text "Routing") (text "/routing") (text "GitBranch") operate
    ∷ item (text "Playground") (text "/playground") (text "Play") build
    ∷ item (text "Prompts") (text "/prompts") (text "FileText") build
    ∷ item (text "Experiments") (text "/experiments") (text "FlaskConical") evaluate
    ∷ item (text "Benchmarks") (text "/benchmarks") (text "Trophy") evaluate
    ∷ item (text "Evaluations") (text "/evaluations") (text "CheckCircle") evaluate
    ∷ item (text "Leaderboard") (text "/leaderboard") (text "Medal") evaluate
    ∷ item (text "Observability") (text "/observability") (text "Eye") observe
    ∷ item (text "Logs") (text "/logs") (text "ScrollText") observe
    ∷ item (text "Cost Analytics") (text "/cost-analytics") (text "DollarSign") observe
    ∷ []

abbrev pub same_group : NavGroup → NavGroup → Bool
same_group operate operate = true
same_group build build = true
same_group evaluate evaluate = true
same_group observe observe = true
same_group g h = false

unfoldable pub group_items : NavGroup → List NavItem
unfolding nav_items
group_items g = keep_if (λ i. same_group i.group g) nav_items

unfoldable pub is_active : Text → NavItem → Bool
unfolding starts_with
is_active pathname i = text_eq pathname i.href || starts_with pathname (i.href ++ text "/")

-- The stored entry `llcp_sidebar_collapsed`, and the state that is read from it on mount.
unfoldable pub read_collapsed : Option Text → Bool
read_collapsed none = false
read_collapsed (some v) = text_eq v (text "1")

-- `toggle`: the new state, and what is stored.
unfoldable pub toggle : Bool → Bool × Option Text
toggle c = (not c, some (if not c then text "1" else text "0"))

-- The names of `NAV_ICONS`, in frontend/lib/nav-icons.ts.
unfoldable pub nav_icons : List Text
nav_icons =
    text "LayoutDashboard"
    ∷ text "Network"
    ∷ text "Server"
    ∷ text "Container"
    ∷ text "GitBranch"
    ∷ text "Play"
    ∷ text "FileText"
    ∷ text "FlaskConical"
    ∷ text "Trophy"
    ∷ text "CheckCircle"
    ∷ text "Medal"
    ∷ text "Eye"
    ∷ text "ScrollText"
    ∷ text "DollarSign"
    ∷ []
