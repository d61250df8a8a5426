-- ===== src/Files.antt =====
-- Who may see and change a node of the file tree: app/files/services/access.py over the fields of
-- `Node` of app/files/models.py that it reads. A path is the list of its code points.
pub mod Subtree
mod Tests
use dotori.Prelude.{
  ℕ, String, Bool, true, false, not, ◌&&◌, ◌||◌, Option, none, some, List, [], ◌∷◌, ◌++◌, any,
  if◌then◌else◌,
}
use dotori.Prelude.Classes.{◌==◌, nat_eq}
use dotori.Prelude.Text.{codes}
use dotori.Workspaces.{Membership, is_admin}

pub data NodeType : Type 0 where
  file folder : NodeType

abbrev pub is_folder : NodeType → Bool
is_folder folder = true
is_folder file = false

pub record Node : Type 0 where
  pub name : List ℕ
  pub path : List ℕ
  pub workspace : ℕ
  pub owner : Option ℕ
  pub node_type : NodeType

-- `path__startswith`
abbrev pub starts_with : List ℕ → List ℕ → Bool
starts_with [] cs = true
starts_with (p ∷ ps) [] = false
starts_with (p ∷ ps) (c ∷ cs) = p == c && starts_with ps cs

abbrev pub slash : ℕ
slash = 47

-- `owner_id == actor.id`
abbrev pub owned_by : ℕ → Node → Bool
owned_by actor node = elim node.owner [ none ↦ false | some o ↦ o == actor ]

pub is_active_member : Option Membership → ℕ → Bool
is_active_member none workspace = false
is_active_member (some m) workspace = m.workspace == workspace && m.is_active

pub can_view_node : Option Membership → Node → Bool
can_view_node membership node = is_active_member membership node.workspace

abbrev pub has_admin_role : Option Membership → Bool
has_admin_role none = false
has_admin_role (some m) = is_admin m.role

pub can_modify_node : ℕ → Option Membership → Node → Bool
can_modify_node actor membership node =
    if not (can_view_node membership node)
    then false
    else if has_admin_role membership
    then true
    else owned_by actor node

-- A row of `filter(workspace_id=..., path__startswith=f"{node.path}/")`.
pub is_below : Node → Node → Bool
is_below node row =
    row.workspace == node.workspace && starts_with (node.path ++ slash ∷ []) row.path

-- The nodes are the rows of the table.
pub can_modify_subtree : List Node → ℕ → Option Membership → Node → Bool
can_modify_subtree nodes actor membership node =
    if not (can_modify_node actor membership node)
    then false
    else if has_admin_role membership || not (is_folder node.node_type)
    then true
    else not (any (λ row. is_below node row && not (owned_by actor row)) nodes)

-- `build_path` on the path of the parent; the code strips every slash at its end.
pub rstrip_slash : List ℕ → List ℕ
rstrip_slash [] = []
rstrip_slash (c ∷ cs) =
    let rest = rstrip_slash cs in
    elim rest [ [] ↦ if c == slash then [] else c ∷ [] | x ∷ xs ↦ c ∷ x ∷ xs ]

pub build_path : Option Node → List ℕ → List ℕ
build_path none name = slash ∷ name
build_path (some parent) name = rstrip_slash parent.path ++ slash ∷ name
