-- ===== src/Files/Subtree.antt =====
-- What the permission to change a subtree means, and where a child's path lies.
use dotori.Prelude.{
  ℕ, ◌≡◌, refl, true, false, not, ◌&&◌, some, List, [], ◌∷◌, ◌++◌, any, arith, Bool-cases, inl, inr,
  ◌⊎◌, ◌↔◌, Member, Member→any, any→Member,
}
use dotori.Prelude.Classes.{nat_eq, ==_refl}
use dotori.Workspaces.{Membership, admin, is_admin}
use dotori.Files.{
  folder, Node, starts_with, slash, owned_by, is_active_member, can_view_node, can_modify_node,
  is_below, can_modify_subtree, is_folder, rstrip_slash, build_path,
}

-- The rule in words: an active member of the node's workspace who administers it, or who owns the
-- node and, for a folder, everything below it.
abbrev pub MayChange : List Node → ℕ → Membership → Node → Type 0
MayChange nodes actor m node =
    (m.workspace ≡ node.workspace)
    × (m.is_active ≡ true)
    × ((m.role ≡ admin)
        ⊎ ((owned_by actor node ≡ true)
            × (node.node_type ≡ folder
                → (row : Node) → Member row nodes
                → is_below node row ≡ true
                → owned_by actor row ≡ true)))

any_none :
    (actor : ℕ) (node : Node) (nodes : List Node)
    → ((row : Node) → Member row nodes → is_below node row ≡ true → owned_by actor row ≡ true)
    → any (λ row. is_below node row && not (owned_by actor row)) nodes ≡ false
any_none actor node nodes own =
    elim (Bool-cases (any (λ row. is_below node row && not (owned_by actor row)) nodes)) [
      | inr none_there ↦ none_there
      | inl there ↦
          let (row, at, foreign) =
            any→Member (λ row. is_below node row && not (owned_by actor row)) nodes there in
          let mine : owned_by actor row ≡ true = own row at (ground (arith, foreign)) in
          absurd (ground (arith, foreign, mine))
    ]

may_change :
    (nodes : List Node) (actor : ℕ) (m : Membership) (node : Node)
    → can_modify_subtree nodes actor (some m) node ≡ true
    → MayChange nodes actor m node
unfolding can_modify_subtree can_modify_node can_view_node is_active_member
may_change nodes actor m node h = (
  ground (arith, h),
  ground (arith, h),
  elim (Bool-cases (is_admin m.role)) [
    | inl ruler ↦ inl (ground (arith, ruler))
    | inr plain ↦ inr (
      ground (arith, h, plain),
      λ is row at below. elim (Bool-cases (owned_by actor row)) [
        | inl mine ↦ mine
        | inr foreign ↦
            let found =
              Member→any (λ row. is_below node row && not (owned_by actor row)) nodes row at
                (ground (arith, below, foreign)) in
            absurd (ground (arith, h, plain, is, found))
      ],
    )
  ],
)

MayChange-allowed :
    (nodes : List Node) (actor : ℕ) (m : Membership) (node : Node)
    → MayChange nodes actor m node
    → can_modify_subtree nodes actor (some m) node ≡ true
unfolding can_modify_subtree can_modify_node can_view_node is_active_member
MayChange-allowed nodes actor m node (here, active, inl ruler) = ground (arith, here, active, ruler)
MayChange-allowed nodes actor m node (here, active, inr (mine, all)) =
    elim (Bool-cases (is_folder node.node_type)) [
      | inr leaf ↦ ground (arith, here, active, mine, leaf)
      | inl tree ↦
          let clean = any_none actor node nodes (all (ground (arith, tree))) in
          ground (arith, here, active, mine, tree, clean)
    ]

-- A member may change a subtree exactly if the rule allows it.
pub can_modify_subtree_iff :
    (nodes : List Node) (actor : ℕ) (m : Membership) (node : Node)
    → (can_modify_subtree nodes actor (some m) node ≡ true) ↔ MayChange nodes actor m node
can_modify_subtree_iff nodes actor m node =
    (may_change nodes actor m node, MayChange-allowed nodes actor m node)

starts_with-child : (ps name : List ℕ) → starts_with (ps ++ slash ∷ []) (ps ++ slash ∷ name) ≡ true
starts_with-child [] name = refl
starts_with-child (p ∷ ps) name = rw (==_refl p) (starts_with-child ps name)

-- A node that has the path built from its folder is among the rows that a change of that folder
-- reaches, if the folder's own path ends in no slash.
build_path-is_below :
    (parent child : Node)
    → rstrip_slash parent.path ≡ parent.path
    → child.workspace ≡ parent.workspace
    → child.path ≡ build_path (some parent) child.name
    → is_below parent child ≡ true
unfolding is_below build_path
build_path-is_below parent child clean same built =
    let inside : starts_with (parent.path ++ slash ∷ []) child.path ≡ true =
      rw (built, clean) (starts_with-child parent.path child.name) in
    ground (arith, same, inside)
