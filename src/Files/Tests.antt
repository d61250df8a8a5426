-- ===== src/Files/Tests.antt =====
-- A folder with a file of another member.
use dotori.Prelude.{◌≡◌, refl, true, false, none, some, [], ◌∷◌, ◌↔◌}
use dotori.Prelude.Classes.{nat_eq}
use dotori.Prelude.Text.{codes}
use dotori.Workspaces.{founder, new_member}
use dotori.Files.{
  file, folder, Node, is_active_member, can_view_node, can_modify_node, is_below,
  can_modify_subtree, rstrip_slash, build_path,
}
use dotori.Files.Subtree.{MayChange, can_modify_subtree_iff}

program : Unit {0}
unfolding is_active_member can_view_node can_modify_node is_below can_modify_subtree rstrip_slash
    build_path
program = tt

abbrev box : Node
box = record {
  name = codes "a";
  path = codes "/a";
  workspace = 7;
  owner = some 2;
  node_type = folder;
}

abbrev note : Node
note = record {
  name = codes "n";
  path = codes "/a/n";
  workspace = 7;
  owner = some 3;
  node_type = file;
}

owner_refused : can_modify_subtree (box ∷ note ∷ []) 2 (some (new_member 7 2 none)) box ≡ false
unfolding program
owner_refused = refl

admin_allowed : can_modify_subtree (box ∷ note ∷ []) 1 (some (founder 7 1)) box ≡ true
unfolding program
admin_allowed = refl

built : note.path ≡ build_path (some box) note.name
unfolding program
built = refl

clean : rstrip_slash box.path ≡ box.path
unfolding program
clean = refl

can_modify_subtree_iff_example :
    (can_modify_subtree (box ∷ note ∷ []) 1 (some (founder 7 1)) box ≡ true)
    ↔ MayChange (box ∷ note ∷ []) 1 (founder 7 1) box
can_modify_subtree_iff_example = can_modify_subtree_iff (box ∷ note ∷ []) 1 (founder 7 1) box
