-- ===== src/Nbt/Tests.antt =====
-- A tree whose root is a compound, with an int selected.
use mcsrv.Common.{◌≡◌, refl, true, false, [], ◌∷◌}
use mcsrv.Common.Int.{pos}
use mcsrv.Common.Outcome.{ok}
use mcsrv.Nbt.{Nbt, NbtTag, no_value, okay, to_signed}
use mcsrv.Nbt.Tree.{get_current_tag, tag_at, set_value}
use mcsrv.Nbt.Access.{nbt_set_int, nbt_get_int}
use mcsrv.Nbt.Values.{Selected, nbt_get_int-set_int}
use mcsrv.Vector.{vect_peek, vect_ref}
use mcsrv.Vector.Blocks.{load_at, slot, get_block_from_index}

abbrev root : NbtTag
root = record { type = 10; value = record no_value { word0 = 2; word1 = 1 }; name = [] }

abbrev number : NbtTag
number = record { type = 3; value = no_value; name = 110 ∷ [] }

-- The slot behind the elements of the stack holds the index of the int.
abbrev tree : Nbt
tree = record {
  tags = record {
    blocks = (root ∷ number ∷ root ∷ root ∷ []) ∷ [];
    current = 0;
    next_insert_index = 2;
    capacity = 4;
    size = 2;
    arena = true;
  };
  stack = record {
    blocks = (0 ∷ 1 ∷ 1 ∷ 0 ∷ []) ∷ [];
    current = 0;
    next_insert_index = 2;
    capacity = 4;
    size = 2;
    arena = false;
  };
}

tree-Selected : Selected tree (0, 1) number
unfolding get_current_tag tag_at vect_peek vect_ref load_at slot get_block_from_index
tree-Selected = record { found = refl; held = refl }

-- 300 is read as 44.
nbt_get_int-set_int_example :
    (nbt : Nbt) × (nbt_set_int tree (pos 300) ≡ ok (okay, nbt))
    × Selected nbt (0, 1) (set_value (λ v. record v { word0 = 300 }) number)
    × (nbt_get_int nbt ≡ ok (pos 44))
unfolding to_signed
nbt_get_int-set_int_example = nbt_get_int-set_int tree (0, 1) number (pos 300) tree-Selected refl
