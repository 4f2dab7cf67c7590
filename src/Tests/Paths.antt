-- ===== src/Tests/Paths.antt =====
-- Runs of the field paths, and their theorems at concrete inputs.
use mathlib.Core.List.{Perm}
use haste.Prelude.{◌↔◌, ◌≤◌, ℕ, ◌≡◌, refl, arith, Bool, true, false, List, [], ◌∷◌, map}
use haste.Prelude.Int.{pos}
use haste.Outcome.{ok}
use haste.BitReader.{BitReader, ◌>>=◌}
use haste.BitReader.Keeps.{Post}
use haste.FieldPath.{FieldPath, default, push, pop}
use haste.FieldPath.Valid.{IsValid, default-IsValid}
use haste.FieldPath.PushPop.{pop-push, pop-IsValid}
use haste.FieldPath.OpsValid.{KeepsValid}
use haste.FieldPath.Table.{fieldop_descriptors}
use haste.FieldPath.TableValid.{table_valid}
use haste.FieldPath.Huffman.{
  FieldOpDescriptor, Node, leaf, branch, weight, pop_node, build_hierarchy,
}
use haste.FieldPath.Huffman.Content.{ops, total, build_hierarchy-Holds}
use haste.FieldPath.Huffman.Leaves.{AllDescriptors, NoneLighter, pop_node-NoneLighter}
use haste.FieldPath.Flat.{flatten_child}
use haste.FieldPath.Flat.Represents.{Represents, flatten_child-Represents}
use haste.FieldPath.Paths.{read_field_paths}
use haste.FieldPath.Paths.Valid.{Good}
use haste.FieldPath.Paths.Whole.{
  read_by_hierarchy, read_field_paths-hierarchy, read_field_paths-Good,
}
use haste.Tests.BitList.{ReadError, bit_list, bit_list-Documented}

abbrev reader : List Bool → BitReader (bit_list true)
reader bits = record { inner = bits; did_check_overflow = false }

-- The code of plus one (0), a code of the tree, and the code of the end (1 0).
abbrev two_paths : BitReader (bit_list true)
two_paths = reader (false ∷ true ∷ true ∷ true ∷ true ∷ false ∷ true ∷ false ∷ [])

abbrev slots : List FieldPath
slots = default ∷ default ∷ default ∷ []

abbrev three : List (FieldOpDescriptor ℕ)
three =
    record { weight = 5; op = 10 }
    ∷ record { weight = 2; op = 20 }
    ∷ record { weight = 1; op = 30 }
    ∷ []

read_field_paths-hierarchy_example :
    read_field_paths slots two_paths ≡ read_by_hierarchy slots two_paths
read_field_paths-hierarchy_example = read_field_paths-hierarchy slots two_paths

read_field_paths-Good_example : Post (Good slots) (read_field_paths slots two_paths)
read_field_paths-Good_example =
    read_field_paths-Good (bit_list-Documented true) refl slots two_paths

table_valid_example :
    AllDescriptors (KeepsValid {p = bit_list true}) (fieldop_descriptors (bit_list true))
table_valid_example = table_valid (bit_list-Documented true) refl

build_hierarchy-Holds_example :
    (n : Node ℕ) × (build_hierarchy {E = ReadError} three ≡ ok n)
    × Perm (ops n) (map (λ e. e.op) three)
    × (weight n ≡ total three)
build_hierarchy-Holds_example = build_hierarchy-Holds ReadError _ _

pop_node-NoneLighter_example :
    NoneLighter {T = ℕ}
      (pop_node (leaf 5 0 10) (leaf 2 1 20 ∷ leaf 1 2 30 ∷ [])).0
      (pop_node (leaf 5 0 10) (leaf 2 1 20 ∷ leaf 1 2 30 ∷ [])).1
pop_node-NoneLighter_example = pop_node-NoneLighter (leaf 5 0 10) (leaf 2 1 20 ∷ leaf 1 2 30 ∷ [])

flatten_child-Represents_example :
    Represents {T = ℕ}
      (flatten_child (branch 3 2 (leaf 1 0 10) (leaf 2 1 20)) []).1
      (flatten_child (branch 3 2 (leaf 1 0 10) (leaf 2 1 20)) []).0
      (branch 3 2 (leaf 1 0 10) (leaf 2 1 20))
flatten_child-Represents_example =
    flatten_child-Represents (branch 3 2 (leaf 1 0 10) (leaf 2 1 20)) (omega arith)

pop-push_example : ◌>>=◌ (push default (pos 300)) (λ q. pop q 1) two_paths ≡ ok (default, two_paths)
pop-push_example = pop-push default (pos 300) two_paths default-IsValid (omega arith) refl

pop-IsValid_example :
    ((q : FieldPath) × (pop default 1 two_paths ≡ ok (q, two_paths)) × IsValid q) ↔ (1 ≤ 0)
pop-IsValid_example = pop-IsValid 1 default two_paths default-IsValid
