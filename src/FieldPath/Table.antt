-- ===== src/FieldPath/Table.antt =====
-- crates/haste_core/src/fieldpath.rs: the weighted operations, `FIELDOP_DESCRIPTORS`.
use haste.Prelude.{List, [], ◌∷◌}
use haste.Platform.{Platform}
use haste.FieldPath.Huffman.{FieldOpDescriptor}
use haste.FieldPath.Ops
use haste.FieldPath.Ops.{FieldOp}

abbrev pub fieldop_descriptors : (p : Platform) → List (FieldOpDescriptor (FieldOp p))
fieldop_descriptors p =
    record { weight = 36271; op = Ops.plus_one }
    ∷ record { weight = 10334; op = Ops.plus_two }
    ∷ record { weight = 1375; op = Ops.plus_three }
    ∷ record { weight = 646; op = Ops.plus_four }
    ∷ record { weight = 4128; op = Ops.plus_n }
    ∷ record { weight = 35; op = Ops.push_one_left_delta_zero_right_zero }
    ∷ record { weight = 3; op = Ops.push_one_left_delta_zero_right_non_zero }
    ∷ record { weight = 521; op = Ops.push_one_left_delta_one_right_zero }
    ∷ record { weight = 2942; op = Ops.push_one_left_delta_one_right_non_zero }
    ∷ record { weight = 560; op = Ops.push_one_left_delta_n_right_zero }
    ∷ record { weight = 471; op = Ops.push_one_left_delta_n_right_non_zero }
    ∷ record { weight = 10530; op = Ops.push_one_left_delta_n_right_non_zero_pack6_bits }
    ∷ record { weight = 251; op = Ops.push_one_left_delta_n_right_non_zero_pack8_bits }
    ∷ record { weight = 1; op = Ops.push_two_left_delta_zero }
    ∷ record { weight = 1; op = Ops.push_two_pack5_left_delta_zero }
    ∷ record { weight = 1; op = Ops.push_three_left_delta_zero }
    ∷ record { weight = 1; op = Ops.push_three_pack5_left_delta_zero }
    ∷ record { weight = 1; op = Ops.push_two_left_delta_one }
    ∷ record { weight = 1; op = Ops.push_two_pack5_left_delta_one }
    ∷ record { weight = 1; op = Ops.push_three_left_delta_one }
    ∷ record { weight = 1; op = Ops.push_three_pack5_left_delta_one }
    ∷ record { weight = 1; op = Ops.push_two_left_delta_n }
    ∷ record { weight = 1; op = Ops.push_two_pack5_left_delta_n }
    ∷ record { weight = 1; op = Ops.push_three_left_delta_n }
    ∷ record { weight = 1; op = Ops.push_three_pack5_left_delta_n }
    ∷ record { weight = 1; op = Ops.push_n }
    ∷ record { weight = 310; op = Ops.push_n_and_non_topographical }
    ∷ record { weight = 2; op = Ops.pop_one_plus_one }
    ∷ record { weight = 1; op = Ops.pop_one_plus_n }
    ∷ record { weight = 1837; op = Ops.pop_all_but_one_plus_one }
    ∷ record { weight = 149; op = Ops.pop_all_but_one_plus_n }
    ∷ record { weight = 300; op = Ops.pop_all_but_one_plus_n_pack3_bits }
    ∷ record { weight = 634; op = Ops.pop_all_but_one_plus_n_pack6_bits }
    ∷ record { weight = 1; op = Ops.pop_n_plus_one }
    ∷ record { weight = 1; op = Ops.pop_n_plus_n }
    ∷ record { weight = 1; op = Ops.pop_n_and_non_topographical }
    ∷ record { weight = 76; op = Ops.non_topo_complex }
    ∷ record { weight = 271; op = Ops.non_topo_penultimate_pluse_one }
    ∷ record { weight = 99; op = Ops.non_topo_complex_pack4_bits }
    ∷ record { weight = 25474; op = Ops.field_path_encode_finish }
    ∷ []
