-- ===== src/FieldPath/TableValid.antt =====
-- The forty operations of crates/haste_core/src/fieldpath.rs and the invariant of a field path: one
-- lemma for each descriptor, in the order of `FIELDOP_DESCRIPTORS`.
use haste.Prelude.{◌≡◌, true}
use haste.Platform.{Platform, Documented}
use haste.FieldPath.Huffman.Leaves.{AllDescriptors}
use haste.FieldPath.Ops
use haste.FieldPath.OpsValid.{
  KeepsValid, then-Any, then_valid, Any-ubitvar, Any-ubitvarfp, Any-varint32, Any-varfp,
  Any-varfp_plus, Any-ubitvar_plus, Any-ubit_plus, Any-varint_plus_one, Any-pack4, valid_inc_each,
  valid_push_varfp, valid_push_ubit5, IsValid-push_each, Any-sub_usize, IsValid-finish,
}
use haste.FieldPath.Table.{fieldop_descriptors}
use haste.FieldPath.Valid.{Keeps-inc_at, Keeps-inc_last, Keeps-push, Keeps-pop}

ruleset rules = (
  then-Any, then_valid, Keeps-inc_last, Keeps-inc_at, Any-varfp, Any-varfp_plus, Any-ubitvar,
  Any-ubitvar_plus, Any-ubit_plus, Any-varint32, Any-varint_plus_one, Any-pack4, Any-ubitvarfp,
  valid_inc_each, Keeps-push, Keeps-pop, valid_push_varfp, valid_push_ubit5, IsValid-push_each,
  Any-sub_usize, IsValid-finish,
)

module _ {p : Platform} (d : Documented p) (checks : p.overflow_checks ≡ true) where
  plus_one_lem : KeepsValid {p = p} Ops.plus_one
  unfolding Ops.plus_one
  plus_one_lem fp h = search rules depth 8

  plus_two_lem : KeepsValid {p = p} Ops.plus_two
  unfolding Ops.plus_two
  plus_two_lem fp h = search rules depth 8

  plus_three_lem : KeepsValid {p = p} Ops.plus_three
  unfolding Ops.plus_three
  plus_three_lem fp h = search rules depth 8

  plus_four_lem : KeepsValid {p = p} Ops.plus_four
  unfolding Ops.plus_four
  plus_four_lem fp h = search rules depth 8

  plus_n_lem : KeepsValid {p = p} Ops.plus_n
  unfolding Ops.plus_n
  plus_n_lem fp h = search rules depth 8

  push_one_left_delta_zero_right_zero_lem :
      KeepsValid {p = p} Ops.push_one_left_delta_zero_right_zero
  unfolding Ops.push_one_left_delta_zero_right_zero
  push_one_left_delta_zero_right_zero_lem fp h = search rules depth 8

  push_one_left_delta_zero_right_non_zero_lem :
      KeepsValid {p = p} Ops.push_one_left_delta_zero_right_non_zero
  unfolding Ops.push_one_left_delta_zero_right_non_zero
  push_one_left_delta_zero_right_non_zero_lem fp h = search rules depth 8

  push_one_left_delta_one_right_zero_lem : KeepsValid {p = p} Ops.push_one_left_delta_one_right_zero
  unfolding Ops.push_one_left_delta_one_right_zero
  push_one_left_delta_one_right_zero_lem fp h = search rules depth 8

  push_one_left_delta_one_right_non_zero_lem :
      KeepsValid {p = p} Ops.push_one_left_delta_one_right_non_zero
  unfolding Ops.push_one_left_delta_one_right_non_zero
  push_one_left_delta_one_right_non_zero_lem fp h = search rules depth 8

  push_one_left_delta_n_right_zero_lem : KeepsValid {p = p} Ops.push_one_left_delta_n_right_zero
  unfolding Ops.push_one_left_delta_n_right_zero
  push_one_left_delta_n_right_zero_lem fp h = search rules depth 8

  push_one_left_delta_n_right_non_zero_lem :
      KeepsValid {p = p} Ops.push_one_left_delta_n_right_non_zero
  unfolding Ops.push_one_left_delta_n_right_non_zero
  push_one_left_delta_n_right_non_zero_lem fp h = search rules depth 8

  push_one_left_delta_n_right_non_zero_pack6_bits_lem :
      KeepsValid {p = p} Ops.push_one_left_delta_n_right_non_zero_pack6_bits
  unfolding Ops.push_one_left_delta_n_right_non_zero_pack6_bits
  push_one_left_delta_n_right_non_zero_pack6_bits_lem fp h = search rules depth 8

  push_one_left_delta_n_right_non_zero_pack8_bits_lem :
      KeepsValid {p = p} Ops.push_one_left_delta_n_right_non_zero_pack8_bits
  unfolding Ops.push_one_left_delta_n_right_non_zero_pack8_bits
  push_one_left_delta_n_right_non_zero_pack8_bits_lem fp h = search rules depth 8

  push_two_left_delta_zero_lem : KeepsValid {p = p} Ops.push_two_left_delta_zero
  unfolding Ops.push_two_left_delta_zero
  push_two_left_delta_zero_lem fp h = search rules depth 8

  push_two_pack5_left_delta_zero_lem : KeepsValid {p = p} Ops.push_two_pack5_left_delta_zero
  unfolding Ops.push_two_pack5_left_delta_zero
  push_two_pack5_left_delta_zero_lem fp h = search rules depth 8

  push_three_left_delta_zero_lem : KeepsValid {p = p} Ops.push_three_left_delta_zero
  unfolding Ops.push_three_left_delta_zero
  push_three_left_delta_zero_lem fp h = search rules depth 8

  push_three_pack5_left_delta_zero_lem : KeepsValid {p = p} Ops.push_three_pack5_left_delta_zero
  unfolding Ops.push_three_pack5_left_delta_zero
  push_three_pack5_left_delta_zero_lem fp h = search rules depth 8

  push_two_left_delta_one_lem : KeepsValid {p = p} Ops.push_two_left_delta_one
  unfolding Ops.push_two_left_delta_one
  push_two_left_delta_one_lem fp h = search rules depth 8

  push_two_pack5_left_delta_one_lem : KeepsValid {p = p} Ops.push_two_pack5_left_delta_one
  unfolding Ops.push_two_pack5_left_delta_one
  push_two_pack5_left_delta_one_lem fp h = search rules depth 8

  push_three_left_delta_one_lem : KeepsValid {p = p} Ops.push_three_left_delta_one
  unfolding Ops.push_three_left_delta_one
  push_three_left_delta_one_lem fp h = search rules depth 8

  push_three_pack5_left_delta_one_lem : KeepsValid {p = p} Ops.push_three_pack5_left_delta_one
  unfolding Ops.push_three_pack5_left_delta_one
  push_three_pack5_left_delta_one_lem fp h = search rules depth 8

  push_two_left_delta_n_lem : KeepsValid {p = p} Ops.push_two_left_delta_n
  unfolding Ops.push_two_left_delta_n
  push_two_left_delta_n_lem fp h = search rules depth 8

  push_two_pack5_left_delta_n_lem : KeepsValid {p = p} Ops.push_two_pack5_left_delta_n
  unfolding Ops.push_two_pack5_left_delta_n
  push_two_pack5_left_delta_n_lem fp h = search rules depth 8

  push_three_left_delta_n_lem : KeepsValid {p = p} Ops.push_three_left_delta_n
  unfolding Ops.push_three_left_delta_n
  push_three_left_delta_n_lem fp h = search rules depth 8

  push_three_pack5_left_delta_n_lem : KeepsValid {p = p} Ops.push_three_pack5_left_delta_n
  unfolding Ops.push_three_pack5_left_delta_n
  push_three_pack5_left_delta_n_lem fp h = search rules depth 8

  push_n_lem : KeepsValid {p = p} Ops.push_n
  unfolding Ops.push_n
  push_n_lem fp h = search rules depth 8

  push_n_and_non_topographical_lem : KeepsValid {p = p} Ops.push_n_and_non_topographical
  unfolding Ops.push_n_and_non_topographical
  push_n_and_non_topographical_lem fp h = search rules depth 8

  pop_one_plus_one_lem : KeepsValid {p = p} Ops.pop_one_plus_one
  unfolding Ops.pop_one_plus_one
  pop_one_plus_one_lem fp h = search rules depth 8

  pop_one_plus_n_lem : KeepsValid {p = p} Ops.pop_one_plus_n
  unfolding Ops.pop_one_plus_n
  pop_one_plus_n_lem fp h = search rules depth 8

  pop_all_but_one_plus_one_lem : KeepsValid {p = p} Ops.pop_all_but_one_plus_one
  unfolding Ops.pop_all_but_one_plus_one
  pop_all_but_one_plus_one_lem fp h = search rules depth 8

  pop_all_but_one_plus_n_lem : KeepsValid {p = p} Ops.pop_all_but_one_plus_n
  unfolding Ops.pop_all_but_one_plus_n
  pop_all_but_one_plus_n_lem fp h = search rules depth 8

  pop_all_but_one_plus_n_pack3_bits_lem : KeepsValid {p = p} Ops.pop_all_but_one_plus_n_pack3_bits
  unfolding Ops.pop_all_but_one_plus_n_pack3_bits
  pop_all_but_one_plus_n_pack3_bits_lem fp h = search rules depth 8

  pop_all_but_one_plus_n_pack6_bits_lem : KeepsValid {p = p} Ops.pop_all_but_one_plus_n_pack6_bits
  unfolding Ops.pop_all_but_one_plus_n_pack6_bits
  pop_all_but_one_plus_n_pack6_bits_lem fp h = search rules depth 8

  pop_n_plus_one_lem : KeepsValid {p = p} Ops.pop_n_plus_one
  unfolding Ops.pop_n_plus_one
  pop_n_plus_one_lem fp h = search rules depth 8

  pop_n_plus_n_lem : KeepsValid {p = p} Ops.pop_n_plus_n
  unfolding Ops.pop_n_plus_n
  pop_n_plus_n_lem fp h = search rules depth 8

  pop_n_and_non_topographical_lem : KeepsValid {p = p} Ops.pop_n_and_non_topographical
  unfolding Ops.pop_n_and_non_topographical
  pop_n_and_non_topographical_lem fp h = search rules depth 8

  non_topo_complex_lem : KeepsValid {p = p} Ops.non_topo_complex
  unfolding Ops.non_topo_complex
  non_topo_complex_lem fp h = search rules depth 8

  non_topo_penultimate_pluse_one_lem : KeepsValid {p = p} Ops.non_topo_penultimate_pluse_one
  unfolding Ops.non_topo_penultimate_pluse_one
  non_topo_penultimate_pluse_one_lem fp h = search rules depth 8

  non_topo_complex_pack4_bits_lem : KeepsValid {p = p} Ops.non_topo_complex_pack4_bits
  unfolding Ops.non_topo_complex_pack4_bits
  non_topo_complex_pack4_bits_lem fp h = search rules depth 8

  field_path_encode_finish_lem : KeepsValid {p = p} Ops.field_path_encode_finish
  unfolding Ops.field_path_encode_finish
  field_path_encode_finish_lem fp h = search rules depth 8

  -- In a build with overflow checks each of the forty operations of the table, applied to a valid
  -- path, ends, puts no bits back, and if it succeeds leaves a valid path.
  pub table_valid : AllDescriptors (KeepsValid {p = p}) (fieldop_descriptors p)
  table_valid = (
    plus_one_lem,
    (
      plus_two_lem,
      (
        plus_three_lem,
        (
          plus_four_lem,
          (
            plus_n_lem,
            (
              push_one_left_delta_zero_right_zero_lem,
              (
                push_one_left_delta_zero_right_non_zero_lem,
                (
                  push_one_left_delta_one_right_zero_lem,
                  (
                    push_one_left_delta_one_right_non_zero_lem,
                    (
                      push_one_left_delta_n_right_zero_lem,
                      (
                        push_one_left_delta_n_right_non_zero_lem,
                        (
                          push_one_left_delta_n_right_non_zero_pack6_bits_lem,
                          (
                            push_one_left_delta_n_right_non_zero_pack8_bits_lem,
                            (
                              push_two_left_delta_zero_lem,
                              (
                                push_two_pack5_left_delta_zero_lem,
                                (
                                  push_three_left_delta_zero_lem,
                                  (
                                    push_three_pack5_left_delta_zero_lem,
                                    (
                                      push_two_left_delta_one_lem,
                                      (
                                        push_two_pack5_left_delta_one_lem,
                                        (
                                          push_three_left_delta_one_lem,
                                          (
                                            push_three_pack5_left_delta_one_lem,
                                            (
                                              push_two_left_delta_n_lem,
                                              (
                                                push_two_pack5_left_delta_n_lem,
                                                (
                                                  push_three_left_delta_n_lem,
                                                  (
                                                    push_three_pack5_left_delta_n_lem,
                                                    (
                                                      push_n_lem,
                                                      (
                                                        push_n_and_non_topographical_lem,
                                                        (
                                                          pop_one_plus_one_lem,
                                                          (
                                                            pop_one_plus_n_lem,
                                                            (
                                                            pop_all_but_one_plus_one_lem,
                                                            (
                                                            pop_all_but_one_plus_n_lem,
                                                            (
                                                            pop_all_but_one_plus_n_pack3_bits_lem,
                                                            (
                                                            pop_all_but_one_plus_n_pack6_bits_lem,
                                                            (
                                                            pop_n_plus_one_lem,
                                                            (
                                                            pop_n_plus_n_lem,
                                                            (
                                                            pop_n_and_non_topographical_lem,
                                                            (
                                                            non_topo_complex_lem,
                                                            (
                                                            non_topo_penultimate_pluse_one_lem,
                                                            (
                                                            non_topo_complex_pack4_bits_lem,
                                                            (field_path_encode_finish_lem, tt),
                                                            ),
                                                            ),
                                                            ),
                                                            ),
                                                            ),
                                                            ),
                                                            ),
                                                            ),
                                                            ),
                                                            ),
                                                          ),
                                                        ),
                                                      ),
                                                    ),
                                                  ),
                                                ),
                                              ),
                                            ),
                                          ),
                                        ),
                                      ),
                                    ),
                                  ),
                                ),
                              ),
                            ),
                          ),
                        ),
                      ),
                    ),
                  ),
                ),
              ),
            ),
          ),
        ),
      ),
    ),
  )
