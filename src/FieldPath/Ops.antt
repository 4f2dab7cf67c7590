-- ===== src/FieldPath/Ops.antt =====
-- crates/haste_core/src/fieldpath.rs: the forty operations that a field path is built by.
use haste.Prelude.{ℕ, zero, suc, ◌+◌, true, if◌then◌else◌}
use haste.Prelude.Int.{ℤ, pos, negsuc}
use haste.Platform.{Platform}
use haste.BitReader.{
  Read, ◌>>=◌, pure, read_ubit64, read_bool, read_ubitvar, read_ubitvarfp, read_varint32,
}
use haste.Machine.{as_i32, add_i32, sub_usize}
use haste.FieldPath.{FieldPath, inc_at, inc_last, push, pop}

abbrev pub FieldOp : Platform → Type 0
FieldOp p = FieldPath → Read p FieldPath

module _ {p : Platform} where
  -- `br.read_ubitvarfp()? as i32`, and the same with `+ k`.
  abbrev pub varfp : Read p ℤ
  varfp = do v ← read_ubitvarfp; pure (as_i32 v)

  abbrev pub varfp_plus : ℕ → Read p ℤ
  varfp_plus k = do v ← read_ubitvarfp; add_i32 (as_i32 v) (pos k)

  -- `br.read_ubitvar()? as i32 + k` and `br.read_ubit64(n)? as i32 + k`
  abbrev pub ubitvar_plus : ℕ → Read p ℤ
  ubitvar_plus k = do v ← read_ubitvar; add_i32 (as_i32 v) (pos k)

  abbrev pub ubit_plus : ℕ → ℕ → Read p ℤ
  ubit_plus n k = do v ← read_ubit64 n; add_i32 (as_i32 v) (pos k)

  -- `br.read_varint32()? + 1` and `br.read_ubit64(4)? as i32 - 7`
  abbrev pub varint_plus_one : Read p ℤ
  varint_plus_one = do v ← read_varint32; add_i32 v (pos 1)

  abbrev pub pack4 : Read p ℤ
  pack4 = do v ← read_ubit64 4; add_i32 (as_i32 v) (negsuc 6)

  -- `fp.push(br.read_ubitvarfp()? as i32)` and `fp.push(br.read_ubit64(5)? as i32)`
  unfoldable pub push_varfp : FieldOp p
  push_varfp fp = do v ← varfp; push fp v

  unfoldable pub push_ubit5 : FieldOp p
  push_ubit5 fp = do v ← read_ubit64 5; push fp (as_i32 v)

  -- `for _ in 0..n { fp.push(br.read_ubitvarfp()? as i32) }`
  unfoldable pub push_each : FieldPath → ℕ → Read p FieldPath
  push_each fp zero = pure fp
  push_each fp (suc n) = do pushed ← push_varfp fp; push_each pushed n

  -- `for i in 0..=fp.last { if br.read_bool()? { fp.inc_at(i, …) } }`, with the rounds left.
  unfoldable pub inc_each : Read p ℤ → ℕ → ℕ → FieldOp p
  inc_each delta zero i fp = pure fp
  inc_each delta (suc n) i fp = do
    selected ← read_bool
    changed ← if selected then (do v ← delta; inc_at fp i v) else pure fp
    inc_each delta n (i + 1) changed

  unfoldable pub plus_one : FieldOp p
  plus_one fp = inc_last fp (pos 1)

  unfoldable pub plus_two : FieldOp p
  plus_two fp = inc_last fp (pos 2)

  unfoldable pub plus_three : FieldOp p
  plus_three fp = inc_last fp (pos 3)

  unfoldable pub plus_four : FieldOp p
  plus_four fp = inc_last fp (pos 4)

  unfoldable pub plus_n : FieldOp p
  plus_n fp = do n ← varfp_plus 5; inc_last fp n

  unfoldable pub push_one_left_delta_zero_right_zero : FieldOp p
  push_one_left_delta_zero_right_zero fp = push fp (pos 0)

  unfoldable pub push_one_left_delta_zero_right_non_zero : FieldOp p
  push_one_left_delta_zero_right_non_zero fp = push_varfp fp

  unfoldable pub push_one_left_delta_one_right_zero : FieldOp p
  push_one_left_delta_one_right_zero fp = do fp1 ← inc_last fp (pos 1); push fp1 (pos 0)

  unfoldable pub push_one_left_delta_one_right_non_zero : FieldOp p
  push_one_left_delta_one_right_non_zero fp = do fp1 ← inc_last fp (pos 1); push_varfp fp1

  unfoldable pub push_one_left_delta_n_right_zero : FieldOp p
  push_one_left_delta_n_right_zero fp = do n ← varfp; fp1 ← inc_last fp n; push fp1 (pos 0)

  unfoldable pub push_one_left_delta_n_right_non_zero : FieldOp p
  push_one_left_delta_n_right_non_zero fp = do
    n ← varfp_plus 2
    fp1 ← inc_last fp n
    m ← varfp_plus 1
    push fp1 m

  unfoldable pub push_one_left_delta_n_right_non_zero_pack6_bits : FieldOp p
  push_one_left_delta_n_right_non_zero_pack6_bits fp = do
    n ← ubit_plus 3 2
    fp1 ← inc_last fp n
    m ← ubit_plus 3 1
    push fp1 m

  unfoldable pub push_one_left_delta_n_right_non_zero_pack8_bits : FieldOp p
  push_one_left_delta_n_right_non_zero_pack8_bits fp = do
    n ← ubit_plus 4 2
    fp1 ← inc_last fp n
    m ← ubit_plus 4 1
    push fp1 m

  unfoldable pub push_two_left_delta_zero : FieldOp p
  push_two_left_delta_zero fp = do fp1 ← push_varfp fp; push_varfp fp1

  unfoldable pub push_two_left_delta_one : FieldOp p
  push_two_left_delta_one fp = do fp1 ← inc_last fp (pos 1); fp2 ← push_varfp fp1; push_varfp fp2

  unfoldable pub push_two_left_delta_n : FieldOp p
  push_two_left_delta_n fp = do
    n ← ubitvar_plus 2
    fp1 ← inc_last fp n
    fp2 ← push_varfp fp1
    push_varfp fp2

  unfoldable pub push_two_pack5_left_delta_zero : FieldOp p
  push_two_pack5_left_delta_zero fp = do fp1 ← push_ubit5 fp; push_ubit5 fp1

  unfoldable pub push_two_pack5_left_delta_one : FieldOp p
  push_two_pack5_left_delta_one fp = do
    fp1 ← inc_last fp (pos 1)
    fp2 ← push_ubit5 fp1
    push_ubit5 fp2

  unfoldable pub push_two_pack5_left_delta_n : FieldOp p
  push_two_pack5_left_delta_n fp = do
    n ← ubitvar_plus 2
    fp1 ← inc_last fp n
    fp2 ← push_ubit5 fp1
    push_ubit5 fp2

  unfoldable pub push_three_left_delta_zero : FieldOp p
  push_three_left_delta_zero fp = do fp1 ← push_varfp fp; fp2 ← push_varfp fp1; push_varfp fp2

  unfoldable pub push_three_left_delta_one : FieldOp p
  push_three_left_delta_one fp = do
    fp1 ← inc_last fp (pos 1)
    fp2 ← push_varfp fp1
    fp3 ← push_varfp fp2
    push_varfp fp3

  unfoldable pub push_three_left_delta_n : FieldOp p
  push_three_left_delta_n fp = do
    n ← ubitvar_plus 2
    fp1 ← inc_last fp n
    fp2 ← push_varfp fp1
    fp3 ← push_varfp fp2
    push_varfp fp3

  unfoldable pub push_three_pack5_left_delta_zero : FieldOp p
  push_three_pack5_left_delta_zero fp = do fp1 ← push_ubit5 fp; fp2 ← push_ubit5 fp1; push_ubit5 fp2

  unfoldable pub push_three_pack5_left_delta_one : FieldOp p
  push_three_pack5_left_delta_one fp = do
    fp1 ← inc_last fp (pos 1)
    fp2 ← push_ubit5 fp1
    fp3 ← push_ubit5 fp2
    push_ubit5 fp3

  unfoldable pub push_three_pack5_left_delta_n : FieldOp p
  push_three_pack5_left_delta_n fp = do
    n ← ubitvar_plus 2
    fp1 ← inc_last fp n
    fp2 ← push_ubit5 fp1
    fp3 ← push_ubit5 fp2
    push_ubit5 fp3

  unfoldable pub push_n : FieldOp p
  push_n fp = do n ← read_ubitvar; v ← read_ubitvar; fp1 ← inc_last fp (as_i32 v); push_each fp1 n

  unfoldable pub push_n_and_non_topographical : FieldOp p
  push_n_and_non_topographical fp = do
    fp1 ← inc_each varint_plus_one (fp.last + 1) 0 fp
    n ← read_ubitvar
    push_each fp1 n

  unfoldable pub pop_one_plus_one : FieldOp p
  pop_one_plus_one fp = do fp1 ← pop fp 1; inc_last fp1 (pos 1)

  unfoldable pub pop_one_plus_n : FieldOp p
  pop_one_plus_n fp = do fp1 ← pop fp 1; n ← varfp_plus 1; inc_last fp1 n

  unfoldable pub pop_all_but_one_plus_one : FieldOp p
  pop_all_but_one_plus_one fp = do fp1 ← pop fp fp.last; inc_last fp1 (pos 1)

  unfoldable pub pop_all_but_one_plus_n : FieldOp p
  pop_all_but_one_plus_n fp = do fp1 ← pop fp fp.last; n ← varfp_plus 1; inc_last fp1 n

  unfoldable pub pop_all_but_one_plus_n_pack3_bits : FieldOp p
  pop_all_but_one_plus_n_pack3_bits fp = do fp1 ← pop fp fp.last; n ← ubit_plus 3 1; inc_last fp1 n

  unfoldable pub pop_all_but_one_plus_n_pack6_bits : FieldOp p
  pop_all_but_one_plus_n_pack6_bits fp = do fp1 ← pop fp fp.last; n ← ubit_plus 6 1; inc_last fp1 n

  unfoldable pub pop_n_plus_one : FieldOp p
  pop_n_plus_one fp = do n ← read_ubitvarfp; fp1 ← pop fp n; inc_last fp1 (pos 1)

  unfoldable pub pop_n_plus_n : FieldOp p
  pop_n_plus_n fp = do n ← read_ubitvarfp; fp1 ← pop fp n; v ← read_varint32; inc_last fp1 v

  unfoldable pub pop_n_and_non_topographical : FieldOp p
  pop_n_and_non_topographical fp = do
    n ← read_ubitvarfp
    fp1 ← pop fp n
    inc_each read_varint32 (fp1.last + 1) 0 fp1

  unfoldable pub non_topo_complex : FieldOp p
  non_topo_complex fp = inc_each read_varint32 (fp.last + 1) 0 fp

  unfoldable pub non_topo_penultimate_pluse_one : FieldOp p
  non_topo_penultimate_pluse_one fp = do i ← sub_usize fp.last 1; inc_at fp i (pos 1)

  unfoldable pub non_topo_complex_pack4_bits : FieldOp p
  non_topo_complex_pack4_bits fp = inc_each pack4 (fp.last + 1) 0 fp

  unfoldable pub field_path_encode_finish : FieldOp p
  field_path_encode_finish fp = pure (record fp { finished = true })
