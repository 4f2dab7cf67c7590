-- ===== src/FieldPath/PushPop.antt =====
-- `push` followed by `pop`, and `pop` of more than there is, of crates/haste_core/src/fieldpath.rs.
use haste.Prelude.{
  sym, ap, ℕ, zero, suc, ◌≤◌, ◌↔◌, refl, ◌∙◌, length, Bool, true, false, ◌+◌, ◌-◌, ◌^◌, ◌<◌, ◌≡◌,
  arith, some, length-set, set, set-set_back, get_elem?, if◌then◌else◌,
}
use haste.Prelude.Int.{ℤ}
use haste.Outcome.{Outcome, ok, panic, ◌>>=◌ as bind}
use haste.Platform.{Platform}
use haste.BitReader.{BitReader, ◌>>=◌}
use haste.Machine.{low_byte, add_usize, sub_usize}
use haste.FieldPath.{FieldPath, push, pop_one, pop}
use haste.FieldPath.Valid.{IsValid, set-AllBytes}

popped-IsValid :
    (fp : FieldPath)
    → IsValid fp
    → 0 < fp.last
    → IsValid (record fp { components = set fp.components fp.last 0; last = fp.last - 1 })
popped-IsValid fp h more = record {
  seven = length-set fp.components fp.last 0 ∙ h.seven;
  bytes = set-AllBytes fp.components fp.last 0 h.bytes (omega arith);
  in_range = omega (arith, h.in_range);
}

module _ {p : Platform} where
  -- With a free place behind `last`, that holds a zero as `pop` leaves it, a `pop` of one component
  -- undoes a `push`, in every build.
  pub pop-push :
      (fp : FieldPath) (v : ℤ) (br : BitReader p)
      → IsValid fp
      → fp.last < 6
      → get_elem? fp.components (fp.last + 1) ≡ some 0
      → ◌>>=◌ (push fp v) (λ q. pop q 1) br ≡ ok (fp, br)
  unfolding push pop pop_one add_usize sub_usize
  pop-push fp v br h room clear = ground (
    arith,
    h.seven,
    h.in_range,
    length-set fp.components (fp.last + 1) (low_byte v),
    set-set_back fp.components (fp.last + 1) (low_byte v) 0,
  )

  -- The body of the loop of `pop`, behind the first component and at it.
  pop_one_behind :
      (fp : FieldPath) (br : BitReader p)
      → IsValid fp
      → 0 < fp.last
      → pop_one fp br
        ≡ ok (record fp { components = set fp.components fp.last 0; last = fp.last - 1 }, br)
  unfolding pop_one sub_usize
  pop_one_behind fp br h more = ground (arith, h.seven, h.in_range)

  pop_one_first :
      (fp : FieldPath) (br : BitReader p)
      → IsValid fp
      → fp.last ≡ 0
      → pop_one fp br ≡ (
          if p.overflow_checks
          then panic
          else ok (record fp { components = set fp.components 0 0; last = 2 ^ 64 - 1 }, br))
  unfolding pop_one sub_usize
  pop_one_first fp br h e = ground (arith, h.seven)

  pop_out_of_range :
      (fp : FieldPath) (br : BitReader p)
      → length fp.components ≡ 7
      → fp.last ≡ 2 ^ 64 - 1
      → pop_one fp br ≡ panic
  unfolding pop_one sub_usize
  pop_out_of_range fp br seven e = ground (arith, seven)

  pop_enough :
      (n : ℕ) (fp : FieldPath) (br : BitReader p)
      → IsValid fp
      → n ≤ fp.last
      → (q : FieldPath) × (pop fp n br ≡ ok (q, br)) × IsValid q
  unfolding pop
  pop_enough zero fp br h le = (fp, refl, h)
  pop_enough (suc n) fp br h le =
      rw (pop_one_behind fp br h (omega arith))
        (pop_enough n _ br (popped-IsValid fp h (omega arith)) (omega arith))

  pop_only :
      (n : ℕ) (fp q : FieldPath) (br : BitReader p)
      → IsValid fp
      → pop fp n br ≡ ok (q, br)
      → IsValid q
      → n ≤ fp.last
  unfolding pop
  pop_only zero fp q br h e v = omega arith
  pop_only (suc n) fp q br h e v = at fp.last refl (λ next h' e'. pop_only n next q br h' e' v)
    where
      wrapped : FieldPath
      wrapped = record fp { components = set fp.components 0 0; last = 2 ^ 64 - 1 }

      behind_wrapped :
          (n : ℕ)
          → ◌≡◌ {A = Outcome p.Error (FieldPath × BitReader p)} (pop wrapped n br) (ok (q, br))
          → ⊥
      behind_wrapped zero done =
          let same : wrapped ≡ q = cc in
          let far : q.last ≡ 2 ^ 64 - 1 = ap (λ (x : FieldPath). x.last) (sym same) in
          absurd (omega (arith, far, v.in_range))
      behind_wrapped (suc n) done =
          let none : pop_one {p = p} wrapped br ≡ panic =
            pop_out_of_range wrapped br (length-set fp.components 0 0 ∙ h.seven) refl in
          absurd (panicked (rw none at done))
        where
          panicked : ◌≡◌ {A = Outcome p.Error (FieldPath × BitReader p)} panic (ok (q, br)) → ⊥
          panicked x = absurd (cc)

      at_first :
          (b : Bool)
          → ◌≡◌ {A = Outcome p.Error (FieldPath × BitReader p)}
              (bind {A = FieldPath × BitReader p}
                (if b then panic else ok (wrapped, br))
                (λ s. pop s.0 n s.1))
              (ok (q, br))
          → ⊥
      at_first true x = absurd (cc)
      at_first false x = behind_wrapped n x

      at :
          (m : ℕ)
          → fp.last ≡ m
          → ((next : FieldPath) → IsValid next → pop next n br ≡ ok (q, br) → n ≤ next.last)
          → suc n ≤ fp.last
      at zero first again =
          absurd (at_first p.overflow_checks (rw (pop_one_first fp br h first) at e))
      at (suc m) more again =
          let le =
            again _ (popped-IsValid fp h (omega arith))
              (rw (pop_one_behind fp br h (omega arith)) at e) in
          omega arith

  -- A `pop` of `n` components of a valid path succeeds with a valid path just if `n` is at most the
  -- last index, in every build.
  pub pop-IsValid :
      (n : ℕ) (fp : FieldPath) (br : BitReader p)
      → IsValid fp
      → ((q : FieldPath) × (pop fp n br ≡ ok (q, br)) × IsValid q) ↔ (n ≤ fp.last)
  pop-IsValid n fp br h = (λ (q, e, v). pop_only n fp q br h e v, pop_enough n fp br h)
