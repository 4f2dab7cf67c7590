-- ===== src/FieldPath/Paths/Valid.antt =====
-- The walk of `read_field_paths` of crates/haste_core/src/fieldpath.rs and the invariant of the paths.
use haste.Prelude.{
  ℕ, zero, suc, ◌+◌, ◌≤◌, ◌<◌, ◌≡◌, ◌∙◌, arith, Bool, true, false, List, [], ◌∷◌, if◌then◌else◌,
  length, length-set, set, drop-suc-set, drop-suc-eq, ltb→lt, take, drop, ltb, leb,
}
use native.Mathlib.Numerals.{add-one}
use haste.Platform.{Platform, Documented}
use haste.BitReader.{BitReader, ◌>>=◌, pure, num_bits_left}
use haste.BitReader.Takes.{read_bool_left}
use haste.BitReader.Keeps.{
  Keeps, Keeps-pure, Keeps-panic, Keeps-if, Keeps-read_bool, Within, Within-bind,
}
use haste.FieldPath.{FieldPath}
use haste.FieldPath.Huffman.{Node}
use haste.FieldPath.Huffman.Leaves.{AllOps}
use haste.FieldPath.Ops.{FieldOp}
use haste.FieldPath.OpsValid.{KeepsValid}
use haste.FieldPath.Paths.{write_path, after_op}
use haste.FieldPath.Paths.Hierarchy.{walk, walk_child}
use haste.FieldPath.Valid.{IsValid}

abbrev pub AllValid : List FieldPath → Type 0
AllValid [] = Unit {0}
AllValid (fp ∷ fps) = IsValid fp × AllValid fps

-- After `n` paths were written into `before`: these are valid, and the others are as they were.
pub record Written (before : List FieldPath) (n : ℕ) (after : List FieldPath) : Type 0 where
  pub size : length after ≡ length before
  pub fits : n ≤ length before
  pub valid : AllValid (take n after)
  pub kept : drop n after ≡ drop n before

-- The result of the reading: how many paths, and the slice with that many written.
abbrev pub Good : List FieldPath → ℕ × List FieldPath → Type 0
Good before (n, after) = Written before n after

take-set :
    (fps : List FieldPath) (i : ℕ) (fp : FieldPath)
    → AllValid (take i fps)
    → IsValid fp
    → AllValid (take (suc i) (set fps i fp))
take-set [] i fp h v = tt
take-set (q ∷ qs) zero fp h v = (v, tt)
take-set (q ∷ qs) (suc i) fp (hq, h) v = (hq, take-set qs i fp h v)

Written-set :
    (before fps : List FieldPath) (i : ℕ) (fp : FieldPath)
    → Written before i fps
    → i < length fps
    → IsValid fp
    → Written before (suc i) (set fps i fp)
Written-set before fps i fp w h v = record {
  size = length-set fps i fp ∙ w.size;
  fits = omega (arith, w.size);
  valid = take-set fps i fp w.valid v;
  kept = drop-suc-set fps i fp ∙ drop-suc-eq fps before i w.kept;
}

module _ {p : Platform} where
  Keeps-write_path :
      (before fps : List FieldPath) (i : ℕ) (fp : FieldPath)
      → Written before i fps
      → IsValid fp
      → Keeps (Written before (suc i)) (write_path {p = p} fps i fp)
  Keeps-write_path before fps i fp w v =
      Keeps-if (ltb i (length fps))
        (λ h.
          Keeps-if (leb (i + 1) (length fps))
            (λ _. Keeps-pure (Written-set before fps i fp w (ltb→lt i (length fps) h) v))
            (λ _. Keeps-panic))
        (λ _. Keeps-panic)

module _ {p : Platform} (d : Documented p) where
  module _ (before : List FieldPath) (rl rr : Node (FieldOp p)) (hrl : AllOps KeepsValid rl)
      (hrr : AllOps KeepsValid rr) (most : ℕ) where
    abbrev Goal : ℕ → Type 0
    Goal fuel =
        (l r : Node (FieldOp p)) (fp : FieldPath) (i : ℕ) (fps : List FieldPath) (br : BitReader p)
        → AllOps KeepsValid l
        → AllOps KeepsValid r
        → num_bits_left br < fuel
        → num_bits_left br ≤ most
        → IsValid fp
        → Written before i fps
        → Within (Good before) most (walk rl rr fuel l r fp i fps br)

    after_op-Good :
        (fuel : ℕ) (fp : FieldPath) (i : ℕ) (fps : List FieldPath) (br : BitReader p)
        → Goal fuel
        → num_bits_left br < fuel
        → num_bits_left br ≤ most
        → IsValid fp
        → Written before i fps
        → Within (Good before) most (after_op (walk rl rr fuel rl rr) fp i fps br)
    after_op-Good fuel fp i fps br ih small few v w = either fp.finished
      where
        written :
            Within
              (Good before)
              most
              (◌>>=◌ (write_path fps i fp) (walk rl rr fuel rl rr fp (i + 1)) br)
        written =
            Within-bind (Good before) most (walk rl rr fuel rl rr fp (i + 1))
              (Keeps-write_path before fps i fp w v) br
              (λ fps' br' w' e le.
                ih rl rr fp (i + 1) fps' br' hrl hrr (omega arith) (omega arith) v (rw add-one w'))

        either :
            (b : Bool)
            → Within (Good before) most (
                (if b
                    then pure {p = p} (i, fps)
                    else (write_path fps i fp >>= walk rl rr fuel rl rr fp (i + 1)))
                  br)
        either true = (w, few)
        either false = written

    child-Good :
        (fuel : ℕ) (n : Node (FieldOp p)) (fp : FieldPath) (i : ℕ) (fps : List FieldPath)
        (br : BitReader p)
        → Goal fuel
        → AllOps KeepsValid n
        → num_bits_left br < fuel
        → num_bits_left br ≤ most
        → IsValid fp
        → Written before i fps
        → Within (Good before) most (walk_child rl rr fuel n fp i fps br)
    child-Good fuel (Node.leaf w k op) fp i fps br ih h small few v wr =
        Within-bind (Good before) most (λ fp'. after_op (walk rl rr fuel rl rr) fp' i fps) (h fp v)
          br
          (λ fp' br' v' e le. after_op-Good fuel fp' i fps br' ih (omega arith) (omega arith) v' wr)
    child-Good fuel (Node.branch w k l r) fp i fps br ih (hl, hr) small few v wr =
        ih l r fp i fps br hl hr small few v wr

    pub walk-Good : (fuel : ℕ) → Goal fuel
    unfolding walk
    walk-Good zero l r fp i fps br hl hr small few v w = absurd (omega arith)
    walk-Good (suc fuel) l r fp i fps br hl hr small few v w =
        let ih = walk-Good fuel in
        Within-bind (Good before) most
          (λ bit. walk_child rl rr fuel (if bit then r else l) fp i fps) (Keeps-read_bool d) br
          (elim [
            | true ↦ λ br' _ e le.
                let less = read_bool_left d br e in
                child-Good fuel r fp i fps br' ih hr (omega arith) (omega arith) v w
            | false ↦ λ br' _ e le.
                let less = read_bool_left d br e in
                child-Good fuel l fp i fps br' ih hl (omega arith) (omega arith) v w
          ])
