-- ===== src/Entities/Copies.antt =====
-- `EntityContainer::handle_create` of crates/haste_core/src/entities.rs, whose text
-- `handle_create_with_filter` repeats: the two copies do the same.
use haste.Prelude.{ℕ, ◌≡◌, refl, ap, ◌∙◌, Option, none, some, List, []}
use haste.FieldPath.{FieldPath}
use haste.Prelude.Int.{ℤ}
use haste.Outcome.{Outcome, ok, err, panic, stuck, ◌>>=◌ as bind}
use haste.Platform.{Platform}
use haste.BitReader.{BitReader, read_ubit64, new as new_reader}
use haste.Maps.{lookup, insert, int_key}
use haste.FlattenedSerializers.{FlattenedSerializer, by_name_hash}
use haste.Entities.{
  Entity, EntityParseError, Parse, Step, Parsing, ◌>>=◌, pure, lift, on_bits, parse,
}
use haste.Entities.Container.{
  Known, State, try_into_i32, or_malformed, unchecked_serial, unchecked_unknown, class_by_id,
  baseline_by_id, check_overflow, read_class, create_entity, parse_baseline, from_baseline,
  baseline_entity, baseline_of_create, handle_create,
}

module _ {p : Platform} where
  -- A step before two chains that agree: the second is bracketed to the left.
  then :
      {A B C : Type 0} (m : Parse p A) (f : A → Parse p B) (g : B → Parse p C) (k : A → Parse p C)
      → ((a : A) (br : BitReader p) → k a br ≡ ◌>>=◌ (f a) g br)
      → (br : BitReader p) → ◌>>=◌ m k br ≡ ◌>>=◌ (m >>= f) g br
  then {A} {B} {C} m f g k same br = at (m br)
    where
      at :
          (r : Outcome (EntityParseError p) (A × BitReader p))
          → bind r (λ x. k x.0 x.1) ≡ bind (bind r (λ x. f x.0 x.1)) (λ y. g y.0 y.1)
      at (ok (a, br')) = same a br'
      at (err e) = refl
      at panic = refl
      at stuck = refl

  same_baseline :
      (index : ℤ) (known : Known p.floats) (class_id : ℤ) (s : FlattenedSerializer p.floats)
      (st : State p)
      → baseline_of_create {p = p} index known class_id s st
        ≡ baseline_entity index known class_id s st
  unfolding baseline_of_create baseline_entity parse_baseline
  same_baseline index known class_id s (self, ctx) = at (lookup class_id self.baseline_entities)
    where
      fresh : Parsing p
      fresh = (record { index = index; fields = []; serializer = s }, ctx)

      kept : Parsing p × List FieldPath → Entity p.floats × State p
      kept r = (
        r.0.0,
        (
          record self {
            baseline_entities = insert class_id r.0.0 self.baseline_entities;
            field_paths = r.1;
          },
          r.0.1,
        ),
      )

      checked :
          (r : Parsing p × List FieldPath) (c : Step p (Unit {0}))
          → ◌≡◌ {A = Step p (Entity p.floats × State p)}
              (bind c (λ u. ok (kept r)))
              (bind (bind c (λ u. ok r)) (λ x. ok (kept x)))
      checked r (ok u) = refl
      checked r (err e) = refl
      checked r panic = refl
      checked r stuck = refl

      parsed :
          (o : Outcome (EntityParseError p) ((Parsing p × List FieldPath) × BitReader p))
          → ◌≡◌ {A = Step p (Entity p.floats × State p)}
              (bind o (λ r. bind (check_overflow r.1) (λ u. ok (kept r.0))))
              (bind (bind o (λ r. bind (check_overflow r.1) (λ u. ok r.0))) (λ x. ok (kept x)))
      parsed (ok r) = checked r.0 (check_overflow r.1)
      parsed (err e) = refl
      parsed panic = refl
      parsed stuck = refl

      at :
          (o : Option (Entity p.floats))
          → ◌≡◌ {A = Step p (Entity p.floats × State p)}
              (elim o [
                | some entity ↦ ok (record entity { index = index }, (self, ctx))
                | none ↦
                    bind
                      (parse self.field_paths fresh
                        (new_reader (baseline_by_id known.instance_baseline class_id)))
                      (λ r. bind (check_overflow r.1) (λ u. ok (kept r.0)))
              ])
              (from_baseline index known class_id s (self, ctx) o)
      at (some entity) = refl
      at none = parsed (
          parse self.field_paths fresh
            (new_reader (baseline_by_id known.instance_baseline class_id)))

  -- `handle_create` is the reading of the class, and then the creation, as they are in
  -- `handle_create_with_filter`.
  pub handle_create-eq :
      (index : ℤ) (known : Known p.floats) (st : State p) (br : BitReader p)
      → handle_create {p = p} index known st br
        ≡ (read_class known >>= λ c.
              create_entity index known c.0 c.1 st >>= λ st'. pure (index, st'))
            br
  unfolding handle_create read_class create_entity
  handle_create-eq index known st = then read_id read create then_create (λ v.
      then (lift (try_into_i32 v)) read_from create create_from (λ class_id.
        then unchecked_serial (λ u. read_behind class_id) create (λ u. create_behind class_id)
          (λ u.
            then unchecked_unknown (λ u. read_known class_id) create (λ u. create_known class_id)
              (λ u.
                then (lift (or_malformed (class_by_id known.entity_classes class_id)))
                  (read_named class_id) create (create_named class_id)
                  (λ hash.
                    then (lift (or_malformed (by_name_hash known.serializers hash)))
                      (λ s. pure (class_id, s)) create (create_with class_id)
                      (λ s br'. same_rest class_id s br'))))))
    where
      create : ℤ × FlattenedSerializer p.floats → Parse p (ℤ × State p)
      create c = create_entity index known c.0 c.1 st >>= λ st'. pure (index, st')

      read_id : Parse p ℕ
      read_id = on_bits (read_ubit64 known.entity_classes.bits)

      read_named : ℤ → ℕ → Parse p (ℤ × FlattenedSerializer p.floats)
      read_named class_id hash =
          lift (or_malformed (by_name_hash known.serializers hash)) >>= λ s. pure (class_id, s)

      read_known : ℤ → Parse p (ℤ × FlattenedSerializer p.floats)
      read_known class_id =
          lift (or_malformed (class_by_id known.entity_classes class_id)) >>= read_named class_id

      read_behind : ℤ → Parse p (ℤ × FlattenedSerializer p.floats)
      read_behind class_id = unchecked_unknown >>= λ u. read_known class_id

      read_from : ℤ → Parse p (ℤ × FlattenedSerializer p.floats)
      read_from class_id = unchecked_serial >>= λ u. read_behind class_id

      read : ℕ → Parse p (ℤ × FlattenedSerializer p.floats)
      read v = lift (try_into_i32 v) >>= read_from

      inserted : Entity p.floats × State p → (Parsing p × List FieldPath) → State p
      inserted b r =
          (record b.1.0 { entities = insert index r.0.0 b.1.0.entities; field_paths = r.1 }, r.0.1)

      after_baseline : Entity p.floats × State p → Parse p (ℤ × State p)
      after_baseline b = parse b.1.0.field_paths (b.0, b.1.1) >>= λ r. pure (index, inserted b r)

      create_with : ℤ → FlattenedSerializer p.floats → Parse p (ℤ × State p)
      create_with class_id s =
          lift (baseline_of_create index known class_id s st) >>= after_baseline

      create_named : ℤ → ℕ → Parse p (ℤ × State p)
      create_named class_id hash =
          lift (or_malformed (by_name_hash known.serializers hash)) >>= create_with class_id

      create_known : ℤ → Parse p (ℤ × State p)
      create_known class_id =
          lift (or_malformed (class_by_id known.entity_classes class_id)) >>= create_named class_id

      create_behind : ℤ → Parse p (ℤ × State p)
      create_behind class_id = unchecked_unknown >>= λ u. create_known class_id

      create_from : ℤ → Parse p (ℤ × State p)
      create_from class_id = unchecked_serial >>= λ u. create_behind class_id

      then_create : ℕ → Parse p (ℤ × State p)
      then_create v = lift (try_into_i32 v) >>= create_from

      same_rest :
          (class_id : ℤ) (s : FlattenedSerializer p.floats) (br : BitReader p)
          → create_with class_id s br ≡ create (class_id, s) br
      same_rest class_id s br =
          ap (λ (b : Step p (Entity p.floats × State p)). ◌>>=◌ (lift b) after_baseline br)
            (same_baseline index known class_id s st)
          ∙ then (lift (baseline_entity index known class_id s st))
              (λ b. parse b.1.0.field_paths (b.0, b.1.1) >>= λ r. pure (inserted b r))
              (λ st'. pure (index, st')) after_baseline
              (λ b.
                then (parse b.1.0.field_paths (b.0, b.1.1)) (λ r. pure (inserted b r))
                  (λ st'. pure (index, st')) (λ r. pure (index, inserted b r)) (λ r br'. refl))
              br
