-- ===== src/Entities/Tracking.antt =====
-- What the handlers of `EntityContainer` of crates/haste_core/src/entities.rs do to one another.
use haste.Prelude.{ℕ, ◌≡◌, refl, sym, ap, ◌∙◌, Bool, true, false, Option, none, some, if◌then◌else◌}
use haste.Prelude.Int.{ℤ}
use haste.Outcome.{Outcome, ok, err, panic, stuck, ◌>>=◌ as bind, >>=-eq-ok as bind-eq-ok}
use haste.Platform.{Platform}
use haste.BitReader.{BitReader}
use haste.Maps.{Map, lookup, remove, lookup-remove, int_key}
use haste.FlattenedSerializers.{FlattenedSerializer, serializer_name}
use haste.Entities.{Entity, Parse, EntityParseError, ◌>>=◌, pure, lift, parse, skip_entity_fields}
use haste.Entities.Copies.{handle_create-eq}
use haste.Entities.Skips.{>>=-eq-ok, lift-eq-ok, pure-eq-ok}
use haste.Entities.Container.{
  Known, State, read_class, create_entity, baseline_entity, from_baseline, parse_baseline,
  handle_create, handle_create_with_filter, skip_create, handle_update, handle_delete,
}

lookup-remove_self : {V : Type 0} (i : ℤ) (m : Map ℤ V) → lookup i (remove i m) ≡ none
lookup-remove_self i m = rw (lookup-remove i i m, (int_key.same_iff i i).1 refl) refl

module _ {p : Platform} where
  -- Behind a deletion the index is unknown: the entity is gone, and an update reads nothing and
  -- changes nothing.
  pub handle_update-handle_delete :
      (index : ℤ) (st : State p) (br : BitReader p)
      → handle_update {p = p} index ((handle_delete index st.0).1, st.1) br
        ≡ ok ((none, ((handle_delete index st.0).1, st.1)), br)
  unfolding handle_update handle_delete
  handle_update-handle_delete index (self, ctx) br =
      rw
        (
          handle_update,
          lookup-remove_self index self.skipped_serializers,
          lookup-remove_self index self.entities,
        )
        refl

  -- A filter that tracks every serializer creates as if there were none: `handle_create_with_filter`
  -- then does what `handle_create` does.
  pub handle_create_with_filter-all :
      (index : ℤ) (known : Known p.floats) (track : ℕ → Bool) (st : State p) (br : BitReader p)
      → ((hash : ℕ) → track hash ≡ true)
      → handle_create_with_filter {p = p} index known track st br
        ≡ (handle_create {p = p} index known st >>= λ r. pure (some r.0, r.1)) br
  unfolding handle_create_with_filter
  handle_create_with_filter-all index known track st br all =
      at_class (read_class known br)
      ∙ ap
          (λ (r : Outcome (EntityParseError p) ((ℤ × State p) × BitReader p)).
            bind r (λ s. pure {p = p} {A = Option ℤ × State p} (some s.0.0, s.0.1) s.1))
          (sym (handle_create-eq index known st br))
    where
      filtered : ℤ × FlattenedSerializer p.floats → Parse p (Option ℤ × State p)
      filtered c =
          if track (serializer_name c.1)
          then (create_entity index known c.0 c.1 st >>= λ st'. pure (some index, st'))
          else (skip_create index c.1 st >>= λ st'. pure (none, st'))

      created : ℤ × FlattenedSerializer p.floats → Parse p (ℤ × State p)
      created c = create_entity index known c.0 c.1 st >>= λ st'. pure (index, st')

      at_state :
          (r : Outcome (EntityParseError p) (State p × BitReader p))
          → bind r (λ s. pure {p = p} {A = Option ℤ × State p} (some index, s.0) s.1)
            ≡ bind
                (bind r (λ s. pure {p = p} {A = ℤ × State p} (index, s.0) s.1))
                (λ s. pure {p = p} (some s.0.0, s.0.1) s.1)
      at_state (ok s) = refl
      at_state (err e) = refl
      at_state panic = refl
      at_state stuck = refl

      at_class :
          (r : Outcome (EntityParseError p) ((ℤ × FlattenedSerializer p.floats) × BitReader p))
          → bind r (λ c. filtered c.0 c.1)
            ≡ bind (bind r (λ c. created c.0 c.1)) (λ s. pure {p = p} (some s.0.0, s.0.1) s.1)
      at_class (ok (c, br')) =
          rw (all (serializer_name c.1)) (at_state (create_entity index known c.0 c.1 st br'))
      at_class (err e) = refl
      at_class panic = refl
      at_class stuck = refl

  from_baseline-skipped :
      (index : ℤ) (known : Known p.floats) (class_id : ℤ) (s : FlattenedSerializer p.floats)
      (st : State p) (o : Option (Entity p.floats)) {b : Entity p.floats × State p}
      → from_baseline {p = p} index known class_id s st o ≡ ok b
      → b.1.0.skipped_serializers ≡ st.0.skipped_serializers
  from_baseline-skipped index known class_id s st (some e) {b} h =
      let same : ◌≡◌ {A = Entity p.floats × State p} (record e { index = index }, st) b = cc in
      ap (λ (x : Entity p.floats × State p). x.1.0.skipped_serializers) (sym same)
  from_baseline-skipped index known class_id s (self, ctx) none {b} h =
      let (r, _, same) =
        bind-eq-ok (parse_baseline index known.instance_baseline s class_id self.field_paths ctx) _
          h in
      ap (λ (x : Outcome (EntityParseError p) (Entity p.floats × State p)). skipped_of x) (sym same)
    where
      skipped_of :
          Outcome (EntityParseError p) (Entity p.floats × State p)
          → Map ℤ (FlattenedSerializer p.floats)
      skipped_of (ok x) = x.1.0.skipped_serializers
      skipped_of other = self.skipped_serializers

  -- A creation leaves the serializers alone that are skipped.
  create_entity-skipped :
      (index : ℤ) (known : Known p.floats) (class_id : ℤ) (s : FlattenedSerializer p.floats)
      (st : State p) (br : BitReader p) {st' : State p} {br' : BitReader p}
      → create_entity {p = p} index known class_id s st br ≡ ok (st', br')
      → st'.0.skipped_serializers ≡ st.0.skipped_serializers
  unfolding create_entity baseline_entity
  create_entity-skipped index known class_id s st br h =
      let (b, br1, e, h1) = >>=-eq-ok (lift (baseline_entity index known class_id s st)) _ br h in
      let (based, _) = lift-eq-ok (baseline_entity index known class_id s st) br e in
      let (r, br2, e2, h2) = >>=-eq-ok (parse b.1.0.field_paths (b.0, b.1.1)) _ br1 h1 in
      let (done, _) = pure-eq-ok _ br2 h2 in
      ap (λ (x : State p). x.0.skipped_serializers) (sym done)
      ∙ from_baseline-skipped index known class_id s st (lookup class_id st.0.baseline_entities)
          based

  -- An update of an index that is skipped changes no entity.
  update_skipped-entities :
      (index : ℤ) (st : State p) (br : BitReader p) (s : FlattenedSerializer p.floats)
      {r : Option (Entity p.floats) × State p} {br' : BitReader p}
      → lookup index st.0.skipped_serializers ≡ some s
      → handle_update {p = p} index st br ≡ ok (r, br')
      → (r.0 ≡ none) × (r.1.0.entities ≡ st.0.entities)
  unfolding handle_update
  update_skipped-entities index (self, ctx) br s e h =
      let h' = rw e at h in
      let (fps, br1, e1, h1) = >>=-eq-ok (skip_entity_fields s self.field_paths) _ br h' in
      let (done, _) = pure-eq-ok _ br1 h1 in
      (
        ap (λ (x : Option (Entity p.floats) × State p). x.0) (sym done),
        ap (λ (x : Option (Entity p.floats) × State p). x.1.0.entities) (sym done),
      )

  -- If an index is among the skipped serializers when an entity is created there that is tracked, an
  -- update of the index that succeeds afterwards returns no entity and leaves every entity as it is.
  pub handle_update-handle_create_with_filter :
      (index : ℤ) (known : Known p.floats) (track : ℕ → Bool) (st : State p) (br br2 : BitReader p)
      (s : FlattenedSerializer p.floats) {i : ℤ} {st1 : State p} {br1 br3 : BitReader p}
      {r : Option (Entity p.floats) × State p}
      → lookup index st.0.skipped_serializers ≡ some s
      → handle_create_with_filter {p = p} index known track st br ≡ ok ((some i, st1), br1)
      → handle_update {p = p} index st1 br2 ≡ ok (r, br3)
      → (r.0 ≡ none) × (r.1.0.entities ≡ st1.0.entities)
  unfolding handle_create_with_filter
  handle_update-handle_create_with_filter index known track st br br2 s {i} {st1} {br1} stale h u =
      let (c, br4, e, h1) = >>=-eq-ok (read_class known) _ br h in
      update_skipped-entities index st1 br2 s
        (rw (kept (track (serializer_name c.1)) c br4 h1) stale) u
    where
      kept :
          (b : Bool) (c : ℤ × FlattenedSerializer p.floats) (br4 : BitReader p)
          → (if b
                then (create_entity {p = p} index known c.0 c.1 st >>= λ st'.
                    pure {A = Option ℤ × State p} (some index, st'))
                else (skip_create index c.1 st >>= λ st'. pure (none, st')))
              br4
            ≡ ok ((some i, st1), br1)
          → st1.0.skipped_serializers ≡ st.0.skipped_serializers
      kept true c br4 h1 =
          let (st2, br5, e, h2) = >>=-eq-ok (create_entity index known c.0 c.1 st) _ br4 h1 in
          let (done, _) = pure-eq-ok _ br5 h2 in
          ap (λ (x : Option ℤ × State p). x.1.0.skipped_serializers) (sym done)
          ∙ create_entity-skipped index known c.0 c.1 st br4 e
      kept false c br4 h1 =
          let (st2, br5, e, h2) = >>=-eq-ok (skip_create index c.1 st) _ br4 h1 in
          let (done, _) = pure-eq-ok _ br5 h2 in
          absurd (none_some (ap (λ (x : Option ℤ × State p). x.0) done))
        where
          none_some : ◌≡◌ {A = Option ℤ} none (some i) → ⊥
          none_some e = absurd (cc)
