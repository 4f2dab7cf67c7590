-- ===== src/Parser/Packets.antt =====
-- `handle_svc_packet_entities` of crates/haste_core/src/parser.rs: that it ends, and what it keeps.
use haste.Prelude.{
  ℕ, zero, suc, ◌≡◌, refl, Bool, true, false, List, [], ◌∷◌, Option, none, some, ◌==◌,
  if◌then◌else◌,
}
use haste.Prelude.Int.{ℤ, pos, negsuc, ◌+ℤ◌}
use haste.Machine.{as_i32, add_i32, checked, fits_i32, wrap_i32}
use haste.Outcome.{ok, err, panic, Result, success, failure}
use haste.Settles.{Settles, Any, Settles-bind, Settles-bind-map_err, Settles-if}
use haste.Platform.{Platform, Documented, Positions}
use haste.BitReader.{BitReader, new as new_reader, read_ubitvar, read_bits, is_overflowed, pure}
use haste.BitReader.Runs.{Runs-read_ubitvar}
use haste.FieldDecoder.SkipEnds.{Ends-Runs}
use haste.Maps.{int_key}
use haste.FlattenedSerializers.{SerializerMap}
use haste.Entities.{
  Entity, from_bit_reader, first_byte, delta_update, delta_create, delta_leave, delta_delete,
}
use haste.Entities.Container.{
  EntityClasses, Known, State, get, handle_create_with_filter, handle_update, handle_delete,
  handle_leave,
}
use haste.Entities.Events.{Sound}
use haste.Entities.Soundness.{handle_create_with_filter-Sound, handle_update-Sound}
use haste.Parser.{
  Parser, Visitor, PacketEntities, ParserError, reader_error, entity_parse_error, container,
  with_container, on_some_entity, on_created, after_create, on_create, on_update, remove_entity,
  on_delta, next_entity_index, deltas, check_reader, rounds, packet_entities,
  handle_svc_packet_entities,
}
use haste.Parser.Shown.{
  created, updated, deleted, left, present, KeptByVisitor, Held, on_entity-Held,
  with_container-Held, on_some_entity-Held, remove_entity-Held, HeldBehind,
}

module _ {p : Platform} (d : Documented p) (q : Positions p) (checks : p.overflow_checks ≡ true)
    {v : Visitor p.floats} (I : v.Self → Type 0) (keeps : KeptByVisitor v I)
    (old : Parser p v) where
  after_create-Held :
      (self : Parser p v) (o : Option ℤ)
      → Held I old self
      → Settles (Held I old) (after_create {p = p} {v = v} self o)
  after_create-Held self none h = h
  after_create-Held self (some index) h = looked_up (get self.ctx.entities index) refl
    where
      looked_up :
          (o : Option (Entity p.floats))
          → get self.ctx.entities index ≡ o
          → Settles (Held I old) (on_created {p = p} {v = v} self o)
      looked_up none e = tt
      looked_up (some entity) e =
          on_entity-Held I keeps old delta_create self entity h
            (created entity (present self.ctx.entities index entity h.sound.indexed e))

  on_create-Held :
      (known : Known p.floats) (index : ℤ) (self : Parser p v) (br : BitReader p)
      → Held I old self
      → Settles (HeldBehind I keeps old) (on_create {p = p} {v = v} known index self br)
  unfolding on_create
  on_create-Held known index self br h =
      Settles-bind-map_err (λ (r : (Option ℤ × State p) × BitReader p). Sound r.0.1)
        (HeldBehind I keeps old) entity_parse_error
        (handle_create_with_filter index known (v.should_track_entity self.visitor) (container self)
          br)
        _
        (handle_create_with_filter-Sound d q checks index known (v.should_track_entity self.visitor)
          (container self) br h.sound)
        (λ r sound.
          Settles-bind (Held I old) _ (after_create (with_container self r.0.1) r.0.0) _
            (after_create-Held (with_container self r.0.1) r.0.0
              (with_container-Held I keeps old self r.0.1 h sound))
            (λ s held. held))

  on_update-Held :
      (index : ℤ) (self : Parser p v) (br : BitReader p)
      → Held I old self
      → Settles (HeldBehind I keeps old) (on_update {p = p} {v = v} index self br)
  unfolding on_update
  on_update-Held index self br h =
      Settles-bind-map_err (λ (r : (Option (Entity p.floats) × State p) × BitReader p). Sound r.0.1)
        (HeldBehind I keeps old) entity_parse_error (handle_update index (container self) br) _
        (handle_update-Sound d q checks index (container self) br h.sound)
        (λ r sound.
          let next = with_container {p = p} {v = v} self r.0.1 in
          let held = with_container-Held I keeps old self r.0.1 h sound in
          Settles-bind (Held I old) _
            (on_some_entity delta_update next (get next.ctx.entities index)) _
            (on_some_entity-Held I keeps old delta_update next (get next.ctx.entities index) held
              (λ e found. updated e (present next.ctx.entities index e held.sound.indexed found)))
            (λ s held. held))

  on_delta-Held :
      (known : Known p.floats) (index : ℤ) (header : ℕ) (self : Parser p v) (br : BitReader p)
      → Held I old self
      → Settles (HeldBehind I keeps old) (on_delta {p = p} {v = v} known index header self br)
  unfolding on_delta handle_delete handle_leave
  on_delta-Held known index header self br h =
      Settles-if _ (header == delta_create) _ _ (on_create-Held known index self br h) (
        Settles-if _ (header == delta_delete) _ _
          (Settles-bind (Held I old) _
            (remove_entity delta_delete self (handle_delete index self.ctx.entities)) _
            (remove_entity-Held I keeps old delta_delete self index
              (handle_delete index self.ctx.entities).1 (λ ctx e out. deleted e out) h refl refl)
            (λ s held. held))
          (Settles-if _ (header == delta_leave) _ _
            (Settles-bind (Held I old) _
              (remove_entity delta_leave self (handle_leave index self.ctx.entities)) _
              (remove_entity-Held I keeps old delta_leave self index
                (handle_leave index self.ctx.entities).1 (λ ctx e out. left e out) h refl refl)
              (λ s held. held))
            (Settles-if _ (header == delta_update) _ _ (on_update-Held index self br h) h)))

  next_entity_index-Settles :
      (entity_index : ℤ) (br : BitReader p)
      → Settles Any (next_entity_index {p = p} entity_index br)
  unfolding next_entity_index add_i32
  next_entity_index-Settles entity_index br =
      Settles-bind Any _ (read_ubitvar br) _ (Ends-Runs read_ubitvar (Runs-read_ubitvar q) br)
        (λ r _.
          Settles-bind Any _ (add_i32 (as_i32 r.0) (pos 1) r.1) _ (added (as_i32 r.0) (pos 1) r.1)
            (λ step _. added entity_index step.0 step.1))
    where
      wrapped :
          (panics : Bool) (v : ℤ) (br : BitReader p)
          → Settles {E = p.Error} {A = ℤ × BitReader p} Any
              ((if panics then (λ br. panic) else pure v) br)
      wrapped true v br = tt
      wrapped false v br = tt

      either :
          (fits : Bool) (v w : ℤ) (br : BitReader p) → Settles Any (checked {p = p} fits v w br)
      either true v w br = tt
      either false v w br = wrapped p.overflow_checks w br

      added : (a b : ℤ) (br : BitReader p) → Settles Any (add_i32 {p = p} a b br)
      added a b br = let s = a +ℤ b in either (fits_i32 s) s (wrap_i32 s) br

  from_bit_reader-Settles : (br : BitReader p) → Settles Any (from_bit_reader {p = p} br)
  unfolding from_bit_reader read_bits
  from_bit_reader-Settles br =
      Settles-bind Any _ (read_bits (zero ∷ []) 2 br) _ (read (p.read_bits (zero ∷ []) 2 br.inner))
        (λ r _. first r.0 r.1)
    where
      read :
          (r : Result p.Error (List ℕ × p.State))
          → Settles {E = p.Error} {A = List ℕ × BitReader p} Any
              (elim r [ success (a, s) ↦ ok (a, record br { inner = s }) | failure e ↦ err e ])
      read (success (a, s)) = tt
      read (failure e) = tt

      first : (bytes : List ℕ) (br : BitReader p) → Settles Any (first_byte {p = p} bytes br)
      first [] br = tt
      first (b ∷ bs) br = tt

  deltas-Held :
      (n : ℕ) (known : Known p.floats) (entity_index : ℤ) (self : Parser p v) (br : BitReader p)
      → Held I old self
      → Settles (HeldBehind I keeps old) (deltas {p = p} {v = v} n known entity_index self br)
  unfolding deltas
  deltas-Held zero known entity_index self br h = h
  deltas-Held (suc n) known entity_index self br h =
      Settles-bind-map_err Any (HeldBehind I keeps old) reader_error
        (next_entity_index entity_index br) _ (next_entity_index-Settles entity_index br)
        (λ i _.
          Settles-bind-map_err Any (HeldBehind I keeps old) reader_error (from_bit_reader i.1) _
            (from_bit_reader-Settles i.1)
            (λ header _.
              Settles-bind (HeldBehind I keeps old) _ (on_delta known i.0 header.0 self header.1) _
                (on_delta-Held known i.0 header.0 self header.1 h)
                (λ r held. deltas-Held n known i.0 r.0 r.1 held)))

  check_reader-Settles : (br : BitReader p) → Settles Any (check_reader {p = p} {E = v.Error} br)
  check_reader-Settles br = either (is_overflowed br).0
    where
      either :
          (r : Result p.Error (Unit {0}))
          → Settles {E = ParserError p v.Error} {A = Unit {0}} Any
              (elim r [ success u ↦ ok u | failure e ↦ err (reader_error e) ])
      either (success u) = tt
      either (failure e) = tt

  packet_entities-Held :
      (msg : PacketEntities) (self : Parser p v) (classes : Option EntityClasses)
      (serializers : Option (SerializerMap p.floats))
      → Held I old self
      → Settles (Held I old) (packet_entities {p = p} {v = v} msg self classes serializers)
  packet_entities-Held msg self none serializers h = tt
  packet_entities-Held msg self (some classes) none h = tt
  packet_entities-Held msg self (some classes) (some serializers) h =
      Settles-bind (HeldBehind I keeps old) _ _ _
        (deltas-Held (rounds msg.updated_entries) _ (negsuc 0) self (new_reader msg.entity_data) h)
        (λ r held. Settles-bind Any _ (check_reader r.1) _ (check_reader-Settles r.1) (λ u _. held))

module _ {p : Platform} (d : Documented p) (q : Positions p) (checks : p.overflow_checks ≡ true)
    {v : Visitor p.floats} where
  -- In a build with overflow checks `handle_svc_packet_entities` ends on every message, from a sound
  -- container. If it succeeds, the container is sound again, only the entities of the context have
  -- changed, and the visitor has every property that it had and that each of its calls keeps, where a
  -- call is shown an entity that the context has under its own index, if it was created or updated,
  -- or that the context does not have any more, if it was deleted or has left.
  pub handle_svc_packet_entities-Held :
      (I : v.Self → Type 0) (msg : PacketEntities) (self : Parser p v)
      → KeptByVisitor v I
      → Sound (container self)
      → I self.visitor
      → Settles (Held I self) (handle_svc_packet_entities {p = p} {v = v} msg self)
  unfolding handle_svc_packet_entities
  handle_svc_packet_entities-Held I msg self keeps sound kept =
      packet_entities-Held d q checks I keeps self msg self self.ctx.entity_classes
        self.ctx.serializers (record { sound = sound; kept = kept; rest = refl })
