-- ===== src/Tests/Packets.antt =====
-- A visitor, a message with a creation, and the theorem on `handle_svc_packet_entities` for them.
use haste.Prelude.{
  ℕ, ◌≡◌, refl, ◌∙◌, sym, Bool, true, false, ◌&&◌, ◌||◌, [], ◌∷◌, Option, none, some, ◌==◌,
}
use haste.Prelude.Int.{pos}
use haste.Outcome.{ok, Result, success}
use haste.Settles.{Settles}
use haste.Tests.BitList.{number_floats}
use haste.Tests.Counted.{counted, counted-Documented, counted-Positions}
use haste.Tests.Entities.{known, start-Sound, context}
use haste.Entities.{Entity, delta_update, delta_create, delta_leave, delta_delete}
use haste.Entities.Container.{get, new_container}
use haste.Parser.{Parser, Handled, Visitor, PacketEntities, new_context, handle_svc_packet_entities}
use haste.Parser.Packets.{handle_svc_packet_entities-Held}
use haste.Parser.Shown.{Held, Shown, created, updated, deleted, left, KeptByVisitor}

-- Whether the header fits what the context has.
abbrev fits : ℕ → Option (Entity number_floats) → Bool
fits header (some e) = (header == delta_create) || (header == delta_update)
fits header none = (header == delta_delete) || (header == delta_leave)

-- Keeps whether everything that it was shown did fit.
abbrev judge : Visitor number_floats
judge = record {
  Self = Bool;
  Error = Unit {0};
  should_track_entity = λ self hash. true;
  on_entity = λ self ctx header e. success (self && fits header (get ctx.entities e.index));
}

judge-KeptByVisitor : KeptByVisitor judge (λ self. self ≡ true)
judge-KeptByVisitor self ctx header e next shown kept called =
    stays (self && fits header (get ctx.entities e.index)) called (judged header e shown)
  where
    stays :
        (b : Bool)
        → ◌≡◌ {A = Result (Unit {0}) Bool} (success b) (success next)
        → b ≡ true
        → next ≡ true
    stays b same h = let eq : b ≡ next = cc in sym eq ∙ h

    judged :
        (header : ℕ) (e : Entity number_floats)
        → Shown ctx header e
        → (self && fits header (get ctx.entities e.index)) ≡ true
    judged header e (created _ here) = rw (kept, here) refl
    judged header e (updated _ here) = rw (kept, here) refl
    judged header e (deleted _ out) = rw (kept, out) refl
    judged header e (left _ out) = rw (kept, out) refl

abbrev parser : Parser (counted true) judge
parser = record {
  visitor = true;
  ctx = record (new_context number_floats) {
    instance_baseline = known.instance_baseline;
    serializers = some known.serializers;
    entity_classes = some known.entity_classes;
  };
  field_decode_ctx = context;
}

-- The index 7, and what creates an entity with no field.
abbrev message : PacketEntities
message = record { updated_entries = pos 1; entity_data = 135 ∷ 0 ∷ 0 ∷ 0 ∷ 2 ∷ [] }

handle_svc_packet_entities-Held_example :
    Settles
      (Held (λ self. self ≡ true) parser)
      (handle_svc_packet_entities {p = counted true} {v = judge} message parser)
handle_svc_packet_entities-Held_example =
    handle_svc_packet_entities-Held (counted-Documented true) (counted-Positions true) refl
      (λ self. self ≡ true) message parser judge-KeptByVisitor start-Sound refl

-- Whether the entity is there, and the visitor content.
abbrev is_created : Handled (counted true) judge (Parser (counted true) judge) → Bool
is_created (ok self) = self.visitor && fits delta_create (get self.ctx.entities (pos 7))
is_created r = false

handled :
    is_created (handle_svc_packet_entities {p = counted true} {v = judge} message parser) ≡ true
unfolding handle_svc_packet_entities get haste.BitReader.read_ubit64 haste.Tests.BitList.take_bits
    haste.BitReader.new haste.BitReader.read_bits haste.Entities.Container.class_by_id
    haste.FlattenedSerializers.by_name_hash haste.Maps.lookup haste.FxHash.hash_bytes
    haste.FxHash.add_u64_to_hash haste.Entities.parse haste.FieldPath.Paths.read_field_paths
    haste.FieldPath.Flat.build_flat_tree haste.FieldPath.Huffman.build_hierarchy
    haste.FieldPath.Huffman.merge_all haste.FieldPath.Huffman.leaves_from
    haste.FieldPath.Huffman.pop_node haste.FieldPath.Flat.flatten_branch
    haste.FieldPath.Flat.flatten_child haste.FieldPath.Paths.read_loop haste.BitReader.read_bool
    haste.Tests.BitList.take_bit haste.FieldPath.Ops.field_path_encode_finish haste.Maps.insert
    haste.Entities.Container.baseline_by_id haste.BitReader.is_overflowed
handled = refl
