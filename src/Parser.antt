-- ===== src/Parser.antt =====
-- crates/haste_core/src/parser.rs: the context of a parser, and `handle_svc_packet_entities`, which
-- reads the deltas of a message, hands them to the container and shows the entities to the visitor.
-- The visitor is the program's that uses the library, so it is a parameter.
pub mod Shown
pub mod Packets
use haste.Prelude.{ℕ, zero, suc, Bool, List, [], Option, none, some, ◌==◌, if◌then◌else◌}
use haste.Prelude.Int.{ℤ, pos, negsuc}
use haste.Machine.{as_i32, add_i32}
use haste.Outcome.{Outcome, ok, err, Result, success, failure, map_err, ◌>>=◌ as bind}
use haste.Platform.{Platform, Floats}
use haste.BitReader.{BitReader, new as new_reader, read_ubitvar, is_overflowed}
use haste.StringTables.{StringTable}
use haste.FieldDecoder.{FieldDecodeContext}
use haste.FlattenedSerializers.{SerializerMap}
use haste.Entities.{
  Entity, EntityParseError, from_bit_reader, delta_update, delta_create, delta_leave, delta_delete,
}
use haste.Entities.Container.{
  EntityContainer, EntityClasses, InstanceBaseline, Known, State, handle_create_with_filter,
  handle_delete, handle_leave, handle_update, get, new_container,
}

pub record Context (f : Floats) : Type 0 where
  pub string_tables : List StringTable
  pub instance_baseline : InstanceBaseline
  pub serializers : Option (SerializerMap f)
  pub entity_classes : Option EntityClasses
  pub entities : EntityContainer f
  pub tick_interval : f.F32
  pub full_packet_interval : ℤ
  pub tick : ℤ
  pub prev_tick : ℤ

abbrev pub new_context : (f : Floats) → Context f
new_context f = record {
  string_tables = [];
  instance_baseline = [];
  serializers = none;
  entity_classes = none;
  entities = new_container f;
  tick_interval = f.literal 0 0;
  full_packet_interval = pos 0;
  tick = negsuc 0;
  prev_tick = negsuc 0;
}

-- The methods of the trait that the handler of entities calls. A call may change the visitor.
pub record Visitor (f : Floats) : Type 1 where
  pub Self : Type 0
  pub Error : Type 0
  pub should_track_entity : Self → ℕ → Bool
  pub on_entity : Self → Context f → ℕ → Entity f → Result Error Self

-- What `anyhow` holds: the error of a part, or a message.
pub data ParserError (p : Platform) (E : Type 0) : Type 0 where
  entity_parse_error : EntityParseError p → ParserError p E
  reader_error : p.Error → ParserError p E
  visitor_error : E → ParserError p E
  entity_classes_not_available serializers_not_available entity_not_found : ParserError p E

-- `CsvcMsgPacketEntities`, with the defaults of its accessors filled in.
pub record PacketEntities : Type 0 where
  pub updated_entries : ℤ
  pub entity_data : List ℕ

module _ (p : Platform) (v : Visitor p.floats) where
  -- What the handlers change besides the reader.
  pub record Parser : Type 0 where
    pub visitor : v.Self
    pub ctx : Context p.floats
    pub field_decode_ctx : FieldDecodeContext p.floats

  abbrev pub Handled : Type 0 → Type 0
  Handled A = Outcome (ParserError p v.Error) A

-- The number of rounds of `for _ in (0..n).rev()`.
abbrev pub rounds : ℤ → ℕ
rounds (pos n) = n
rounds (negsuc n) = 0

-- `entity_index += br.read_ubitvar()? as i32 + 1`
unfoldable pub next_entity_index :
    {p : Platform} → ℤ → BitReader p → Outcome p.Error (ℤ × BitReader p)
unfolding read_ubitvar add_i32
next_entity_index entity_index br =
    bind (read_ubitvar br)
      (λ r. bind (add_i32 (as_i32 r.0) (pos 1) r.1) (λ step. add_i32 entity_index step.0 step.1))

-- `br.is_overflowed()?`
abbrev pub check_reader :
    {p : Platform} {E : Type 0} → BitReader p → Outcome (ParserError p E) (Unit {0})
check_reader br = elim (is_overflowed br).0 [ success u ↦ ok u | failure e ↦ err (reader_error e) ]

module _ {p : Platform} {v : Visitor p.floats} where
  -- The part of the state that a handler of the container changes.
  abbrev pub container : Parser p v → State p
  container self = (self.ctx.entities, self.field_decode_ctx)

  abbrev pub with_container : Parser p v → State p → Parser p v
  with_container self (entities, ctx) = record self {
    ctx = record self.ctx { entities = entities };
    field_decode_ctx = ctx;
  }

  unfoldable pub on_entity : ℕ → Parser p v → Entity p.floats → Handled p v (Parser p v)
  on_entity delta_header self entity =
      elim (v.on_entity self.visitor self.ctx delta_header entity) [
        | success visitor ↦ ok (record self { visitor = visitor })
        | failure e ↦ err (visitor_error e)
      ]

  -- The visitor is called if there is an entity.
  abbrev pub on_some_entity : ℕ → Parser p v → Option (Entity p.floats) → Handled p v (Parser p v)
  on_some_entity delta_header self none = ok self
  on_some_entity delta_header self (some entity) = on_entity delta_header self entity

  -- Behind a creation: an entity that is tracked is looked up again.
  abbrev pub on_created : Parser p v → Option (Entity p.floats) → Handled p v (Parser p v)
  on_created self none = err entity_not_found
  on_created self (some entity) = on_entity delta_create self entity

  abbrev pub after_create : Parser p v → Option ℤ → Handled p v (Parser p v)
  after_create self none = ok self
  after_create self (some index) = on_created self (get self.ctx.entities index)

  unfoldable pub on_create :
      Known p.floats → ℤ → Parser p v → BitReader p → Handled p v (Parser p v × BitReader p)
  unfolding handle_create_with_filter get on_entity
  on_create known index self br =
      bind
        (map_err entity_parse_error (
          handle_create_with_filter index known (v.should_track_entity self.visitor)
            (container self) br))
        (λ r. bind (after_create (with_container self r.0.1) r.0.0) (λ s. ok (s, r.1)))

  unfoldable pub on_update : ℤ → Parser p v → BitReader p → Handled p v (Parser p v × BitReader p)
  unfolding handle_update get on_entity
  on_update index self br =
      bind (map_err entity_parse_error (handle_update index (container self) br)) (λ r.
        let next = with_container self r.0.1 in
        bind (on_some_entity delta_update next (get next.ctx.entities index)) (λ s. ok (s, r.1)))

  -- A deletion, or a leaving: the entity is shown to the visitor when it is out.
  abbrev pub remove_entity :
      ℕ
      → Parser p v
      → Option (Entity p.floats) × EntityContainer p.floats
      → Handled p v (Parser p v)
  remove_entity delta_header self (entity, entities) =
      on_some_entity delta_header (with_container self (entities, self.field_decode_ctx)) entity

  -- The match on the header of a delta.
  unfoldable pub on_delta :
      Known p.floats → ℤ → ℕ → Parser p v → BitReader p → Handled p v (Parser p v × BitReader p)
  unfolding on_create on_update on_entity handle_delete handle_leave
  on_delta known index delta_header self br =
      if delta_header == delta_create
      then on_create known index self br
      else if delta_header == delta_delete
      then bind (remove_entity delta_delete self (handle_delete index self.ctx.entities))
          (λ s. ok (s, br))
      else if delta_header == delta_leave
      then bind (remove_entity delta_leave self (handle_leave index self.ctx.entities))
          (λ s. ok (s, br))
      else if delta_header == delta_update
      then on_update index self br
      else ok (self, br)

  unfoldable pub deltas :
      ℕ → Known p.floats → ℤ → Parser p v → BitReader p → Handled p v (Parser p v × BitReader p)
  unfolding on_delta next_entity_index from_bit_reader
  deltas zero known entity_index self br = ok (self, br)
  deltas (suc n) known entity_index self br =
      bind (map_err reader_error (next_entity_index entity_index br)) (λ i.
        bind (map_err reader_error (from_bit_reader i.1))
          (λ h. bind (on_delta known i.0 h.0 self h.1) (λ r. deltas n known i.0 r.0 r.1)))

  abbrev pub packet_entities :
      PacketEntities
      → Parser p v
      → Option EntityClasses
      → Option (SerializerMap p.floats)
      → Handled p v (Parser p v)
  packet_entities msg self none serializers = err entity_classes_not_available
  packet_entities msg self (some classes) none = err serializers_not_available
  packet_entities msg self (some classes) (some serializers) =
      bind
        (deltas (rounds msg.updated_entries)
          (record {
            entity_classes = classes;
            instance_baseline = self.ctx.instance_baseline;
            serializers = serializers;
          })
          (negsuc 0) self (new_reader msg.entity_data))
        (λ r. bind (check_reader r.1) (λ u. ok r.0))

  unfoldable pub handle_svc_packet_entities : PacketEntities → Parser p v → Handled p v (Parser p v)
  unfolding deltas
  handle_svc_packet_entities msg self =
      packet_entities msg self self.ctx.entity_classes self.ctx.serializers
